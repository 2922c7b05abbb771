-- ===== src/Table/Find.antt =====
-- How the probing loops of server/table.c see a cell that is filled or emptied.
use dime.Base.{
  ℕ, zero, suc, ◌+◌, ◌%◌, ◌≡◌, refl, sym, ap, subst, ◌∙◌, Bool, true, false, none, some, Bool-cases,
  Option-cases, inl, inr, add_size,
}
use dime.Table.{
  Use, elem_free, elem_occupied, elem_removed, is_occupied, is_free, Elem, Table, slot, next,
}
use dime.Table.Access.{hit, find, probe, home, search_r}

module _ {K V : Type 0} (junk : Elem K V) (cmp : K → K → Bool) (hash_f : K → ℕ) where
  pub find-out : (t : Table K V) (key : K) (i k : ℕ) → find junk cmp hash_f 0 t key i k ≡ none
  unfolding find
  find-out t key i k = refl

  -- The steps of `find`.
  module _ (fuel : ℕ) (t : Table K V) (key : K) (i k : ℕ) where
    pub find-free :
        is_free (slot junk t i).use_of ≡ true
        → find junk cmp hash_f (suc fuel) t key i k ≡ some none
    unfolding find
    find-free e = rw (e, find) refl

    pub find-hit :
        is_free (slot junk t i).use_of ≡ false
        → hit junk cmp hash_f t key i ≡ true
        → find junk cmp hash_f (suc fuel) t key i k ≡ some (some i)
    unfolding find
    find-hit e h = rw (e, h, find) refl

    pub find-miss :
        is_free (slot junk t i).use_of ≡ false
        → hit junk cmp hash_f t key i ≡ false
        → find junk cmp hash_f (suc fuel) t key i k
          ≡ find junk cmp hash_f fuel t key (next junk t i k) (k + 1)
    unfolding find
    find-miss e h = rw (e, h, find) refl

  pub probe-out : (t : Table K V) (key : K) (i k : ℕ) → probe junk cmp hash_f 0 t key i k ≡ none
  unfolding probe
  probe-out t key i k = refl

  -- The steps of `probe`.
  module _ (fuel : ℕ) (t : Table K V) (key : K) (i k : ℕ) where
    pub probe-vacant :
        is_occupied (slot junk t i).use_of ≡ false
        → probe junk cmp hash_f (suc fuel) t key i k ≡ some (some (i, k))
    unfolding probe
    probe-vacant e = rw (e, probe) refl

    pub probe-met :
        is_occupied (slot junk t i).use_of ≡ true
        → cmp key (slot junk t i).key ≡ true
        → probe junk cmp hash_f (suc fuel) t key i k ≡ some none
    unfolding probe
    probe-met e h = rw (e, h, probe) refl

    pub probe-pass :
        is_occupied (slot junk t i).use_of ≡ true
        → cmp key (slot junk t i).key ≡ false
        → probe junk cmp hash_f (suc fuel) t key i k
          ≡ probe junk cmp hash_f fuel t key (next junk t i k) (k + 1)
    unfolding probe
    probe-pass e h = rw (e, h, probe) refl

  pub occupied_not_free : (u : Use) → is_occupied u ≡ true → is_free u ≡ false
  occupied_not_free elem_occupied e = refl
  occupied_not_free elem_free e = cc
  occupied_not_free elem_removed e = cc

  -- The probes of two tables go the same way if they pass over the same cells.
  module _ (t t' : Table K V) (key : K) (same_cap : t'.cap ≡ t.cap) where
    -- What one search finds another finds, if each cell that the first passes over is passed over,
    -- and the one where it ends hits.
    pub find-agree :
        (fuel i k m : ℕ)
        → ((j : ℕ)
            → is_free (slot junk t j).use_of ≡ false
            → hit junk cmp hash_f t key j ≡ false
            → (is_free (slot junk t' j).use_of ≡ false) × (hit junk cmp hash_f t' key j ≡ false))
        → (is_free (slot junk t' m).use_of ≡ false) × (hit junk cmp hash_f t' key m ≡ true)
        → find junk cmp hash_f fuel t key i k ≡ some (some m)
        → find junk cmp hash_f fuel t' key i k ≡ some (some m)
    find-agree zero i k m passes ends h = cc (find-out t key i k, h)
    find-agree (suc fuel) i k m passes ends h = elim (Bool-cases (is_free (slot junk t i).use_of)) [
      | inl vacant ↦ cc (find-free fuel t key i k vacant, h)
      | inr taken ↦ elim (Bool-cases (hit junk cmp hash_f t key i)) [
        | inl here ↦
            let ends_here : i ≡ m = cc (find-hit fuel t key i k taken here, h) in
            subst (λ n. find junk cmp hash_f (suc fuel) t' key n k ≡ some (some m)) (sym ends_here)
              (find-hit fuel t' key m k ends.0 ends.1)
        | inr miss ↦
            let (taken', miss') = passes i taken miss in
            find-miss fuel t' key i k taken' miss'
            ∙ find-agree fuel (next junk t' i k) (k + 1) m passes ends (
                ap (λ c. find junk cmp hash_f fuel t key (add_size i k % c) (k + 1)) same_cap
                ∙ sym (find-miss fuel t key i k taken miss)
                ∙ h)
      ]
    ]

  -- The same for the search that an insertion makes, up to where it ends.
  module _ (t t' : Table K V) (key : K) (same_cap : t'.cap ≡ t.cap) where
    pub probe-find :
        (fuel i k m n : ℕ)
        → ((j : ℕ) → is_occupied (slot junk t j).use_of ≡ true → slot junk t' j ≡ slot junk t j)
        → (is_free (slot junk t' m).use_of ≡ false) × (hit junk cmp hash_f t' key m ≡ true)
        → probe junk cmp hash_f fuel t key i k ≡ some (some (m, n))
        → find junk cmp hash_f fuel t' key i k ≡ some (some m)
    probe-find zero i k m n keeps ends h = cc (probe-out t key i k, h)
    probe-find (suc fuel) i k m n keeps ends h =
        elim (Bool-cases (is_occupied (slot junk t i).use_of)) [
          | inr vacant ↦
              let ends_here : i ≡ m = cc (probe-vacant fuel t key i k vacant, h) in
              subst (λ n. find junk cmp hash_f (suc fuel) t' key n k ≡ some (some m))
                (sym ends_here) (find-hit fuel t' key m k ends.0 ends.1)
          | inl taken ↦ elim (Bool-cases (cmp key (slot junk t i).key)) [
            | inl met ↦ cc (probe-met fuel t key i k taken met, h)
            | inr passed ↦
                let same = keeps i taken in
                find-miss fuel t' key i k (rw same (occupied_not_free _ taken))
                  (rw (same, taken) passed)
                ∙ probe-find fuel (next junk t' i k) (k + 1) m n keeps ends (
                    ap (λ c. probe junk cmp hash_f fuel t key (add_size i k % c) (k + 1)) same_cap
                    ∙ sym (probe-pass fuel t key i k taken passed)
                    ∙ h)
          ]
        ]

  -- A search that ends at a cell hits there.
  pub find_hits :
      (fuel : ℕ) (t : Table K V) (key : K) (i k m : ℕ)
      → find junk cmp hash_f fuel t key i k ≡ some (some m)
      → (is_free (slot junk t m).use_of ≡ false) × (hit junk cmp hash_f t key m ≡ true)
  find_hits zero t key i k m h = cc (find-out t key i k, h)
  find_hits (suc fuel) t key i k m h = elim (Bool-cases (is_free (slot junk t i).use_of)) [
    | inl vacant ↦ cc (find-free fuel t key i k vacant, h)
    | inr taken ↦ elim (Bool-cases (hit junk cmp hash_f t key i)) [
      | inl here ↦
          let ends_here : i ≡ m = cc (find-hit fuel t key i k taken here, h) in
          subst
            (λ m. (is_free (slot junk t m).use_of ≡ false) × (hit junk cmp hash_f t key m ≡ true))
            ends_here (taken, here)
      | inr miss ↦
          find_hits fuel t key (next junk t i k) (k + 1) m
            (sym (find-miss fuel t key i k taken miss) ∙ h)
    ]
  ]

  -- A search that finds something, by the cell where it ends.
  pub search_r_found :
      (fuel : ℕ) (t : Table K V) (key : K) (v : V)
      → search_r junk cmp hash_f fuel t key ≡ some (some v)
      → (m : ℕ) × (find junk cmp hash_f fuel t key (home junk cmp hash_f t key) 1 ≡ some (some m))
        × ((slot junk t m).val ≡ v)
  unfolding search_r
  search_r_found fuel t key v h =
      elim (Option-cases (find junk cmp hash_f fuel t key (home junk cmp hash_f t key) 1)) [
        | inl out ↦ cc (rw out at h)
        | inr (r, found) ↦ elim (Option-cases r) [
          | inl absent ↦ cc (rw (found, absent) at h)
          | inr (m, at) ↦ (m, found ∙ ap some at, cc (rw (found, at) at h))
        ]
      ]

  pub search_r_at :
      (fuel : ℕ) (t : Table K V) (key : K) (m : ℕ)
      → find junk cmp hash_f fuel t key (home junk cmp hash_f t key) 1 ≡ some (some m)
      → search_r junk cmp hash_f fuel t key ≡ some (some (slot junk t m).val)
  unfolding search_r
  search_r_at fuel t key m h = rw h refl

  -- Where an insertion's search meets its key, a search finds an entry.
  pub probe_met :
      (fuel : ℕ) (t : Table K V) (key : K) (i k : ℕ)
      → probe junk cmp hash_f fuel t key i k ≡ some none
      → (m : ℕ) × (find junk cmp hash_f fuel t key i k ≡ some (some m))
  probe_met zero t key i k h = cc (probe-out t key i k, h)
  probe_met (suc fuel) t key i k h = elim (Bool-cases (is_occupied (slot junk t i).use_of)) [
    | inr vacant ↦ cc (probe-vacant fuel t key i k vacant, h)
    | inl taken ↦
        let not_free = occupied_not_free _ taken in
        elim (Bool-cases (cmp key (slot junk t i).key)) [
          | inl met ↦ (i, find-hit fuel t key i k not_free (rw taken met))
          | inr passed ↦
              let (m, found) =
                probe_met fuel t key (next junk t i k) (k + 1)
                  (sym (probe-pass fuel t key i k taken passed) ∙ h) in
              (m, find-miss fuel t key i k not_free (rw taken passed) ∙ found)
        ]
  ]
