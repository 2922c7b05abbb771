-- ===== src/Table/Store.antt =====
-- What `dime_table_insert` and `dime_table_remove` do to later searches.
use native.Mathlib.Nat.{mod-lt}
use dime.Base.{
  ℕ, zero, suc, ◌+◌, ◌%◌, ◌<◌, ◌≡◌, ◌≢◌, refl, sym, ap, subst, ◌∙◌, Bool, true, false, some, arith,
  inl, inr, Bool-cases, length, add_size, ℕ_discrete, get_or-set_self, get_or-set_ne,
}
use dime.Table.{elem_occupied, is_occupied, is_free, Elem, Table, slot, next}
use dime.Table.Access.{hit, find, probe, home, search_r, fill}
use dime.Table.Find.{
  find-agree, find_hits, search_r_found, search_r_at, probe-find, probe-vacant, probe-met,
  probe-pass, probe-out,
}

module _ {K V : Type 0} (junk : Elem K V) (cmp : K → K → Bool) (hash_f : K → ℕ) where
  -- An insertion's search ends at a cell of the array that holds no entry.
  pub probe-vacancy :
      (fuel : ℕ) (t : Table K V) (key : K) (i k m n : ℕ)
      → i < t.cap
      → probe junk cmp hash_f fuel t key i k ≡ some (some (m, n))
      → (m < t.cap) × (is_occupied (slot junk t m).use_of ≡ false)
  probe-vacancy zero t key i k m n l h = cc (probe-out junk cmp hash_f t key i k, h)
  probe-vacancy (suc fuel) t key i k m n l h =
      elim (Bool-cases (is_occupied (slot junk t i).use_of)) [
        | inr vacant ↦
            let here : i ≡ m = cc (probe-vacant junk cmp hash_f fuel t key i k vacant, h) in
            subst (λ m. (m < t.cap) × (is_occupied (slot junk t m).use_of ≡ false)) here (l, vacant)
        | inl taken ↦ elim (Bool-cases (cmp key (slot junk t i).key)) [
          | inl met ↦ cc (probe-met junk cmp hash_f fuel t key i k taken met, h)
          | inr passed ↦
              probe-vacancy fuel t key (next junk t i k) (k + 1) m n
                (mod-lt (add_size i k) (omega arith))
                (sym (probe-pass junk cmp hash_f fuel t key i k taken passed) ∙ h)
        ]
      ]

  module _ (t : Table K V) (key : K) (val : V) (m : ℕ) (inside : m < length t.arr) (t' : Table K V)
      (same_arr : t'.arr ≡ (fill junk cmp hash_f t key val m).arr) where
    abbrev pub entry : Elem K V
    entry = record { use_of = elem_occupied; hash = hash_f key; key = key; val = val }

    pub slot_filled : slot junk t' m ≡ entry
    unfolding fill
    slot_filled = rw same_arr (get_or-set_self t.arr m entry junk inside)

    pub slot_kept : (j : ℕ) → j ≢ m → slot junk t' j ≡ slot junk t j
    unfolding fill
    slot_kept j n = rw same_arr (get_or-set_ne t.arr m j entry junk (λ e. n (sym e)))

    module _ (same_cap : t'.cap ≡ t.cap) (vacant : is_occupied (slot junk t m).use_of ≡ false) where
      slot_taken :
          (j : ℕ) → is_occupied (slot junk t j).use_of ≡ true → slot junk t' j ≡ slot junk t j
      slot_taken j taken = slot_kept j (λ e. cc (vacant, taken, e))

      -- The new entry is found where the insertion's search ended.
      pub filled-found :
          (fuel n : ℕ)
          → cmp key key ≡ true
          → probe junk cmp hash_f fuel t key (home junk cmp hash_f t key) 1 ≡ some (some (m, n))
          → search_r junk cmp hash_f fuel t' key ≡ some (some val)
      filled-found fuel n self h =
          let ends : (is_free (slot junk t' m).use_of ≡ false)
              × (hit junk cmp hash_f t' key m ≡ true) =
            (rw slot_filled refl, rw slot_filled self) in
          let at_home =
            ap (λ c. probe junk cmp hash_f fuel t key (hash_f key % c) 1) same_cap ∙ h in
          search_r_at junk cmp hash_f fuel t' key m
            (probe-find junk cmp hash_f t t' key same_cap fuel _ 1 m n slot_taken ends at_home)
          ∙ ap (λ e. some (some e.val)) slot_filled

      -- What was found for another key is found still.
      pub filled-kept :
          (fuel : ℕ) (other : K) (v : V)
          → cmp other key ≡ false
          → search_r junk cmp hash_f fuel t other ≡ some (some v)
          → search_r junk cmp hash_f fuel t' other ≡ some (some v)
      filled-kept fuel other v differs h =
          let (j, found, is_v) = search_r_found junk cmp hash_f fuel t other v h in
          let (kept_use, hits) = find_hits junk cmp hash_f fuel t other _ 1 j found in
          let n : j ≢ m = λ e.
            let at_m : hit junk cmp hash_f t other m ≡ true =
              subst (λ j. hit junk cmp hash_f t other j ≡ true) e hits in
            cc (rw vacant at at_m) in
          let at_home =
            ap (λ c. find junk cmp hash_f fuel t other (hash_f other % c) 1) same_cap ∙ found in
          search_r_at junk cmp hash_f fuel t' other j (
            find-agree junk cmp hash_f t t' other same_cap fuel _ 1 j passes
              (rw (slot_kept j n) (kept_use, hits)) at_home)
          ∙ ap (λ e. some (some e.val)) (slot_kept j n)
          ∙ ap (λ v. some (some v)) is_v
        where
          passes :
              (j : ℕ)
              → is_free (slot junk t j).use_of ≡ false
              → hit junk cmp hash_f t other j ≡ false
              → (is_free (slot junk t' j).use_of ≡ false) × (hit junk cmp hash_f t' other j ≡ false)
          passes j taken miss = elim (ℕ_discrete j m) [
            | yes e ↦ rw (e, slot_filled) (refl, differs)
            | no n ↦ rw (slot_kept j n) (taken, miss)
          ]
