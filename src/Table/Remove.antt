-- ===== src/Table/Remove.antt =====
-- `dime_table_remove` and the searches after it.
use dime.Base.{
  ℕ, zero, suc, ◌+◌, ◌%◌, ◌^◌, ◌≤◌, ◌<◌, ◌≡◌, ◌≢◌, refl, sym, ap, subst, ◌∙◌, Bool, true, false,
  none, some, arith, inl, inr, ◌⊎◌, Bool-cases, Option-cases, length, sub_size, ℕ_discrete,
  get_or-set_self, get_or-set_ne,
}
use native.Mathlib.Nat.{mod-lt}
use dime.Table.{elem_removed, Elem, Table, slot, put, mark, is_free, is_occupied}
use dime.Table.Access.{hit, find, home, search_r, remove, remove_at}
use dime.Table.Find.{
  find-agree, find_hits, search_r_found, search_r_at, find-miss, find-free, find-hit, find-out,
}
use dime.Table.Total.{IsValid, HasFree, find-total}

module _ {K V : Type 0} (junk : Elem K V) (cmp : K → K → Bool) (hash_f : K → ℕ) where
  -- No two cells hold the key.
  unfoldable pub Unique : Table K V → K → Type 0
  Unique t key =
      (i j : ℕ) → hit junk cmp hash_f t key i ≡ true → hit junk cmp hash_f t key j ≡ true → i ≡ j

  find-inside :
      (fuel : ℕ) (t : Table K V) (key : K) (i k m : ℕ)
      → i < t.cap
      → find junk cmp hash_f fuel t key i k ≡ some (some m)
      → m < t.cap
  find-inside zero t key i k m l h = cc (find-out junk cmp hash_f t key i k, h)
  find-inside (suc fuel) t key i k m l h = elim (Bool-cases (is_free (slot junk t i).use_of)) [
    | inl vacant ↦ cc (find-free junk cmp hash_f fuel t key i k vacant, h)
    | inr taken ↦ elim (Bool-cases (hit junk cmp hash_f t key i)) [
      | inl here ↦
          let ends_here : i ≡ m = cc (find-hit junk cmp hash_f fuel t key i k taken here, h) in
          subst (λ m. m < t.cap) ends_here l
      | inr miss ↦
          find-inside fuel t key _ (k + 1) m (mod-lt ((i + k) % 2 ^ 64) (omega arith))
            (sym (find-miss junk cmp hash_f fuel t key i k taken miss) ∙ h)
    ]
  ]

  module _ (t : Table K V) (m : ℕ) (inside : m < length t.arr) where
    abbrev emptied : Table K V
    emptied = record (put junk m (mark junk elem_removed (slot junk t m)) t) {
      len = sub_size t.len 1;
    }

    slot-emptied : slot junk emptied m ≡ mark junk elem_removed (slot junk t m)
    slot-emptied = get_or-set_self t.arr m _ junk inside

    slot_left : (j : ℕ) → j ≢ m → slot junk emptied j ≡ slot junk t j
    slot_left j n = get_or-set_ne t.arr m j _ junk (λ e. n (sym e))

    -- What is found for a key that the cell does not hold is found still.
    emptied-kept :
        (fuel : ℕ) (other : K) (v : V)
        → hit junk cmp hash_f t other m ≡ false
        → search_r junk cmp hash_f fuel t other ≡ some (some v)
        → search_r junk cmp hash_f fuel emptied other ≡ some (some v)
    emptied-kept fuel other v differs h =
        let (j, found, is_v) = search_r_found junk cmp hash_f fuel t other v h in
        let (kept_use, hits) = find_hits junk cmp hash_f fuel t other _ 1 j found in
        let n : j ≢ m = λ e. cc (ap (hit junk cmp hash_f t other) e, hits, differs) in
        search_r_at junk cmp hash_f fuel emptied other j (
          find-agree junk cmp hash_f t emptied other refl fuel _ 1 j passes
            (rw (slot_left j n) (kept_use, hits)) found)
        ∙ ap (λ e. some (some e.val)) (slot_left j n)
        ∙ ap (λ v. some (some v)) is_v
      where
        passes :
            (j : ℕ)
            → is_free (slot junk t j).use_of ≡ false
            → hit junk cmp hash_f t other j ≡ false
            → (is_free (slot junk emptied j).use_of ≡ false)
              × (hit junk cmp hash_f emptied other j ≡ false)
        passes j taken miss = elim (ℕ_discrete j m) [
          | yes e ↦ rw (e, slot-emptied) (refl, refl)
          | no n ↦ rw (slot_left j n) (taken, miss)
        ]

    -- The key that the cell held alone is not found any more.
    emptied-gone :
        (fuel : ℕ) (key : K) (v : V)
        → Unique t key
        → hit junk cmp hash_f t key m ≡ true
        → search_r junk cmp hash_f fuel emptied key ≢ some (some v)
    unfolding Unique
    emptied-gone fuel key v unique held h =
        let (j, found, is_v) = search_r_found junk cmp hash_f fuel emptied key v h in
        let (kept_use, hits) = find_hits junk cmp hash_f fuel emptied key _ 1 j found in
        elim (ℕ_discrete j m) [
          | yes e ↦ cc (rw (e, slot-emptied) at hits)
          | no n ↦ n (unique j m (rw (slot_left j n) at hits) held)
        ]

  found_key :
      (t : Table K V) (key : K) (m : ℕ)
      → ((a b : K) → cmp a b ≡ true → a ≡ b)
      → hit junk cmp hash_f t key m ≡ true
      → (other : K) → cmp other key ≡ false
      → hit junk cmp hash_f t other m ≡ false
  found_key t key m equal h other differs = elim (Bool-cases (is_occupied (slot junk t m).use_of)) [
    | inl taken ↦
        let is_key : key ≡ (slot junk t m).key = equal key (slot junk t m).key (rw taken at h) in
        rw (taken, ← is_key) differs
    | inr vacant ↦ rw vacant refl
  ]

  -- A removal from a valid table with a free cell ends within as many probes as there are cells.
  -- Either it returns NULL, changes nothing and a search for the key finds nothing; or it returns
  -- what the search found, the table counts one entry less, no search finds the key again if no two
  -- cells held it, and what a search for another key found it finds still. The comparison must tell
  -- different keys apart.
  pub remove_lem :
      (t : Table K V) (key : K) (fuel : ℕ)
      → IsValid t
      → HasFree junk t
      → t.cap ≤ fuel
      → ((a b : K) → cmp a b ≡ true → a ≡ b)
      → ((remove junk cmp hash_f fuel t key ≡ some (none, t))
          × (search_r junk cmp hash_f fuel t key ≡ some none))
        ⊎ ((w : V) × (t' : Table K V) × (remove junk cmp hash_f fuel t key ≡ some (some w, t'))
            × (search_r junk cmp hash_f fuel t key ≡ some (some w))
            × (t'.len ≡ sub_size t.len 1)
            × (Unique t key → (n : ℕ) (x : V) → search_r junk cmp hash_f n t' key ≢ some (some x))
            × ((other : K) (x : V)
                → cmp other key ≡ false
                → search_r junk cmp hash_f fuel t other ≡ some (some x)
                → search_r junk cmp hash_f fuel t' other ≡ some (some x)))
  unfolding remove remove_at search_r
  remove_lem t key fuel v h enough equal =
      let p : 0 < t.cap = omega (arith, h.inside) in
      elim (Option-cases (find junk cmp hash_f fuel t key (home junk cmp hash_f t key) 1)) [
        | inl out ↦ absurd (find-total junk cmp hash_f t key fuel v h enough out)
        | inr (r, e) ↦ elim (Option-cases r) [
          | inl absent ↦ inl (rw (e, absent) refl, rw (e, absent) refl)
          | inr (m, at) ↦
              let found = e ∙ ap some at in
              let inside : m < length t.arr =
                omega
                  (arith, find-inside fuel t key _ 1 m (mod-lt (hash_f key) p) found, v.storage) in
              let (kept_use, held) = find_hits junk cmp hash_f fuel t key _ 1 m found in
              inr (
                (slot junk t m).val,
                emptied t m inside,
                rw (e, at) refl,
                rw (e, at) refl,
                refl,
                (λ unique n x. emptied-gone t m inside n key x unique held),
                λ other x differs.
                    emptied-kept t m inside fuel other x
                      (found_key t key m equal held other differs),
              )
        ]
      ]
