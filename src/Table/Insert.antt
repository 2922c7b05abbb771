-- ===== src/Table/Insert.antt =====
-- `dime_table_insert`, where the table is not so full that it grows or is gone through again.
use dime.Base.{
  ℕ, ◌+◌, ◌*◌, ◌^◌, ◌≤◌, ◌<◌, ◌≡◌, refl, ap, ◌∙◌, Bool, true, false, none, some, arith, inl, inr,
  ◌⊎◌, Bool-cases, Option-cases, length, add_size, sub_size, ltb, leb,
}
use native.Mathlib.Nat.{mod-lt, mod-le, mod-eq_of_lt}
use dime.Table.{Use, Elem, Table, slot, is_free}
use dime.Table.Access.{
  probe, home, search_r, fill, make_room, too_many, count_collision, use_free, insert_at, insert,
}
use dime.Table.Find.{probe_met, search_r_at}
use dime.Table.Total.{IsValid, HasFree, probe-total}
use dime.Table.Store.{probe-vacancy, filled-found, filled-kept}

-- An insertion that ends at the cell `m` after `n - 1` collisions leaves the table as large as it is: if
-- it met one, collisions are few, and if the cell was never used, more than half of the cells were not.
pub record Settles {K V : Type 0} (junk : Elem K V) (t : Table K V) (m n : ℕ) : Type 0 where
  pub few_collisions :
      1 < n → 100000000000000000000 * (t.ncollisions + 1) ≤ 20225424859373685602 * (t.len + 1)
  pub mostly_unused : is_free (slot junk t m).use_of ≡ true → t.cap + 2 ≤ 2 * t.nfree

-- A table that takes one more entry as it is: it is no more than half full, and where the probes for
-- the key end, it settles.
pub record Roomy {K V : Type 0} (junk : Elem K V) (cmp : K → K → Bool) (hash_f : K → ℕ)
    (t : Table K V) (fuel : ℕ) (key : K) : Type 0 where
  pub half_full : 2 * t.len ≤ t.cap
  pub counted : t.nfree ≤ t.cap
  pub settles :
      (m n : ℕ)
      → probe junk cmp hash_f fuel t key (home junk cmp hash_f t key) 1 ≡ some (some (m, n))
      → Settles junk t m n

within :
    (len n : ℕ)
    → 100000000000000000000 * (n + 1) ≤ 20225424859373685602 * len
    → ltb (20225424859373685602 * len) (100000000000000000000 * add_size n 1) ≡ false
within len n h = ground (arith, mod-le (n + 1) (2 ^ 64))

unused : (cap n : ℕ) → cap + 2 ≤ 2 * n → n ≤ 2 ^ 62 → ltb (2 * sub_size n 1) cap ≡ false
unused cap n h l = ground arith

module _ {K V : Type 0} (junk : Elem K V) (cmp : K → K → Bool) (hash_f : K → ℕ) (t : Table K V)
    (v : IsValid t) (fuel : ℕ) (key : K) (r : Roomy junk cmp hash_f t fuel key) where
  make_room-roomy :
      (granted : Bool) → 0 < t.cap → make_room junk cmp hash_f fuel granted t ≡ some (true, t)
  unfolding make_room
  make_room-roomy granted p =
      let not_full : leb t.cap t.len ≡ false = ground arith in
      let not_loaded : ltb t.cap (2 * t.len) ≡ false = ground arith in
      rw (not_full, not_loaded) refl

  -- The counters are all that the rest of the insertion changes.
  count_collision-roomy :
      (m k : ℕ) (granted : Bool) (t₁ : Table K V)
      → Settles junk t m k
      → t₁.ncollisions ≡ t.ncollisions
      → t₁.len ≡ t.len + 1
      → (n : ℕ) × (count_collision junk cmp hash_f fuel granted k t₁
          ≡ some (record t₁ { ncollisions = n }))
  unfolding count_collision too_many
  count_collision-roomy m k granted t₁ settles same_collisions one_more =
      elim (Bool-cases (ltb 1 k)) [
        | inl collided ↦
            let few : ltb (20225424859373685602 * t₁.len)
                  (100000000000000000000 * add_size t₁.ncollisions 1)
                ≡ false =
              within t₁.len t₁.ncollisions (
                omega (
                  arith,
                  settles.few_collisions (ground (arith, collided)),
                  one_more,
                  same_collisions,
                )) in
            (add_size t₁.ncollisions 1, rw (collided, few) refl)
        | inr first ↦ (t₁.ncollisions, rw first refl)
      ]

  use_free-roomy :
      (u : Use) (t₁ : Table K V)
      → (is_free u ≡ true → t.cap + 2 ≤ 2 * t.nfree)
      → t₁.nfree ≡ t.nfree
      → t₁.cap ≡ t.cap
      → (n : ℕ) × (use_free junk cmp hash_f fuel u t₁ ≡ some (record t₁ { nfree = n }))
  unfolding use_free
  use_free-roomy u t₁ mostly_unused same_free same_cap = elim (Bool-cases (is_free u)) [
    | inl fresh ↦
        let enough : ltb (2 * sub_size t₁.nfree 1) t₁.cap ≡ false =
          unused t₁.cap t₁.nfree (omega (arith, mostly_unused fresh, same_free, same_cap))
            (omega (arith, r.counted, v.small, same_free)) in
        (sub_size t₁.nfree 1, rw (fresh, enough) refl)
    | inr used ↦ (t₁.nfree, rw used refl)
  ]

  module _ (granted granted' : Bool) (val : V) where
    one_more : add_size t.len 1 ≡ t.len + 1
    one_more = mod-eq_of_lt (omega (arith, r.half_full, v.small))

    -- The key is there already.
    insert-met :
        0 < t.cap
        → probe junk cmp hash_f fuel t key (home junk cmp hash_f t key) 1 ≡ some none
        → insert junk cmp hash_f fuel granted granted' t key val ≡ some (false, t)
    unfolding insert insert_at
    insert-met p met = rw (make_room-roomy granted p, met) refl

    pub insert-fill :
        (m n : ℕ)
        → 0 < t.cap
        → probe junk cmp hash_f fuel t key (home junk cmp hash_f t key) 1 ≡ some (some (m, n))
        → (t' : Table K V) × (insert junk cmp hash_f fuel granted granted' t key val
            ≡ some (true, t'))
          × (t'.arr ≡ (fill junk cmp hash_f t key val m).arr)
          × (t'.cap ≡ t.cap)
          × (t'.len ≡ t.len + 1)
    unfolding insert insert_at fill
    insert-fill m n p ended =
        let filled = fill junk cmp hash_f t key val m in
        let (c, collided) =
          count_collision-roomy m n granted' filled (r.settles m n ended) refl one_more in
        let counted : Table K V = record filled { ncollisions = c } in
        let (f, freed) =
          use_free-roomy (slot junk t m).use_of counted (r.settles m n ended).mostly_unused refl
            refl in
        (
          record counted { nfree = f },
          rw (make_room-roomy granted p, ended, collided, freed) refl,
          refl,
          refl,
          one_more,
        )

    -- An insertion into a valid table with a free cell, which neither makes the table grow nor has it gone
    -- through again, ends within as many probes as there are cells. Either it returns -1, changes
    -- nothing and the key is found already; or it returns 0, the table counts one entry more, a search
    -- for the key finds the new value, and what a search for another key found it finds still. The
    -- comparison must hold of the key and itself.
    pub insert_lem :
        HasFree junk t
        → t.cap ≤ fuel
        → cmp key key ≡ true
        → ((insert junk cmp hash_f fuel granted granted' t key val ≡ some (false, t))
            × (old : V) × (search_r junk cmp hash_f fuel t key ≡ some (some old)))
          ⊎ ((t' : Table K V) × (insert junk cmp hash_f fuel granted granted' t key val
                ≡ some (true, t'))
              × (t'.len ≡ t.len + 1)
              × (search_r junk cmp hash_f fuel t' key ≡ some (some val))
              × ((other : K) (w : V)
                  → cmp other key ≡ false
                  → search_r junk cmp hash_f fuel t other ≡ some (some w)
                  → search_r junk cmp hash_f fuel t' other ≡ some (some w)))
    insert_lem h enough self =
        let p : 0 < t.cap = omega (arith, h.inside) in
        elim (Option-cases (probe junk cmp hash_f fuel t key (home junk cmp hash_f t key) 1)) [
          | inl out ↦ absurd (probe-total junk cmp hash_f t key fuel v h enough out)
          | inr (ended, e) ↦ elim (Option-cases ended) [
            | inl met ↦
                let (m, found) = probe_met junk cmp hash_f fuel t key _ 1 (e ∙ ap some met) in
                inl (
                  insert-met p (e ∙ ap some met),
                  _,
                  search_r_at junk cmp hash_f fuel t key m found,
                )
            | inr (cell, at) ↦
                let (t', done, same_arr, same_cap, more) =
                  insert-fill cell.0 cell.1 p (e ∙ ap some at) in
                let (inside, vacant) =
                  probe-vacancy junk cmp hash_f fuel t key _ 1 cell.0 cell.1 (mod-lt (hash_f key) p)
                    (e ∙ ap some at) in
                let inside : cell.0 < length t.arr = omega (arith, inside, v.storage) in
                inr (
                  t',
                  done,
                  more,
                  filled-found junk cmp hash_f t key val cell.0 inside t' same_arr same_cap vacant
                      fuel cell.1 self (e ∙ ap some at),
                  filled-kept junk cmp hash_f t key val cell.0 inside t' same_arr same_cap vacant
                      fuel,
                )
          ]
        ]
