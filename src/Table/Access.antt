-- ===== src/Table/Access.antt =====
-- `dime_table_search`, `_search_r`, `_remove` and `_insert`: the operations that probe for a key.
use dime.Base.{
  ℕ, zero, suc, ◌+◌, ◌*◌, ◌%◌, Bool, true, false, Option, none, some, ltb, leb, ◌==◌, if◌then◌else◌,
  add_size, sub_size,
}
use dime.Table.{
  Use, elem_occupied, elem_removed, is_occupied, is_free, Elem, Table, ◌>>=?◌, slot, put, mark,
  next, relocate_up, grow,
}

-- `cmp` says whether `cmp_f` returns 0.
module _ {K V : Type 0} (junk : Elem K V) (cmp : K → K → Bool) (hash_f : K → ℕ) where
  abbrev pub home : Table K V → K → ℕ
  home tbl key = hash_f key % tbl.cap

  -- An entry for `key` at `i`.
  abbrev pub hit : Table K V → K → ℕ → Bool
  hit tbl key i =
      if is_occupied (slot junk tbl i).use_of then cmp key (slot junk tbl i).key else false

  -- The loop that `dime_table_search_r` and `dime_table_remove` share: the index of the entry.
  unfoldable pub find : ℕ → Table K V → K → ℕ → ℕ → Option (Option ℕ)
  find zero tbl key i k = none
  find (suc fuel) tbl key i k = elim (is_free (slot junk tbl i).use_of) [
    | true ↦ some none
    | false ↦ elim (hit tbl key i) [
      | true ↦ some (some i)
      | false ↦ find fuel tbl key (next junk tbl i k) (k + 1)
    ]
  ]

  -- `dime_table_search_r`
  unfoldable pub search_r : ℕ → Table K V → K → Option (Option V)
  search_r fuel tbl key = find fuel tbl key (home tbl key) 1 >>=? λ found.
      some (elim found [ none ↦ none | some i ↦ some (slot junk tbl i).val ])

  unfoldable pub remove_at : Table K V → Option ℕ → Option V × Table K V
  remove_at tbl none = (none, tbl)
  remove_at tbl (some i) = (
    some (slot junk tbl i).val,
    record (put junk i (mark junk elem_removed (slot junk tbl i)) tbl) { len = sub_size tbl.len 1 },
  )

  -- `dime_table_remove`
  unfoldable pub remove : ℕ → Table K V → K → Option (Option V × Table K V)
  remove fuel tbl key = find fuel tbl key (home tbl key) 1 >>=? λ found. some (remove_at tbl found)

  -- The entry at `i` is moved to the first removed cell on its way, if there was one.
  unfoldable pub promote : Table K V → ℕ → Option ℕ → ℕ → Option V × Table K V
  promote tbl first none i = (some (slot junk tbl i).val, tbl)
  promote tbl first (some avail) i =
      let moved = put junk avail (slot junk tbl i) tbl in
      let left = put junk i (mark junk elem_removed (slot junk moved i)) moved in
      let counted =
        if first == avail
        then record left { ncollisions = sub_size left.ncollisions 1 }
        else left in
      (some (slot junk counted avail).val, counted)

  -- The loop of `dime_table_search`.
  unfoldable pub search_from :
      ℕ → Table K V → K → ℕ → Option ℕ → ℕ → ℕ → Option (Option V × Table K V)
  search_from zero tbl key first avail i k = none
  search_from (suc fuel) tbl key first avail i k = elim (is_free (slot junk tbl i).use_of) [
    | true ↦ some (none, tbl)
    | false ↦ elim (hit tbl key i) [
      | true ↦ some (promote tbl first avail i)
      | false ↦
          let avail' =
            (if is_occupied (slot junk tbl i).use_of
              then avail
              else elim avail [ none ↦ some i | some j ↦ some j ]) in
          search_from fuel tbl key first avail' (next junk tbl i k) (k + 1)
    ]
  ]

  -- `dime_table_search`
  unfoldable pub search : ℕ → Table K V → K → Option (Option V × Table K V)
  search fuel tbl key = search_from fuel tbl key (home tbl key) none (home tbl key) 1

  -- The loop of `dime_table_insert`: the cell for a new entry and the number of the probe, or
  -- `none` where the key is met.
  unfoldable pub probe : ℕ → Table K V → K → ℕ → ℕ → Option (Option (ℕ × ℕ))
  probe zero tbl key i k = none
  probe (suc fuel) tbl key i k = elim (is_occupied (slot junk tbl i).use_of) [
    | false ↦ some (some (i, k))
    | true ↦ elim (cmp key (slot junk tbl i).key) [
      | true ↦ some none
      | false ↦ probe fuel tbl key (next junk tbl i k) (k + 1)
    ]
  ]

  -- Growth where there are too many entries: `none` inside is the -1 for want of memory.
  unfoldable pub make_room : ℕ → Bool → Table K V → Option (Bool × Table K V)
  make_room fuel granted tbl =
      if leb tbl.cap tbl.len
      then grow junk fuel granted tbl
      else if ltb tbl.cap (2 * tbl.len)
      then (grow junk fuel granted tbl >>=? λ r. some (true, r.1))
      else some (true, tbl)

  -- `0.20225424859373685602`
  unfoldable pub too_many : ℕ → ℕ → Bool
  too_many ncollisions len = ltb (20225424859373685602 * len) (100000000000000000000 * ncollisions)

  -- The new entry, in its cell.
  unfoldable pub fill : Table K V → K → V → ℕ → Table K V
  fill tbl key val i =
      record (put junk i
        (record { use_of = elem_occupied; hash = hash_f key; key = key; val = val }) tbl) {
          len = add_size tbl.len 1;
        }

  -- The growth after a collision, and the rehash where few cells are free.
  unfoldable pub count_collision : ℕ → Bool → ℕ → Table K V → Option (Table K V)
  count_collision fuel granted k tbl =
      let counted = record tbl { ncollisions = add_size tbl.ncollisions 1 } in
      if ltb 1 k
      then (if too_many counted.ncollisions tbl.len
          then (grow junk fuel granted counted >>=? λ r. some r.1)
          else some counted)
      else some tbl

  unfoldable pub use_free : ℕ → Use → Table K V → Option (Table K V)
  use_free fuel prevuse tbl =
      let counted = record tbl { nfree = sub_size tbl.nfree 1 } in
      if is_free prevuse
      then (if ltb (2 * counted.nfree) tbl.cap
          then relocate_up junk fuel 0 tbl.cap (record counted { nfree = sub_size tbl.cap tbl.len })
          else some counted)
      else some tbl

  unfoldable pub insert_at :
      ℕ → Bool → Table K V → K → V → Option (ℕ × ℕ) → Option (Bool × Table K V)
  insert_at fuel granted tbl key val none = some (false, tbl)
  insert_at fuel granted tbl key val (some (i, k)) =
      count_collision fuel granted k (fill tbl key val i)
      >>=? use_free fuel (slot junk tbl i).use_of
      >>=? λ tbl'. some (true, tbl')

  -- `dime_table_insert`, and whether it returns 0. `granted` and `granted'` are for its two growths.
  unfoldable pub insert : ℕ → Bool → Bool → Table K V → K → V → Option (Bool × Table K V)
  insert fuel granted granted' tbl key val = make_room fuel granted tbl >>=? λ room. elim room.0 [
    | false ↦ some (false, room.1)
    | true ↦ probe fuel room.1 key (home room.1 key) 1 >>=? insert_at fuel granted' room.1 key val
  ]
