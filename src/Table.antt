-- ===== src/Table.antt =====
-- `dime_table_t` (server/table.c): a hash table with quadratic probing and lazy deletion. Its capacity
-- is a power of two, so `& (cap - 1)` is the remainder by it. A loop that probes runs on fuel, and
-- `none` is out of fuel. Loads are compared as the fractions that the constants spell.
pub mod Access
pub mod Find
pub mod Coverage
pub mod Total
pub mod Store
pub mod Insert
pub mod Search
pub mod Remove
pub mod Duplicate
pub mod Examples
use dime.Base.{
  ℕ, zero, suc, ◌+◌, ◌-◌, ◌*◌, ◌%◌, Bool, true, false, Option, none, some, List, [], ◌∷◌, ltb, leb,
  ◌==◌, if◌then◌else◌, get_or, set, replicate, realloc, add_size, sub_size, mul_size, size_max,
}

-- `enum dime_table_elem_use`
pub data Use : Type 0 where
  elem_free elem_occupied elem_removed : Use

abbrev pub is_occupied : Use → Bool
is_occupied elem_occupied = true
is_occupied _ = false

abbrev pub is_free : Use → Bool
is_free elem_free = true
is_free _ = false

-- `dime_table_elem_t`
pub record Elem (K V : Type 0) : Type 0 where
  pub use_of : Use
  pub hash : ℕ
  pub key : K
  pub val : V

-- `dime_table_t`, without its two functions
pub record Table (K V : Type 0) : Type 0 where
  pub len : ℕ
  pub arr : List (Elem K V)
  pub cap : ℕ
  pub ncollisions : ℕ
  pub nfree : ℕ

-- An option chained.
infixl 5 ◌>>=?◌
abbrev pub ◌>>=?◌ : {A B : Type 0} → Option A → (A → Option B) → Option B
none >>=? f = none
some a >>=? f = f a

module _ {K V : Type 0} (junk : Elem K V) where
  abbrev pub slot : Table K V → ℕ → Elem K V
  slot tbl i = get_or tbl.arr i junk

  abbrev pub put : ℕ → Elem K V → Table K V → Table K V
  put i e tbl = record tbl { arr = set tbl.arr i e }

  abbrev pub mark : Use → Elem K V → Elem K V
  mark u e = record e { use_of = u }

  -- `(i + k) & (tbl->cap - 1)`
  abbrev pub next : Table K V → ℕ → ℕ → ℕ
  next tbl i k = add_size i k % tbl.cap

  -- The end of `dime_table_relocate`.
  seat : Elem K V → ℕ → ℕ → Table K V → Table K V
  seat tmp i k tbl =
      let placed = put i tmp tbl in
      if ltb 1 k then record placed { ncollisions = add_size placed.ncollisions 1 } else placed

  mutual
    -- `dime_table_relocate`
    pub relocate : ℕ → ℕ → Table K V → Option (Table K V)
    relocate zero i0 tbl = none
    relocate (suc fuel) i0 tbl = elim (is_occupied (slot tbl i0).use_of) [
      | false ↦ some (put i0 (mark elem_free (slot tbl i0)) tbl)
      | true ↦ elim ((slot tbl i0).hash % tbl.cap == i0) [
        | true ↦ some tbl
        | false ↦
            settle fuel (slot tbl i0) ((slot tbl i0).hash % tbl.cap) 1
              (put i0 (mark elem_free (slot tbl i0)) tbl)
      ]
    ]

    -- Its loop, which relocates what is in the way.
    pub settle : ℕ → Elem K V → ℕ → ℕ → Table K V → Option (Table K V)
    settle zero tmp i k tbl = none
    settle (suc fuel) tmp i k tbl = relocate fuel i tbl >>=? λ tbl'.
        elim (is_occupied (slot tbl' i).use_of) [
          | true ↦ settle fuel tmp (next tbl' i k) (k + 1) tbl'
          | false ↦ some (seat tmp i k tbl')
        ]

  -- The loops over all indices below `n`, downwards, and from `i` upwards for `n` indices.
  relocate_down : ℕ → ℕ → Table K V → Option (Table K V)
  relocate_down fuel zero tbl = some tbl
  relocate_down fuel (suc n) tbl = relocate fuel n tbl >>=? relocate_down fuel n

  pub relocate_up : ℕ → ℕ → ℕ → Table K V → Option (Table K V)
  relocate_up fuel i zero tbl = some tbl
  relocate_up fuel i (suc n) tbl = relocate fuel i tbl >>=? relocate_up fuel (i + 1) n

  -- `dime_table_grow`, where memory is granted
  doubled : Table K V → Table K V
  doubled tbl =
      let cap = mul_size tbl.cap 2 in
      record tbl {
        arr = realloc (mark elem_free junk) tbl.arr cap;
        cap = cap;
        ncollisions = 0;
        nfree = sub_size cap tbl.len;
      }

  -- `dime_table_grow`, and whether it succeeds
  pub grow : ℕ → Bool → Table K V → Option (Bool × Table K V)
  grow fuel false tbl = some (false, tbl)
  grow fuel true tbl = relocate_down fuel tbl.cap (doubled tbl) >>=? λ tbl'. some (true, tbl')

  -- `dime_table_init`; `none` is its -1.
  pub init : Bool → Option (Table K V)
  init false = none
  init true = some (record {
    len = 0;
    arr = replicate 32 (mark elem_free junk);
    cap = 32;
    ncollisions = 0;
    nfree = 32;
  })

  -- `dime_table_len`
  pub table_len : Table K V → ℕ
  table_len tbl = tbl.len

  -- `dime_table_iter_next`, over the indices that are left: the next that holds an entry
  seek : ℕ → ℕ → Table K V → ℕ
  seek i zero tbl = i
  seek i (suc n) tbl =
      let rest = seek (i + 1) n tbl in if is_occupied (slot tbl i).use_of then i else rest

  -- `dime_table_iter_init` and `dime_table_iter_next`, on the index alone: the first step wraps it to 0.
  pub iter_init : ℕ
  iter_init = size_max

  pub iter_next : Table K V → ℕ → Option (ℕ × K × V)
  iter_next tbl it =
      let i = add_size it 1 in
      let j = seek i (tbl.cap - i) tbl in
      if j == tbl.cap then none else some (j, (slot tbl j).key, (slot tbl j).val)

  -- The loop of `dime_table_apply`, from `i` for `n` indices.
  apply_from : {S : Type 0} → ℕ → ℕ → (K → V → S → Bool × S) → Table K V → S → S
  apply_from i zero f tbl p = p
  apply_from i (suc n) f tbl p =
      let (go_on, p') = f (slot tbl i).key (slot tbl i).val p in
      let called = apply_from (i + 1) n f tbl p' in
      let passed = apply_from (i + 1) n f tbl p in
      if is_occupied (slot tbl i).use_of then (if go_on then called else p') else passed

  -- `dime_table_apply`
  pub apply : {S : Type 0} → (K → V → S → Bool × S) → Table K V → S → S
  apply f tbl p = apply_from 0 tbl.cap f tbl p
