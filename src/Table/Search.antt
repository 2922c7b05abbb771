-- ===== src/Table/Search.antt =====
-- `dime_table_search`, which moves the entry that it finds, returns what `dime_table_search_r` does.
use native.Mathlib.Nat.{mod-lt}
use dime.Base.{
  ℕ, zero, suc, ◌+◌, ◌%◌, ◌^◌, ◌<◌, ◌≡◌, refl, ap, ◌∙◌, Bool, Option, none, some, arith, inl, inr,
  Bool-cases, ◌==◌, if◌then◌else◌, length, length-set, ℕ_discrete, set, get_or-set_self,
  get_or-set_ne,
}
use dime.Table.{elem_removed, Elem, Table, slot, put, mark, next, ◌>>=?◌, is_free, is_occupied}
use dime.Table.Access.{hit, find, home, search_r, promote, search_from, search}
use dime.Table.Total.{IsValid}

module _ {K V : Type 0} (junk : Elem K V) (cmp : K → K → Bool) (hash_f : K → ℕ) (t : Table K V)
    (key : K) where
  -- A removed cell that the search has passed, in the array.
  abbrev Passed : Option ℕ → Type 0
  Passed none = Unit {0}
  Passed (some a) = a < length t.arr

  -- The value at the cell where a search ends.
  abbrev value : Option ℕ → Option V
  value none = none
  value (some i) = some (slot junk t i).val

  moved_val :
      (a i : ℕ) (e : Elem K V)
      → a < length t.arr
      → let left =
          put junk i (mark junk elem_removed (slot junk (put junk a e t) i)) (put junk a e t) in
        (slot junk left a).val ≡ e.val
  moved_val a i e l = elim (ℕ_discrete i a) [
    | yes same ↦ rw same (
        ap (λ x. x.val) (get_or-set_self (set t.arr a e) a _ junk (rw (length-set t.arr a e) l))
        ∙ ap (λ x. x.val) (get_or-set_self t.arr a e junk l))
    | no n ↦
        ap (λ x. x.val)
          (get_or-set_ne (set t.arr a e) i a _ junk n ∙ get_or-set_self t.arr a e junk l)
  ]

  promote-val :
      (first : ℕ) (avail : Option ℕ) (i : ℕ)
      → Passed avail
      → (promote junk cmp hash_f t first avail i).0 ≡ some (slot junk t i).val
  unfolding promote
  promote-val first none i p = refl
  promote-val first (some a) i p = elim (Bool-cases (first == a)) [
    | inl e ↦ rw e (ap some (moved_val a i (slot junk t i) p))
    | inr e ↦ rw e (ap some (moved_val a i (slot junk t i) p))
  ]

  abbrev avail_after : ℕ → Option ℕ → Option ℕ
  avail_after i avail =
      if is_occupied (slot junk t i).use_of
      then avail
      else elim avail [ none ↦ some i | some j ↦ some j ]

  avail_after-Passed :
      (i : ℕ) (avail : Option ℕ) → i < length t.arr → Passed avail → Passed (avail_after i avail)
  avail_after-Passed i none l p = elim (Bool-cases (is_occupied (slot junk t i).use_of)) [
    | inl e ↦ rw e tt
    | inr e ↦ rw e l
  ]
  avail_after-Passed i (some a) l p = elim (Bool-cases (is_occupied (slot junk t i).use_of)) [
    | inl e ↦ rw e p
    | inr e ↦ rw e p
  ]

  search_from-find :
      (fuel first : ℕ) (avail : Option ℕ) (i k : ℕ)
      → length t.arr ≡ t.cap
      → i < t.cap
      → Passed avail
      → (search_from junk cmp hash_f fuel t key first avail i k >>=? λ r. some r.0)
        ≡ (find junk cmp hash_f fuel t key i k >>=? λ r. some (value r))
  unfolding search_from find
  search_from-find zero first avail i k s l p = refl
  search_from-find (suc fuel) first avail i k s l p =
      elim (Bool-cases (is_free (slot junk t i).use_of)) [
        | inl vacant ↦ rw (vacant, find, search_from) refl
        | inr taken ↦ elim (Bool-cases (hit junk cmp hash_f t key i)) [
          | inl here ↦ rw (taken, here, find, search_from) (ap some (promote-val first avail i p))
          | inr miss ↦
              rw (taken, miss, find, search_from)
                (search_from-find fuel first (avail_after i avail) (next junk t i k) (k + 1) s
                  (mod-lt ((i + k) % 2 ^ 64) (omega arith))
                  (avail_after-Passed i avail (omega arith) p))
        ]
      ]

  -- On a valid table `dime_table_search` returns what `dime_table_search_r` returns, with any fuel.
  pub search-search_r :
      (fuel : ℕ)
      → IsValid t
      → 0 < t.cap
      → (search junk cmp hash_f fuel t key >>=? λ r. some r.0) ≡ search_r junk cmp hash_f fuel t key
  unfolding search search_r
  search-search_r fuel v p =
      search_from-find fuel (home junk cmp hash_f t key) none (home junk cmp hash_f t key) 1
        v.storage (mod-lt (hash_f key) p) tt
      ∙ read (find junk cmp hash_f fuel t key (home junk cmp hash_f t key) 1)
    where
      read :
          (found : Option (Option ℕ))
          → (found >>=? λ r. some (value r))
            ≡ (found >>=? λ r. some (elim r [ none ↦ none | some i ↦ some (slot junk t i).val ]))
      read none = refl
      read (some none) = refl
      read (some (some i)) = refl
