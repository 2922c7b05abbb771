-- ===== src/Table/Duplicate.antt =====
-- `dime_table_insert` ends at a removed cell, and does not see the key behind it.
use dime.Base.{ℕ, ◌<◌, ◌≡◌, ◌≢◌, sym, ap, ◌∙◌, Bool, true, some, arith, length}
use native.Mathlib.Nat.{mod-lt}
use dime.Table.{Elem, Table}
use dime.Table.Access.{hit, probe, home, search_r, insert}
use dime.Table.Find.{find_hits, search_r_found}
use dime.Table.Total.{IsValid}
use dime.Table.Store.{probe-vacancy, slot_filled, slot_kept}
use dime.Table.Insert.{Roomy, insert-fill}
use dime.Table.Remove.{Unique}

module _ {K V : Type 0} (junk : Elem K V) (cmp : K → K → Bool) (hash_f : K → ℕ) where
  -- Where the probes of a valid table come to a cell without an entry before they come to the key, an
  -- insertion of that key, though a search finds it, returns 0, and two cells then hold the key. The
  -- insertion must neither make the table grow nor have it gone through again, and the comparison must
  -- hold of the key and itself.
  pub insert_duplicates :
      (t : Table K V) (fuel : ℕ) (granted granted' : Bool) (key : K) (val old : V) (m n : ℕ)
      → IsValid t
      → Roomy junk cmp hash_f t fuel key
      → 0 < t.cap
      → cmp key key ≡ true
      → search_r junk cmp hash_f fuel t key ≡ some (some old)
      → probe junk cmp hash_f fuel t key (home junk cmp hash_f t key) 1 ≡ some (some (m, n))
      → (t' : Table K V) × (insert junk cmp hash_f fuel granted granted' t key val
          ≡ some (true, t'))
        × ¬ Unique junk cmp hash_f t' key
  unfolding Unique
  insert_duplicates t fuel granted granted' key val old m n v r p self there ended =
      let (t', done, same_arr, same_cap, more) =
        insert-fill junk cmp hash_f t v fuel key r granted granted' val m n p ended in
      let (early, vacant) =
        probe-vacancy junk cmp hash_f fuel t key _ 1 m n (mod-lt (hash_f key) p) ended in
      let inside : m < length t.arr = omega (arith, early, v.storage) in
      let (j, found, is_old) = search_r_found junk cmp hash_f fuel t key old there in
      let (kept_use, hits) = find_hits junk cmp hash_f fuel t key _ 1 j found in
      let apart : j ≢ m = λ e.
        let at_m : hit junk cmp hash_f t key m ≡ true =
          sym (ap (hit junk cmp hash_f t key) e) ∙ hits in
        cc (rw vacant at at_m) in
      let new_hit : hit junk cmp hash_f t' key m ≡ true =
        rw (slot_filled junk cmp hash_f t key val m inside t' same_arr) self in
      let old_hit : hit junk cmp hash_f t' key j ≡ true =
        rw (slot_kept junk cmp hash_f t key val m inside t' same_arr j apart) hits in
      (t', done, λ unique. apart (unique j m old_hit new_hit))
