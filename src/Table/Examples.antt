-- ===== src/Table/Examples.antt =====
-- A table of numbers with four entries, and what the theorems say of it.
use dime.Base.{
  ℕ, ◌+◌, ◌≡◌, ◌≢◌, ◌⊎◌, refl, Bool, true, false, none, some, ◌∷◌, ◌==◌, arith, replicate, sub_size,
}
use dime.Table.{elem_free, elem_occupied, elem_removed, Elem, Table, ◌>>=?◌}
use dime.Table.Access.{insert, remove, search, search_r, find, probe}
use dime.Table.Total.{IsValid, HasFree}
use dime.Table.Insert.{Roomy, insert_lem}
use dime.Table.Remove.{Unique, remove_lem}
use dime.Table.Duplicate.{insert_duplicates}
use dime.Table.Search.{search-search_r}

abbrev unused : Elem ℕ ℕ
unused = record { use_of = elem_free; hash = 0; key = 0; val = 0 }

abbrev entry : ℕ → ℕ → Elem ℕ ℕ
entry key val = record { use_of = elem_occupied; hash = key; key = key; val = val }

-- The keys from 33 to 36, each at its home.
abbrev four_entries : Table ℕ ℕ
four_entries = record {
  len = 4;
  arr = unused ∷ entry 33 7 ∷ entry 34 0 ∷ entry 35 2 ∷ entry 36 5 ∷ replicate 27 unused;
  cap = 32;
  ncollisions = 0;
  nfree = 28;
}

abbrev equal : ℕ → ℕ → Bool
equal a b = a == b

abbrev hash_of : ℕ → ℕ
hash_of n = n

four_entries-IsValid : IsValid four_entries
four_entries-IsValid = record { storage = refl; exponent = 5; power = refl; small = ground arith }

four_entries-HasFree : HasFree unused four_entries
four_entries-HasFree = record { cell_index = 9; inside = ground arith; vacant = refl }

four_entries-Roomy : Roomy unused equal hash_of four_entries 32 1
four_entries-Roomy = record {
  half_full = ground arith;
  counted = ground arith;
  settles =
      λ m n e. record { few_collisions = λ h. ground arith; mostly_unused = λ h. ground arith };
}

-- The key 1 has the same home.
insert_example :
    ((insert unused equal hash_of 32 true true four_entries 1 8 ≡ some (false, four_entries))
      × (old : ℕ) × (search_r unused equal hash_of 32 four_entries 1 ≡ some (some old)))
    ⊎ ((t' : Table ℕ ℕ) × (insert unused equal hash_of 32 true true four_entries 1 8
          ≡ some (true, t'))
        × (t'.len ≡ 4 + 1)
        × (search_r unused equal hash_of 32 t' 1 ≡ some (some 8))
        × ((other w : ℕ)
            → equal other 1 ≡ false
            → search_r unused equal hash_of 32 four_entries other ≡ some (some w)
            → search_r unused equal hash_of 32 t' other ≡ some (some w)))
insert_example =
    insert_lem unused equal hash_of four_entries four_entries-IsValid 32 1 four_entries-Roomy true
      true 8 four_entries-HasFree (ground arith) refl

remove_example :
    ((remove unused equal hash_of 32 four_entries 33 ≡ some (none, four_entries))
      × (search_r unused equal hash_of 32 four_entries 33 ≡ some none))
    ⊎ ((w : ℕ) × (t' : Table ℕ ℕ) × (remove unused equal hash_of 32 four_entries 33
          ≡ some (some w, t'))
        × (search_r unused equal hash_of 32 four_entries 33 ≡ some (some w))
        × (t'.len ≡ sub_size 4 1)
        × (Unique unused equal hash_of four_entries 33
            → (n x : ℕ) → search_r unused equal hash_of n t' 33 ≢ some (some x))
        × ((other x : ℕ)
            → equal other 33 ≡ false
            → search_r unused equal hash_of 32 four_entries other ≡ some (some x)
            → search_r unused equal hash_of 32 t' other ≡ some (some x)))
remove_example =
    remove_lem unused equal hash_of four_entries 33 32 four_entries-IsValid four_entries-HasFree
      (ground arith) (λ a b e. ground arith)

search_example :
    (search unused equal hash_of 32 four_entries 33 >>=? λ r. some r.0)
    ≡ search_r unused equal hash_of 32 four_entries 33
search_example =
    search-search_r unused equal hash_of four_entries 33 32 four_entries-IsValid (ground arith)

-- The key 33 behind a removed cell.
abbrev with_removed : Table ℕ ℕ
with_removed = record {
  len = 4;
  arr =
      unused
      ∷ record (entry 1 0) { use_of = elem_removed }
      ∷ entry 33 7
      ∷ entry 35 2
      ∷ entry 36 5
      ∷ entry 37 6
      ∷ replicate 26 unused;
  cap = 32;
  ncollisions = 0;
  nfree = 27;
}

with_removed-IsValid : IsValid with_removed
with_removed-IsValid = record { storage = refl; exponent = 5; power = refl; small = ground arith }

with_removed-Roomy : Roomy unused equal hash_of with_removed 32 33
with_removed-Roomy = record {
  half_full = ground arith;
  counted = ground arith;
  settles =
      λ m n e. record { few_collisions = λ h. ground arith; mostly_unused = λ h. ground arith };
}

insert_duplicates_example :
    (t' : Table ℕ ℕ) × (insert unused equal hash_of 32 true true with_removed 33 8
      ≡ some (true, t'))
    × ¬ Unique unused equal hash_of t' 33
unfolding search_r find probe
insert_duplicates_example =
    insert_duplicates unused equal hash_of with_removed 32 true true 33 8 7 1 1 with_removed-IsValid
      with_removed-Roomy (ground arith) refl refl refl
