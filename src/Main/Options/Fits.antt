-- ===== src/Main/Options/Fits.antt =====
-- The array `listens` of server/main.c, and the options that write to it.
use dime.Base.{
  ℕ, zero, suc, ◌+◌, ◌*◌, ◌≤◌, ◌<◌, ◌≡◌, refl, Bool, true, false, List, [], ◌∷◌, ◌++◌, arith, ◌==◌,
  if◌then◌else◌, length, length-append, replicate, inl, inr, Bool-cases, ltb,
}
use dime.Client.Groups.Counts.{count}
use dime.Main.Text.{Text}
use dime.Main.Options.{
  Config, Opts, opts_read, opts_help, opts_misuse, opts_overflow, Scanned, scanned, help_asked,
  misused, overflow, listens_cap, add_listen, valued, read_opt, read_opts, read_arg, scan, defaults,
  read_options,
}

-- A value is passed over.
abbrev pub passed : Bool → ℕ
passed skip = if skip then 1 else 0

-- In `listens` there is an entry for at most each second argument.
abbrev Half : ℕ → Opts → Type 0
Half argi (opts_read skip o) = 2 * length o.listens ≤ argi + passed skip
Half argi opts_help = Unit {0}
Half argi opts_misuse = Unit {0}
Half argi opts_overflow = ⊥

-- Any option but `-l`.
read_opt-Half :
    (argc argi c : ℕ) (skip : Bool) (o : Config)
    → c == b'l' ≡ false
    → 2 * length o.listens ≤ argi + passed skip
    → Half argi (read_opt argc argi c skip o)
unfolding read_opt valued
read_opt-Half argc argi c skip o other h = ground arith

-- The rest of an argument, when that keeps to half.
rest-Half :
    (argc argi : ℕ) (cs : Text)
    → ((skip : Bool) (o : Config)
        → 2 * length o.listens ≤ argi + passed skip
        → Half argi (read_opts argc argi cs skip o))
    → (r : Opts) → Half argi r
    → Half argi (elim r [
      | opts_read skip o ↦ read_opts argc argi cs skip o
      | opts_help ↦ opts_help
      | opts_misuse ↦ opts_misuse
      | opts_overflow ↦ opts_overflow
    ])
rest-Half argc argi cs rest (opts_read skip o) h = rest skip o h
rest-Half argc argi cs rest opts_help h = tt
rest-Half argc argi cs rest opts_misuse h = tt
rest-Half argc argi cs rest opts_overflow h = absurd h

no_listen-Half :
    (argc argi : ℕ) (cs : Text) (skip : Bool) (o : Config)
    → count b'l' cs ≡ 0
    → 2 * length o.listens ≤ argi + passed skip
    → Half argi (read_opts argc argi cs skip o)
unfolding read_opts
no_listen-Half argc argi [] skip o n h = h
no_listen-Half argc argi (c ∷ cs) skip o n h =
    rest-Half argc argi cs (λ skip' o'. no_listen-Half argc argi cs skip' o' (omega (arith, n)))
      (read_opt argc argi c skip o) (read_opt-Half argc argi c skip o (ground (arith, n)) h)

-- The first `-l` of an argument finds room.
first_listen-Half :
    (argc argi c : ℕ) (skip : Bool) (o : Config)
    → c == b'l' ≡ true
    → argi < argc
    → 2 * length o.listens + 1 ≤ argi
    → Half argi (read_opt argc argi c skip o)
unfolding read_opt valued add_listen
first_listen-Half argc argi c skip o here in_argv h =
    ground (arith, length-append o.listens ((argi + 1) ∷ []))

-- Any other option leaves the number of entries.
abbrev Same : Config → Opts → Type 0
Same o (opts_read skip o') = length o'.listens ≡ length o.listens
Same o opts_help = Unit {0}
Same o opts_misuse = Unit {0}
Same o opts_overflow = ⊥

read_opt-Same :
    (argc argi c : ℕ) (skip : Bool) (o : Config)
    → c == b'l' ≡ false
    → Same o (read_opt argc argi c skip o)
unfolding read_opt valued
read_opt-Same argc argi c skip o other = ground arith

rest-Same :
    (argc argi : ℕ) (cs : Text) (o : Config)
    → ((skip : Bool) (o' : Config)
        → length o'.listens ≡ length o.listens
        → Half argi (read_opts argc argi cs skip o'))
    → (r : Opts) → Same o r
    → Half argi (elim r [
      | opts_read skip o ↦ read_opts argc argi cs skip o
      | opts_help ↦ opts_help
      | opts_misuse ↦ opts_misuse
      | opts_overflow ↦ opts_overflow
    ])
rest-Same argc argi cs o rest (opts_read skip o') h = rest skip o' h
rest-Same argc argi cs o rest opts_help h = tt
rest-Same argc argi cs o rest opts_misuse h = tt
rest-Same argc argi cs o rest opts_overflow h = absurd h

one_listen-Half :
    (argc argi : ℕ) (cs : Text) (skip : Bool) (o : Config)
    → count b'l' cs ≤ 1
    → argi < argc
    → 2 * length o.listens + 1 ≤ argi
    → Half argi (read_opts argc argi cs skip o)
unfolding read_opts
one_listen-Half argc argi [] skip o n in_argv h = omega arith
one_listen-Half argc argi (c ∷ cs) skip o n in_argv h = elim (Bool-cases (c == b'l')) [
  | inl here ↦
      rest-Half argc argi cs
        (λ skip' o'. no_listen-Half argc argi cs skip' o' (ground (arith, n, here)))
        (read_opt argc argi c skip o) (first_listen-Half argc argi c skip o here in_argv h)
  | inr other ↦
      rest-Same argc argi cs o
        (λ skip' o' same.
          one_listen-Half argc argi cs skip' o' (omega (arith, n)) in_argv (omega (arith, same)))
        (read_opt argc argi c skip o) (read_opt-Same argc argi c skip o other)
]

-- Each argument has at most one `l`.
abbrev pub FewListens : List Text → Type 0
FewListens [] = Unit
FewListens (arg ∷ args) = (count b'l' arg ≤ 1) × FewListens args

read_arg-Half :
    (argc argi : ℕ) (arg : Text) (o : Config)
    → count b'l' arg ≤ 1
    → argi < argc
    → 2 * length o.listens + 1 ≤ argi
    → Half argi (read_arg argc argi arg o)
unfolding read_arg
read_arg-Half argc argi [] o n in_argv h = tt
read_arg-Half argc argi (c ∷ cs) o n in_argv h = elim (Bool-cases (c == b'-')) [
  | inl option ↦ rw option (one_listen-Half argc argi cs false o (omega (arith, n)) in_argv h)
  | inr other ↦ rw other tt
]

-- What the scan ends with.
abbrev pub Fits : ℕ → Scanned → Type 0
Fits argc (scanned o) = length o.listens ≤ listens_cap argc
Fits argc help_asked = Unit
Fits argc misused = Unit
Fits argc overflow = ⊥

rest-Fits :
    (argc argi : ℕ) (args : List Text)
    → ((skip : Bool) (o : Config)
        → 2 * length o.listens ≤ argi + passed skip
        → Fits argc (scan argc skip args (argi + 1) o))
    → (r : Opts) → Half argi r
    → Fits argc (elim r [
      | opts_read skip o ↦ scan argc skip args (argi + 1) o
      | opts_help ↦ help_asked
      | opts_misuse ↦ misused
      | opts_overflow ↦ overflow
    ])
rest-Fits argc argi args rest (opts_read skip o) h = rest skip o h
rest-Fits argc argi args rest opts_help h = tt
rest-Fits argc argi args rest opts_misuse h = tt
rest-Fits argc argi args rest opts_overflow h = absurd h

scan-Fits :
    (argc : ℕ) (skip : Bool) (args : List Text) (argi : ℕ) (o : Config)
    → FewListens args
    → argi + length args ≡ argc
    → 2 * length o.listens + 1 ≤ argi + passed skip
    → Fits argc (scan argc skip args argi o)
unfolding scan
scan-Fits argc true [] argi o few at h = omega arith
scan-Fits argc false [] argi o few at h = omega arith
scan-Fits argc true (arg ∷ args) argi o (few, later) at h =
    scan-Fits argc false args (argi + 1) o later (omega (arith, at)) (omega (arith, h))
scan-Fits argc false (arg ∷ args) argi o (few, later) at h =
    rest-Fits argc argi args
      (λ skip o' half.
        scan-Fits argc skip args (argi + 1) o' later (omega (arith, at)) (omega (arith, half)))
      (read_arg argc argi arg o)
      (read_arg-Half argc argi arg o few (omega (arith, at)) (omega (arith, h)))

-- The loop over the options writes only inside `listens`, whose size is half of `argc`, rounded up,
-- and so is the number of entries that it leaves, if each argument, the values of options included,
-- has at most one `l`.
pub read_options-Fits :
    (args : List Text) → FewListens args → Fits (1 + length args) (read_options args)
unfolding read_options
read_options-Fits args few =
    scan-Fits (1 + length args) false args 1 defaults few refl (omega arith)

-- Any number of `l`s in one argument.
many_listens :
    (argc argi n : ℕ) (skip : Bool) (o : Config)
    → argi < argc
    → listens_cap argc < length o.listens + n
    → length o.listens ≤ listens_cap argc
    → read_opts argc argi (replicate n b'l') skip o ≡ opts_overflow
unfolding read_opts read_opt valued add_listen
many_listens argc argi zero skip o in_argv many few = absurd (omega (arith, many, few))
many_listens argc argi (suc n) skip o in_argv many few =
    elim (Bool-cases (ltb (length o.listens) (listens_cap argc))) [
      | inl room ↦ ground (
        arith,
        length-append o.listens ((argi + 1) ∷ []),
        many_listens argc argi n true (record o { listens = o.listens ++ ((argi + 1) ∷ []) })
            in_argv,
      )
      | inr full ↦ ground arith
    ]

-- A first argument that is a dash and more than (`argc` + 1) / 2 times the letter `l` makes the server
-- write behind its array `listens`.
pub read_options_overflow :
    (n : ℕ) (args : List Text)
    → listens_cap (2 + length args) < n
    → read_options ((b'-' ∷ replicate n b'l') ∷ args) ≡ overflow
unfolding read_options scan read_arg
read_options_overflow n args many =
    ground
      (arith, many_listens (2 + length args) 1 n false defaults (omega arith) (omega (arith, many)))
