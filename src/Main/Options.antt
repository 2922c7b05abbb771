-- ===== src/Main/Options.antt =====
-- The loop of server/main.c over its arguments.
pub mod Fits
pub mod Rendered
use dime.Base.{
  ℕ, suc, ◌+◌, ◌/◌, Bool, true, false, Option, none, some, List, [], ◌∷◌, ◌++◌, ltb, leb, ◌==◌,
  if◌then◌else◌, length,
}
use dime.Main.Text.{Text}

-- The fields of `srv` that options set, and `listens` up to `listens_len`.
pub record Config : Type 0 where
  pub tls : Bool
  pub certname : Option ℕ
  pub privkeyname : Option ℕ
  pub daemon : Bool
  pub verbosity : ℕ
  pub listens : List ℕ

-- How the options of one argument end: with `skip` and what they set, with the help and a return, at
-- `usage_err`, or with a write behind the array `listens`.
pub data Opts : Type 0 where
  opts_read : Bool → Config → Opts
  opts_help opts_misuse opts_overflow : Opts

pub data Scanned : Type 0 where
  scanned : Config → Scanned
  help_asked misused overflow : Scanned

-- The entries of `listens`, an array on the stack.
abbrev pub listens_cap : ℕ → ℕ
listens_cap argc = (argc + 1) / 2

-- `listens[listens_len++] = argv[argi + 1]`
pub add_listen : ℕ → ℕ → Config → Opts
add_listen argc argi o =
    if ltb (length o.listens) (listens_cap argc)
    then opts_read true (record o { listens = o.listens ++ ((argi + 1) ∷ []) })
    else opts_overflow

-- An option that takes a value: the test that there is one compares with `argc` itself.
valued : ℕ → ℕ → Opts → Opts
valued argc argi read = if ltb argc (argi + 1) then opts_misuse else read

-- `switch (argv[argi][j])`
pub read_opt : ℕ → ℕ → ℕ → Bool → Config → Opts
read_opt argc argi c skip o =
    if c == b'c'
    then valued argc argi (opts_read true (record o { tls = true; certname = some (argi + 1) }))
    else if c == b'd'
    then opts_read skip (record o { daemon = true })
    else if c == b'h'
    then opts_help
    else if c == b'j'
    then opts_misuse
    else if c == b'k'
    then valued argc argi (opts_read true (record o { tls = true; privkeyname = some (argi + 1) }))
    else if c == b'l'
    then valued argc argi (add_listen argc argi o)
    else if c == b'v'
    then opts_read skip (record o { verbosity = o.verbosity + 1 })
    else opts_misuse

-- The loop over the bytes of one argument.
pub read_opts : ℕ → ℕ → Text → Bool → Config → Opts
read_opts argc argi [] skip o = opts_read skip o
read_opts argc argi (c ∷ cs) skip o = elim (read_opt argc argi c skip o) [
  | opts_read skip' o' ↦ read_opts argc argi cs skip' o'
  | opts_help ↦ opts_help
  | opts_misuse ↦ opts_misuse
  | opts_overflow ↦ opts_overflow
]

read_arg : ℕ → ℕ → Text → Config → Opts
read_arg argc argi [] o = opts_misuse
read_arg argc argi (c ∷ cs) o = if c == b'-' then read_opts argc argi cs false o else opts_misuse

-- The loop over the arguments from `argi` on, of which one more is passed over after a value.
pub scan : ℕ → Bool → List Text → ℕ → Config → Scanned
scan argc skip [] argi o = scanned o
scan argc true (arg ∷ args) argi o = scan argc false args (argi + 1) o
scan argc false (arg ∷ args) argi o = elim (read_arg argc argi arg o) [
  | opts_read skip o' ↦ scan argc skip args (argi + 1) o'
  | opts_help ↦ help_asked
  | opts_misuse ↦ misused
  | opts_overflow ↦ overflow
]

abbrev pub defaults : Config
defaults = record {
  tls = false;
  certname = none;
  privkeyname = none;
  daemon = false;
  verbosity = 0;
  listens = [];
}

-- All of it, for the arguments behind the program's name.
unfoldable pub read_options : List Text → Scanned
unfolding scan read_arg read_opts read_opt valued add_listen
read_options args = scan (1 + length args) false args 1 defaults
