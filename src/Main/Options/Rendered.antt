-- ===== src/Main/Options/Rendered.antt =====
-- Command lines as they are meant: each option in an argument of its own, its value behind it.
use dime.Base.{
  ℕ, suc, ◌+◌, ◌*◌, ◌≤◌, ◌<◌, ◌≡◌, refl, ap, ◌∙◌, Bool, true, false, Option, none, some, List, [],
  ◌∷◌, ◌++◌, arith, length, length-append, get_or, map, append-nil, append_assoc, sym,
}
use mathlib.Core.List.{map-append}
use dime.Main.Text.{Text}
use dime.Main.Options.{
  Config, scanned, add_listen, valued, read_opt, read_opts, read_arg, scan, defaults, read_options,
}

-- What a user asks for.
pub data Opt : Type 0 where
  cert_file key_file listen_at : Text → Opt
  as_daemon more_verbose : Opt

pub flag : ℕ → Text
flag c = b'-' ∷ c ∷ []

-- The arguments of an option.
pub written : Opt → List Text
unfolding flag
written (cert_file value) = flag b'c' ∷ value ∷ []
written (key_file value) = flag b'k' ∷ value ∷ []
written (listen_at value) = flag b'l' ∷ value ∷ []
written as_daemon = flag b'd' ∷ []
written more_verbose = flag b'v' ∷ []

unfoldable pub command_line : List Opt → List Text
unfolding written
command_line [] = []
command_line (opt ∷ opts) = written opt ++ command_line opts

-- What the options say, with the texts themselves.
pub record Wanted : Type 0 where
  pub tls : Bool
  pub certname : Option Text
  pub privkeyname : Option Text
  pub daemon : Bool
  pub verbosity : ℕ
  pub listens : List Text

abbrev pub nothing_wanted : Wanted
nothing_wanted = record {
  tls = false;
  certname = none;
  privkeyname = none;
  daemon = false;
  verbosity = 0;
  listens = [];
}

pub wanted : Opt → Wanted → Wanted
wanted (cert_file value) o = record o { tls = true; certname = some value }
wanted (key_file value) o = record o { tls = true; privkeyname = some value }
wanted (listen_at value) o = record o { listens = o.listens ++ (value ∷ []) }
wanted as_daemon o = record o { daemon = true }
wanted more_verbose o = record o { verbosity = o.verbosity + 1 }

unfoldable pub all_wanted : List Opt → Wanted → Wanted
unfolding wanted
all_wanted [] o = o
all_wanted (opt ∷ opts) o = all_wanted opts (wanted opt o)

text_at : List Text → Option ℕ → Option Text
text_at argv none = none
text_at argv (some k) = some (get_or argv k [])

-- What a configuration says, its pointers into `argv` followed.
unfoldable pub said : List Text → Config → Wanted
unfolding text_at
said argv o = record {
  tls = o.tls;
  certname = text_at argv o.certname;
  privkeyname = text_at argv o.privkeyname;
  daemon = o.daemon;
  verbosity = o.verbosity;
  listens = map (λ k. get_or argv k []) o.listens;
}

-- An option, read where the texts of `argv` in front of it are `before`, ends so.
record Read (argv before rest : List Text) (opt : Opt) (o : Config) : Type 0 where
  after : Config
  reads :
      scan (length argv) false (written opt ++ rest) (length before) o
      ≡ scan (length argv) false rest (length (before ++ written opt)) after
  says : said argv after ≡ wanted opt (said argv o)
  half : 2 * length after.listens + 1 ≤ length (before ++ written opt)

behind :
    (before rest : List Text) (option value : Text)
    → get_or (before ++ (option ∷ value ∷ rest)) (length before + 1) [] ≡ value
behind [] rest option value = refl
behind (b ∷ before) rest option value = ground (arith, behind before rest option value)

opt-Read :
    (argv before rest : List Text) (opt : Opt) (o : Config)
    → argv ≡ before ++ (written opt ++ rest)
    → 2 * length o.listens + 1 ≤ length before
    → Read argv before rest opt o
unfolding scan read_arg read_opts read_opt valued add_listen written wanted said
opt-Read argv before rest (cert_file value) o e h = record {
  after = record o { tls = true; certname = some (length before + 1) };
  reads = ground (
    arith,
    length-append before (flag b'c' ∷ value ∷ []),
    ap length e,
    length-append before (flag b'c' ∷ value ∷ rest),
  );
  says = rw (e, behind before rest (flag b'c') value) refl;
  half = omega (arith, h, length-append before (flag b'c' ∷ value ∷ []));
}
opt-Read argv before rest (key_file value) o e h = record {
  after = record o { tls = true; privkeyname = some (length before + 1) };
  reads = ground (
    arith,
    length-append before (flag b'k' ∷ value ∷ []),
    ap length e,
    length-append before (flag b'k' ∷ value ∷ rest),
  );
  says = rw (e, behind before rest (flag b'k') value) refl;
  half = omega (arith, h, length-append before (flag b'k' ∷ value ∷ []));
}
opt-Read argv before rest (listen_at value) o e h = record {
  after = record o { listens = o.listens ++ ((length before + 1) ∷ []) };
  reads = ground (
    arith,
    length-append before (flag b'l' ∷ value ∷ []),
    ap length e,
    length-append before (flag b'l' ∷ value ∷ rest),
  );
  says = rw (map-append, e, behind before rest (flag b'l') value) refl;
  half = omega (
    arith,
    h,
    length-append o.listens ((length before + 1) ∷ []),
    length-append before (flag b'l' ∷ value ∷ []),
  );
}
opt-Read argv before rest as_daemon o e h = record {
  after = record o { daemon = true };
  reads = ground (arith, length-append before (flag b'd' ∷ []));
  says = refl;
  half = omega (arith, h, length-append before (flag b'd' ∷ []));
}
opt-Read argv before rest more_verbose o e h = record {
  after = record o { verbosity = o.verbosity + 1 };
  reads = ground (arith, length-append before (flag b'v' ∷ []));
  says = refl;
  half = omega (arith, h, length-append before (flag b'v' ∷ []));
}

-- The options of a command line, and then what stands behind them.
opts-Read :
    (argv before : List Text) (opts : List Opt) (rest : List Text) (o : Config)
    → argv ≡ before ++ (command_line opts ++ rest)
    → 2 * length o.listens + 1 ≤ length before
    → (after : Config) × (scan (length argv) false (command_line opts ++ rest) (length before) o
        ≡ scan (length argv) false rest (length (before ++ command_line opts)) after)
      × (said argv after ≡ all_wanted opts (said argv o))
      × (2 * length after.listens + 1 ≤ length (before ++ command_line opts))
unfolding command_line all_wanted
opts-Read argv before [] rest o e h =
    (o, rw (append-nil before) refl, refl, rw (append-nil before) h)
opts-Read argv before (opt ∷ opts) rest o e h =
    let e' : argv ≡ before ++ (written opt ++ (command_line opts ++ rest)) =
      e ∙ ap (◌++◌ before) (append_assoc (written opt) (command_line opts) rest) in
    let r = opt-Read argv before (command_line opts ++ rest) opt o e' h in
    let (after, reads, says, half) =
      opts-Read argv (before ++ written opt) opts rest r.after
        (e' ∙ sym (append_assoc before (written opt) (command_line opts ++ rest))) r.half in
    (
      after,
      rw
          (
            append_assoc (written opt) (command_line opts) rest,
            r.reads,
            reads,
            append_assoc before (written opt) (command_line opts),
          )
          refl,
      says ∙ ap (all_wanted opts) r.says,
      rw (append_assoc before (written opt) (command_line opts)) at half,
    )

one_more : (n : ℕ) → 1 + n ≡ suc n
one_more n = omega arith

-- A command line in which each option is an argument of its own with its value behind it, whatever the
-- values, is read as what it says: the pointers that are kept point to the last certificate, the last
-- key and all the places to listen at, in their order.
pub read_options-command_line :
    (name : Text) (opts : List Opt)
    → (o : Config) × (read_options (command_line opts) ≡ scanned o)
      × (said (name ∷ command_line opts) o ≡ all_wanted opts nothing_wanted)
unfolding read_options scan said
read_options-command_line name opts =
    let (o, reads, says, half) =
      opts-Read (name ∷ command_line opts) (name ∷ []) opts [] defaults
        (ap (◌∷◌ name) (sym (append-nil (command_line opts)))) (omega arith) in
    (
      o,
      ap (λ n. scan n false (command_line opts) 1 defaults) (one_more (length (command_line opts)))
          ∙ ap (λ args. scan (suc (length (command_line opts))) false args 1 defaults)
              (sym (append-nil (command_line opts)))
          ∙ reads,
      says,
    )

scan-last :
    (argc argi : ℕ) (o : Config)
    → argi < argc
    → 2 * length o.listens + 1 ≤ argi
    → scan argc false (flag b'l' ∷ []) argi o
      ≡ scanned (record o { listens = o.listens ++ ((argi + 1) ∷ []) })
unfolding scan read_arg read_opts read_opt valued add_listen flag
scan-last argc argi o in_argv h = ground arith

-- The options in front of a last `-l`, and the entry that it makes.
pub read_options-no_value :
    (name : Text) (opts : List Opt)
    → let args = command_line opts ++ (flag b'l' ∷ []) in
      (o : Config) × (read_options args
        ≡ scanned (record o { listens = o.listens ++ ((1 + length args) ∷ []) }))
      × (said (name ∷ args) o ≡ all_wanted opts nothing_wanted)
unfolding read_options scan said
read_options-no_value name opts =
    let args = command_line opts ++ (flag b'l' ∷ []) in
    let (o, reads, says, half) =
      opts-Read (name ∷ args) (name ∷ []) opts (flag b'l' ∷ []) defaults refl (omega arith) in
    let n : suc (length (command_line opts)) < suc (length args) =
      omega (arith, length-append (command_line opts) (flag b'l' ∷ [])) in
    let at : suc (length (command_line opts)) + 1 ≡ 1 + length args =
      omega (arith, length-append (command_line opts) (flag b'l' ∷ [])) in
    (
      o,
      ap (λ n. scan n false args 1 defaults) (one_more (length args))
          ∙ reads
          ∙ scan-last (suc (length args)) (suc (length (command_line opts))) o n half
          ∙ ap (λ (k : ℕ). scanned (record o { listens = o.listens ++ (k ∷ []) })) at,
      says,
    )
