-- ===== src/Main/Start/Missing.antt =====
-- A command line of server/main.c that ends with an `-l` without its value.
use dime.Base.{ℕ, ◌+◌, ◌≡◌, refl, ap, ◌∙◌, Bool, suc, List, [], ◌∷◌, ◌++◌, some, arith, length, map}
use dime.Server.Setup.{Listening, InitCalls, AddCalls, init}
use dime.Main.Text.{Text}
use dime.Main.Options.{Config}
use dime.Main.Options.Rendered.{
  Opt, flag, command_line, all_wanted, nothing_wanted, Wanted, said, read_options-no_value,
}
use dime.Main.Start.{
  null_place, crashed, places_of, add_place, add_places, listening_from, set_up, start,
}

map_empty : {A B : Type 0} (f : A → B) (xs : List A) → map f xs ≡ [] → xs ≡ []
map_empty f [] e = refl
map_empty f (x ∷ xs) e = cc e

null-places : (argc : ℕ) → places_of argc (argc ∷ []) ≡ null_place ∷ []
unfolding places_of
null-places argc = ground arith

last_null :
    (calls : ℕ → AddCalls) (o : Config) (argv : List Text) (srv : Listening)
    → o.listens ≡ length argv ∷ []
    → listening_from calls o argv (some srv) ≡ crashed
unfolding listening_from add_places add_place
last_null calls o argv srv e = rw (e, null-places) refl

one_more : (n : ℕ) → 1 + n ≡ suc n
one_more n = omega arith

-- A command line that asks for no place to listen at, and then ends with an `-l` without its value,
-- crashes the server once `dime_server_init` has succeeded, where it means to print how it is used.
pub start_no_value :
    (init_calls : InitCalls) (calls : ℕ → AddCalls) (name : Text) (opts : List Opt)
    (srv : Listening)
    → (all_wanted opts nothing_wanted).listens ≡ []
    → ((daemon : Bool) → init (record init_calls { daemon = daemon }) ≡ some srv)
    → start init_calls calls name (command_line opts ++ (flag b'l' ∷ [])) ≡ crashed
unfolding start set_up said
start_no_value init_calls calls name opts srv none_wanted up =
    let args = command_line opts ++ (flag b'l' ∷ []) in
    let (o, reads, says) = read_options-no_value name opts in
    let e : o.listens ≡ [] =
      map_empty _ o.listens (ap (λ (w : Wanted). w.listens) says ∙ none_wanted) in
    let o' = record o { listens = o.listens ++ ((1 + length args) ∷ []) } in
    let last : o'.listens ≡ length (name ∷ args) ∷ [] =
      ap (λ ks. ks ++ ((1 + length args) ∷ [])) e
      ∙ ap (λ (n : ℕ). n ∷ []) (one_more (length args)) in
    ap (set_up init_calls calls (name ∷ args)) reads
    ∙ ap (listening_from calls o' (name ∷ args)) (up o.daemon)
    ∙ last_null calls o' (name ∷ args) srv last
