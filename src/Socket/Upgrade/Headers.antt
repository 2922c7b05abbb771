-- ===== src/Socket/Upgrade/Headers.antt =====
-- The lines of a request to `dime_socket_init_ws`, and what it reads in them.
use dime.Base.{
  ℕ, ◌≡◌, refl, ap, ◌∙◌, true, false, ◌&&◌, Option, none, some, List, [], ◌∷◌, ◌++◌, arith, length,
  ltb, ◌==◌, if◌then◌else◌, map,
}
use dime.Socket.Receiving.{same_bytes}
use dime.Socket.Upgrade.{
  Fields, no_fields, keep_field, read_fields, has_upgrade, is_text, good_key, wanted_key,
  connection_text, upgrade_text, key_text, version_text, websocket_text,
}
use dime.Socket.Upgrade.Http.{contains, split_colon}
use dime.Socket.Upgrade.Lines.{AllInner}

-- A header field.
pub record Field : Type 0 where
  pub key : List ℕ
  pub val : List ℕ

abbrev pub field_line : Field → List ℕ
field_line f = f.key ++ (b':' ∷ b' ' ∷ f.val)

-- A key has no colon.
abbrev NoColon : List ℕ → Type 0
NoColon [] = Unit {0}
NoColon (c ∷ cs) = (c == b':' ≡ false) × NoColon cs

abbrev pub GoodField : Field → Type 0
GoodField f = AllInner f.key × NoColon f.key × AllInner f.val

abbrev pub GoodFields : List Field → Type 0
GoodFields [] = Unit {0}
GoodFields (f ∷ fs) = GoodField f × GoodFields fs

split_colon-key :
    (key val : List ℕ) → NoColon key → split_colon (key ++ (b':' ∷ b' ' ∷ val)) ≡ some (key, val)
unfolding split_colon
split_colon-key [] val n = refl
split_colon-key (c ∷ []) val (n, ns) = rw n refl
split_colon-key (c ∷ d ∷ key) val (n, ns) = rw (n, split_colon-key (d ∷ key) val ns) refl

-- What the loop over the fields keeps.
pub kept : List Field → Fields → Fields
kept [] f = f
kept (h ∷ hs) f = kept hs (keep_field h.key h.val f)

pub read_fields-lines :
    (hs : List Field) (f : Fields)
    → GoodFields hs
    → read_fields (map field_line hs) f ≡ some (kept hs f)
unfolding read_fields kept
read_fields-lines [] f g = refl
read_fields-lines (h ∷ hs) f (g, gs) =
    rw (split_colon-key h.key h.val g.1, read_fields)
      (read_fields-lines hs (keep_field h.key h.val f) gs)

-- The last field of a name.
pub last_value : List ℕ → List Field → Option (List ℕ)
last_value name [] = none
last_value name (h ∷ hs) = elim (last_value name hs) [
  | some val ↦ some val
  | none ↦ if same_bytes h.key name then some h.val else none
]

-- What a request asks for: the key of a WebSocket, where the last fields of each name are as they
-- must be.
unfoldable pub asked_key : List Field → Option (List ℕ)
unfolding last_value
asked_key hs = elim (last_value connection_text hs) [
  | none ↦ none
  | some connection ↦ elim (last_value upgrade_text hs) [
    | none ↦ none
    | some upgrade ↦ elim (last_value key_text hs) [
      | none ↦ none
      | some key ↦ elim (last_value version_text hs) [
        | none ↦ none
        | some version ↦
            if contains upgrade_text connection
              && same_bytes upgrade websocket_text
              && same_bytes version (b'1' ∷ b'3' ∷ [])
              && ltb 0 (length key)
            then some key
            else none
      ]
    ]
  ]
]

or_else : Option (List ℕ) → Option (List ℕ) → Option (List ℕ)
or_else none b = b
or_else (some a) b = some a

same_bytes-eq : (xs ys : List ℕ) → same_bytes xs ys ≡ true → xs ≡ ys
unfolding same_bytes
same_bytes-eq [] [] h = refl
same_bytes-eq [] (y ∷ ys) h = cc h
same_bytes-eq (x ∷ xs) [] h = cc h
same_bytes-eq (x ∷ xs) (y ∷ ys) h = ground (arith, h, same_bytes-eq xs ys)

-- A key is one of the four names at most.
other_name :
    (key a b : List ℕ) → same_bytes a b ≡ false → same_bytes key a ≡ true → same_bytes key b ≡ false
other_name key a b n h = ap (λ k. same_bytes k b) (same_bytes-eq key a h) ∙ n

keep-connection :
    (key val : List ℕ) (f : Fields)
    → (keep_field key val f).connection
      ≡ (if same_bytes key connection_text then some val else f.connection)
unfolding keep_field
keep-connection key val f = ground arith

keep-upgrade :
    (key val : List ℕ) (f : Fields)
    → (keep_field key val f).upgrade ≡ (if same_bytes key upgrade_text then some val else f.upgrade)
unfolding keep_field same_bytes
keep-upgrade key val f = ground (arith, other_name key connection_text upgrade_text refl)

keep-key :
    (key val : List ℕ) (f : Fields)
    → (keep_field key val f).sec_ws_key
      ≡ (if same_bytes key key_text then some val else f.sec_ws_key)
unfolding keep_field same_bytes
keep-key key val f =
    ground (
      arith,
      other_name key connection_text key_text refl,
      other_name key upgrade_text key_text refl,
    )

keep-version :
    (key val : List ℕ) (f : Fields)
    → (keep_field key val f).sec_ws_version
      ≡ (if same_bytes key version_text then some val else f.sec_ws_version)
unfolding keep_field same_bytes
keep-version key val f = ground (
  arith,
  other_name key connection_text version_text refl,
  other_name key upgrade_text version_text refl,
  other_name key key_text version_text refl,
)

-- What is kept under one name, by a getter.
kept-last :
    (name : List ℕ) (get : Fields → Option (List ℕ))
    → ((key val : List ℕ) (f : Fields)
        → get (keep_field key val f) ≡ (if same_bytes key name then some val else get f))
    → (hs : List Field) (f : Fields) → get (kept hs f) ≡ or_else (last_value name hs) (get f)
unfolding kept last_value or_else
kept-last name get keep [] f = refl
kept-last name get keep (h ∷ hs) f =
    ground (arith, keep h.key h.val f, kept-last name get keep hs (keep_field h.key h.val f))

pub wanted-asked : (hs : List Field) → wanted_key (kept hs no_fields) ≡ asked_key hs
unfolding wanted_key asked_key has_upgrade is_text good_key or_else
wanted-asked hs = ground (
  arith,
  kept-last connection_text (λ f. f.connection) keep-connection hs no_fields,
  kept-last upgrade_text (λ f. f.upgrade) keep-upgrade hs no_fields,
  kept-last key_text (λ f. f.sec_ws_key) keep-key hs no_fields,
  kept-last version_text (λ f. f.sec_ws_version) keep-version hs no_fields,
)
