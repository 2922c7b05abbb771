-- ===== src/Ring/Write.antt =====
-- `dime_ringbuffer_write` appends its bytes, growing the ring when it must.
use dime.Base.{
  true, length-append, ℕ, suc, ◌==◌, ◌+◌, ◌-◌, ◌*◌, ◌≤◌, ◌<◌, ◌^◌, ◌≡◌, refl, Bool, false, none,
  some, List, ◌++◌, [], ◌∷◌, ◌⊎◌, ap, sym, ◌∙◌, arith, ltb, leb, if◌then◌else◌, add_size, sub_size,
  Bool-cases, length, realloc, length-realloc, append-nil, Option-cases, inl, inr, size_max,
}
use dime.Circle.{
  window, window-realloc, window-spread, length-spread, length-put_block, window-put_block, spread,
  put_block,
}
use dime.Ring.{Ring, grown_cap, reserve, store, write}
use dime.Ring.Valid.{IsValid, contents, length-contents}

grown_cap_bounds : (n : ℕ) → 3 * n < 2 ^ 64 → 1 < n → (n < grown_cap n) × (grown_cap n ≤ 2 ^ 63)
unfolding grown_cap
grown_cap_bounds n small h = omega arith

-- What `reserve` leaves: the same bytes, and room for `siz` more.
pub record Reserved (r : Ring) (siz : ℕ) (g : Ring) : Type 0 where
  pub valid : IsValid g
  pub len_kept : g.len ≡ r.len
  pub spare : g.len + siz < g.cap
  pub same : contents g ≡ contents r

module _ (junk : ℕ) (r : Ring) (ncap siz : ℕ) where
  -- The array grown in place, when the bytes do not wrap.
  abbrev widened : Ring
  widened = record r { arr = realloc junk r.arr ncap; cap = ncap }

  widened-Reserved :
      IsValid r
      → r.cap < ncap
      → ncap ≤ 2 ^ 63
      → r.len + siz < ncap
      → r.begin ≤ r.stop
      → Reserved r siz widened
  widened-Reserved v bigger small fits straight = record {
    valid = ground (arith, length-realloc junk r.arr ncap);
    len_kept = refl;
    spare = fits;
    same =
        window-realloc 0 junk r.arr r.cap ncap r.begin r.len v.storage (omega arith) (ground arith);
  }

  -- The array grown with its upper part moved, when they do.
  abbrev spread_out : Ring
  spread_out = record r {
    arr = spread 0 junk r.arr ncap r.begin (r.begin + (ncap - r.cap));
    begin = r.begin + (ncap - r.cap);
    cap = ncap;
  }

  spread_out-Reserved :
      IsValid r
      → r.cap < ncap
      → ncap ≤ 2 ^ 63
      → r.len + siz < ncap
      → r.stop < r.begin
      → Reserved r siz spread_out
  spread_out-Reserved v bigger small fits wrapped = record {
    valid = ground (arith, length-spread 0 junk r.arr ncap r.begin (r.begin + (ncap - r.cap)));
    len_kept = refl;
    spare = fits;
    same =
        window-spread 0 junk r.arr r.cap ncap r.begin (r.begin + (ncap - r.cap)) r.len v.storage
          (omega arith) v.begin_in refl (omega arith);
  }

  -- Growth as `reserve` makes it, in either way.
  grown-Reserved :
      IsValid r
      → r.cap < ncap
      → ncap ≤ 2 ^ 63
      → r.len + siz < ncap
      → Reserved r siz (if ltb r.stop r.begin then spread_out else widened)
  grown-Reserved v bigger small fits = elim (Bool-cases (ltb r.stop r.begin)) [
    | inl wrapped ↦ rw wrapped (spread_out-Reserved v bigger small fits (ground arith))
    | inr straight ↦ rw straight (widened-Reserved v bigger small fits (ground arith))
  ]

-- The sizes that `reserve` computes do not wrap.
sizes :
    (r : Ring) (siz : ℕ)
    → IsValid r
    → 3 * (r.len + siz) < 2 ^ 64
    → r.cap ≤ add_size r.len siz
    → let ncap = grown_cap (add_size r.len siz) in
      (r.cap < ncap)
      × (ncap ≤ 2 ^ 63)
      × (r.len + siz < ncap)
      × (add_size r.begin (sub_size ncap r.cap) ≡ r.begin + (ncap - r.cap))
unfolding grown_cap
sizes r siz v small over = omega arith

-- A reservation that succeeds keeps the bytes and makes room.
pub reserve-Reserved :
    (grants : Bool) (junk : ℕ) {r g : Ring} (siz : ℕ)
    → IsValid r
    → 3 * (r.len + siz) < 2 ^ 64
    → reserve grants junk r siz ≡ some g
    → Reserved r siz g
unfolding reserve
reserve-Reserved grants junk {r} {g} siz v small h =
    elim (Bool-cases (leb r.cap (add_size r.len siz))) [
      | inl over ↦
          let z = sizes r siz v small (ground arith) in
          let k = grown-Reserved junk r (grown_cap (add_size r.len siz)) siz v z.0 z.1 z.2 in
          ground (arith, z, k)
      | inr under ↦ ground arith
    ]

-- `reserve` fails only where it must grow and `realloc` fails.
reserve-none :
    (grants : Bool) (junk : ℕ) (r : Ring) (siz : ℕ)
    → r.len + siz < 2 ^ 64
    → reserve grants junk r siz ≡ none
    → (grants ≡ false) × (r.cap ≤ r.len + siz)
unfolding reserve
reserve-none grants junk r siz small h = ground arith

module _ (g : Ring) (buf : List ℕ) (v : IsValid g) (fits : g.len + length buf < g.cap) where
  pub contents-store : contents (store g buf) ≡ contents g ++ buf
  unfolding store
  contents-store =
      ap (λ k. window 0 (put_block 0 g.arr g.cap g.stop buf) g.cap g.begin k) no_wrap
      ∙ window-put_block 0 g.arr g.cap g.begin g.len g.stop buf v.storage v.begin_in v.stop_at
          (omega arith) v.room
    where
      no_wrap : add_size g.len (length buf) ≡ g.len + length buf
      no_wrap = omega arith

  pub store-IsValid : IsValid (store g buf)
  unfolding store
  store-IsValid = ground (arith, length-put_block 0 g.arr g.cap g.stop buf)

-- What a write returns and leaves: all the bytes appended, or, where the ring had to grow and no
-- memory was granted, -1 and the ring as it was.
abbrev pub Wrote : Bool → Ring → List ℕ → ℕ × Ring → Type 0
Wrote grants r buf out =
    IsValid out.1
    × (((out.0 ≡ length buf) × (contents out.1 ≡ contents r ++ buf))
        ⊎ ((out.0 ≡ size_max) × (out.1 ≡ r) × (grants ≡ false) × (r.cap ≤ r.len + length buf)))

store-Wrote :
    (grants : Bool) (r g : Ring) (buf : List ℕ)
    → Reserved r (length buf) g
    → Wrote grants r buf (length buf, store g buf)
store-Wrote grants r g buf k = (
  store-IsValid g buf k.valid k.spare,
  inl (refl, contents-store g buf k.valid k.spare ∙ ap (λ x. x ++ buf) k.same),
)

nonzero : (n : ℕ) → (suc n == 0) ≡ false
nonzero n = ground arith

-- On a valid ring, with a total far from the range of `size_t`, `dime_ringbuffer_write` either
-- appends exactly its bytes and returns their number, or returns -1 and leaves the ring; the second
-- happens only when the bytes do not fit and `realloc` fails. The ring stays valid.
pub write-Wrote :
    (grants : Bool) (junk : ℕ) (r : Ring) (buf : List ℕ)
    → IsValid r
    → 3 * (r.len + length buf) < 2 ^ 64
    → Wrote grants r buf (write grants junk r buf)
unfolding write
write-Wrote grants junk r [] v small = (v, inl (refl, sym (append-nil (contents r))))
write-Wrote grants junk r (b ∷ bs) v small =
    elim (Option-cases (reserve grants junk r (length (b ∷ bs)))) [
      | inl failed ↦
          let f = reserve-none grants junk r (length (b ∷ bs)) (omega arith) failed in
          rw (failed, write, nonzero (length bs)) (v, inr (refl, refl, f.0, f.1))
      | inr (g, done) ↦
          rw (done, write, nonzero (length bs))
            (store-Wrote grants r g (b ∷ bs)
              (reserve-Reserved grants junk (length (b ∷ bs)) v small done))
    ]

-- Where memory is granted the bytes always go in.
pub write_granted :
    (junk : ℕ) (r : Ring) (buf : List ℕ)
    → IsValid r
    → 3 * (r.len + length buf) < 2 ^ 64
    → let (n, r') = write true junk r buf in
      (n ≡ length buf)
      × IsValid r'
      × (contents r' ≡ contents r ++ buf)
      × (r'.len ≡ r.len + length buf)
write_granted junk r buf v small = elim (write-Wrote true junk r buf v small).1 [
  | inl done ↦ (
    done.0,
    (write-Wrote true junk r buf v small).0,
    done.1,
    omega (
      arith,
      sym (length-contents (write true junk r buf).1),
      ap length done.1,
      length-append {0} (contents r) buf,
      length-contents r,
    ),
  )
  | inr failed ↦ cc (failed.2)
]

-- Bytes that fit are stored as the ring is, and others are refused where no memory is granted.
pub write_fitting :
    (grants : Bool) (junk : ℕ) (r : Ring) (buf : List ℕ)
    → 0 < length buf
    → r.len + length buf < r.cap
    → r.cap ≤ 2 ^ 63
    → write grants junk r buf ≡ (length buf, store r buf)
unfolding write reserve
write_fitting grants junk r buf some_bytes fits small = ground arith

pub write_denied :
    (junk : ℕ) (r : Ring) (buf : List ℕ)
    → 0 < length buf
    → r.cap ≤ r.len + length buf
    → r.len + length buf < 2 ^ 64
    → write false junk r buf ≡ (size_max, r)
unfolding write reserve
write_denied junk r buf some_bytes over small = ground arith

pub store-sizes :
    (r : Ring) (buf : List ℕ)
    → r.len + length buf < 2 ^ 64
    → ((store r buf).cap ≡ r.cap) × ((store r buf).len ≡ r.len + length buf)
unfolding store
store-sizes r buf small = omega arith

pub write_nil : (junk : ℕ) (r : Ring) → write false junk r [] ≡ (0, r)
unfolding write
write_nil junk r = refl
