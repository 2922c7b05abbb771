-- ===== src/Deque/Push.antt =====
-- `dime_deque_pushl` and `dime_deque_pushr` add one entry at an end, growing a full deque.
use dime.Base.{
  ℕ, ◌+◌, ◌-◌, ◌*◌, ◌≤◌, ◌<◌, ◌^◌, ◌≡◌, refl, ap, ◌∙◌, Bool, true, false, none, some, [], ◌∷◌, ◌++◌,
  inl, inr, ◌⊎◌, ◌↔◌, arith, leb, ◌==◌, if◌then◌else◌, add_size, sub_size, mul_size, ◌/◌,
  Bool-cases, Option-cases, length-set,
}
use dime.Circle.{spread, length-spread, window-spread, window-set_end, window-set_front}
use dime.Deque.{Deque, reserve, put_left, put_right, pushl, pushr}
use dime.Deque.Valid.{IsValid, contents}

module _ {A : Type 0} (null : A) where
  -- What growth leaves: the same entries, and room for one more.
  record Reserved (d g : Deque A) : Type 0 where
    valid : IsValid g
    len_kept : g.len ≡ d.len
    spare : g.len < g.cap
    same : contents null g ≡ contents null d

  spread-Reserved :
      (junk : A) (d : Deque A) (ncap : ℕ)
      → IsValid d
      → d.len ≡ d.cap
      → d.cap < ncap
      → ncap ≤ 2 ^ 63
      → Reserved d (record d {
        arr = spread null junk d.arr ncap d.begin (d.begin + (ncap - d.cap));
        begin = d.begin + (ncap - d.cap);
        cap = ncap;
      })
  spread-Reserved junk d ncap v is_full bigger small = record {
    valid = ground (arith, length-spread null junk d.arr ncap d.begin (d.begin + (ncap - d.cap)));
    len_kept = refl;
    spare = omega arith;
    same =
        window-spread null junk d.arr d.cap ncap d.begin (d.begin + (ncap - d.cap)) d.len v.storage
          (omega arith) v.begin_in refl v.within;
  }

  -- A full deque has its ends together, so its upper part always moves; no size wraps.
  full_sizes :
      (d : Deque A)
      → IsValid d
      → 3 * d.cap < 2 ^ 64
      → d.cap ≤ d.len
      → let ncap = mul_size 3 d.cap / 2 in
        (d.len ≡ d.cap)
        × (leb d.stop d.begin ≡ true)
        × (d.cap < ncap)
        × (ncap ≤ 2 ^ 63)
        × (add_size d.begin (sub_size ncap d.cap) ≡ d.begin + (ncap - d.cap))
  full_sizes d v small over = ground arith

  reserve-Reserved :
      (grants : Bool) (junk : A) (d g : Deque A)
      → IsValid d
      → 3 * d.cap < 2 ^ 64
      → reserve null grants junk d ≡ some g
      → Reserved d g
  unfolding reserve
  reserve-Reserved grants junk d g v small h = elim (Bool-cases (leb d.cap d.len)) [
    | inl over ↦
        let z = full_sizes d v small (ground arith) in
        let k = spread-Reserved junk d (mul_size 3 d.cap / 2) v z.0 z.2 z.3 in ground (arith, z, k)
    | inr under ↦ ground arith
  ]

  put_right-lem :
      (g : Deque A) (p : A)
      → IsValid g
      → g.len < g.cap
      → IsValid (put_right null p g)
        × (contents null (put_right null p g) ≡ contents null g ++ (p ∷ []))
  unfolding put_right
  put_right-lem g p v h =
      ground
        (arith, length-set g.arr g.stop p, window-set_end null g.arr g.cap g.begin g.len g.stop p)

  put_left-lem :
      (g : Deque A) (p : A)
      → IsValid g
      → g.len < g.cap
      → IsValid (put_left null p g) × (contents null (put_left null p g) ≡ p ∷ contents null g)
  unfolding put_left
  put_left-lem g p v h = ground (
    arith,
    length-set g.arr ((if g.begin == 0 then g.cap else g.begin) - 1) p,
    window-set_front null g.arr g.cap g.begin g.len ((if g.begin == 0 then g.cap else g.begin) - 1)
        p,
  )

  reserve-none :
      (grants : Bool) (junk : A) (d : Deque A)
      → (reserve null grants junk d ≡ none) ↔ (grants ≡ false) × (d.cap ≤ d.len)
  unfolding reserve
  reserve-none grants junk d = ground arith

  reserve-some :
      (grants : Bool) (junk : A) (d g : Deque A)
      → reserve null grants junk d ≡ some g
      → (grants ≡ true) ⊎ (d.len < d.cap)
  unfolding reserve
  reserve-some grants junk d g = ground arith

  -- On a valid deque whose size can still be computed, `dime_deque_pushr` either adds its entry at
  -- the right and keeps the deque valid, which it does only where `realloc` would succeed or the deque
  -- is not full; or it returns -1, which it does only where the deque is full and `realloc` fails.
  pub pushr_lem :
      (grants : Bool) (junk : A) (d : Deque A) (p : A)
      → IsValid d
      → 3 * d.cap < 2 ^ 64
      → ((d' : Deque A) × (pushr null grants junk d p ≡ some d')
          × IsValid d'
          × (contents null d' ≡ contents null d ++ (p ∷ []))
          × ((grants ≡ true) ⊎ (d.len < d.cap)))
        ⊎ ((pushr null grants junk d p ≡ none) × (grants ≡ false) × (d.len ≡ d.cap))
  unfolding pushr
  pushr_lem grants junk d p v small = elim (Option-cases (reserve null grants junk d)) [
    | inl failed ↦
        let f = (reserve-none grants junk d).0 failed in inr (rw (failed, pushr), f.0, omega arith)
    | inr (g, done) ↦
        let k = reserve-Reserved grants junk d g v small done in
        let l = put_right-lem g p k.valid k.spare in
        inl (
          put_right null p g,
          rw (done, pushr),
          l.0,
          l.1 ∙ ap (λ x. x ++ (p ∷ [])) k.same,
          reserve-some grants junk d g done,
        )
  ]

  -- On a valid deque whose size can still be computed, `dime_deque_pushl` either adds its entry at
  -- the left and keeps the deque valid, which it does only where `realloc` would succeed or the deque
  -- is not full; or it returns -1, which it does only where the deque is full and `realloc` fails.
  pub pushl_lem :
      (grants : Bool) (junk : A) (d : Deque A) (p : A)
      → IsValid d
      → 3 * d.cap < 2 ^ 64
      → ((d' : Deque A) × (pushl null grants junk d p ≡ some d')
          × IsValid d'
          × (contents null d' ≡ p ∷ contents null d)
          × ((grants ≡ true) ⊎ (d.len < d.cap)))
        ⊎ ((pushl null grants junk d p ≡ none) × (grants ≡ false) × (d.len ≡ d.cap))
  unfolding pushl
  pushl_lem grants junk d p v small = elim (Option-cases (reserve null grants junk d)) [
    | inl failed ↦
        let f = (reserve-none grants junk d).0 failed in inr (rw (failed, pushl), f.0, omega arith)
    | inr (g, done) ↦
        let k = reserve-Reserved grants junk d g v small done in
        let l = put_left-lem g p k.valid k.spare in
        inl (
          put_left null p g,
          rw (done, pushl),
          l.0,
          l.1 ∙ ap (◌∷◌ p) k.same,
          reserve-some grants junk d g done,
        )
  ]

  -- Only a full deque grows, by half.
  pub cap-pushr :
      (grants : Bool) (junk : A) (d d' : Deque A) (p : A)
      → pushr null grants junk d p ≡ some d'
      → (d'.cap ≤ d.cap) ⊎ (2 * d'.cap ≤ 3 * d.len)
  unfolding pushr reserve put_right
  cap-pushr grants junk d d' p h = ground arith
