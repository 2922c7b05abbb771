-- ===== src/Circle.antt =====
-- The circular window that server/ringbuffer.c and server/deque.c keep in an array: `n` entries from
-- index `begin` on, going round at `cap`, and what `memcpy` and a grown array do to it.
use native.Mathlib.Numerals.{add-one}
use dime.Base.{
  zero, suc, [], ◌∷◌, ◌==◌, set, get_or-set_self, get_or-set_ne, ℕ, ◌+◌, ◌-◌, ◌≤◌, ◌<◌, ◌≡◌, refl,
  sym, ap, ap₂, ◌∙◌, List, ◌++◌, arith, ltb, if◌then◌else◌, length, get_or, tabulate, blit, drop,
  slice, realloc, drop-tabulate, tabulate_ext, tabulate-get_or, tabulate-append, length-blit,
  get_or-blit, length-slice, get_or-slice, length-realloc, get_or-realloc,
}

-- An index below `2 * cap`, brought below `cap`.
abbrev pub wrap : ℕ → ℕ → ℕ
wrap cap k = if ltb k cap then k else k - cap

module _ {A : Type 0} (d : A) where
  abbrev pub cell : List A → ℕ → ℕ → ℕ → A
  cell arr cap begin i = get_or arr (wrap cap (begin + i)) d

  abbrev pub window : List A → ℕ → ℕ → ℕ → List A
  window arr cap begin n = tabulate n (cell arr cap begin)

  -- Moving `begin` on drops entries from the front.
  pub window-advance :
      (arr : List A) (cap begin k n : ℕ)
      → begin < cap
      → k ≤ n
      → n ≤ cap
      → window arr cap (wrap cap (begin + k)) (n - k) ≡ drop k (window arr cap begin n)
  window-advance arr cap begin k n b l m =
      tabulate_ext (n - k) _ _ (λ i h. ap (λ j. get_or arr j d) (same_index i h))
      ∙ sym (drop-tabulate k n (cell arr cap begin) l)
    where
      same_index :
          (i : ℕ) → i < n - k → wrap cap (wrap cap (begin + k) + i) ≡ wrap cap (begin + (k + i))
      same_index i h = ground arith

  -- The first entry apart, and the last.
  pub window-head :
      (arr : List A) (cap begin n : ℕ)
      → begin < cap
      → 0 < n
      → n ≤ cap
      → window arr cap begin n ≡ get_or arr begin d ∷ window arr cap (wrap cap (begin + 1)) (n - 1)
  window-head arr cap begin zero b h m = absurd (omega arith)
  window-head arr cap begin (suc n) b h m =
      ap₂ (λ j (t : List A). get_or arr j d ∷ t) (first begin b)
        (sym (window-advance arr cap begin 1 (suc n) b (omega arith) m))
    where
      first : (begin : ℕ) → begin < cap → wrap cap (begin + 0) ≡ begin
      first begin b = ground arith

  pub window-last :
      (arr : List A) (cap begin n last : ℕ)
      → 0 < n
      → last ≡ wrap cap (begin + (n - 1))
      → window arr cap begin n ≡ window arr cap begin (n - 1) ++ (get_or arr last d ∷ [])
  window-last arr cap begin n last h e =
      ap (window arr cap begin) whole
      ∙ sym (
          tabulate-append (n - 1) 1 (cell arr cap begin) (λ i. get_or arr last d)
            (cell arr cap begin) (λ i l. refl) (λ i l. ap (λ j. get_or arr j d) (index i l)))
    where
      whole : n ≡ n - 1 + 1
      whole = omega arith

      index : (i : ℕ) → i < 1 → last ≡ wrap cap (begin + (n - 1 + i))
      index i l = ground arith

  -- A block that does not reach the end of the array.
  pub window-slice :
      (arr : List A) (cap begin n : ℕ)
      → length arr ≡ cap
      → begin + n ≤ cap
      → window arr cap begin n ≡ slice arr begin n
  window-slice arr cap begin n e h =
      tabulate_ext n _ (λ i. get_or (slice arr begin n) i d)
        (λ i l. ground (arith, get_or-slice arr begin n i d))
      ∙ ap (λ k. tabulate k (λ i. get_or (slice arr begin n) i d))
          (sym (length-slice arr begin n (omega arith)))
      ∙ tabulate-get_or (slice arr begin n) d

  -- A block in two parts.
  pub window-slices :
      (arr : List A) (cap begin n : ℕ)
      → length arr ≡ cap
      → begin < cap
      → cap < begin + n
      → n ≤ cap
      → window arr cap begin n ≡ slice arr begin (cap - begin) ++ slice arr 0 (n - (cap - begin))
  window-slices arr cap begin n e b h m =
      ap (λ k. window arr cap begin k) parts
      ∙ sym (
          tabulate-append (cap - begin) (n - (cap - begin)) (cell arr cap begin) (cell arr cap 0)
            (cell arr cap begin) (λ i l. refl) (λ i l. ground arith))
      ∙ ap₂ ◌++◌ (window-slice arr cap begin (cap - begin) e (omega arith))
          (window-slice arr cap 0 (n - (cap - begin)) e (omega arith))
    where
      parts : n ≡ cap - begin + (n - (cap - begin))
      parts = omega arith

  -- After `realloc` a window that does not wrap is where it was.
  pub window-realloc :
      (junk : A) (arr : List A) (cap ncap begin n : ℕ)
      → length arr ≡ cap
      → cap ≤ ncap
      → begin + n ≤ cap
      → window (realloc junk arr ncap) ncap begin n ≡ window arr cap begin n
  window-realloc junk arr cap ncap begin n e c h =
      tabulate_ext n _ _ (λ i l. ground (arith, get_or-realloc junk arr ncap (begin + i) d))

  -- `realloc`, then the part from `begin` to the old end moved to the new end by `memmove`.
  abbrev pub spread : A → List A → ℕ → ℕ → ℕ → List A
  spread junk arr ncap begin nbegin =
      let narr = realloc junk arr ncap in blit narr nbegin (slice narr begin (ncap - nbegin))

  pub length-spread :
      (junk : A) (arr : List A) (ncap begin nbegin : ℕ)
      → length arr ≤ ncap
      → length (spread junk arr ncap begin nbegin) ≡ ncap
  length-spread junk arr ncap begin nbegin c =
      length-blit (realloc junk arr ncap) nbegin _ ∙ length-realloc junk arr ncap c

  spread-cell :
      (junk : A) (arr : List A) (cap ncap begin nbegin i : ℕ)
      → length arr ≡ cap
      → cap ≤ ncap
      → begin < cap
      → nbegin ≡ begin + (ncap - cap)
      → i < cap
      → cell (spread junk arr ncap begin nbegin) ncap nbegin i ≡ cell arr cap begin i
  spread-cell junk arr cap ncap begin nbegin i e c b n l = ground (
    arith,
    get_or-blit narr nbegin moved (wrap ncap (nbegin + i)) d,
    length-slice narr begin (ncap - nbegin),
    length-realloc junk arr ncap,
    get_or-slice narr begin (ncap - nbegin) (nbegin + i - nbegin) d,
    get_or-realloc junk arr ncap (wrap cap (begin + i)) d,
  )
    where
      narr : List A
      narr = realloc junk arr ncap

      moved : List A
      moved = slice narr begin (ncap - nbegin)

  pub window-spread :
      (junk : A) (arr : List A) (cap ncap begin nbegin n : ℕ)
      → length arr ≡ cap
      → cap ≤ ncap
      → begin < cap
      → nbegin ≡ begin + (ncap - cap)
      → n ≤ cap
      → window (spread junk arr ncap begin nbegin) ncap nbegin n ≡ window arr cap begin n
  window-spread junk arr cap ncap begin nbegin n e c b m h =
      tabulate_ext n _ _ (λ i l. spread-cell junk arr cap ncap begin nbegin i e c b m (omega arith))

  -- One entry written behind a window, and one before it.
  pub window-set_end :
      (arr : List A) (cap begin n stop : ℕ) (x : A)
      → length arr ≡ cap
      → begin < cap
      → n < cap
      → stop ≡ wrap cap (begin + n)
      → window (set arr stop x) cap begin (n + 1) ≡ window arr cap begin n ++ (x ∷ [])
  window-set_end arr cap begin n stop x e b h at_end = sym (
      tabulate-append n 1 (cell arr cap begin) (λ i. x) (cell (set arr stop x) cap begin)
        (λ i l. sym (get_or-set_ne arr stop (wrap cap (begin + i)) x d (ground arith)))
        (λ i l. sym (
          ap (λ k. get_or (set arr stop x) k d) (last i l)
          ∙ get_or-set_self arr stop x d (ground arith))))
    where
      last : (i : ℕ) → i < 1 → wrap cap (begin + (n + i)) ≡ stop
      last i l = ground arith

  pub window-set_front :
      (arr : List A) (cap begin n first : ℕ) (x : A)
      → length arr ≡ cap
      → begin < cap
      → n < cap
      → first ≡ (if begin == 0 then cap else begin) - 1
      → window (set arr first x) cap first (n + 1) ≡ x ∷ window arr cap begin n
  window-set_front arr cap begin n first x e b h before =
      ap (window (set arr first x) cap first) (add-one n)
      ∙ ap₂ ◌∷◌
          (ap (λ k. get_or (set arr first x) k d) here
            ∙ get_or-set_self arr first x d (ground arith))
          (tabulate_ext n _ _ (λ i l.
            ap (λ k. get_or (set arr first x) k d) (next i l)
            ∙ get_or-set_ne arr first (wrap cap (begin + i)) x d (ground arith)))
    where
      here : wrap cap (first + 0) ≡ first
      here = ground arith

      next : (i : ℕ) → i < n → wrap cap (first + suc i) ≡ wrap cap (begin + i)
      next i l = ground arith

  -- A write at `stop`, in one or two `memcpy`, of which the second starts over at index 0.
  abbrev pub put_block : List A → ℕ → ℕ → List A → List A
  put_block arr cap stop buf =
      if ltb (cap - stop) (length buf)
      then blit (blit arr stop (slice buf 0 (cap - stop))) 0
          (slice buf (cap - stop) (length buf - (cap - stop)))
      else blit arr stop buf

  pub length-put_block :
      (arr : List A) (cap stop : ℕ) (buf : List A)
      → length (put_block arr cap stop buf) ≡ length arr
  length-put_block arr cap stop buf = ground (
    arith,
    length-blit (blit arr stop (slice buf 0 (cap - stop))) 0
        (slice buf (cap - stop) (length buf - (cap - stop))),
    length-blit arr stop (slice buf 0 (cap - stop)),
    length-blit arr stop buf,
  )

  module _ (arr : List A) (cap begin n stop : ℕ) (buf : List A) (e : length arr ≡ cap)
      (b : begin < cap) (at_end : stop ≡ wrap cap (begin + n)) (fits : n + length buf ≤ cap)
      (nonempty : n < cap) where
    first_part : List A
    first_part = slice buf 0 (cap - stop)

    second_part : List A
    second_part = slice buf (cap - stop) (length buf - (cap - stop))

    put_block-cell :
        (i : ℕ)
        → i < n + length buf
        → cell (put_block arr cap stop buf) cap begin i
          ≡ (if ltb i n then cell arr cap begin i else get_or buf (i - n) d)
    unfolding first_part second_part
    put_block-cell i l = ground (
      arith,
      get_or-blit (blit arr stop first_part) 0 second_part (wrap cap (begin + i)) d,
      get_or-blit arr stop first_part (wrap cap (begin + i)) d,
      get_or-blit arr stop buf (wrap cap (begin + i)) d,
      length-blit arr stop first_part,
      length-slice buf 0 (cap - stop),
      length-slice buf (cap - stop) (length buf - (cap - stop)),
      get_or-slice buf 0 (cap - stop) (i - n) d,
      get_or-slice buf (cap - stop) (length buf - (cap - stop)) (i - n - (cap - stop)) d,
    )

    pub window-put_block :
        window (put_block arr cap stop buf) cap begin (n + length buf)
        ≡ window arr cap begin n ++ buf
    window-put_block =
        sym (
          tabulate-append n (length buf) (cell arr cap begin) (λ i. get_or buf i d)
            (cell (put_block arr cap stop buf) cap begin) (λ i l. ground (arith, put_block-cell i))
            (λ i l. ground (arith, put_block-cell (n + i))))
        ∙ ap (◌++◌ (window arr cap begin n)) (tabulate-get_or buf d)
