-- ===== src/Table/Coverage.antt =====
-- The probing sequence of server/table.c adds 1, 2, 3 and so on to the home index. On a capacity that
-- is a power of two it meets every cell within as many probes as there are cells.
use dime.Base.{
  ℕ, zero, suc, ◌+◌, ◌-◌, ◌*◌, ◌%◌, ◌^◌, ◌<◌, ◌≡◌, refl, sym, ap, subst, arith, inl, inr, ◌⊎◌, ◌/◌,
  ◌==◌, Bool-cases,
}

-- The triangular numbers.
abbrev pub tri : ℕ → ℕ
tri zero = 0
tri (suc n) = tri n + (n + 1)

-- What is congruent to `a`, above it.
abbrev pub Congruent : ℕ → ℕ → ℕ → Type 0
Congruent q a b = (x : ℕ) × (y : ℕ) × (a + x * q ≡ b + y * q)

tri_double : (n : ℕ) → 2 * tri n ≡ n * (n + 1)
tri_double zero = refl
tri_double (suc n) = ground (arith, tri_double n)

mirrored :
    (q n m : ℕ) → n + m + 1 ≡ 2 * q → m * (m + 1) + 4 * q * n + 2 * q ≡ n * (n + 1) + 4 * q * q
mirrored q n m e =
    omega (arith, ap (λ (t : ℕ). t * m) e, ap (λ (t : ℕ). t * n) e, ap (λ (t : ℕ). t * q) e)

-- The mirror image of a probe, half a turn away.
tri_mirror : (q n m : ℕ) → n + m + 1 ≡ 2 * q → tri m + 2 * q * n + q ≡ tri n + 2 * q * q
tri_mirror q n m e =
    let square : m * (m + 1) + 4 * q * n + 2 * q ≡ n * (n + 1) + 4 * q * q = mirrored q n m e in
    omega (arith, tri_double n, tri_double m, square)

parity : (x : ℕ) → (h : ℕ) × ((x ≡ 2 * h) ⊎ (x ≡ 2 * h + 1))
parity x = elim (Bool-cases (x % 2 == 0)) [
  | inl e ↦ (x / 2, inl ground arith)
  | inr e ↦ (x / 2, inr ground arith)
]

halve : (q a b : ℕ) → Congruent q a b → Congruent (2 * q) a b ⊎ Congruent (2 * q) (a + q) b
halve q a b (x, y, e) =
    let (g, px) = parity x in
    let (h, py) = parity y in
    elim px [
      | inl ex ↦ elim py [
        | inl ey ↦ inl (g, h, omega (arith, e, ap (λ (t : ℕ). t * q) ex, ap (λ (t : ℕ). t * q) ey))
        | inr ey ↦
            inr (g, h + 1, omega (arith, e, ap (λ (t : ℕ). t * q) ex, ap (λ (t : ℕ). t * q) ey))
      ]
      | inr ex ↦ elim py [
        | inl ey ↦ inr (g, h, omega (arith, e, ap (λ (t : ℕ). t * q) ex, ap (λ (t : ℕ). t * q) ey))
        | inr ey ↦ inl (g, h, omega (arith, e, ap (λ (t : ℕ). t * q) ex, ap (λ (t : ℕ). t * q) ey))
      ]
    ]

turned :
    (q r n m a b x y t : ℕ)
    → r ≡ 2 * q
    → b + 2 * q * n + q ≡ a + 2 * q * q
    → a + q + x * (2 * q) ≡ t + y * (2 * q)
    → b + (n + 1 + x) * r ≡ t + (y + q) * r
turned q r n m a b x y t d mirror e =
    subst (λ r. b + (n + 1 + x) * r ≡ t + (y + q) * r) (sym d) (omega (arith, mirror, e))

-- Every number is congruent to a triangular number from before 2 ^ p, modulo 2 ^ p.
pub tri_covers : (p t : ℕ) → (n : ℕ) × (n < 2 ^ p) × Congruent (2 ^ p) (tri n) t
tri_covers zero t = (0, ground arith, (t, 0, ground arith))
tri_covers (suc p) t =
    let (n, l, c) = tri_covers p t in
    elim (halve (2 ^ p) (tri n) t c) [
      | inl same ↦ (n, ground arith, ground arith)
      | inr (x, y, e) ↦
          let q = 2 ^ p in
          let m = 2 * q - 1 - n in
          let mirror = tri_mirror q n m (omega arith) in
          (
            m,
            ground arith,
            (
              n + 1 + x,
              y + q,
              turned q (2 ^ suc p) n m (tri n) (tri m) x y t (ground arith) mirror e,
            ),
          )
    ]
