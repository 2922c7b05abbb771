-- ===== src/Table/Total.antt =====
-- The probing loops of server/table.c end: while a cell is free they meet one within as many probes
-- as there are cells.
use Prim.Native.Nat.add
use native.Mathlib.Nat.{mod-lt, mod-eq_of_lt, mod-add-mod, add-mul-mod_self_right}
use dime.Base.{
  ℕ, zero, suc, ◌+◌, ◌-◌, ◌*◌, ◌%◌, ◌^◌, ◌≤◌, ◌<◌, ◌≡◌, ◌≢◌, sym, ap, subst, ◌∙◌, Bool, true, false,
  none, arith, inl, inr, Bool-cases, length,
}
use dime.Table.{is_occupied, is_free, Elem, Table, slot, next}
use dime.Table.Find.{
  find-free, find-hit, find-miss, probe-vacant, probe-met, probe-pass, occupied_not_free,
}
use dime.Table.Access.{hit, find, probe, home}
use dime.Table.Coverage.{tri, Congruent, tri_covers}

-- The representation invariant of a table: its array, and a capacity that is a power of two.
pub record IsValid {K V : Type 0} (t : Table K V) : Type 0 where
  pub storage : length t.arr ≡ t.cap
  pub exponent : ℕ
  pub power : t.cap ≡ 2 ^ exponent
  pub small : t.cap ≤ 2 ^ 62

-- A cell that is free.
pub record HasFree {K V : Type 0} (junk : Elem K V) (t : Table K V) : Type 0 where
  pub cell_index : ℕ
  pub inside : cell_index < t.cap
  pub vacant : is_free (slot junk t cell_index).use_of ≡ true

positive : (p : ℕ) → 0 < 2 ^ p
positive zero = ground arith
positive (suc p) = ground (arith, positive p)

fits : (a m c : ℕ) → a < c → suc m ≤ c → c ≤ 2 ^ 62 → a + (m + 1) < 2 ^ 64
fits a m c l n s = omega arith

lands : (c s i a x y : ℕ) → s < c → i < c → a + x * c ≡ (i + c - s) + y * c → (s + a) % c ≡ i
lands c s i a x y l m e =
    let around : (s + a) + x * c ≡ i + (y + 1) * c = omega (arith, e, l) in
    sym (add-mul-mod_self_right (s + a) x c)
    ∙ ap (λ n. n % c) around
    ∙ add-mul-mod_self_right i (y + 1) c
    ∙ mod-eq_of_lt m

module _ {K V : Type 0} (junk : Elem K V) (t : Table K V) (start : ℕ) where
  -- Where the probe of number `m` looks, the first being number 0.
  pub probed : ℕ → ℕ
  probed zero = start % t.cap
  probed (suc m) = next junk t (probed m) (m + 1)

  probed-tri : IsValid t → (m : ℕ) → m ≤ t.cap → probed m ≡ (start + tri m) % t.cap
  unfolding probed
  probed-tri v zero l = ap (λ n. n % t.cap) (omega arith)
  probed-tri v (suc m) l =
      let before = probed-tri v m (omega arith) in
      let inside : probed m < t.cap =
        subst (λ n. n < t.cap) (sym before) (mod-lt (start + tri m) (omega arith)) in
      ap (λ n. n % t.cap) (mod-eq_of_lt (fits (probed m) m t.cap inside l v.small))
      ∙ ap (λ n. (n + (m + 1)) % t.cap) before
      ∙ mod-add-mod (start + tri m) t.cap (m + 1)
      ∙ ap (λ n. n % t.cap) (omega arith)

  -- Every cell is probed.
  pub probed_covers : IsValid t → (i : ℕ) → i < t.cap → (m : ℕ) × (m < t.cap) × (probed m ≡ i)
  probed_covers v i l =
      let s = start % t.cap in
      let inside : s < t.cap = mod-lt start (omega arith) in
      let covers : (n : ℕ) × (n < t.cap) × Congruent t.cap (tri n) (i + t.cap - s) =
        subst (λ c. (n : ℕ) × (n < c) × Congruent c (tri n) (i + t.cap - s)) (sym v.power)
          (tri_covers v.exponent (i + t.cap - s)) in
      let (n, early, congruent) = covers in
      let (x, y, e) = congruent in
      (
        n,
        early,
        probed-tri v n (omega arith)
            ∙ sym (mod-add-mod start t.cap (tri n))
            ∙ lands t.cap s i (tri n) x y inside l e,
      )

  -- A loop that is out of fuel with the probes from number `m` on, and has met no free cell.
  module _ (Out : ℕ → ℕ → Type 0)
      (step : (fuel m : ℕ)
        → Out (suc fuel) m
        → (is_free (slot junk t (probed m)).use_of ≡ false) × Out fuel (suc m)) where
    all_passed :
        (fuel m : ℕ)
        → Out fuel m
        → (j : ℕ) → j < fuel
        → is_free (slot junk t (probed (m + j))).use_of ≡ false
    all_passed zero m out j l = absurd (omega arith)
    all_passed (suc fuel) m out zero l =
        subst (λ n. is_free (slot junk t (probed n)).use_of ≡ false) (omega arith)
          (step fuel m out).0
    all_passed (suc fuel) m out (suc j) l =
        subst (λ n. is_free (slot junk t (probed n)).use_of ≡ false) (omega arith)
          (all_passed fuel (suc m) (step fuel m out).1 j (omega arith))

    never_out : (fuel : ℕ) → IsValid t → HasFree junk t → t.cap ≤ fuel → ¬ Out fuel 0
    never_out fuel v h enough out =
        let (m, early, there) = probed_covers v h.cell_index h.inside in
        let at_m : probed (0 + m) ≡ h.cell_index = ap probed (add.zero m) ∙ there in
        let taken : is_free (slot junk t h.cell_index).use_of ≡ false =
          subst (λ n. is_free (slot junk t n).use_of ≡ false) at_m
            (all_passed fuel 0 out m (omega arith)) in
        cc (taken, h.vacant)

  module _ (cmp : K → K → Bool) (hash_f : K → ℕ) (key : K) where
    find_step :
        (fuel m : ℕ)
        → find junk cmp hash_f (suc fuel) t key (probed m) (m + 1) ≡ none
        → (is_free (slot junk t (probed m)).use_of ≡ false)
          × (find junk cmp hash_f fuel t key (probed (suc m)) (suc m + 1) ≡ none)
    unfolding probed
    find_step fuel m e = elim (Bool-cases (is_free (slot junk t (probed m)).use_of)) [
      | inl vacant ↦ cc (find-free junk cmp hash_f fuel t key (probed m) (m + 1) vacant, e)
      | inr taken ↦ elim (Bool-cases (hit junk cmp hash_f t key (probed m))) [
        | inl here ↦ cc (find-hit junk cmp hash_f fuel t key (probed m) (m + 1) taken here, e)
        | inr miss ↦ (
          taken,
          ap (find junk cmp hash_f fuel t key (probed (suc m))) (omega arith)
              ∙ sym (find-miss junk cmp hash_f fuel t key (probed m) (m + 1) taken miss)
              ∙ e,
        )
      ]
    ]

    probe_step :
        (fuel m : ℕ)
        → probe junk cmp hash_f (suc fuel) t key (probed m) (m + 1) ≡ none
        → (is_free (slot junk t (probed m)).use_of ≡ false)
          × (probe junk cmp hash_f fuel t key (probed (suc m)) (suc m + 1) ≡ none)
    unfolding probed
    probe_step fuel m e = elim (Bool-cases (is_occupied (slot junk t (probed m)).use_of)) [
      | inr vacant ↦ cc (probe-vacant junk cmp hash_f fuel t key (probed m) (m + 1) vacant, e)
      | inl taken ↦ elim (Bool-cases (cmp key (slot junk t (probed m)).key)) [
        | inl met ↦ cc (probe-met junk cmp hash_f fuel t key (probed m) (m + 1) taken met, e)
        | inr passed ↦ (
          occupied_not_free junk cmp hash_f _ taken,
          ap (probe junk cmp hash_f fuel t key (probed (suc m))) (omega arith)
              ∙ sym (probe-pass junk cmp hash_f fuel t key (probed m) (m + 1) taken passed)
              ∙ e,
        )
      ]
    ]

module _ {K V : Type 0} (junk : Elem K V) (cmp : K → K → Bool) (hash_f : K → ℕ) (t : Table K V)
    (key : K) where
  -- The loops of the search and of the insertion end, from the key's home.
  pub find-total :
      (fuel : ℕ)
      → IsValid t
      → HasFree junk t
      → t.cap ≤ fuel
      → find junk cmp hash_f fuel t key (home junk cmp hash_f t key) 1 ≢ none
  unfolding probed
  find-total fuel v h enough =
      never_out junk t (hash_f key)
        (λ n m. find junk cmp hash_f n t key (probed junk t (hash_f key) m) (m + 1) ≡ none)
        (find_step junk t (hash_f key) cmp hash_f key) fuel v h enough

  pub probe-total :
      (fuel : ℕ)
      → IsValid t
      → HasFree junk t
      → t.cap ≤ fuel
      → probe junk cmp hash_f fuel t key (home junk cmp hash_f t key) 1 ≢ none
  unfolding probed
  probe-total fuel v h enough =
      never_out junk t (hash_f key)
        (λ n m. probe junk cmp hash_f n t key (probed junk t (hash_f key) m) (m + 1) ≡ none)
        (probe_step junk t (hash_f key) cmp hash_f key) fuel v h enough
