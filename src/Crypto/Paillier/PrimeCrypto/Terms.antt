-- ===== src/Crypto/Paillier/PrimeCrypto/Terms.antt =====
-- The numbers of one round of the inner loop of PrimeCrypto::Decrypt, modulo a power of p.
use native.Mathlib.Nat.{pow-suc, mul_comm, add-mul-mod_self_left, one-mul}
use private_join_and_compute.Prelude.{
  ℕ, zero, suc, ◌+◌, ◌-◌, ◌*◌, ◌%◌, ◌^◌, ◌<◌, ◌≤◌, ◌≡◌, sym, ap, ◌∙◌, arith, leb, Bool-cases, inl,
  inr,
}
use private_join_and_compute.Prelude.Int.Remainder.{mod-add_cancel}
use private_join_and_compute.Prelude.Mod.{mod-mul_cong, mod-mul_both, mod-mul_cong_scale}
use private_join_and_compute.Crypto.Paillier.Binomial.{
  choose, factorial, falling, choose-factorial, choose_zero,
}

-- A number that is 1 less modulo P.
pub less_one : (P y : ℕ) → 0 < P → (y + (P - 1) + 1) % P ≡ y % P
less_one P y h =
    let e : y + (P - 1) + 1 ≡ y + P * 1 = omega (arith, h) in
    ap (λ t. t % P) e ∙ add-mul-mod_self_left y P 1

-- A number that is b less modulo P.
pub less_by : (P y b : ℕ) → 0 < P → (y + (P - 1) * b + b) % P ≡ y % P
less_by zero y b h = absurd (omega (arith, h))
less_by (suc P) y b h =
    let one : suc P - 1 ≡ P = omega arith in
    let e : y + (suc P - 1) * b + b ≡ y + suc P * b = rw one (omega arith) in
    ap (λ t. t % suc P) e ∙ add-mul-mod_self_left y (suc P) b

-- The next falling product: the number y is M - i, as an integer modulo P.
pub falling_step :
    (P M i y t : ℕ)
    → 0 < P
    → t % P ≡ falling M i % P
    → (y + i) % P ≡ M % P
    → t * y % P ≡ falling M (suc i) % P
unfolding falling
falling_step P M i y t h e f = elim (Bool-cases (leb i M)) [
  | inl l ↦
      let le : i ≤ M = ground (arith, l) in
      let whole : M - i + i ≡ M = omega (arith, le) in
      let same = mod-add_cancel y (M - i) i P h (f ∙ ap (λ k. k % P) (sym whole)) in
      mod-mul_both t (falling M i) y (M - i) P e same
  | inr l ↦
      let lt : M < i = ground (arith, l) in
      let none : falling M i ≡ 0 =
        sym (choose-factorial M i)
        ∙ ap (λ k. k * factorial i) (choose_zero M i lt)
        ∙ no_times (factorial i) in
      mod-mul_cong t (falling M i) y P e
      ∙ ap (λ k. k * y % P) none
      ∙ ap (λ k. k % P) (no_times y ∙ sym (no_times (M - i)) ∙ ap (λ k. k * (M - i)) (sym none))
]
  where
    no_times : (x : ℕ) → 0 * x ≡ 0
    no_times x = omega arith

-- What the cell (k, j) contributes is the next term of the sum.
pub cell_term :
    (p q M i j r c d : ℕ)
    → r % p ^ j ≡ falling M (suc (suc i)) % p ^ j
    → c % p ^ suc j ≡ (p * q) ^ suc i * d % p ^ suc j
    → d * factorial (suc (suc i)) % p ^ suc j ≡ 1 % p ^ suc j
    → r * c % p ^ suc j ≡ choose M (suc (suc i)) * (p * q) ^ suc i % p ^ suc j
cell_term p q M i j r c d e f g =
    let k = suc (suc i) in
    let P = p ^ suc j in
    let n = p * q in
    let v = q * n ^ i in
    let power : n ^ suc i ≡ p * v = pow-suc n i ∙ shuffle_power (n ^ i) p q in
    let scaled : r * p % P ≡ falling M k * p % P =
      rw (pow-suc p j) (mod-mul_cong_scale r (falling M k) (p ^ j) p e) in
    ap (λ x. x % P) (mul_comm r c)
    ∙ mod-mul_cong c (n ^ suc i * d) r P f
    ∙ ap (λ x. x * d * r % P) power
    ∙ ap (λ x. x % P) (shuffle_r p v d r)
    ∙ mod-mul_cong (r * p) (falling M k * p) (v * d) P scaled
    ∙ ap (λ x. x * p * (v * d) % P) (sym (choose-factorial M k))
    ∙ ap (λ x. x % P) (shuffle_choose (choose M k) (factorial k) p v d)
    ∙ mod-mul_cong (d * factorial k) 1 (choose M k * (p * v)) P g
    ∙ ap (λ x. x % P) (one-mul (choose M k * (p * v)))
    ∙ ap (λ x. choose M k * x % P) (sym power)
  where
    shuffle_power : (x p q : ℕ) → x * (p * q) ≡ p * (q * x)
    shuffle_power x p q = omega arith

    shuffle_r : (p v d r : ℕ) → p * v * d * r ≡ r * p * (v * d)
    shuffle_r p v d r = omega arith

    shuffle_choose : (ch f p v d : ℕ) → ch * f * p * (v * d) ≡ d * f * (ch * (p * v))
    shuffle_choose ch f p v d = omega arith
