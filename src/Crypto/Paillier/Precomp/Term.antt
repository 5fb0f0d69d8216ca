-- ===== src/Crypto/Paillier/Precomp/Term.antt =====
-- ComputeByBinomialExpansion: what one round of its loop adds.
use native.Mathlib.Nat.{pow-suc, mul_comm}
use private_join_and_compute.Prelude.{
  ℕ, suc, ◌+◌, ◌-◌, ◌*◌, ◌%◌, ◌^◌, ◌≤◌, ◌≡◌, sym, ap, ◌∙◌, arith,
}
use private_join_and_compute.Prelude.Mod.{
  mod-mul_cong, mod-mul_cong_scale, mod_cong_down, pow_add, pow_mul,
}
use private_join_and_compute.Crypto.Paillier.Binomial.{choose, factorial, falling, choose-factorial}

-- One term: what the loop multiplies is the binomial coefficient times the power of n = b * w, modulo
-- a power of b.
term-choose :
    (b w m i r t c d : ℕ)
    → t % b ^ suc r ≡ falling m (suc i) % b ^ suc r
    → c % b ^ (suc r + suc i) ≡ (b * w) ^ suc i * d % b ^ (suc r + suc i)
    → d * factorial (suc i) % b ^ (suc r + suc i) ≡ 1 % b ^ (suc r + suc i)
    → t * c % b ^ (suc r + suc i) ≡ choose m (suc i) * (b * w) ^ suc i % b ^ (suc r + suc i)
term-choose b w m i r t c d e f g =
    let M = b ^ (suc r + suc i) in
    let p = b ^ suc i in
    let scaled : t * p % M ≡ falling m (suc i) * p % M =
      rw (pow_add b (suc r) (suc i)) (mod-mul_cong_scale t (falling m (suc i)) (b ^ suc r) p e) in
    let v = w ^ suc i in
    let ch = choose m (suc i) in
    ap (λ x. x % M) (mul_comm t c)
    ∙ mod-mul_cong c ((b * w) ^ suc i * d) t M f
    ∙ ap (λ x. x * d * t % M) (pow_mul b w (suc i))
    ∙ ap (λ x. x % M) (shuffle_td p v d t)
    ∙ mod-mul_cong (t * p) (falling m (suc i) * p) (v * d) M scaled
    ∙ ap (λ x. x * p * (v * d) % M) (sym (choose-factorial m (suc i)))
    ∙ ap (λ x. x % M) (shuffle_ch ch (factorial (suc i)) p v d)
    ∙ mod-mul_cong (d * factorial (suc i)) 1 (ch * (p * v)) M g
    ∙ ap (λ x. x % M) (one_times (ch * (p * v)))
    ∙ ap (λ x. ch * x % M) (sym (pow_mul b w (suc i)))
  where
    shuffle_td : (p v d t : ℕ) → p * v * d * t ≡ t * p * (v * d)
    shuffle_td p v d t = omega arith

    shuffle_ch : (ch f p v d : ℕ) → ch * f * p * (v * d) ≡ d * f * (ch * (p * v))
    shuffle_ch ch f p v d = omega arith

    one_times : (x : ℕ) → 1 * x ≡ x
    one_times x = omega arith

pub term-choose_at :
    (b w m i r t c d k : ℕ)
    → suc r + suc i ≡ k
    → t % b ^ suc r ≡ falling m (suc i) % b ^ suc r
    → c % b ^ k ≡ (b * w) ^ suc i * d % b ^ k
    → d * factorial (suc i) % b ^ k ≡ 1 % b ^ k
    → t * c % b ^ k ≡ choose m (suc i) * (b * w) ^ suc i % b ^ k
term-choose_at b w m i r t c d k same e f g =
    rw (← same) (term-choose b w m i r t c d e (rw (← same) at f) (rw (← same) at g))

-- The next falling product, modulo one power of n less.
pub falling-next :
    (b m i r t : ℕ)
    → t % b ^ suc (suc r) ≡ falling m i % b ^ suc (suc r)
    → suc i ≤ m
    → t * (m - suc i + 1) % b ^ suc r ≡ falling m (suc i) % b ^ suc r
unfolding falling
falling-next b m i r t e h =
    let same : m - suc i + 1 ≡ m - i = omega (arith, h) in
    rw same (
      mod-mul_cong t (falling m i) (m - i) (b ^ suc r)
        (mod_cong_down t (falling m i) (b ^ suc r) b (rw (pow-suc b (suc r)) at e)))
