-- ===== src/Crypto/Paillier/Coprime.antt =====
-- Numbers modulo the product of two moduli that are prime to each other, for the theorems about the
-- two primes of a key of crypto/paillier.cc.
use native.Mathlib.Nat.{
  one-mul, mul_comm, mul_assoc, mul-mod_right, zero-mod, add-mul-mod_self_left, div-add-mod,
}
use private_join_and_compute.Prelude.{
  ℕ, suc, ◌+◌, ◌-◌, ◌*◌, ◌/◌, ◌%◌, ◌<◌, ◌≡◌, refl, sym, ap, subst, ◌∙◌, arith,
}
use private_join_and_compute.Prelude.Int.Remainder.{complement, mod-add_cancel}
use private_join_and_compute.Prelude.Mod.{mod-mul_cong, mod-mul_both, mod-add_cong, mod-mul_cancel}

vanishes_both :
    (P Q v c : ℕ) → P * v % Q ≡ 1 % Q → c % P ≡ 0 % P → c % Q ≡ 0 % Q → c % (P * Q) ≡ 0 % (P * Q)
vanishes_both P Q v c unit e f =
    let none = zero-mod in
    let split : c ≡ P * (c / P) =
      sym (div-add-mod c P) ∙ ap (λ t. P * (c / P) + t) (e ∙ none P) ∙ no_more (P * (c / P)) in
    let u = c / P in
    let on_q : u * P % Q ≡ 0 * P % Q =
      ap (λ t. t % Q) (mul_comm u P ∙ sym split) ∙ f ∙ ap (λ t. t % Q) (sym (no_times P)) in
    let u_vanishes : u % Q ≡ 0 = mod-mul_cancel u 0 P v Q on_q unit ∙ none Q in
    let split_u : u ≡ Q * (u / Q) =
      sym (div-add-mod u Q) ∙ ap (λ t. Q * (u / Q) + t) u_vanishes ∙ no_more (Q * (u / Q)) in
    ap (λ t. t % (P * Q)) (split ∙ ap (λ t. P * t) split_u ∙ sym (mul_assoc P Q (u / Q)))
    ∙ mul-mod_right (P * Q) (u / Q)
    ∙ sym (none (P * Q))
  where
    no_more : (x : ℕ) → x + 0 ≡ x
    no_more x = omega arith

    no_times : (x : ℕ) → 0 * x ≡ 0
    no_times x = omega arith

-- Two numbers that agree modulo P and modulo Q, where P has an inverse modulo Q, agree modulo P * Q.
pub crt_unique :
    (P Q v a b : ℕ)
    → 0 < P * Q
    → P * v % Q ≡ 1 % Q
    → a % P ≡ b % P
    → a % Q ≡ b % Q
    → a % (P * Q) ≡ b % (P * Q)
crt_unique P Q v a b h unit e f =
    let N = P * Q in
    let d = N - b % N in
    let full : b + d ≡ N * suc (b / N) = swap b d ∙ complement b N h in
    let on_p : (a + d) % P ≡ 0 % P =
      mod-add_cong a b d d P e refl
      ∙ ap (λ t. t % P) (full ∙ mul_assoc P Q (suc (b / N)))
      ∙ mul-mod_right P (Q * suc (b / N))
      ∙ sym (zero-mod P) in
    let on_q : (a + d) % Q ≡ 0 % Q =
      mod-add_cong a b d d Q f refl
      ∙ ap (λ t. t % Q)
          (full ∙ ap (λ t. t * suc (b / N)) (mul_comm P Q) ∙ mul_assoc Q P (suc (b / N)))
      ∙ mul-mod_right Q (P * suc (b / N))
      ∙ sym (zero-mod Q) in
    mod-add_cancel a b d N h (
      vanishes_both P Q v (a + d) unit on_p on_q
      ∙ zero-mod N
      ∙ sym (ap (λ t. t % N) full ∙ mul-mod_right N (suc (b / N))))
  where
    swap : (x y : ℕ) → x + y ≡ y + x
    swap x y = omega arith

-- Where b is congruent to 1 modulo P, so is a + b - a * b, written without a difference.
near_one : (P K a b : ℕ) → 0 < P * K → b % P ≡ 1 % P → (b + a + (P * K - 1) * (b * a)) % P ≡ 1 % P
near_one P K a b h e =
    let N = P * K in
    let less : N - 1 + 1 ≡ N = omega (arith, h) in
    let one : b * a % P ≡ 1 * a % P = mod-mul_cong b 1 a P e in
    let swapped : (N - 1) * (b * a) % P ≡ (N - 1) * a % P =
      mod-mul_both (N - 1) (N - 1) (b * a) a P refl (one ∙ ap (λ t. t % P) (one-mul a)) in
    let whole : 1 + a + (N - 1) * a ≡ 1 + P * (K * a) =
      shuffle (N - 1) a ∙ ap (λ t. 1 + t * a) less ∙ ap (λ t. 1 + t) (mul_assoc P K a) in
    mod-add_cong (b + a) (1 + a) ((N - 1) * (b * a)) ((N - 1) * a) P (mod-add_cong b 1 a a P e refl)
      swapped
    ∙ ap (λ t. t % P) whole
    ∙ add-mul-mod_self_left 1 P (K * a)
  where
    shuffle : (x a : ℕ) → 1 + a + x * a ≡ 1 + (x + 1) * a
    shuffle x a = omega arith

-- Inverses modulo P and modulo Q give one modulo P * Q.
pub crt_unit :
    (P Q e a v w : ℕ)
    → 0 < P * Q
    → P * e % Q ≡ 1 % Q
    → a * v % P ≡ 1 % P
    → a * w % Q ≡ 1 % Q
    → (u : ℕ) × (a * u % (P * Q) ≡ 1 % (P * Q))
crt_unit P Q e a v w h unit on_p on_q =
    let N = P * Q in
    let A = a * v in
    let B = a * w in
    let u = v + w + (N - 1) * (v * (a * w)) in
    let at_p : a * u ≡ A + B + (N - 1) * (A * B) = shuffle (N - 1) a v w in
    let at_q : a * u ≡ B + A + (Q * P - 1) * (B * A) =
      shuffle' (N - 1) a v w ∙ ap (λ t. B + A + (t - 1) * (B * A)) (mul_comm P Q) in
    (
      u,
      crt_unique P Q e (a * u) 1 h unit (ap (λ t. t % P) at_p ∙ near_one P Q B A h on_p)
          (ap (λ t. t % Q) at_q ∙ near_one Q P A B (subst (λ t. 0 < t) (mul_comm P Q) h) on_q),
    )
  where
    shuffle :
        (x a v w : ℕ) → a * (v + w + x * (v * (a * w))) ≡ a * v + a * w + x * (a * v * (a * w))
    shuffle x a v w = omega arith

    shuffle' :
        (x a v w : ℕ) → a * (v + w + x * (v * (a * w))) ≡ a * w + a * v + x * (a * w * (a * v))
    shuffle' x a v w = omega arith
