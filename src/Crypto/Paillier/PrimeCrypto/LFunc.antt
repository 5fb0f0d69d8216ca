-- ===== src/Crypto/Paillier/PrimeCrypto/LFunc.antt =====
-- PrimeCrypto::LFunc: the logarithm's sum of a power of 1 + n.
use native.Mathlib.Nat.{
  one-le-pow, mod-lt, mod-eq_of_lt, pow-suc, mul-mod_right, mul_assoc, mul_comm,
  mul-div_cancel_left, div-add-mod, mul-add-mod_self_left, add-mul-mod_self_left,
  eq_of_mul-eq-mul_left, mul-pos, one-mul,
}
use private_join_and_compute.Prelude.{
  ℕ, suc, ◌+◌, ◌-◌, ◌*◌, ◌/◌, ◌%◌, ◌^◌, ◌<◌, ◌≤◌, ◌≡◌, refl, sym, ap, subst, ◌∙◌, arith,
}
use private_join_and_compute.Prelude.Int.{pos}
use private_join_and_compute.Prelude.Int.Remainder.{mod-add_cancel}
use private_join_and_compute.Prelude.Mod.{mod-mul_cong, mod_cong_down}
use private_join_and_compute.Util.Result.{ok}
use private_join_and_compute.Crypto.OpenSsl.{OpenSsl}
use private_join_and_compute.Crypto.OpenSsl.Laws.{BnLaws}
use private_join_and_compute.Crypto.BigNum.Laws.{of_u64-ok, mod_mul-ok, sub-ok, div-ok}
use private_join_and_compute.Crypto.Paillier.Fermat.{above_one}
use private_join_and_compute.Crypto.Paillier.PrimeCrypto.{PrimeCrypto, l_func, get_p_to_exp}
use private_join_and_compute.Crypto.Paillier.PrimeCrypto.Key.{IsPrimeKey}

mod-times : (p a k : ℕ) → 0 < p → 0 < k → p * a % (p * k) ≡ p * (a % k)
mod-times p a k h g =
    let split : p * a ≡ p * k * (a / k) + p * (a % k) =
      ap (λ t. p * t) (sym (div-add-mod a k)) ∙ shuffle p k (a / k) (a % k) in
    ap (λ t. t % (p * k)) split
    ∙ mul-add-mod_self_left (p * k) (a / k) (p * (a % k))
    ∙ mod-eq_of_lt (times_lt p (a % k) k h (mod-lt a g))
  where
    shuffle : (p k x y : ℕ) → p * (k * x + y) ≡ p * k * x + p * y
    shuffle p k x y = omega arith

    times_lt_by : (p x d : ℕ) → 0 < p → p * x < p * (x + suc d)
    times_lt_by p x d h = omega (arith, h)

    times_lt : (p x k : ℕ) → 0 < p → x < k → p * x < p * k
    times_lt p x k h g =
        let split : x + suc (k - x - 1) ≡ k = omega (arith, g) in
        subst (λ t. p * x < p * t) split (times_lt_by p x (k - x - 1) h)

-- A common factor of both sides and of the modulus is cancelled.
mod-mul_strip : (p a b k : ℕ) → 0 < p → 0 < k → p * a % (p * k) ≡ p * b % (p * k) → a % k ≡ b % k
mod-mul_strip p a b k h g e =
    eq_of_mul-eq-mul_left p h (a % k) (b % k) (sym (mod-times p a k h g) ∙ e ∙ mod-times p b k h g)

-- The quotient by p of u - 1, where u is 1 + p * x modulo p * k.
quotient :
    (p u x k : ℕ)
    → 1 < p
    → 0 < k
    → u % (p * k) ≡ (1 + p * x) % (p * k)
    → (1 ≤ u) × ((u - 1) % p ≡ 0) × ((u - 1) / p % k ≡ x % k)
quotient p u x k h g e =
    let near : u % p ≡ 1 % p = mod_cong_down u (1 + p * x) p k e ∙ add-mul-mod_self_left 1 p x in
    let v = u / p in
    let split : u ≡ 1 + p * v = above_one u p h near in
    let less : u - 1 ≡ p * v = omega (arith, split) in
    let positive : 0 < p = omega (arith, h) in
    let swapped : (p * v + 1) % (p * k) ≡ (p * x + 1) % (p * k) =
      ap (λ t. t % (p * k)) (swap (p * v) ∙ sym split)
      ∙ e
      ∙ ap (λ t. t % (p * k)) (sym (swap (p * x))) in
    (
      omega (arith, split),
      ap (λ t. t % p) less ∙ mul-mod_right p v,
      ap (λ t. t / p % k) less
          ∙ ap (λ t. t % k) (mul-div_cancel_left v positive)
          ∙ mod-mul_strip p v x k positive g
              (mod-add_cancel (p * v) (p * x) 1 (p * k) (mul-pos positive g) swapped),
    )
  where
    swap : (y : ℕ) → y + 1 ≡ 1 + y
    swap y = omega arith

module _ ⦃lib : OpenSsl⦄ (laws : BnLaws lib) (p q s : ℕ) (c : PrimeCrypto lib)
    (key : IsPrimeKey laws p q s c) (h : 1 < p) where
  -- Where u is 1 + n * x modulo the power s + 1 of p, the L function returns x modulo the power s of p.
  pub l_func_lem :
      (u x : ℕ)
      → u % p ^ suc s ≡ (1 + p * q * x) % p ^ suc s
      → l_func c (pos u) ≡ ok (pos (x % p ^ s))
  unfolding l_func get_p_to_exp
  l_func_lem u x e =
      let K = p ^ s in
      let positive : 0 < p = omega (arith, h) in
      let large : 0 < K = one-le-pow s p positive in
      let order : p ^ suc s ≡ p * K = pow-suc p s ∙ mul_comm K p in
      let e' : u % (p * K) ≡ (1 + p * (q * x)) % (p * K) =
        rw order at e ∙ ap (λ t. (1 + t) % (p * K)) (mul_assoc p q x) in
      let (one_le, exact, value) = quotient p u (q * x) K h large e' in
      let (v, is_v, inverts) = key.other in
      let unscaled : (u - 1) / p * v % K ≡ x % K =
        mod-mul_cong ((u - 1) / p) (q * x) v K value
        ∙ ap (λ t. t % K) (shuffle q x v)
        ∙ mod-mul_cong (q * v) 1 x K inverts
        ∙ ap (λ t. t % K) (one-mul x) in
      rw
        (
          of_u64-ok laws 1 (omega arith),
          sub-ok laws u 1 one_le,
          key.p_lem,
          div-ok laws (u - 1) p positive exact,
          key.s_lem,
          key.lists.powers_lem s (omega arith),
          is_v,
          mod_mul-ok laws ((u - 1) / p) v K large,
          unscaled,
        )
        refl
    where
      shuffle : (q x v : ℕ) → q * x * v ≡ q * v * x
      shuffle q x v = omega arith
