-- ===== src/Crypto/Paillier/PrimeCrypto/Make.antt =====
-- The constructor of PrimeCrypto, and its encryption.
use native.Mathlib.Nat.{one-le-pow, pow-suc, one-mul, add-mul-mod_self_left, div-add-mod}
use private_join_and_compute.Prelude.{
  ℕ, suc, ◌+◌, ◌-◌, ◌*◌, ◌/◌, ◌%◌, ◌^◌, ◌<◌, ◌≤◌, ◌≡◌, refl, sym, ap, ◌∙◌, false, arith,
}
use private_join_and_compute.Prelude.Int.{pos}
use private_join_and_compute.Prelude.Mod.{
  mod-mul_cong, mod-pow_cong, mod_cong_down, pow_add, pow_pow, one_pow,
}
use private_join_and_compute.Util.Result.{ok}
use private_join_and_compute.Crypto.OpenSsl.{OpenSsl}
use private_join_and_compute.Crypto.OpenSsl.Laws.{BnLaws}
use private_join_and_compute.Crypto.BigNum.Laws.{
  of_u64-ok, sub-ok, mul-ok, exp-ok, mod_exp-ok, mod_inverse-ok,
}
use private_join_and_compute.Crypto.Flags.{Flags}
use private_join_and_compute.Crypto.FixedBaseExp
use private_join_and_compute.Crypto.FixedBaseExp.{FixedBaseExp, simple}
use private_join_and_compute.Crypto.Paillier.Fermat.{IsFieldOrder, pow_lift_all, unit_lift}
use private_join_and_compute.Crypto.Paillier.Precomp.Powers.{power_list, get_powers-power_list}
use private_join_and_compute.Crypto.Paillier.Precomp.Factorials.{get_precomp-IsExpanding}
use private_join_and_compute.Crypto.Paillier.Precomp.DecryptTable.{get_decrypt_precomp_lem}
use private_join_and_compute.Crypto.Paillier.Generator.{
  get_generator_of_prime_powers_from_safe_prime,
}
use private_join_and_compute.Crypto.Paillier.PrimeCrypto.{PrimeCrypto, make_prime_crypto}
use private_join_and_compute.Crypto.Paillier.PrimeCrypto.Key.{IsPrimeKey}

-- What the numbers behind a key have to be: p is prime and does not divide q, and s is from 1 on below p.
pub record IsSuited (p q s : ℕ) : Type 0 where
  pub field : IsFieldOrder p
  pub apart : (v : ℕ) × (q * v % p ≡ 1 % p)
  pub some_s : 0 < s
  pub below : s < p
  pub small : s < 2 ^ 64

module _ (p q s : ℕ) (numbers : IsSuited p q s) where
  pub one_below : 1 < p
  unfolding IsFieldOrder
  one_below = numbers.field.0

  pub prime_positive : 0 < p
  prime_positive = let h = one_below in omega (arith, h)

  pub units_above : (j : ℕ) → 0 < j → j ≤ s → (v : ℕ) × (j * v % p ^ suc s ≡ 1 % p ^ suc s)
  unfolding IsFieldOrder
  units_above j h g =
      let less = numbers.below in
      let (v, e) = numbers.field.1 j h (omega (arith, g, less)) in unit_lift p j v s numbers.field e

  down_one : (a v : ℕ) → a * v % p ^ suc s ≡ 1 % p ^ suc s → a * v % p ^ s ≡ 1 % p ^ s
  down_one a v e = mod_cong_down (a * v) 1 (p ^ s) p (rw (pow-suc p s) at e)

  units_s : (j : ℕ) → 0 < j → j ≤ s → (v : ℕ) × (j * v % p ^ s ≡ 1 % p ^ s)
  units_s j h g = let (v, e) = units_above j h g in (v, down_one j v e)

  pub other_unit : (v : ℕ) × (q * v % p ^ s ≡ 1 % p ^ s)
  other_unit =
      let (v, e) = numbers.apart in
      let (w, f) = unit_lift p q v s numbers.field e in (w, down_one q w f)

  phi_unit : (v : ℕ) × ((p - 1) * v % p ^ s ≡ 1 % p ^ s)
  unfolding IsFieldOrder
  phi_unit =
      let h = one_below in
      let (v, e) = numbers.field.1 (p - 1) (omega (arith, h)) (omega (arith, h)) in
      let (w, f) = unit_lift p (p - 1) v s numbers.field e in (w, down_one (p - 1) w f)

  -- The exponent of 1 + n counts modulo the power s of p.
  pub pow-mod_prime : (m : ℕ) → (1 + p * q) ^ (m % p ^ s) % p ^ suc s ≡ (1 + p * q) ^ m % p ^ suc s
  pow-mod_prime m =
      let P = p ^ suc s in
      let K = p ^ s in
      let x = 1 + p * q in
      let r = m % K in
      let lifted = pow_lift_all p x one_below (add-mul-mod_self_left 1 p q) s in
      let vanishes : x ^ (K * (m / K)) % P ≡ 1 % P =
        ap (λ t. t % P) (sym (pow_pow x K (m / K)))
        ∙ mod-pow_cong (x ^ K) 1 (m / K) P lifted
        ∙ ap (λ t. t % P) (one_pow (m / K)) in
      sym (
        ap (λ k. x ^ k % P) (sym (div-add-mod m K))
        ∙ ap (λ t. t % P) (pow_add x (K * (m / K)) r)
        ∙ mod-mul_cong (x ^ (K * (m / K))) 1 (x ^ r) P vanishes
        ∙ ap (λ t. t % P) (one-mul (x ^ r)))

module _ ⦃lib : OpenSsl⦄ (laws : BnLaws lib) (flags : Flags) (p q s : ℕ)
    (numbers : IsSuited p q s) where
  pub record IsMade (g : ℕ) (c : PrimeCrypto lib) : Type 0 where
    pub key : IsPrimeKey laws p q s c
    pub g_p_lem : c.g_p ≡ pos g
    pub fbe_lem : c.fbe ≡ simple (pos (g ^ ((p * q) ^ s) % p ^ suc s)) (pos (p ^ suc s))

  -- Where the search finds the generator g, the constructor succeeds, and leaves in the fields what
  -- decrypting and encrypting rely on.
  pub make_prime_crypto_lem :
      (g : ℕ)
      → flags.two_k_ary_exp ≡ false
      → get_generator_of_prime_powers_from_safe_prime flags (pos p) ≡ ok (pos g)
      → (c : PrimeCrypto lib) × (make_prime_crypto flags (pos p) (pos q) s ≡ ok c) × IsMade g c
  unfolding make_prime_crypto FixedBaseExp.get_fixed_base_exp
  make_prime_crypto_lem g plain found =
      let positive = prime_positive p q s numbers in
      let P = p ^ suc s in
      let K = p ^ s in
      let large : 0 < P = one-le-pow (suc s) p positive in
      let large_K : 0 < K = one-le-pow s p positive in
      let powers = power_list p (s + 2) 0 in
      let (precomp, listed, lists) =
        get_precomp-IsExpanding laws p q s positive numbers.small (units_above p q s numbers) in
      let (phi_v, phi_e) = phi_unit p q s numbers in
      let (lambda, lambda_made, _, lambda_inverts) =
        mod_inverse-ok laws (p - 1) K phi_v large_K phi_e in
      let (q_v, q_e) = other_unit p q s numbers in
      let (other, other_made, _, other_inverts) = mod_inverse-ok laws q K q_v large_K q_e in
      let (table, tabled, cells) =
        get_decrypt_precomp_lem laws p q s precomp powers lists positive (units_s p q s numbers)
          numbers.small numbers.some_s in
      let top : s + 1 ≡ suc s = omega arith in
      (
        record {
          p = pos p;
          p_phi = pos (p - 1);
          n = pos (p * q);
          s = s;
          powers = powers;
          precomp = precomp;
          lambda_inv = pos lambda;
          other_prime_inv = pos other;
          decrypt_precomp = table;
          g_p = pos g;
          fbe = simple (pos (g ^ ((p * q) ^ s) % P)) (pos P);
        },
        rw
            (
              of_u64-ok laws 1 (omega arith),
              sub-ok laws p 1 positive,
              mul-ok laws p q,
              get_powers-power_list laws p s,
              top,
              lists.powers_lem (suc s) (omega arith),
              listed,
              lists.powers_lem s (omega arith),
              lambda_made,
              other_made,
              tabled,
              found,
              of_u64-ok laws s numbers.small,
              exp-ok laws (p * q) s,
              mod_exp-ok laws g ((p * q) ^ s) P large,
              plain,
            )
            refl,
        record {
          key = record {
            p_lem = refl;
            p_phi_lem = refl;
            s_lem = refl;
            lists = lists;
            lambda = (lambda, refl, lambda_inverts);
            other = (other, refl, other_inverts);
            cells = cells;
          };
          g_p_lem = refl;
          fbe_lem = refl;
        },
      )
