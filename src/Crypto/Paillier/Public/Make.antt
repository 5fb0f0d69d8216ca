-- ===== src/Crypto/Paillier/Public/Make.antt =====
-- The constructor of PublicPaillier and PublicPaillier::Encrypt: the ciphertext holds the message.
use native.Mathlib.Nat.{one-le-pow, mul-one, mul-pos}
use private_join_and_compute.Prelude.{
  ℕ, suc, ◌+◌, ◌*◌, ◌%◌, ◌^◌, ◌<◌, ◌≤◌, ◌≡◌, refl, sym, ap, ◌∙◌, false, arith, subst,
}
use private_join_and_compute.Prelude.Int.{pos}
use private_join_and_compute.Prelude.Mod.{pow_mul}
use private_join_and_compute.Util.Result.{ok}
use private_join_and_compute.Crypto.OpenSsl.{OpenSsl}
use private_join_and_compute.Crypto.OpenSsl.Laws.{BnLaws}
use private_join_and_compute.Crypto.BigNum.Laws.{mod_exp-ok}
use private_join_and_compute.Crypto.Flags.{Flags}
use private_join_and_compute.Crypto.FixedBaseExp
use private_join_and_compute.Crypto.FixedBaseExp.{simple}
use private_join_and_compute.Crypto.Paillier.Coprime.{crt_unit}
use private_join_and_compute.Crypto.Paillier.Generator.{get_generator_for_safe_modulus}
use private_join_and_compute.Crypto.Paillier.Precomp.Powers.{
  power_list, get_powers-power_list, back_power,
}
use private_join_and_compute.Crypto.Paillier.Precomp.Expansion.{IsExpanding}
use private_join_and_compute.Crypto.Paillier.Precomp.Factorials.{get_precomp-IsExpanding}
use private_join_and_compute.Crypto.Paillier.PrimeCrypto.Make.{prime_positive, units_above}
use private_join_and_compute.Crypto.Paillier.Private.Make.{ArePrimes, unit_powers}
use private_join_and_compute.Crypto.Paillier.Public.{PublicPaillier, back, make_public}

module _ (p q s : ℕ) (primes : ArePrimes p q s) where
  pub n_positive : 0 < p * q
  n_positive = mul-pos (prime_positive p q s primes.on_p) (prime_positive q p s primes.on_q)

  -- The numbers from 1 to s have inverses modulo the power s + 1 of n.
  units_n : (j : ℕ) → 0 < j → j ≤ s → (v : ℕ) × (j * v % (p * q) ^ suc s ≡ 1 % (p * q) ^ suc s)
  units_n j h k =
      let P = p ^ suc s in
      let Q = q ^ suc s in
      let large =
        mul-pos (one-le-pow (suc s) p (prime_positive p q s primes.on_p))
          (one-le-pow (suc s) q (prime_positive q p s primes.on_q)) in
      let (e, unit) = unit_powers q p s primes.on_q s in
      let (v, at_p) = units_above p q s primes.on_p j h k in
      let (w, at_q) = units_above q p s primes.on_q j h k in
      let (u, found) = crt_unit P Q e j v w large unit at_p at_q in
      (u, subst (λ N. j * u % N ≡ 1 % N) (sym (pow_mul p q (suc s))) found)

module _ ⦃lib : OpenSsl⦄ (laws : BnLaws lib) (flags : Flags) (p q s : ℕ)
    (primes : ArePrimes p q s) where
  -- What the constructor leaves in the fields, where the generator g was drawn.
  pub record IsPublicKey (g : ℕ) (pk : PublicPaillier lib) : Type 0 where
    pub n_lem : pk.n ≡ pos (p * q)
    pub s_lem : pk.s ≡ s
    pub modulus_lem : pk.modulus ≡ pos ((p * q) ^ suc s)
    pub lists : IsExpanding laws (p * q) 1 s pk.precomp pk.n_powers
    pub fbe_lem :
        pk.g_n_fbe ≡ simple (pos (g ^ ((p * q) ^ s) % (p * q) ^ suc s)) (pos ((p * q) ^ suc s))

  -- Where the generator g is drawn, the constructor succeeds and leaves the key of n in the fields.
  pub make_public_lem :
      (fuel g : ℕ) (r r' : lib.Rng)
      → flags.two_k_ary_exp ≡ false
      → get_generator_for_safe_modulus fuel (pos (p * q)) r ≡ (ok (pos g), r')
      → (pk : PublicPaillier lib) × (make_public flags fuel (pos (p * q)) s r ≡ (ok pk, r'))
        × IsPublicKey g pk
  unfolding make_public FixedBaseExp.get_fixed_base_exp
  make_public_lem fuel g r r' plain drawn =
      let n = p * q in
      let N = n ^ suc s in
      let positive = n_positive p q s primes in
      let large : 0 < N = one-le-pow (suc s) n positive in
      let (precomp, listed, lists) =
        get_precomp-IsExpanding laws n 1 s positive primes.on_p.small (units_n p q s primes) in
      let whole : n * 1 ≡ n = mul-one n in
      let listed' = rw whole at listed in
      let two : s + 2 ≡ suc (suc s) = omega arith in
      let last : back (power_list n (s + 2) 0) ≡ ok (pos N) =
        ap (λ k. back (power_list n k 0)) two
        ∙ back_power n (suc s) 0
        ∙ ap (λ k. ok (pos (n ^ k))) (let e : 0 + suc s ≡ suc s = omega arith in e) in
      (
        record {
          n = pos n;
          s = s;
          n_powers = power_list n (s + 2) 0;
          modulus = pos N;
          g_n_fbe = simple (pos (g ^ (n ^ s) % N)) (pos N);
          precomp = precomp;
        },
        rw
            (
              get_powers-power_list laws n s,
              last,
              drawn,
              lists.powers_lem s (omega arith),
              mod_exp-ok laws g (n ^ s) N large,
              plain,
              listed',
            )
            refl,
        record { n_lem = refl; s_lem = refl; modulus_lem = refl; lists = lists; fbe_lem = refl },
      )
