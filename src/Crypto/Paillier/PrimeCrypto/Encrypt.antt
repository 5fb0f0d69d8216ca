-- ===== src/Crypto/Paillier/PrimeCrypto/Encrypt.antt =====
-- PrimeCrypto::Encrypt: the ciphertext holds the message.
use native.Mathlib.Nat.{one-le-pow, mod-mod, mul_comm}
use private_join_and_compute.Prelude.{
  ℕ, suc, ◌+◌, ◌-◌, ◌*◌, ◌%◌, ◌^◌, ◌<◌, ◌≡◌, refl, sym, ap, ◌∙◌, true, ltb, arith,
}
use private_join_and_compute.Prelude.Int.{pos}
use private_join_and_compute.Prelude.Mod.{mod-mul_both, mod-pow_cong, pow_pow}
use private_join_and_compute.Util.Result.{ok, read_at}
use private_join_and_compute.Crypto.OpenSsl.{OpenSsl}
use private_join_and_compute.Crypto.OpenSsl.Laws.{BnLaws}
use private_join_and_compute.Crypto.BigNum
use private_join_and_compute.Crypto.BigNum.{BigNum}
use private_join_and_compute.Crypto.BigNum.Laws.{
  of_u64-ok, sub-ok, add-ok, mod_exp-ok, mod_mul-ok, is_non_negative-pos, lt_lem,
}
use private_join_and_compute.Crypto.Context.{generate_rand_between, generate_rand_less_than}
use private_join_and_compute.Crypto.Flags.{Flags}
use private_join_and_compute.Util.Macros
use private_join_and_compute.Crypto.FixedBaseExp
use private_join_and_compute.Crypto.FixedBaseExp.{FixedBaseExp, simple}
use private_join_and_compute.Crypto.Paillier.Fermat.{unit-pow}
use private_join_and_compute.Crypto.Paillier.Precomp.Expansion.{compute_by_binomial_expansion-pow}
use private_join_and_compute.Crypto.Paillier.PrimeCrypto
use private_join_and_compute.Crypto.Paillier.PrimeCrypto.{PrimeCrypto, encrypt_with_rand}
use private_join_and_compute.Crypto.Paillier.PrimeCrypto.Decrypt.{Holds}
use private_join_and_compute.Crypto.Paillier.PrimeCrypto.Make.{
  IsSuited, IsMade, prime_positive, one_below, pow-mod_prime,
}

module _ ⦃lib : OpenSsl⦄ (laws : BnLaws lib) where
  pub fixed_base_lem :
      (flags : Flags) (b m r : ℕ)
      → 0 < m
      → FixedBaseExp.mod_exp flags (simple (pos b) (pos m)) (pos r) ≡ ok (pos (b ^ r % m))
  unfolding FixedBaseExp.mod_exp FixedBaseExp.impl_mod_exp Macros.ret_invalid_arg_check
  fixed_base_lem flags b m r h = rw (is_non_negative-pos laws r, mod_exp-ok laws b r m h) refl

  generate_rand_between-one :
      (p : ℕ) (t : lib.Rng)
      → 1 < p
      → (r : ℕ) × (t' : lib.Rng) × (generate_rand_between (pos 1) (pos p) t ≡ (ok (pos r), t'))
  unfolding generate_rand_between generate_rand_less_than
  generate_rand_between-one p t h =
      let positive : 0 < p - 1 = omega (arith, h) in
      let (r, t', drawn, _) = laws.rand_range_lem (p - 1) t positive in
      let e : ltb (1 + 0) (p + 0) ≡ true = ground (arith, h) in
      let tested : BigNum.lt (pos 1) (pos p) ≡ true = lt_lem laws (pos 1) (pos p) ∙ e in
      (r + 1, t', rw (tested, sub-ok laws p 1 (omega (arith, h)), drawn, add-ok laws r 1) refl)

-- The power r of a unit g, to the power n ^ s.
pub random_power : (g N r P : ℕ) → (g ^ N % P) ^ r % P ≡ (g ^ r) ^ N % P
random_power g N r P =
    mod-pow_cong (g ^ N % P) (g ^ N) r P (mod-mod (g ^ N) P)
    ∙ ap (λ t. t % P) (pow_pow g N r ∙ ap (λ k. g ^ k) (mul_comm N r) ∙ sym (pow_pow g r N))

module _ ⦃lib : OpenSsl⦄ (laws : BnLaws lib) (flags : Flags) (p q s : ℕ) (numbers : IsSuited p q s)
    (g h : ℕ) (unit : g * h % p ≡ 1 % p) (c : PrimeCrypto lib)
    (made : IsMade laws flags p q s numbers g c) where
  encrypt_with_rand_lem :
      (m r : ℕ)
      → (t : ℕ) × (encrypt_with_rand flags c (pos m) (pos r) ≡ ok (pos t)) × Holds p q s m t
  unfolding encrypt_with_rand Holds
  encrypt_with_rand_lem m r =
      let P = p ^ suc s in
      let positive = prime_positive p q s numbers in
      let large : 0 < P = one-le-pow (suc s) p positive in
      let base = g ^ ((p * q) ^ s) % P in
      let (x, expanded, power) =
        compute_by_binomial_expansion-pow laws p q s c.precomp c.powers made.key.lists m positive
          numbers.small in
      let top : s + 1 ≡ suc s = omega arith in
      let modulus : read_at c.powers (c.s + 1) ≡ ok (pos P) =
        ap (λ k. read_at c.powers (k + 1)) made.key.s_lem
        ∙ ap (read_at c.powers) top
        ∙ made.key.lists.powers_lem (suc s) (omega arith) in
      let masked : FixedBaseExp.mod_exp flags c.fbe (pos r) ≡ ok (pos (base ^ r % P)) =
        ap (λ f. FixedBaseExp.mod_exp flags f (pos r)) made.fbe_lem
        ∙ fixed_base_lem laws flags base P r large in
      let y = base ^ r % P in
      (
        x * y % P,
        rw (expanded, masked, modulus, mod_mul-ok laws x y P large) refl,
        (
          g ^ r,
          h ^ r,
          unit-pow g h r p unit,
          mod-mod (x * y) P
              ∙ mod-mul_both x ((1 + p * q) ^ m) y ((g ^ r) ^ ((p * q) ^ s)) P
                  (power ∙ pow-mod_prime p q s numbers m)
                  (mod-mod (base ^ r) P ∙ random_power g ((p * q) ^ s) r P),
        ),
      )

  -- Encrypting a number succeeds, and the ciphertext holds the number.
  pub encrypt_lem :
      (m : ℕ) (r : lib.Rng)
      → (t : ℕ) × (r' : lib.Rng) × (PrimeCrypto.encrypt flags c (pos m) r ≡ (ok (pos t), r'))
        × Holds p q s m t
  unfolding PrimeCrypto.encrypt
  encrypt_lem m r =
      let (k, r', drawn) = generate_rand_between-one laws p r (one_below p q s numbers) in
      let (t, encrypted, holds) = encrypt_with_rand_lem m k in
      let drawn' = ap (λ v. generate_rand_between (pos 1) v r) made.key.p_lem ∙ drawn in
      (t, r', rw (of_u64-ok laws 1 (omega arith), drawn', encrypted) refl, holds)
