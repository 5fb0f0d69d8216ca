-- ===== src/Crypto/Paillier/Private/Encrypt.antt =====
-- PrivatePaillier::Encrypt: the ciphertext holds the message, and is decrypted to it.
use native.Mathlib.Nat.{mod-eq_of_lt}
use private_join_and_compute.Prelude.{
  ℕ, suc, ◌+◌, ◌*◌, ◌%◌, ◌^◌, ◌<◌, ◌≡◌, refl, sym, ap, ◌∙◌, true, false, ltb, arith, subst,
}
use private_join_and_compute.Prelude.Int.{pos}
use private_join_and_compute.Prelude.Mod.{pow_mul}
use private_join_and_compute.Util.Result.{ok}
use private_join_and_compute.Util.Macros
use private_join_and_compute.Crypto.OpenSsl.{OpenSsl}
use private_join_and_compute.Crypto.OpenSsl.Laws.{BnLaws}
use private_join_and_compute.Crypto.BigNum
use private_join_and_compute.Crypto.BigNum.Laws.{is_non_negative-pos, lt_lem}
use private_join_and_compute.Crypto.Flags.{Flags}
use private_join_and_compute.Crypto.TwoModulusCrt.Laws.{Combines-compute}
use private_join_and_compute.Crypto.Paillier.PrimeCrypto.Decrypt.{Holds}
use private_join_and_compute.Crypto.Paillier.PrimeCrypto.Encrypt.{encrypt_lem}
use private_join_and_compute.Crypto.Paillier.Private
use private_join_and_compute.Crypto.Paillier.Private.{PrivatePaillier}
use private_join_and_compute.Crypto.Paillier.Private.Make.{
  ArePrimes, IsPrivateKey, make_private_lem,
}
use private_join_and_compute.Crypto.Paillier.Generator.Unit.{generator-unit}
use private_join_and_compute.Crypto.Paillier.Generator.{
  get_generator_of_prime_powers_from_safe_prime,
}
use private_join_and_compute.Crypto.Paillier.Private.Decrypt.{IsCiphertext, decrypt-IsCiphertext}

Holds-cong : (p q s m c d : ℕ) → d % p ^ suc s ≡ c % p ^ suc s → Holds p q s m c → Holds p q s m d
unfolding Holds
Holds-cong p q s m c d same (z, w, unit, e) = (z, w, unit, same ∙ e)

module _ ⦃lib : OpenSsl⦄ (laws : BnLaws lib) (flags : Flags) (p q s : ℕ) (primes : ArePrimes p q s)
    (g g' h h' : ℕ) (unit_p : g * g' % p ≡ 1 % p) (unit_q : h * h' % q ≡ 1 % q)
    (key : PrivatePaillier lib) (is_key : IsPrivateKey laws flags p q s primes g h key) where
  -- A message below the power s of n is encrypted, and the ciphertext holds it.
  pub encrypt-IsCiphertext :
      (m : ℕ) (r : lib.Rng)
      → m < (p * q) ^ s
      → (c : ℕ) × (r' : lib.Rng) × (Private.encrypt flags key (pos m) r ≡ (ok (pos c), r'))
        × (c < (p * q) ^ suc s)
        × IsCiphertext p q s m c
  unfolding Private.encrypt Private.check_message Macros.ret_invalid_arg_check
  encrypt-IsCiphertext m r below =
      let (x, r₁, encrypted_p, on_p) =
        encrypt_lem laws flags p q s primes.on_p g g' unit_p key.p_crypto is_key.p_made m r in
      let (y, r₂, encrypted_q, on_q) =
        encrypt_lem laws flags q p s primes.on_q h h' unit_q key.q_crypto is_key.q_made m r₁ in
      let P = p ^ suc s in
      let Q = q ^ suc s in
      let (z, combined, less, same_p, same_q) =
        Combines-compute laws key.two_mod_crt_encrypt P Q is_key.encrypt_crt x y in
      let e : ltb (m + 0) ((p * q) ^ s + 0) ≡ true = ground (arith, below) in
      let tested : BigNum.lt (pos m) key.n_to_s ≡ true =
        ap (BigNum.lt (pos m)) is_key.n_to_s_lem ∙ lt_lem laws (pos m) (pos ((p * q) ^ s)) ∙ e in
      (
        z,
        r₂,
        rw (is_non_negative-pos laws m, tested, encrypted_p, encrypted_q, combined) refl,
        subst (λ t. z < t) (sym (pow_mul p q (suc s))) less,
        record {
          on_p = Holds-cong p q s m x z same_p on_p;
          on_q = Holds-cong q p s m y z same_q on_q;
        },
      )

module _ ⦃lib : OpenSsl⦄ (laws : BnLaws lib) (flags : Flags) (p q s : ℕ) (primes : ArePrimes p q s)
    (g h : ℕ) where
  -- For primes p and q that suit s and are above the number of tries of the search for their generators,
  -- where the search succeeds and tables of powers are off: the constructor makes a key, the key
  -- encrypts every message below the power s of n = p * q, whatever numbers are drawn, and decrypts the
  -- ciphertext to the message.
  pub decrypt-encrypt_private :
      flags.two_k_ary_exp ≡ false
      → 1 + flags.generator_try_count < p
      → 1 + flags.generator_try_count < q
      → get_generator_of_prime_powers_from_safe_prime flags (pos p) ≡ ok (pos g)
      → get_generator_of_prime_powers_from_safe_prime flags (pos q) ≡ ok (pos h)
      → (m : ℕ) (r : lib.Rng) → m < (p * q) ^ s
      → (key : PrivatePaillier lib) × (c : ℕ) × (r' : lib.Rng) × (Private.make_private flags
            (pos p)
            (pos q)
            s
          ≡ ok key)
        × (Private.encrypt flags key (pos m) r ≡ (ok (pos c), r'))
        × (Private.decrypt key (pos c) ≡ ok (pos m))
  decrypt-encrypt_private plain few_p few_q found_p found_q m r below =
      let (key, made, is_key) =
        make_private_lem laws flags p q s primes g h plain found_p found_q in
      let (g', unit_p) = generator-unit laws flags p g primes.on_p.field few_p found_p in
      let (h', unit_q) = generator-unit laws flags q h primes.on_q.field few_q found_q in
      let (c, r', encrypted, less, holds) =
        encrypt-IsCiphertext laws flags p q s primes g g' h h' unit_p unit_q key is_key m r below in
      (
        key,
        c,
        r',
        made,
        encrypted,
        decrypt-IsCiphertext laws flags p q s primes g h key is_key m c holds less
            ∙ ap (λ t. ok (pos t)) (mod-eq_of_lt below),
      )
