-- ===== src/Crypto/Paillier/Homomorphic.antt =====
-- The two keys together: what the private key decrypts of the ciphertexts that the public key makes.
use native.Mathlib.Nat.{mod-eq_of_lt, mod-lt, one-le-pow, mod-mod_of_dvd, dvd-mul_right}
use private_join_and_compute.Prelude.{
  ℕ, suc, ◌+◌, ◌*◌, ◌%◌, ◌^◌, ◌<◌, ◌≡◌, sym, ap, ◌∙◌, subst, arith,
}
use private_join_and_compute.Prelude.Int.{pos}
use private_join_and_compute.Prelude.Mod.{mod-pow_cong, pow_mul, pow_pow}
use private_join_and_compute.Util.Result.{ok}
use private_join_and_compute.Crypto.OpenSsl.{OpenSsl}
use private_join_and_compute.Crypto.OpenSsl.Laws.{BnLaws}
use private_join_and_compute.Crypto.BigNum
use private_join_and_compute.Crypto.BigNum.Laws.{mod_exp-ok}
use private_join_and_compute.Crypto.Flags.{Flags}
use private_join_and_compute.Crypto.Paillier.Fermat.{unit-pow}
use private_join_and_compute.Crypto.Paillier.PrimeCrypto.Decrypt.{Holds}
use private_join_and_compute.Crypto.Paillier.Generator.{get_generator_for_safe_modulus}
use private_join_and_compute.Crypto.Paillier.Generator.Drawn.{drawn-unit}
use private_join_and_compute.Crypto.Paillier.Private
use private_join_and_compute.Crypto.Paillier.Private.{PrivatePaillier}
use private_join_and_compute.Crypto.Paillier.Private.Make.{ArePrimes, IsPrivateKey}
use private_join_and_compute.Crypto.Paillier.Private.Decrypt.{IsCiphertext, decrypt-IsCiphertext}
use private_join_and_compute.Crypto.Paillier.Public
use private_join_and_compute.Crypto.Paillier.Public.{PublicPaillier}
use private_join_and_compute.Crypto.Paillier.Public.Make.{IsPublicKey, n_positive}
use private_join_and_compute.Crypto.Paillier.Public.Encrypt.{
  encrypt_public-IsCiphertext, add-IsCiphertext,
}

Holds-pow : (p q s m c k K : ℕ) → Holds p q s m c → Holds p q s (m * k) (c ^ k % (p ^ suc s * K))
unfolding Holds
Holds-pow p q s m c k K (z, w, unit, e) =
    let P = p ^ suc s in
    let n = p * q in
    let N = n ^ s in
    (
      z ^ k,
      w ^ k,
      unit-pow z w k p unit,
      mod-mod_of_dvd P (c ^ k) (dvd-mul_right P K)
          ∙ mod-pow_cong c ((1 + n) ^ m * z ^ N) k P e
          ∙ ap (λ t. t % P)
              (pow_mul ((1 + n) ^ m) (z ^ N) k
                ∙ ap (λ t. t * (z ^ N) ^ k) (pow_pow (1 + n) m k)
                ∙ ap (λ t. (1 + n) ^ (m * k) * t) (swap z N k)),
    )
  where
    swap : (z a b : ℕ) → (z ^ a) ^ b ≡ (z ^ b) ^ a
    swap z a b =
        let e : a * b ≡ b * a = omega arith in
        pow_pow z a b ∙ ap (λ t. z ^ t) e ∙ sym (pow_pow z b a)

IsCiphertext-pow :
    (p q s m c k : ℕ)
    → IsCiphertext p q s m c
    → IsCiphertext p q s (m * k) (c ^ k % (p * q) ^ suc s)
IsCiphertext-pow p q s m c k holds =
    let split_p : p ^ suc s * q ^ suc s ≡ (p * q) ^ suc s = sym (pow_mul p q (suc s)) in
    let swapped : q * p ≡ p * q = omega arith in
    let split_q : q ^ suc s * p ^ suc s ≡ (p * q) ^ suc s =
      sym (pow_mul q p (suc s)) ∙ ap (λ t. t ^ suc s) swapped in
    record {
      on_p =
          subst (λ N. Holds p q s (m * k) (c ^ k % N)) split_p
            (Holds-pow p q s m c k (q ^ suc s) holds.on_p);
      on_q =
          subst (λ N. Holds q p s (m * k) (c ^ k % N)) split_q
            (Holds-pow q p s m c k (p ^ suc s) holds.on_q);
    }

module _ ⦃lib : OpenSsl⦄ (laws : BnLaws lib) (flags : Flags) (p q s : ℕ) (primes : ArePrimes p q s)
    (g h u fuel : ℕ) (t t' : lib.Rng)
    (drawn : get_generator_for_safe_modulus fuel (pos (p * q)) t ≡ (ok (pos u), t'))
    (key : PrivatePaillier lib) (is_key : IsPrivateKey laws flags p q s primes g h key)
    (pk : PublicPaillier lib) (is_pk : IsPublicKey laws flags p q s primes u pk) where
  drawn_generator : (u' : ℕ) × (u * u' % (p * q) ≡ 1 % (p * q))
  drawn_generator =
      let (e, apart) = primes.on_q.apart in
      drawn-unit laws fuel p q e u t t' primes.on_p.field primes.on_q.field apart drawn

  -- For primes p and q that suit s and the two keys made of them, the public one with the number u that was
  -- drawn for n = p * q: two messages below the power s of n are encrypted with the public key, whatever numbers are
  -- drawn, the sum of the ciphertexts is a ciphertext, and the private key decrypts that to the sum of
  -- the messages modulo the power s of n.
  pub decrypt-add :
      (m m' : ℕ) (r : lib.Rng)
      → m < (p * q) ^ s
      → m' < (p * q) ^ s
      → (c c' d : ℕ) × (r₁ r₂ : lib.Rng) × (Public.encrypt flags pk (pos m) r ≡ (ok (pos c), r₁))
        × (Public.encrypt flags pk (pos m') r₁ ≡ (ok (pos c'), r₂))
        × (Public.add pk (pos c) (pos c') ≡ ok (pos d))
        × (Private.decrypt key (pos d) ≡ ok (pos ((m + m') % (p * q) ^ s)))
  decrypt-add m m' r below below' =
      let (u', unit) = drawn_generator in
      let (c, r₁, encrypted, _, holds) =
        encrypt_public-IsCiphertext laws flags p q s primes u u' unit pk is_pk m r below in
      let (c', r₂, encrypted', _, holds') =
        encrypt_public-IsCiphertext laws flags p q s primes u u' unit pk is_pk m' r₁ below' in
      let (d, added, less, held) =
        add-IsCiphertext laws flags p q s primes u u' unit pk is_pk m m' c c' holds holds' in
      (
        c,
        c',
        d,
        r₁,
        r₂,
        encrypted,
        encrypted',
        added,
        decrypt-IsCiphertext laws flags p q s primes g h key is_key (m + m') d held less,
      )

  -- In the same setting: a message below the power s of n is encrypted with the public key, the private
  -- key decrypts it to the message, and decrypts the ciphertext that Multiply makes with the number k to k
  -- times the message modulo the power s of n.
  pub decrypt-multiply :
      (m k : ℕ) (r : lib.Rng)
      → m < (p * q) ^ s
      → (c d : ℕ) × (r' : lib.Rng) × (Public.encrypt flags pk (pos m) r ≡ (ok (pos c), r'))
        × (Private.decrypt key (pos c) ≡ ok (pos m))
        × (Public.multiply pk (pos c) (pos k) ≡ ok (pos d))
        × (Private.decrypt key (pos d) ≡ ok (pos (m * k % (p * q) ^ s)))
  unfolding Public.multiply
  decrypt-multiply m k r below =
      let N = (p * q) ^ suc s in
      let large : 0 < N = one-le-pow (suc s) (p * q) (n_positive p q s primes) in
      let (u', unit) = drawn_generator in
      let (c, r', encrypted, less, holds) =
        encrypt_public-IsCiphertext laws flags p q s primes u u' unit pk is_pk m r below in
      (
        c,
        c ^ k % N,
        r',
        encrypted,
        decrypt-IsCiphertext laws flags p q s primes g h key is_key m c holds less
            ∙ ap (λ t. ok (pos t)) (mod-eq_of_lt below),
        ap (BigNum.mod_exp (pos c) (pos k)) is_pk.modulus_lem ∙ mod_exp-ok laws c k N large,
        decrypt-IsCiphertext laws flags p q s primes g h key is_key (m * k) (c ^ k % N)
            (IsCiphertext-pow p q s m c k holds) (mod-lt (c ^ k) large),
      )
