-- ===== src/Crypto/Paillier/Public/Encrypt.antt =====
-- PublicPaillier::Encrypt and PublicPaillier::Add: the ciphertext holds the message, and a sum of
-- ciphertexts the sum of the messages.
use native.Mathlib.Nat.{
  one-le-pow, mod-mod, mod-lt, mod-eq_of_lt, mul_comm, mul-one, mod-mod_of_dvd, dvd-mul_right,
}
use private_join_and_compute.Prelude.{
  ℕ, suc, ◌+◌, ◌*◌, ◌%◌, ◌^◌, ◌<◌, ◌≡◌, refl, sym, ap, ◌∙◌, true, ltb, leb, arith, subst, some,
}
use private_join_and_compute.Prelude.Int.{pos}
use private_join_and_compute.Prelude.Mod.{mod-mul_both, mod_cong_down, pow_mul}
use private_join_and_compute.Util.Result.{ok, read_at}
use private_join_and_compute.Util.Macros
use private_join_and_compute.Crypto.OpenSsl.{OpenSsl}
use private_join_and_compute.Crypto.OpenSsl.Laws.{BnLaws}
use private_join_and_compute.Crypto.BigNum
use private_join_and_compute.Crypto.BigNum.{BigNum}
use private_join_and_compute.Crypto.BigNum.Laws.{is_non_negative-pos, lt_lem, le_lem, mod_mul-ok}
use private_join_and_compute.Crypto.Context.{generate_rand_less_than}
use private_join_and_compute.Crypto.Flags.{Flags}
use private_join_and_compute.Crypto.FixedBaseExp
use private_join_and_compute.Crypto.Paillier.Fermat.{unit-pow}
use private_join_and_compute.Crypto.Paillier.Precomp.Expansion.{compute_by_binomial_expansion-pow}
use private_join_and_compute.Crypto.Paillier.PrimeCrypto.Encrypt.{fixed_base_lem, random_power}
use private_join_and_compute.Crypto.Paillier.PrimeCrypto.Decrypt.{Holds}
use private_join_and_compute.Crypto.Paillier.Private.Make.{ArePrimes}
use private_join_and_compute.Crypto.Paillier.Private.Decrypt.{IsCiphertext, IsCiphertext-mul}
use private_join_and_compute.Crypto.Paillier.Public
use private_join_and_compute.Crypto.Paillier.Public.{PublicPaillier}
use private_join_and_compute.Crypto.Paillier.Public.Make.{IsPublicKey, n_positive}

-- The part of one prime in a ciphertext of the public key.
public_part :
    (p q K s m g g' k x : ℕ)
    → g * g' % p ≡ 1 % p
    → x % (p ^ suc s * K) ≡ (1 + p * q) ^ m % (p ^ suc s * K)
    → Holds p q s m
        (x * ((g ^ ((p * q) ^ s) % (p ^ suc s * K)) ^ k % (p ^ suc s * K)) % (p ^ suc s * K))
unfolding Holds
public_part p q K s m g g' k x unit power =
    let P = p ^ suc s in
    let N = P * K in
    let e = (p * q) ^ s in
    let y = (g ^ e % N) ^ k % N in
    (
      g ^ k,
      g' ^ k,
      unit-pow g g' k p unit,
      mod-mod_of_dvd P (x * y) (dvd-mul_right P K)
          ∙ mod-mul_both x ((1 + p * q) ^ m) y ((g ^ k) ^ e) P
              (mod_cong_down x ((1 + p * q) ^ m) P K power)
              (mod_cong_down y ((g ^ k) ^ e) P K
                (mod-mod ((g ^ e % N) ^ k) N ∙ random_power g e k N)),
    )

module _ ⦃lib : OpenSsl⦄ (laws : BnLaws lib) (flags : Flags) (p q s : ℕ) (primes : ArePrimes p q s)
    (g g' : ℕ) (unit : g * g' % (p * q) ≡ 1 % (p * q)) (pk : PublicPaillier lib)
    (is_key : IsPublicKey laws flags p q s primes g pk) where
  encrypted : ℕ → ℕ → ℕ
  encrypted x k = let N = (p * q) ^ suc s in x * ((g ^ ((p * q) ^ s) % N) ^ k % N) % N

  encrypt_using_generator_and_rand_lem :
      (m k : ℕ)
      → k < p * q
      → (x : ℕ) × (Public.encrypt_using_generator_and_rand flags pk (pos m) (pos k)
          ≡ ok (pos (encrypted x k)))
        × (x % (p * q) ^ suc s ≡ (1 + p * q) ^ (m % (p * q) ^ s) % (p * q) ^ suc s)
  unfolding Public.encrypt_using_generator_and_rand Macros.ret_invalid_arg_check encrypted
  encrypt_using_generator_and_rand_lem m k below =
      let n = p * q in
      let N = n ^ suc s in
      let positive = n_positive p q s primes in
      let large : 0 < N = one-le-pow (suc s) n positive in
      let base = g ^ (n ^ s) % N in
      let whole : n * 1 ≡ n = mul-one n in
      let (x, expanded, power) =
        compute_by_binomial_expansion-pow laws n 1 s pk.precomp pk.n_powers is_key.lists m positive
          primes.on_p.small in
      let masked : FixedBaseExp.mod_exp flags pk.g_n_fbe (pos k) ≡ ok (pos (base ^ k % N)) =
        ap (λ f. FixedBaseExp.mod_exp flags f (pos k)) is_key.fbe_lem
        ∙ fixed_base_lem laws flags base N k large in
      let e : leb (k + 0) (n + 0) ≡ true = ground (arith, below) in
      let tested : BigNum.le (pos k) pk.n ≡ true =
        ap (BigNum.le (pos k)) is_key.n_lem ∙ le_lem laws (pos k) (pos n) ∙ e in
      let multiplied : BigNum.mod_mul (pos x) (pos (base ^ k % N)) pk.modulus
          ≡ ok (pos (x * (base ^ k % N) % N)) =
        ap (BigNum.mod_mul (pos x) (pos (base ^ k % N))) is_key.modulus_lem
        ∙ mod_mul-ok laws x (base ^ k % N) N large in
      (x, rw (tested, expanded, masked, multiplied) refl, rw whole at power)

  encrypt_step :
      (m k : ℕ) (r r' : lib.Rng) (c : BigNum)
      → m < (p * q) ^ s
      → lib.bn_rand_range (pos (p * q)) r ≡ (some (pos k), r')
      → Public.encrypt_using_generator_and_rand flags pk (pos m) (pos k) ≡ ok c
      → Public.encrypt flags pk (pos m) r ≡ (ok c, r')
  unfolding Public.encrypt Public.check_message Macros.ret_invalid_arg_check generate_rand_less_than
  encrypt_step m k r r' c below drawn encrypts =
      let n = p * q in
      let e : ltb (m + 0) (n ^ s + 0) ≡ true = ground (arith, below) in
      let tested : BigNum.lt (pos m) (pos (n ^ s)) ≡ true = lt_lem laws (pos m) (pos (n ^ s)) ∙ e in
      let bound : read_at pk.n_powers pk.s ≡ ok (pos (n ^ s)) =
        ap (read_at pk.n_powers) is_key.s_lem ∙ is_key.lists.powers_lem s (omega arith) in
      let drawn' : lib.bn_rand_range pk.n r ≡ (some (pos k), r') =
        ap (λ v. lib.bn_rand_range v r) is_key.n_lem ∙ drawn in
      rw (bound, is_non_negative-pos laws m, tested, drawn', encrypts) refl

  encrypted-IsCiphertext :
      (m k x : ℕ)
      → x % (p * q) ^ suc s ≡ (1 + p * q) ^ m % (p * q) ^ suc s
      → IsCiphertext p q s m (encrypted x k)
  unfolding encrypted
  encrypted-IsCiphertext m k x power =
      let n = p * q in
      let N = n ^ suc s in
      let value : ℕ → ℕ → ℕ = λ n N. x * ((g ^ (n ^ s) % N) ^ k % N) % N in
      let order_p : p ^ suc s * q ^ suc s ≡ N = sym (pow_mul p q (suc s)) in
      let order_q : q ^ suc s * p ^ suc s ≡ N = mul_comm (q ^ suc s) (p ^ suc s) ∙ order_p in
      let power_p = subst (λ N. x % N ≡ (1 + n) ^ m % N) (sym order_p) power in
      let power_q =
        subst (λ n. x % (q ^ suc s * p ^ suc s) ≡ (1 + n) ^ m % (q ^ suc s * p ^ suc s))
          (mul_comm p q) (subst (λ N. x % N ≡ (1 + n) ^ m % N) (sym order_q) power) in
      let unit_p = mod_cong_down (g * g') 1 p q unit in
      let unit_q = mod_cong_down (g * g') 1 q p (rw (mul_comm p q) at unit) in
      record {
        on_p =
            subst (λ N. Holds p q s m (value n N)) order_p
              (public_part p q (q ^ suc s) s m g g' k x unit_p power_p);
        on_q =
            subst (λ N. Holds q p s m (value n N)) order_q
              (subst (λ n. Holds q p s m (value n (q ^ suc s * p ^ suc s))) (mul_comm q p)
                (public_part q p (p ^ suc s) s m g g' k x unit_q power_q));
      }

  -- A message below the power s of n is encrypted, and the ciphertext holds it.
  pub encrypt_public-IsCiphertext :
      (m : ℕ) (r : lib.Rng)
      → m < (p * q) ^ s
      → (c : ℕ) × (r' : lib.Rng) × (Public.encrypt flags pk (pos m) r ≡ (ok (pos c), r'))
        × (c < (p * q) ^ suc s)
        × IsCiphertext p q s m c
  encrypt_public-IsCiphertext m r below =
      let n = p * q in
      let N = n ^ suc s in
      let positive = n_positive p q s primes in
      let (k, r', drawn, less) = laws.rand_range_lem n r positive in
      let (x, encrypts, power) = encrypt_using_generator_and_rand_lem m k less in
      let power' : x % N ≡ (1 + n) ^ m % N =
        power ∙ ap (λ e. (1 + n) ^ e % N) (mod-eq_of_lt below) in
      (
        encrypted x k,
        r',
        encrypt_step m k r r' (pos (encrypted x k)) below drawn encrypts,
        (unfold encrypted in mod-lt _ (one-le-pow (suc s) n positive)),
        encrypted-IsCiphertext m k x power',
      )

  -- The sum of two ciphertexts holds the sum of the messages.
  pub add-IsCiphertext :
      (m m' c c' : ℕ)
      → IsCiphertext p q s m c
      → IsCiphertext p q s m' c'
      → (d : ℕ) × (Public.add pk (pos c) (pos c') ≡ ok (pos d))
        × (d < (p * q) ^ suc s)
        × IsCiphertext p q s (m + m') d
  unfolding Public.add
  add-IsCiphertext m m' c c' first second =
      let N = (p * q) ^ suc s in
      let large : 0 < N = one-le-pow (suc s) (p * q) (n_positive p q s primes) in
      (
        c * c' % N,
        ap (BigNum.mod_mul (pos c) (pos c')) is_key.modulus_lem ∙ mod_mul-ok laws c c' N large,
        mod-lt (c * c') large,
        IsCiphertext-mul p q s m m' c c' first second,
      )
