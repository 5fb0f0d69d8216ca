-- ===== src/Crypto/Paillier/Private/Make.antt =====
-- The constructor of PrivatePaillier.
use native.Mathlib.Nat.{one-le-pow, pow-suc, mul_assoc}
use private_join_and_compute.Prelude.{
  ℕ, suc, ◌+◌, ◌*◌, ◌%◌, ◌^◌, ◌≡◌, refl, sym, ap, ◌∙◌, false, arith,
}
use private_join_and_compute.Prelude.Int.{pos}
use private_join_and_compute.Util.Result.{ok, read_at}
use private_join_and_compute.Crypto.OpenSsl.{OpenSsl}
use private_join_and_compute.Crypto.OpenSsl.Laws.{BnLaws}
use private_join_and_compute.Crypto.BigNum.Laws.{of_u64-ok, mul-ok, exp-ok}
use private_join_and_compute.Crypto.Flags.{Flags}
use private_join_and_compute.Crypto.TwoModulusCrt.Laws.{Combines, make_crt-Combines}
use private_join_and_compute.Crypto.Paillier.Fermat.{unit_lift, unit-pow}
use private_join_and_compute.Crypto.Paillier.Generator.{
  get_generator_of_prime_powers_from_safe_prime,
}
use private_join_and_compute.Crypto.Paillier.PrimeCrypto.{PrimeCrypto, get_p_to_exp}
use private_join_and_compute.Crypto.Paillier.PrimeCrypto.Make.{
  IsSuited, IsMade, prime_positive, other_unit, make_prime_crypto_lem,
}
use private_join_and_compute.Crypto.Paillier.Private.{PrivatePaillier, make_private}

-- The primes p and q of a key, for s.
pub record ArePrimes (p q s : ℕ) : Type 0 where
  pub on_p : IsSuited p q s
  pub on_q : IsSuited q p s

pub unit_powers :
    (p q s : ℕ) → IsSuited p q s → (k : ℕ) → (v : ℕ) × (q ^ suc k * v % p ^ suc k ≡ 1 % p ^ suc k)
unit_powers p q s numbers k =
    let (v, e) = numbers.apart in
    let (w, f) = unit_lift p q v k numbers.field e in
    (w ^ suc k, unit-pow q w (suc k) (p ^ suc k) f)

pub low_units : (p q s : ℕ) → IsSuited p q s → (v : ℕ) × (q ^ s * v % p ^ s ≡ 1 % p ^ s)
low_units p q s numbers = let (v, e) = other_unit p q s numbers in (v ^ s, unit-pow q v s (p ^ s) e)

module _ ⦃lib : OpenSsl⦄ (laws : BnLaws lib) (flags : Flags) (p q s : ℕ)
    (primes : ArePrimes p q s) where
  -- What the constructor leaves in the fields, where the generators g and h were found for the primes.
  pub record IsPrivateKey (g h : ℕ) (key : PrivatePaillier lib) : Type 0 where
    pub n_to_s_lem : key.n_to_s ≡ pos ((p * q) ^ s)
    pub n_to_s_plus_one_lem : key.n_to_s_plus_one ≡ pos ((p * q) ^ suc s)
    pub p_made : IsMade laws flags p q s primes.on_p g key.p_crypto
    pub q_made : IsMade laws flags q p s primes.on_q h key.q_crypto
    pub encrypt_crt : Combines laws key.two_mod_crt_encrypt (p ^ suc s) (q ^ suc s)
    pub decrypt_crt : Combines laws key.two_mod_crt_decrypt (p ^ s) (q ^ s)

  power_of :
      (p' q' g : ℕ) (numbers : IsSuited p' q' s) (c : PrimeCrypto lib)
      → IsMade laws flags p' q' s numbers g c
      → (get_p_to_exp c (s + 1) ≡ ok (pos (p' ^ suc s))) × (get_p_to_exp c s ≡ ok (pos (p' ^ s)))
  unfolding get_p_to_exp
  power_of p' q' g numbers c made =
      let top : s + 1 ≡ suc s = omega arith in
      (
        ap (read_at c.powers) top ∙ made.key.lists.powers_lem (suc s) (omega arith),
        made.key.lists.powers_lem s (omega arith),
      )

  -- Where the searches find the generators g and h, the constructor succeeds and leaves the key of the
  -- primes in the fields.
  pub make_private_lem :
      (g h : ℕ)
      → flags.two_k_ary_exp ≡ false
      → get_generator_of_prime_powers_from_safe_prime flags (pos p) ≡ ok (pos g)
      → get_generator_of_prime_powers_from_safe_prime flags (pos q) ≡ ok (pos h)
      → (key : PrivatePaillier lib) × (make_private flags (pos p) (pos q) s ≡ ok key)
        × IsPrivateKey g h key
  unfolding make_private
  make_private_lem g h plain found_p found_q =
      let n = p * q in
      let hp = prime_positive p q s primes.on_p in
      let hq = prime_positive q p s primes.on_q in
      let (c, made_p, is_p) = make_prime_crypto_lem laws flags p q s primes.on_p g plain found_p in
      let (d, made_q, is_q) = make_prime_crypto_lem laws flags q p s primes.on_q h plain found_q in
      let (top_p, low_p) = power_of p q g primes.on_p c is_p in
      let (top_q, low_q) = power_of q p h primes.on_q d is_q in
      let (v, e) = unit_powers p q s primes.on_p s in
      let (w, f) = unit_powers q p s primes.on_q s in
      let (crt_e, made_e, combines_e) =
        make_crt-Combines laws (p ^ suc s) (q ^ suc s) w v (one-le-pow (suc s) p hp)
          (one-le-pow (suc s) q hq) e f in
      let (v', e') = low_units p q s primes.on_p in
      let (w', f') = low_units q p s primes.on_q in
      let (crt_d, made_d, combines_d) =
        make_crt-Combines laws (p ^ s) (q ^ s) w' v' (one-le-pow s p hp) (one-le-pow s q hq) e'
          f' in
      let order : n ^ s * p * q ≡ n ^ suc s = mul_assoc (n ^ s) p q ∙ sym (pow-suc n s) in
      (
        record {
          n_to_s = pos (n ^ s);
          n_to_s_plus_one = pos (n ^ suc s);
          p_crypto = c;
          q_crypto = d;
          two_mod_crt_encrypt = crt_e;
          two_mod_crt_decrypt = crt_d;
        },
        rw
            (
              mul-ok laws p q,
              of_u64-ok laws s primes.on_p.small,
              exp-ok laws n s,
              mul-ok laws (n ^ s) p,
              mul-ok laws (n ^ s * p) q,
              order,
              made_p,
              made_q,
              top_p,
              top_q,
              made_e,
              low_p,
              low_q,
              made_d,
            )
            refl,
        record {
          n_to_s_lem = refl;
          n_to_s_plus_one_lem = refl;
          p_made = is_p;
          q_made = is_q;
          encrypt_crt = combines_e;
          decrypt_crt = combines_d;
        },
      )
