-- ===== src/Crypto/Paillier/PrimeCrypto.antt =====
-- crypto/paillier.cc: PrimeCrypto and PrimeCryptoWithRand, the work modulo a power of one prime.
pub mod Key
pub mod LFunc
pub mod Terms
pub mod Loops
pub mod Decrypt
pub mod Make
pub mod Encrypt
use private_join_and_compute.Prelude.{ℕ, zero, suc, ◌+◌, ◌-◌, List}
use private_join_and_compute.Util.Result.{Result, ok, ◌>>=◌, read_at}
use private_join_and_compute.Util.Exec
use private_join_and_compute.Util.Exec.{Exec, lift}
use private_join_and_compute.Crypto.OpenSsl.{OpenSsl}
use private_join_and_compute.Crypto.BigNum
use private_join_and_compute.Crypto.BigNum.{BigNum}
use private_join_and_compute.Crypto.Context.{generate_rand_between}
use private_join_and_compute.Crypto.Flags.{Flags}
use private_join_and_compute.Crypto.FixedBaseExp
use private_join_and_compute.Crypto.FixedBaseExp.{FixedBaseExp}
use private_join_and_compute.Crypto.Paillier.Table.{BigNumTable, get}
use private_join_and_compute.Crypto.Paillier.Precomp.{
  get_powers, get_precomp, get_decrypt_precomp, compute_by_binomial_expansion,
}
use private_join_and_compute.Crypto.Paillier.Generator.{
  get_generator_of_prime_powers_from_safe_prime,
}

pub record PrimeCrypto (lib : OpenSsl) : Type 0 where
  pub p : BigNum
  pub p_phi : BigNum
  pub n : BigNum
  pub s : ℕ
  pub powers : List BigNum
  pub precomp : List BigNum
  pub lambda_inv : BigNum
  pub other_prime_inv : BigNum
  pub decrypt_precomp : BigNumTable
  pub g_p : BigNum
  pub fbe : FixedBaseExp lib

-- PaillierEncAndRand
pub record PaillierEncAndRand : Type 0 where
  pub ciphertext : BigNum
  pub rand : BigNum

module _ ⦃lib : OpenSsl⦄ where
  open lib use {Rng}

  -- PrimeCrypto(ctx, p, other_prime, s)
  unfoldable pub make_prime_crypto : Flags → BigNum → BigNum → ℕ → Result (PrimeCrypto lib)
  make_prime_crypto flags p other_prime s = do
    one ← BigNum.of_u64 1
    p_phi ← BigNum.sub p one
    n ← BigNum.mul p other_prime
    powers ← get_powers p s
    modulus ← read_at powers (s + 1)
    precomp ← get_precomp n modulus s
    power ← read_at powers s
    lambda_inv ← BigNum.mod_inverse p_phi power
    other_prime_inv ← BigNum.mod_inverse other_prime power
    decrypt_precomp ← get_decrypt_precomp precomp powers s
    g_p ← get_generator_of_prime_powers_from_safe_prime flags p
    s_bn ← BigNum.of_u64 s
    n_to_s ← BigNum.exp n s_bn
    base ← BigNum.mod_exp g_p n_to_s modulus
    fbe ← FixedBaseExp.get_fixed_base_exp flags base modulus
    ok (record {
      p = p;
      p_phi = p_phi;
      n = n;
      s = s;
      powers = powers;
      precomp = precomp;
      lambda_inv = lambda_inv;
      other_prime_inv = other_prime_inv;
      decrypt_precomp = decrypt_precomp;
      g_p = g_p;
      fbe = fbe;
    })

  unfoldable pub encrypt_with_rand : Flags → PrimeCrypto lib → BigNum → BigNum → Result BigNum
  encrypt_with_rand flags c m r = do
    c_p ← compute_by_binomial_expansion c.precomp c.powers m
    g_to_r ← FixedBaseExp.mod_exp flags c.fbe r
    modulus ← read_at c.powers (c.s + 1)
    BigNum.mod_mul c_p g_to_r modulus

  unfoldable pub encrypt : Flags → PrimeCrypto lib → BigNum → Exec Rng BigNum
  encrypt flags c m =
      Exec.◌>>=◌ (lift (BigNum.of_u64 1))
        λ one. Exec.◌>>=◌ (generate_rand_between one c.p) λ r. lift (encrypt_with_rand flags c m r)

  -- GetPToExp
  unfoldable pub get_p_to_exp : PrimeCrypto lib → ℕ → Result BigNum
  get_p_to_exp c i = read_at c.powers i

  unfoldable pub l_func : PrimeCrypto lib → BigNum → Result BigNum
  l_func c c_mod_p_to_s_plus_one = do
    one ← BigNum.of_u64 1
    difference ← BigNum.sub c_mod_p_to_s_plus_one one
    quotient ← BigNum.div difference c.p
    power ← get_p_to_exp c c.s
    BigNum.mod_mul quotient c.other_prime_inv power

  -- The loop over k of Decrypt, from k on: `m_lambda`, `t1` and `t2` are its variables.
  unfoldable pub decrypt_inner :
      ℕ → ℕ → ℕ → PrimeCrypto lib → BigNum → BigNum → BigNum → Result BigNum
  decrypt_inner zero k j c m_lambda t1 t2 = ok t1
  decrypt_inner (suc rounds) k j c m_lambda t1 t2 = do
    one ← BigNum.of_u64 1
    next_m_lambda ← BigNum.sub m_lambda one
    power ← read_at c.powers j
    next_t2 ← BigNum.mod_mul t2 next_m_lambda power
    cell ← get c.decrypt_precomp k j
    product ← BigNum.mul next_t2 cell
    next_t1 ← BigNum.sub t1 product
    decrypt_inner rounds (k + 1) j c next_m_lambda next_t1 next_t2

  -- The loop over j, from j on.
  unfoldable pub decrypt_outer : ℕ → ℕ → PrimeCrypto lib → BigNum → BigNum → Result BigNum
  decrypt_outer zero j c l_u m_lambda = ok m_lambda
  decrypt_outer (suc rounds) j c l_u m_lambda = do
    power ← read_at c.powers j
    t1 ← BigNum.mod_by l_u power
    next_m_lambda ← decrypt_inner (j - 1) 2 j c m_lambda t1 m_lambda
    decrypt_outer rounds (j + 1) c l_u next_m_lambda

  unfoldable pub decrypt : PrimeCrypto lib → BigNum → Result BigNum
  decrypt c ciphertext = do
    modulus ← read_at c.powers (c.s + 1)
    u ← BigNum.mod_exp ciphertext c.p_phi modulus
    l_u ← l_func c u
    start ← BigNum.of_u64 0
    m_lambda ← decrypt_outer c.s 1 c l_u start
    power ← read_at c.powers c.s
    BigNum.mod_mul m_lambda c.lambda_inv power

pub record PrimeCryptoWithRand (lib : OpenSsl) : Type 0 where
  pub prime_crypto : PrimeCrypto lib
  pub exp_for_report : FixedBaseExp lib

module _ ⦃lib : OpenSsl⦄ where
  open lib use {Rng}

  -- PrimeCryptoWithRand(prime_crypto)
  unfoldable pub make_prime_crypto_with_rand :
      Flags → PrimeCrypto lib → Result (PrimeCryptoWithRand lib)
  make_prime_crypto_with_rand flags prime_crypto = do
    modulus ← get_p_to_exp prime_crypto (prime_crypto.s + 1)
    fbe ← FixedBaseExp.get_fixed_base_exp flags prime_crypto.g_p modulus
    ok (record { prime_crypto = prime_crypto; exp_for_report = fbe })

  -- PrimeCryptoWithRand::EncryptAndGetRand
  unfoldable pub encrypt_and_get_rand :
      Flags → PrimeCryptoWithRand lib → BigNum → Exec Rng PaillierEncAndRand
  encrypt_and_get_rand flags c m = Exec.◌>>=◌ (lift (BigNum.of_u64 1)) λ one.
      Exec.◌>>=◌ (generate_rand_between one c.prime_crypto.p) λ r. lift (do
        ct ← encrypt_with_rand flags c.prime_crypto m r
        exp_for_report_to_r ← FixedBaseExp.mod_exp flags c.exp_for_report r
        ok (record { ciphertext = ct; rand = exp_for_report_to_r }))
