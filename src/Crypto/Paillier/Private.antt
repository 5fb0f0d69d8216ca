-- ===== src/Crypto/Paillier/Private.antt =====
-- crypto/paillier.cc: PrivatePaillier and PrivatePaillierWithRand.
pub mod Make
pub mod Decrypt
pub mod Encrypt
use Prim.Native.String.{String}
use private_join_and_compute.Prelude.{ℕ, ◌+◌}
use private_join_and_compute.Util.Result.{Result, ok, ◌>>=◌, ◌>>◌}
use private_join_and_compute.Util.Macros.{ret_invalid_arg_check}
use private_join_and_compute.Util.Exec
use private_join_and_compute.Util.Exec.{Exec, lift}
use private_join_and_compute.Crypto.OpenSsl.{OpenSsl}
use private_join_and_compute.Crypto.BigNum
use private_join_and_compute.Crypto.BigNum.{BigNum}
use private_join_and_compute.Crypto.Flags.{Flags}
use private_join_and_compute.Crypto.TwoModulusCrt
use private_join_and_compute.Crypto.TwoModulusCrt.{TwoModulusCrt}
use private_join_and_compute.Crypto.Paillier.PrimeCrypto
use private_join_and_compute.Crypto.Paillier.PrimeCrypto.{
  PrimeCrypto, PrimeCryptoWithRand, PaillierEncAndRand, make_prime_crypto, get_p_to_exp,
  make_prime_crypto_with_rand,
}
use private_join_and_compute.Crypto.Paillier.Public.{default_s}

pub record PrivatePaillier (lib : OpenSsl) : Type 0 where
  pub n_to_s : BigNum
  pub n_to_s_plus_one : BigNum
  pub p_crypto : PrimeCrypto lib
  pub q_crypto : PrimeCrypto lib
  pub two_mod_crt_encrypt : TwoModulusCrt
  pub two_mod_crt_decrypt : TwoModulusCrt

module _ ⦃lib : OpenSsl⦄ where
  open lib use {Rng}

  -- PrivatePaillier(ctx, p, q, s)
  unfoldable pub make_private : Flags → BigNum → BigNum → ℕ → Result (PrivatePaillier lib)
  make_private flags p q s = do
    n ← BigNum.mul p q
    s_bn ← BigNum.of_u64 s
    n_to_s ← BigNum.exp n s_bn
    n_to_s_p ← BigNum.mul n_to_s p
    n_to_s_plus_one ← BigNum.mul n_to_s_p q
    p_crypto ← make_prime_crypto flags p q s
    q_crypto ← make_prime_crypto flags q p s
    p_modulus ← get_p_to_exp p_crypto (s + 1)
    q_modulus ← get_p_to_exp q_crypto (s + 1)
    crt_encrypt ← TwoModulusCrt.make_crt p_modulus q_modulus
    p_power ← get_p_to_exp p_crypto s
    q_power ← get_p_to_exp q_crypto s
    crt_decrypt ← TwoModulusCrt.make_crt p_power q_power
    ok (record {
      n_to_s = n_to_s;
      n_to_s_plus_one = n_to_s_plus_one;
      p_crypto = p_crypto;
      q_crypto = q_crypto;
      two_mod_crt_encrypt = crt_encrypt;
      two_mod_crt_decrypt = crt_decrypt;
    })

  -- PrivatePaillier(ctx, p, q)
  unfoldable pub make_private_default : Flags → BigNum → BigNum → Result (PrivatePaillier lib)
  make_private_default flags p q = make_private flags p q default_s

  -- The two checks that Encrypt and EncryptAndGetRand make of a message; the text of the second
  -- condition differs between them.
  unfoldable pub check_message : String → PrivatePaillier lib → BigNum → Result (Unit {0})
  check_message condition c m = do
    ret_invalid_arg_check (BigNum.is_non_negative m) "m.IsNonNegative()"
        "PrivatePaillier::Encrypt() - Cannot encrypt negative number."
    ret_invalid_arg_check (BigNum.lt m c.n_to_s) condition
        "PrivatePaillier::Encrypt() - Message not smaller than n^s."

  unfoldable pub encrypt : Flags → PrivatePaillier lib → BigNum → Exec Rng BigNum
  encrypt flags c m = Exec.◌>>=◌ (lift (check_message "m < n_to_s_" c m)) λ _.
      Exec.◌>>=◌ (PrimeCrypto.encrypt flags c.p_crypto m) λ p_ct.
        Exec.◌>>=◌ (PrimeCrypto.encrypt flags c.q_crypto m)
          λ q_ct. lift (TwoModulusCrt.compute c.two_mod_crt_encrypt p_ct q_ct)

  unfoldable pub decrypt : PrivatePaillier lib → BigNum → Result BigNum
  decrypt c ciphertext = do
    ret_invalid_arg_check (BigNum.is_non_negative ciphertext) "c.IsNonNegative()"
        "PrivatePaillier::Decrypt() - Cannot decrypt negative number."
    ret_invalid_arg_check (BigNum.lt ciphertext c.n_to_s_plus_one) "c < n_to_s_plus_one_"
        "PrivatePaillier::Decrypt() - Ciphertext not smaller than n^(s+1)."
    p_part ← PrimeCrypto.decrypt c.p_crypto ciphertext
    q_part ← PrimeCrypto.decrypt c.q_crypto ciphertext
    TwoModulusCrt.compute c.two_mod_crt_decrypt p_part q_part

pub record PrivatePaillierWithRand (lib : OpenSsl) : Type 0 where
  pub private_paillier : PrivatePaillier lib
  pub two_mod_crt_rand : TwoModulusCrt
  pub p_crypto : PrimeCryptoWithRand lib
  pub q_crypto : PrimeCryptoWithRand lib

module _ ⦃lib : OpenSsl⦄ where
  open lib use {Rng}

  -- PrivatePaillierWithRand(private_paillier)
  unfoldable pub make_private_with_rand :
      Flags → PrivatePaillier lib → Result (PrivatePaillierWithRand lib)
  make_private_with_rand flags private_paillier = do
    p ← get_p_to_exp private_paillier.p_crypto 1
    q ← get_p_to_exp private_paillier.q_crypto 1
    crt_rand ← TwoModulusCrt.make_crt p q
    p_crypto ← make_prime_crypto_with_rand flags private_paillier.p_crypto
    q_crypto ← make_prime_crypto_with_rand flags private_paillier.q_crypto
    ok (record {
      private_paillier = private_paillier;
      two_mod_crt_rand = crt_rand;
      p_crypto = p_crypto;
      q_crypto = q_crypto;
    })

  unfoldable pub encrypt_and_get_rand :
      Flags → PrivatePaillierWithRand lib → BigNum → Exec Rng PaillierEncAndRand
  encrypt_and_get_rand flags c m =
      Exec.◌>>=◌ (lift (check_message "m < private_paillier_->n_to_s_" c.private_paillier m)) λ _.
        Exec.◌>>=◌ (PrimeCrypto.encrypt_and_get_rand flags c.p_crypto m) λ enc_p.
          Exec.◌>>=◌ (PrimeCrypto.encrypt_and_get_rand flags c.q_crypto m) λ enc_q. lift (do
            ciphertext ←
                TwoModulusCrt.compute c.private_paillier.two_mod_crt_encrypt enc_p.ciphertext
                  enc_q.ciphertext
            r ← TwoModulusCrt.compute c.two_mod_crt_rand enc_p.rand enc_q.rand
            ok (record { ciphertext = ciphertext; rand = r }))
