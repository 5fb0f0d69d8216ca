-- ===== src/Crypto/CommutativeCipher.antt =====
-- crypto/ec_commutative_cipher.h and crypto/ec_commutative_cipher.cc. The cipher owns its Context,
-- whose random number generator is the one of the library.
pub mod Laws
pub mod Keys
use private_join_and_compute.Prelude.{ℕ}
use private_join_and_compute.Prelude.Bytes.{Bytes}
use private_join_and_compute.Util.Result.{Result, ok, ◌>>=◌, ◌>>◌}
use private_join_and_compute.Util.Exec
use private_join_and_compute.Util.Exec.{Exec, lift}
use private_join_and_compute.Crypto.OpenSsl.{OpenSsl}
use private_join_and_compute.Crypto.BigNum
use private_join_and_compute.Crypto.BigNum.{BigNum}
use private_join_and_compute.Crypto.EcPoint
use private_join_and_compute.Crypto.EcPoint.{EcPoint}
use private_join_and_compute.Crypto.EcGroup
use private_join_and_compute.Crypto.EcGroup.{EcGroup}
use private_join_and_compute.Crypto.ElGamal

pub record CommutativeCipher (lib : OpenSsl) : Type 0 where
  pub group : EcGroup lib
  pub private_key : BigNum
  pub private_key_inverse : BigNum

module _ ⦃lib : OpenSsl⦄ where
  open lib use {Rng}

  -- ECCommutativeCipher(context, group, private_key)
  unfoldable pub make_cipher : EcGroup lib → BigNum → Result (CommutativeCipher lib)
  make_cipher group private_key = do
    inverse ← BigNum.mod_inverse private_key group.order
    ok (record { group = group; private_key = private_key; private_key_inverse = inverse })

  unfoldable pub create_with_new_key : ℕ → Exec Rng (CommutativeCipher lib)
  create_with_new_key curve_id = Exec.◌>>=◌ (lift (EcGroup.create curve_id)) λ group.
      Exec.◌>>=◌ (EcGroup.generate_private_key group)
        λ private_key. lift (make_cipher group private_key)

  unfoldable pub create_from_key : ℕ → Bytes → Result (CommutativeCipher lib)
  create_from_key curve_id key_bytes = do
    group ← EcGroup.create curve_id
    private_key ← BigNum.of_bytes key_bytes
    EcGroup.check_private_key group private_key
    make_cipher group private_key

  -- Encrypt(point)
  unfoldable pub encrypt_point : CommutativeCipher lib → EcPoint lib → Result (EcPoint lib)
  encrypt_point c point = EcPoint.mul point c.private_key

  -- Encrypt(plaintext)
  unfoldable pub encrypt : ℕ → CommutativeCipher lib → Bytes → Result Bytes
  encrypt fuel c plaintext = do
    point ← EcGroup.get_point_by_hashing_to_curve fuel c.group plaintext
    encrypted ← encrypt_point c point
    EcPoint.to_bytes_compressed encrypted

  unfoldable pub re_encrypt : CommutativeCipher lib → Bytes → Result Bytes
  re_encrypt c ciphertext = do
    point ← EcGroup.create_ec_point c.group ciphertext
    encrypted ← encrypt_point c point
    EcPoint.to_bytes_compressed encrypted

  unfoldable pub re_encrypt_elgamal_ciphertext :
      CommutativeCipher lib → Bytes × Bytes → Result (Bytes × Bytes)
  re_encrypt_elgamal_ciphertext c elgamal_ciphertext = do
    u ← EcGroup.create_ec_point c.group elgamal_ciphertext.0
    e ← EcGroup.create_ec_point c.group elgamal_ciphertext.1
    reencrypted ← ElGamal.exp (record { u = u; e = e }) c.private_key
    encoded_u ← EcPoint.to_bytes_compressed reencrypted.u
    encoded_e ← EcPoint.to_bytes_compressed reencrypted.e
    ok (encoded_u, encoded_e)

  unfoldable pub decrypt : CommutativeCipher lib → Bytes → Result Bytes
  decrypt c ciphertext = do
    point ← EcGroup.create_ec_point c.group ciphertext
    decrypted ← EcPoint.mul point c.private_key_inverse
    EcPoint.to_bytes_compressed decrypted

  unfoldable pub get_private_key_bytes : CommutativeCipher lib → Result Bytes
  get_private_key_bytes c = BigNum.to_bytes c.private_key
