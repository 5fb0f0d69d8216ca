-- ===== src/Crypto/ElGamal.antt =====
-- crypto/elgamal.h and crypto/elgamal.cc.
pub mod Laws
use private_join_and_compute.Prelude.{Bool, ◌&&◌}
use private_join_and_compute.Util.Result.{Result, ok, ◌>>=◌}
use private_join_and_compute.Util.Exec
use private_join_and_compute.Util.Exec.{Exec, lift}
use private_join_and_compute.Crypto.OpenSsl.{OpenSsl}
use private_join_and_compute.Crypto.BigNum.{BigNum}
use private_join_and_compute.Crypto.EcPoint
use private_join_and_compute.Crypto.EcPoint.{EcPoint}
use private_join_and_compute.Crypto.EcGroup.{
  EcGroup, get_fixed_generator, generate_private_key, get_point_at_infinity,
}

pub record PublicKey (lib : OpenSsl) : Type 0 where
  pub g : EcPoint lib
  pub y : EcPoint lib

pub record PrivateKey : Type 0 where
  pub x : BigNum

pub record Ciphertext (lib : OpenSsl) : Type 0 where
  pub u : EcPoint lib
  pub e : EcPoint lib

module _ ⦃lib : OpenSsl⦄ where
  open lib use {Rng}

  unfoldable pub generate_key_pair : EcGroup lib → Exec Rng (PublicKey lib × PrivateKey)
  generate_key_pair ec_group = Exec.◌>>=◌ (lift (get_fixed_generator ec_group)) λ g.
      Exec.◌>>=◌ (generate_private_key ec_group) λ x.
        Exec.◌>>=◌ (lift (EcPoint.mul g x))
          λ y. lift (ok (record { g = g; y = y }, record { x = x }))

  unfoldable pub mul : Ciphertext lib → Ciphertext lib → Result (Ciphertext lib)
  mul ciphertext1 ciphertext2 = do
    u ← EcPoint.add ciphertext1.u ciphertext2.u
    e ← EcPoint.add ciphertext1.e ciphertext2.e
    ok (record { u = u; e = e })

  unfoldable pub exp : Ciphertext lib → BigNum → Result (Ciphertext lib)
  exp ciphertext scalar = do
    u ← EcPoint.mul ciphertext.u scalar
    e ← EcPoint.mul ciphertext.e scalar
    ok (record { u = u; e = e })

  unfoldable pub get_zero : EcGroup lib → Result (Ciphertext lib)
  get_zero group = do
    u ← get_point_at_infinity group
    e ← get_point_at_infinity group
    ok (record { u = u; e = e })

  unfoldable pub clone_ciphertext : Ciphertext lib → Result (Ciphertext lib)
  clone_ciphertext ciphertext = do
    clone_u ← EcPoint.clone ciphertext.u
    clone_e ← EcPoint.clone ciphertext.e
    ok (record { u = clone_u; e = clone_e })

  unfoldable pub is_ciphertext_zero : Ciphertext lib → Bool
  is_ciphertext_zero ciphertext =
      EcPoint.is_point_at_infinity ciphertext.u && EcPoint.is_point_at_infinity ciphertext.e

-- ElGamalEncrypter
pub record ElGamalEncrypter (lib : OpenSsl) : Type 0 where
  pub ec_group : EcGroup lib
  pub public_key : PublicKey lib

-- ElGamalDecrypter
pub record ElGamalDecrypter : Type 0 where
  pub private_key : PrivateKey

module _ ⦃lib : OpenSsl⦄ where
  open lib use {Rng}

  unfoldable pub encrypt : ElGamalEncrypter lib → EcPoint lib → Exec Rng (Ciphertext lib)
  encrypt encrypter message = Exec.◌>>=◌ (generate_private_key encrypter.ec_group) λ r. lift (do
    u ← EcPoint.mul encrypter.public_key.g r
    y_to_r ← EcPoint.mul encrypter.public_key.y r
    e ← EcPoint.add message y_to_r
    ok (record { u = u; e = e }))

  unfoldable pub re_randomize : ElGamalEncrypter lib → Ciphertext lib → Exec Rng (Ciphertext lib)
  re_randomize encrypter ciphertext = Exec.◌>>=◌ (generate_private_key encrypter.ec_group) λ r.
      lift (do
        g_to_r ← EcPoint.mul encrypter.public_key.g r
        u ← EcPoint.add ciphertext.u g_to_r
        y_to_r ← EcPoint.mul encrypter.public_key.y r
        e ← EcPoint.add ciphertext.e y_to_r
        ok (record { u = u; e = e }))

  unfoldable pub decrypt : ElGamalDecrypter → Ciphertext lib → Result (EcPoint lib)
  decrypt decrypter ciphertext = do
    u_to_x ← EcPoint.mul ciphertext.u decrypter.private_key.x
    u_to_x_inverse ← EcPoint.inverse u_to_x
    EcPoint.add ciphertext.e u_to_x_inverse
