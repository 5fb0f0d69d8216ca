-- ===== src/Crypto/TwoModulusCrt.antt =====
-- crypto/two_modulus_crt.h and crypto/two_modulus_crt.cc.
pub mod Laws
use private_join_and_compute.Util.Result.{Result, ok, ◌>>=◌}
use private_join_and_compute.Crypto.OpenSsl.{OpenSsl}
use private_join_and_compute.Crypto.BigNum
use private_join_and_compute.Crypto.BigNum.{BigNum}

pub record TwoModulusCrt : Type 0 where
  pub crt_term1 : BigNum
  pub crt_term2 : BigNum
  pub coprime_product : BigNum

module _ ⦃lib : OpenSsl⦄ where
  -- TwoModulusCrt(coprime1, coprime2)
  unfoldable pub make_crt : BigNum → BigNum → Result TwoModulusCrt
  make_crt coprime1 coprime2 = do
    inverse2 ← BigNum.mod_inverse coprime2 coprime1
    crt_term1 ← BigNum.mul coprime2 inverse2
    inverse1 ← BigNum.mod_inverse coprime1 coprime2
    crt_term2 ← BigNum.mul coprime1 inverse1
    coprime_product ← BigNum.mul coprime1 coprime2
    ok (record { crt_term1 = crt_term1; crt_term2 = crt_term2; coprime_product = coprime_product })

  unfoldable pub compute : TwoModulusCrt → BigNum → BigNum → Result BigNum
  compute crt solution1 solution2 = do
    part1 ← BigNum.mul solution1 crt.crt_term1
    part2 ← BigNum.mul solution2 crt.crt_term2
    sum ← BigNum.add part1 part2
    BigNum.mod_by sum crt.coprime_product

unfoldable pub get_coprime_product : TwoModulusCrt → BigNum
get_coprime_product crt = crt.coprime_product
