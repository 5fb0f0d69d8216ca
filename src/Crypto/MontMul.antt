-- ===== src/Crypto/MontMul.antt =====
-- crypto/mont_mul.h and crypto/mont_mul.cc. `address` stands for the address of a BN_MONT_CTX, which
-- the CHECK_EQs compare; a MontBigNum is copied and moved as its number is.
use private_join_and_compute.Prelude.{ℕ, zero, suc, Bool, ◌==◌}
use private_join_and_compute.Prelude.Int.{pos, eqb_ℤ, leb_ℤ, pos_part, ℤ}
use private_join_and_compute.Prelude.Bytes.{Bytes}
use private_join_and_compute.Util.Result.{Result, ok, ◌>>=◌, ◌>>◌, check, crypto_check}
use private_join_and_compute.Crypto.OpenSsl.{OpenSsl}
use private_join_and_compute.Crypto.BigNum
use private_join_and_compute.Crypto.BigNum.{BigNum}

pub record MontBigNum (lib : OpenSsl) : Type 0 where
  pub mont_ctx : lib.MontCtx
  pub address : ℕ
  pub bn : ℤ

pub record MontContext (lib : OpenSsl) : Type 0 where
  pub modulus : BigNum
  pub mont_ctx : lib.MontCtx
  pub address : ℕ

module _ ⦃lib : OpenSsl⦄ where
  open lib use {
    bn_mont_ctx_set, bn_to_montgomery, bn_from_montgomery, bn_mod_mul_montgomery, bn_bin2bn,
    bn_bn2bin, bn_cmp,
  }

  -- MontContext(ctx, modulus)
  unfoldable pub make_context : ℕ → BigNum → Result (MontContext lib)
  make_context address modulus = do
    mont_ctx ← crypto_check (bn_mont_ctx_set modulus)
    ok (record { modulus = modulus; mont_ctx = mont_ctx; address = address })

  -- CreateMontBigNum(big_num)
  unfoldable pub create_mont_big_num : MontContext lib → BigNum → Result (MontBigNum lib)
  create_mont_big_num ctx big_num = do
    check (BigNum.lt big_num ctx.modulus)
    bn ← crypto_check (bn_to_montgomery ctx.mont_ctx big_num)
    ok (record { mont_ctx = ctx.mont_ctx; address = ctx.address; bn = bn })

  -- CreateMontBigNum(bytes)
  unfoldable pub create_mont_big_num_bytes : MontContext lib → Bytes → Result (MontBigNum lib)
  create_mont_big_num_bytes ctx bytes = do
    bn ← crypto_check (bn_bin2bn bytes)
    ok (record { mont_ctx = ctx.mont_ctx; address = ctx.address; bn = bn })

  -- MulInPlace, and operator*=: the new value of the object.
  unfoldable pub mul_in_place : MontBigNum lib → MontBigNum lib → Result (MontBigNum lib)
  mul_in_place a mont_big_num = do
    check (mont_big_num.address == a.address)
    bn ← crypto_check (bn_mod_mul_montgomery a.mont_ctx a.bn mont_big_num.bn)
    ok (record a { bn = bn })

  -- Mul, and operator*: the same on a copy.
  unfoldable pub mul : MontBigNum lib → MontBigNum lib → Result (MontBigNum lib)
  mul a mont_big_num = mul_in_place a mont_big_num

  unfoldable pub mont_eq : MontBigNum lib → MontBigNum lib → Result Bool
  mont_eq a other = do check (other.address == a.address); ok (eqb_ℤ (bn_cmp a.bn other.bn) (pos 0))

  squarings : ℕ → MontBigNum lib → Result (MontBigNum lib)
  squarings zero r = ok r
  squarings (suc rounds) r = do
    bn ← crypto_check (bn_mod_mul_montgomery r.mont_ctx r.bn r.bn)
    squarings rounds (record r { bn = bn })

  unfoldable pub pow_to_2_to : MontBigNum lib → ℤ → Result (MontBigNum lib)
  unfolding squarings
  pow_to_2_to a exponent = do check (leb_ℤ (pos 0) exponent); squarings (pos_part exponent) a

  unfoldable pub to_bytes : MontBigNum lib → Bytes
  to_bytes a = bn_bn2bin a.bn

  unfoldable pub to_big_num : MontBigNum lib → Result BigNum
  to_big_num a = crypto_check (bn_from_montgomery a.mont_ctx a.bn)
