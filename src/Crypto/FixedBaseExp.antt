-- ===== src/Crypto/FixedBaseExp.antt =====
-- crypto/fixed_base_exp.h and crypto/fixed_base_exp.cc.
pub mod TwoKAry
use private_join_and_compute.Prelude.{ℕ, zero, suc, ◌&&◌, List, [], ◌∷◌, leb, if◌then◌else◌}
use private_join_and_compute.Prelude.Bytes.{Bytes}
use private_join_and_compute.Util.Result.{Result, ok, die, ◌>>=◌, ◌>>◌, read_at}
use private_join_and_compute.Util.Macros.{ret_invalid_arg_check}
use private_join_and_compute.Crypto.OpenSsl.{OpenSsl}
use private_join_and_compute.Crypto.BigNum
use private_join_and_compute.Crypto.BigNum.{BigNum}
use private_join_and_compute.Crypto.MontMul
use private_join_and_compute.Crypto.MontMul.{MontBigNum, MontContext}
use private_join_and_compute.Crypto.Flags.{Flags}

-- The two subclasses of FixedBaseExpImplBase.
pub data FixedBaseExp (lib : OpenSsl) : Type 0 where
  simple : (fixed_base modulus : BigNum) → FixedBaseExp lib
  two_k_ary : (fixed_base modulus : BigNum) (cache : List (MontBigNum lib)) → FixedBaseExp lib

module _ ⦃lib : OpenSsl⦄ where
  -- The loop of TwoKAryFixedBaseExpImpl's constructor: what it appends behind `last`.
  unfoldable pub fill_cache : ℕ → MontBigNum lib → MontBigNum lib → Result (List (MontBigNum lib))
  fill_cache zero last g = ok []
  fill_cache (suc rounds) last g = do
    next ← MontMul.mul last g
    rest ← fill_cache rounds next g
    ok (next ∷ rest)

  unfoldable pub make_two_k_ary : BigNum → BigNum → Result (FixedBaseExp lib)
  make_two_k_ary fixed_base modulus = do
    mont_ctx ← MontMul.make_context 0 modulus
    one ← BigNum.of_u64 1
    first ← MontMul.create_mont_big_num mont_ctx one
    g ← MontMul.create_mont_big_num mont_ctx fixed_base
    powers ← fill_cache 256 g g
    ok (two_k_ary fixed_base modulus (first ∷ g ∷ powers))

  -- The inner loop: `z *= z`, `rounds` times.
  unfoldable pub square_times : ℕ → MontBigNum lib → Result (MontBigNum lib)
  square_times zero z = ok z
  square_times (suc rounds) z = do squared ← MontMul.mul_in_place z z; square_times rounds squared

  -- cache_[static_cast<int16_t>(*it)]: where char is signed, a byte from 128 on is a negative index.
  unfoldable pub cache_at : Flags → List (MontBigNum lib) → ℕ → Result (MontBigNum lib)
  cache_at flags cache byte =
      if flags.char_is_signed && leb 128 byte then die else read_at cache byte

  unfoldable pub exp_loop :
      Flags → List (MontBigNum lib) → Bytes → MontBigNum lib → Result (MontBigNum lib)
  exp_loop flags cache [] z = ok z
  exp_loop flags cache (byte ∷ values) z = do
    squared ← square_times 8 z
    factor ← cache_at flags cache byte
    next ← MontMul.mul_in_place squared factor
    exp_loop flags cache values next

  -- ModExp of the two subclasses.
  unfoldable pub impl_mod_exp : Flags → FixedBaseExp lib → BigNum → Result BigNum
  impl_mod_exp flags (simple fixed_base modulus) exp = BigNum.mod_exp fixed_base exp modulus
  impl_mod_exp flags (two_k_ary fixed_base modulus cache) exp = do
    z ← read_at cache 0
    values ← BigNum.to_bytes exp
    power ← exp_loop flags cache values z
    MontMul.to_big_num power

  -- FixedBaseExp::ModExp
  unfoldable pub mod_exp : Flags → FixedBaseExp lib → BigNum → Result BigNum
  mod_exp flags fbe exp = do
    ret_invalid_arg_check (BigNum.is_non_negative exp) "exp.IsNonNegative()"
        "FixedBaseExp::ModExp : Negative exponents not supported."
    impl_mod_exp flags fbe exp

  unfoldable pub get_fixed_base_exp : Flags → BigNum → BigNum → Result (FixedBaseExp lib)
  get_fixed_base_exp flags fixed_base modulus =
      if flags.two_k_ary_exp
      then make_two_k_ary fixed_base modulus
      else ok (simple fixed_base modulus)
