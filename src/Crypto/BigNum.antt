-- ===== src/Crypto/BigNum.antt =====
-- crypto/big_num.h and crypto/big_num.cc. A call that CRYPTO_CHECK ends is `die`. `bn_ctx_`, the
-- scratch memory of OpenSSL, holds no state between calls and is left out; so are the copy and the
-- move of a BigNum, which copy and move its integer.
pub mod Laws
use private_join_and_compute.Prelude.{
  ℕ, ◌+◌, ◌/◌, Bool, true, false, not, ◌&&◌, ◌||◌, Option, none, some, if◌then◌else◌,
}
use private_join_and_compute.Prelude.Int.{ℤ, pos, negsuc, eqb_ℤ, leb_ℤ}
use private_join_and_compute.Prelude.Bytes.{Bytes}
use private_join_and_compute.Util.Status.{invalid_argument_error}
use private_join_and_compute.Util.Result.{
  Result, ok, err, ◌>>=◌, ◌>>◌, check, crypto_check, require_some,
}
use private_join_and_compute.Crypto.OpenSsl.{OpenSsl}

abbrev pub BigNum : Type 0
BigNum = ℤ

-- static_cast<int>(ceil(-log(1e-40) / log(4))), at the probability that every caller leaves it at
abbrev pub prime_rounds : ℕ
prime_rounds = 67

module _ ⦃lib : OpenSsl⦄ where
  open lib use {
    bn_set_u64, bn_bin2bn, bn_bn2bin, bn_get_u64, bn_num_bits, bn_is_prime_ex, bn_is_zero,
    bn_is_one, bn_is_negative, bn_set_negative, bn_mask_bits, bn_is_bit_set, bn_cmp, bn_add, bn_sub,
    bn_mul, bn_div, bn_exp, bn_nnmod, bn_mod_add, bn_mod_sub, bn_mod_mul, bn_mod_exp, bn_mod_sqr,
    bn_mod_inverse, bn_mod_sqrt, bn_lshift, bn_rshift, bn_gcd,
  }

  -- BigNum(bn_ctx, number)
  unfoldable pub of_u64 : ℕ → Result BigNum
  of_u64 number = crypto_check (bn_set_u64 number)

  -- BigNum(bn_ctx, bytes), and BigNum(bn_ctx, bytes, length)
  unfoldable pub of_bytes : Bytes → Result BigNum
  of_bytes bytes = crypto_check (bn_bin2bn bytes)

  unfoldable pub is_zero : BigNum → Bool
  is_zero a = bn_is_zero a

  unfoldable pub is_one : BigNum → Bool
  is_one a = bn_is_one a

  unfoldable pub is_non_negative : BigNum → Bool
  is_non_negative a = not (bn_is_negative a)

  unfoldable pub to_bytes : BigNum → Result Bytes
  unfolding is_non_negative
  to_bytes a = do check (is_non_negative a); ok (bn_bn2bin a)

  unfoldable pub to_int_value : BigNum → Result ℕ
  to_int_value a =
      require_some (bn_get_u64 a) (invalid_argument_error "BigNum has more than 64 bits.")

  unfoldable pub bit_length : BigNum → ℕ
  bit_length a = bn_num_bits a

  unfoldable pub get_last_n_bits : BigNum → ℕ → BigNum
  get_last_n_bits a n = elim (bn_mask_bits a n) [ none ↦ a | some r ↦ r ]

  unfoldable pub is_bit_set : BigNum → ℕ → Bool
  is_bit_set a n = bn_is_bit_set a n

  unfoldable pub neg : BigNum → BigNum
  neg a = bn_set_negative a (not (bn_is_negative a))

  unfoldable pub add : BigNum → BigNum → Result BigNum
  add a val = crypto_check (bn_add a val)

  unfoldable pub mul : BigNum → BigNum → Result BigNum
  mul a val = crypto_check (bn_mul a val)

  unfoldable pub sub : BigNum → BigNum → Result BigNum
  sub a val = crypto_check (bn_sub a val)

  -- The CHECK on the remainder is what `operator/` has over DivAndTruncate.
  div_checked : BigNum × BigNum → Result BigNum
  div_checked (r, rem) = do check (bn_is_zero rem); ok r

  unfoldable pub div : BigNum → BigNum → Result BigNum
  unfolding div_checked
  div a val = crypto_check (bn_div a val) >>= div_checked

  unfoldable pub div_and_truncate : BigNum → BigNum → Result BigNum
  div_and_truncate a val = do r ← crypto_check (bn_div a val); ok r.0

  unfoldable pub compare_to : BigNum → BigNum → ℤ
  compare_to a val = bn_cmp a val

  unfoldable pub exp : BigNum → BigNum → Result BigNum
  exp a exponent = crypto_check (bn_exp a exponent)

  unfoldable pub mod_by : BigNum → BigNum → Result BigNum
  mod_by a m = crypto_check (bn_nnmod a m)

  unfoldable pub mod_add : BigNum → BigNum → BigNum → Result BigNum
  mod_add a val m = crypto_check (bn_mod_add a val m)

  unfoldable pub mod_sub : BigNum → BigNum → BigNum → Result BigNum
  mod_sub a val m = crypto_check (bn_mod_sub a val m)

  unfoldable pub mod_mul : BigNum → BigNum → BigNum → Result BigNum
  mod_mul a val m = crypto_check (bn_mod_mul a val m)

  unfoldable pub mod_exp : BigNum → BigNum → BigNum → Result BigNum
  unfolding is_non_negative
  mod_exp a exponent m = do check (is_non_negative exponent); crypto_check (bn_mod_exp a exponent m)

  unfoldable pub mod_sqr : BigNum → BigNum → Result BigNum
  mod_sqr a m = crypto_check (bn_mod_sqr a m)

  unfoldable pub mod_inverse : BigNum → BigNum → Result BigNum
  mod_inverse a m = crypto_check (bn_mod_inverse a m)

  unfoldable pub mod_sqrt : BigNum → BigNum → Result BigNum
  mod_sqrt a m = crypto_check (bn_mod_sqrt a m)

  unfoldable pub mod_negate : BigNum → BigNum → Result BigNum
  unfolding is_zero mod_by sub
  mod_negate a m = if is_zero a then ok a else (do r ← mod_by a m; sub m r)

  unfoldable pub lshift : BigNum → ℕ → Result BigNum
  lshift a n = crypto_check (bn_lshift a n)

  unfoldable pub rshift : BigNum → ℕ → Result BigNum
  rshift a n = crypto_check (bn_rshift a n)

  unfoldable pub gcd : BigNum → BigNum → Result BigNum
  gcd a val = crypto_check (bn_gcd a val)

  unfoldable pub is_prime : BigNum → Bool
  is_prime a = bn_is_prime_ex a prime_rounds

  -- `&&` leaves the second test out where the first fails.
  unfoldable pub is_safe_prime : BigNum → Result Bool
  unfolding is_prime of_u64 sub div
  is_safe_prime a =
      if is_prime a
      then (do one ← of_u64 1; p ← sub a one; two ← of_u64 2; q ← div p two; ok (is_prime q))
      else ok false

  -- operator==, !=, <, >, <=, >=
  unfoldable pub eq : BigNum → BigNum → Bool
  unfolding compare_to
  eq a b = eqb_ℤ (pos 0) (compare_to a b)

  unfoldable pub ne : BigNum → BigNum → Bool
  unfolding eq
  ne a b = not (eq a b)

  unfoldable pub lt : BigNum → BigNum → Bool
  unfolding compare_to
  lt a b = eqb_ℤ (negsuc 0) (compare_to a b)

  unfoldable pub gt : BigNum → BigNum → Bool
  unfolding compare_to
  gt a b = eqb_ℤ (pos 1) (compare_to a b)

  unfoldable pub le : BigNum → BigNum → Bool
  unfolding compare_to
  le a b = leb_ℤ (compare_to a b) (pos 0)

  unfoldable pub ge : BigNum → BigNum → Bool
  unfolding compare_to
  ge a b = leb_ℤ (pos 0) (compare_to a b)
