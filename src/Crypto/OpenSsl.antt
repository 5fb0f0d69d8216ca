-- ===== src/Crypto/OpenSsl.antt =====
-- The functions of OpenSSL that crypto/ calls: parameters of the whole model, since the repository
-- does not hold them. A BIGNUM is the integer that it holds. `none` is a call that fails, by its
-- return code or by a null pointer. What the code relies on stands in the child `Laws`.
pub mod Laws
pub mod Curve
pub mod Montgomery
use Prim.Native.String.{String}
use private_join_and_compute.Prelude.{ℕ, Bool, Option}
use private_join_and_compute.Prelude.Int.{ℤ}
use private_join_and_compute.Prelude.Bytes.{Bytes}

-- POINT_CONVERSION_COMPRESSED and POINT_CONVERSION_UNCOMPRESSED
pub data PointForm : Type 0 where
  compressed uncompressed : PointForm

pub record OpenSsl : Type 1 where
  -- BN_set_u64, BN_bin2bn, BN_bn2bin into a buffer of BN_num_bytes bytes, BN_get_u64, BN_num_bits
  pub bn_set_u64 : ℕ → Option ℤ
  pub bn_bin2bn : Bytes → Option ℤ
  pub bn_bn2bin : ℤ → Bytes
  pub bn_get_u64 : ℤ → Option ℕ
  pub bn_num_bits : ℤ → ℕ
  -- BN_is_prime_ex at a number of rounds; BN_is_zero, BN_is_one, BN_is_negative, BN_set_negative
  pub bn_is_prime_ex : ℤ → ℕ → Bool
  pub bn_is_zero : ℤ → Bool
  pub bn_is_one : ℤ → Bool
  pub bn_is_negative : ℤ → Bool
  pub bn_set_negative : ℤ → Bool → ℤ
  -- BN_mask_bits, BN_is_bit_set, BN_cmp
  pub bn_mask_bits : ℤ → ℕ → Option ℤ
  pub bn_is_bit_set : ℤ → ℕ → Bool
  pub bn_cmp : ℤ → ℤ → ℤ
  -- The arithmetic; BN_div gives the quotient and the remainder.
  pub bn_add : ℤ → ℤ → Option ℤ
  pub bn_sub : ℤ → ℤ → Option ℤ
  pub bn_mul : ℤ → ℤ → Option ℤ
  pub bn_div : ℤ → ℤ → Option (ℤ × ℤ)
  pub bn_exp : ℤ → ℤ → Option ℤ
  pub bn_nnmod : ℤ → ℤ → Option ℤ
  pub bn_mod_add : ℤ → ℤ → ℤ → Option ℤ
  pub bn_mod_sub : ℤ → ℤ → ℤ → Option ℤ
  pub bn_mod_mul : ℤ → ℤ → ℤ → Option ℤ
  pub bn_mod_exp : ℤ → ℤ → ℤ → Option ℤ
  pub bn_mod_sqr : ℤ → ℤ → Option ℤ
  pub bn_mod_inverse : ℤ → ℤ → Option ℤ
  pub bn_mod_sqrt : ℤ → ℤ → Option ℤ
  pub bn_lshift : ℤ → ℕ → Option ℤ
  pub bn_rshift : ℤ → ℕ → Option ℤ
  pub bn_gcd : ℤ → ℤ → Option ℤ
  -- The generator of random numbers, by its state: BN_rand_range, BN_generate_prime_ex at a length
  -- and a flag for a safe prime, RAND_bytes.
  pub Rng : Type 0
  pub bn_rand_range : ℤ → Rng → Option ℤ × Rng
  pub bn_generate_prime_ex : ℕ → Bool → Rng → Option ℤ × Rng
  pub rand_bytes : ℕ → Rng → Option Bytes × Rng
  -- EVP_DigestInit_ex, EVP_DigestUpdate and EVP_DigestFinal_ex in a row, and so for HMAC.
  pub evp_sha256 : Bytes → Option Bytes
  pub evp_sha512 : Bytes → Option Bytes
  pub hmac_sha512 : Bytes → Bytes → Option Bytes
  -- A BN_MONT_CTX for a modulus; BN_to_montgomery, BN_from_montgomery, BN_mod_mul_montgomery.
  pub MontCtx : Type 0
  pub bn_mont_ctx_set : ℤ → Option MontCtx
  pub bn_to_montgomery : MontCtx → ℤ → Option ℤ
  pub bn_from_montgomery : MontCtx → ℤ → Option ℤ
  pub bn_mod_mul_montgomery : MontCtx → ℤ → ℤ → Option ℤ
  -- Curves: NID_secp224r1, EC_GROUP_new_by_curve_name, EC_GROUP_get_order, EC_GROUP_get_curve_GFp (p, a and b),
  -- EC_GROUP_get0_generator.
  pub Group : Type 0
  pub Point : Type 0
  pub nid_secp224r1 : ℕ
  pub ec_group_new_by_curve_name : ℕ → Option Group
  pub ec_group_get_order : Group → Option ℤ
  pub ec_group_get_curve : Group → Option (ℤ × ℤ × ℤ)
  pub ec_group_get0_generator : Group → Point
  -- EC_POINT_dup, EC_POINT_new with EC_POINT_set_to_infinity, EC_POINT_set_affine_coordinates_GFp
  pub ec_point_dup : Group → Point → Option Point
  pub ec_point_new : Group → Option Point
  pub ec_point_set_to_infinity : Group → Point → Option Point
  pub ec_point_set_affine : Group → ℤ → ℤ → Option Point
  -- EC_POINT_point2oct into a buffer of the length that its first call gives; EC_POINT_oct2point
  pub ec_point_point2oct : Group → Point → PointForm → Option Bytes
  pub ec_point_oct2point : Group → Bytes → Option Point
  pub ec_point_mul : Group → Point → ℤ → Option Point
  pub ec_point_add : Group → Point → Point → Option Point
  pub ec_point_copy : Point → Option Point
  pub ec_point_invert : Group → Point → Option Point
  pub ec_point_is_at_infinity : Group → Point → Bool
  pub ec_point_is_on_curve : Group → Point → Bool
  pub ec_point_cmp : Group → Point → Point → ℤ
  -- OpenSSLErrorString: the text of the last error.
  pub error_string : String
