-- ===== src/Crypto/EcPoint.antt =====
-- crypto/ec_point.h and crypto/ec_point.cc. `bn_ctx_` is scratch memory and is left out.
use private_join_and_compute.Prelude.{Bool}
use Prim.Native.String.{String}
use private_join_and_compute.Prelude.Int.{pos, eqb_ℤ}
use private_join_and_compute.Prelude.Bytes.{Bytes}
use private_join_and_compute.Util.Status.{Status, k_internal}
use private_join_and_compute.Util.Result.{Result, ok, ◌>>=◌, crypto_check, require_some}
use private_join_and_compute.Util.Macros.{ret_error_check}
use private_join_and_compute.Crypto.OpenSsl.{OpenSsl, compressed, uncompressed}
use private_join_and_compute.Crypto.BigNum.{BigNum}

pub record EcPoint (lib : OpenSsl) : Type 0 where
  pub group : lib.Group
  pub point : lib.Point

module _ ⦃lib : OpenSsl⦄ where
  open lib use {
    Group, Point, ec_point_new, ec_point_set_affine, ec_point_point2oct, ec_point_mul, ec_point_add,
    ec_point_copy, ec_point_invert, ec_point_is_at_infinity, ec_point_cmp, error_string,
  }

  -- The status of a failed RET_INTERNAL_CHECK(condition) << OpenSSLErrorString().
  abbrev pub openssl_failure : String → Status
  unfolding ret_error_check
  openssl_failure condition = ret_error_check condition k_internal error_string

  -- ECPoint(group, bn_ctx)
  unfoldable pub new_point : Group → Result (EcPoint lib)
  new_point group = do
    p ← crypto_check (ec_point_new group)
    ok (record { group = group; point = p })

  -- ECPoint(group, bn_ctx, x, y)
  unfoldable pub from_affine : Group → BigNum → BigNum → Result (EcPoint lib)
  from_affine group x y = do
    r ← new_point group
    p ← crypto_check (ec_point_set_affine group x y)
    ok (record r { point = p })

  -- ECPoint(group, bn_ctx, point)
  unfoldable pub from_point : Group → Point → Result (EcPoint lib)
  from_point group p = do r ← new_point group; ok (record r { point = p })

  unfoldable pub to_bytes_compressed : EcPoint lib → Result Bytes
  to_bytes_compressed a = require_some (ec_point_point2oct a.group a.point compressed) (
      openssl_failure
        "0 != EC_POINT_point2oct(group_, point_.get(), POINT_CONVERSION_COMPRESSED, bytes.data(), length, bn_ctx_)")

  unfoldable pub to_bytes_uncompressed : EcPoint lib → Result Bytes
  to_bytes_uncompressed a = require_some (ec_point_point2oct a.group a.point uncompressed) (
      openssl_failure
        "0 != EC_POINT_point2oct(group_, point_.get(), POINT_CONVERSION_UNCOMPRESSED, bytes.data(), length, bn_ctx_)")

  unfoldable pub mul : EcPoint lib → BigNum → Result (EcPoint lib)
  mul a scalar = do
    r ← new_point a.group
    p ← require_some (ec_point_mul a.group a.point scalar) (
        openssl_failure
          "1 == EC_POINT_mul(group_, r.point_.get(), nullptr, point_.get(), scalar.GetConstBignumPtr(), bn_ctx_)")
    ok (record r { point = p })

  unfoldable pub add : EcPoint lib → EcPoint lib → Result (EcPoint lib)
  add a b = do
    r ← new_point a.group
    p ← require_some (ec_point_add a.group a.point b.point) (
        openssl_failure
          "1 == EC_POINT_add(group_, r.point_.get(), point_.get(), point.point_.get(), bn_ctx_)")
    ok (record r { point = p })

  unfoldable pub clone : EcPoint lib → Result (EcPoint lib)
  clone a = do
    r ← new_point a.group
    p ←
        require_some (ec_point_copy a.point)
          (openssl_failure "1 == EC_POINT_copy(r.point_.get(), point_.get())")
    ok (record r { point = p })

  unfoldable pub inverse : EcPoint lib → Result (EcPoint lib)
  inverse a = do
    inv ← clone a
    p ←
        require_some (ec_point_invert inv.group inv.point)
          (openssl_failure "1 == EC_POINT_invert(group_, inv.point_.get(), bn_ctx_)")
    ok (record inv { point = p })

  unfoldable pub is_point_at_infinity : EcPoint lib → Bool
  is_point_at_infinity a = ec_point_is_at_infinity a.group a.point

  unfoldable pub compare_to : EcPoint lib → EcPoint lib → Bool
  compare_to a b = eqb_ℤ (pos 0) (ec_point_cmp a.group a.point b.point)
