-- ===== src/Crypto/EcGroup.antt =====
-- crypto/ec_group.h and crypto/ec_group.cc. The allocation of an empty BIGNUM is taken to succeed.
-- The loop of GetPointByHashingToCurve takes `fuel`, the rounds that it may make.
pub mod Laws
use Prim.Native.String.{◌++◌}
use private_join_and_compute.Prelude.{ℕ, zero, suc, Bool, true, false, not, ◌||◌, if◌then◌else◌}
use private_join_and_compute.Prelude.Bytes.{Bytes}
use private_join_and_compute.Util.Status.{internal_error, invalid_argument_error}
use private_join_and_compute.Util.Result.{Result, ok, running, ◌>>=◌, ◌>>◌, require, require_some}
use private_join_and_compute.Util.Macros.{return_if_null_status}
use private_join_and_compute.Util.Exec
use private_join_and_compute.Util.Exec.{Exec, lift}
use private_join_and_compute.Crypto.OpenSsl.{OpenSsl}
use private_join_and_compute.Crypto.BigNum
use private_join_and_compute.Crypto.BigNum.{BigNum}
use private_join_and_compute.Crypto.Context.{random_oracle, generate_rand_between}
use private_join_and_compute.Crypto.EcPoint
use private_join_and_compute.Crypto.EcPoint.{EcPoint}

pub record CurveParams : Type 0 where
  pub p : BigNum
  pub a : BigNum
  pub b : BigNum

pub record EcGroup (lib : OpenSsl) : Type 0 where
  pub group : lib.Group
  pub order : BigNum
  pub curve_params : CurveParams
  pub p_minus_one_over_two : BigNum

module _ ⦃lib : OpenSsl⦄ where
  open lib use {
    Group, Rng, ec_group_new_by_curve_name, ec_group_get_order, ec_group_get_curve,
    ec_group_get0_generator, ec_point_dup, ec_point_new, ec_point_set_to_infinity,
    ec_point_oct2point, ec_point_is_on_curve, ec_point_is_at_infinity, error_string,
  }

  unfoldable pub create_group : ℕ → Result Group
  create_group curve_id =
      require_some (ec_group_new_by_curve_name curve_id) (
        invalid_argument_error
          ("ECGroup::CreateGroup() - Could not create group. " ++ error_string))

  unfoldable pub create_order : Group → Result BigNum
  create_order group =
      require_some (ec_group_get_order group)
        (internal_error ("ECGroup::CreateOrder - Could not get order. " ++ error_string))

  unfoldable pub create_curve_params : Group → Result CurveParams
  create_curve_params group = do
    curve ←
        require_some (ec_group_get_curve group)
          (internal_error ("ECGroup::CreateCurveParams - Could not get params. " ++ error_string))
    require (BigNum.is_prime curve.0)
        (internal_error ("ECGroup::CreateCurveParams - p is not prime. " ++ error_string))
    ok (record { p = curve.0; a = curve.1; b = curve.2 })

  unfoldable pub get_p_minus_one_over_two : CurveParams → Result BigNum
  get_p_minus_one_over_two params = do
    one ← BigNum.of_u64 1
    difference ← BigNum.sub params.p one
    two ← BigNum.of_u64 2
    BigNum.div difference two

  unfoldable pub create : ℕ → Result (EcGroup lib)
  create curve_id = do
    g ← create_group curve_id
    order ← create_order g
    params ← create_curve_params g
    half ← get_p_minus_one_over_two params
    ok (record { group = g; order = order; curve_params = params; p_minus_one_over_two = half })

  unfoldable pub generate_private_key : EcGroup lib → Exec Rng BigNum
  generate_private_key g =
      Exec.◌>>=◌ (lift (BigNum.of_u64 1)) λ one. generate_rand_between one g.order

  unfoldable pub check_private_key : EcGroup lib → BigNum → Result (Unit {0})
  check_private_key g priv_key = do
    zero_bn ← BigNum.of_u64 0
    require (not (BigNum.ge zero_bn priv_key || BigNum.ge priv_key g.order)) (
        invalid_argument_error "The given key is out of bounds, needs to be in [1, order) instead.")

  unfoldable pub compute_y_square : EcGroup lib → BigNum → Result BigNum
  compute_y_square g x = do
    three ← BigNum.of_u64 3
    cube ← BigNum.exp x three
    ax ← BigNum.mul g.curve_params.a x
    sum ← BigNum.add cube ax
    total ← BigNum.add sum g.curve_params.b
    BigNum.mod_by total g.curve_params.p

  unfoldable pub is_on_curve : EcGroup lib → EcPoint lib → Bool
  is_on_curve g point = ec_point_is_on_curve g.group point.point

  unfoldable pub is_at_infinity : EcGroup lib → EcPoint lib → Bool
  is_at_infinity g point = ec_point_is_at_infinity g.group point.point

  unfoldable pub is_valid : EcGroup lib → EcPoint lib → Bool
  is_valid g point = if not (is_on_curve g point) || is_at_infinity g point then false else true

  unfoldable pub is_square : EcGroup lib → BigNum → Result Bool
  is_square g q = do
    power ← BigNum.mod_exp q g.p_minus_one_over_two g.curve_params.p
    ok (BigNum.is_one power)

  -- CreateECPoint(x, y)
  unfoldable pub create_ec_point_affine : EcGroup lib → BigNum → BigNum → Result (EcPoint lib)
  create_ec_point_affine g x y = do
    point ← EcPoint.from_affine g.group x y
    require (is_valid g point)
        (invalid_argument_error "ECGroup::CreateECPoint(x,y) - The point is not valid.")
    ok point

  -- CreateECPoint(bytes): the check for a null pointer comes first, then the decoding.
  unfoldable pub create_ec_point : EcGroup lib → Bytes → Result (EcPoint lib)
  create_ec_point g bytes = do
    allocated ←
        require_some (ec_point_new g.group) (return_if_null_status "EC_POINT_new(group_.get())")
    point ← require_some (ec_point_oct2point g.group bytes) (
        invalid_argument_error
          ("ECGroup::CreateECPoint(string) - Could not decode point." ++ "\n" ++ error_string))
    decoded ← EcPoint.from_point g.group point
    require (is_valid g decoded)
        (invalid_argument_error "ECGroup::CreateECPoint(string) - Decoded point is not valid.")
    ok decoded

  -- The return from within the loop: of the two square roots, the even one.
  unfoldable pub point_at : EcGroup lib → BigNum → BigNum → Result (EcPoint lib)
  point_at g x y2 = do
    sqrt ← BigNum.mod_sqrt y2 g.curve_params.p
    let negated = BigNum.mod_negate sqrt g.curve_params.p
    if BigNum.is_bit_set sqrt 0
        then negated >>= create_ec_point_affine g x
        else create_ec_point_affine g x sqrt

  unfoldable pub hashing_loop : ℕ → EcGroup lib → BigNum → Result (EcPoint lib)
  hashing_loop zero g x = running
  hashing_loop (suc fuel) g x = do
    reduced ← BigNum.mod_by x g.curve_params.p
    y2 ← compute_y_square g reduced
    square ← is_square g y2
    let again = BigNum.to_bytes reduced >>= λ bytes.
        random_oracle bytes g.curve_params.p >>= λ next. hashing_loop fuel g next
    if square then point_at g reduced y2 else again

  unfoldable pub get_point_by_hashing_to_curve : ℕ → EcGroup lib → Bytes → Result (EcPoint lib)
  get_point_by_hashing_to_curve fuel g m = do
    x ← random_oracle m g.curve_params.p
    hashing_loop fuel g x

  unfoldable pub get_fixed_generator : EcGroup lib → Result (EcPoint lib)
  get_fixed_generator g = do
    generator ←
        require_some (ec_point_dup g.group (ec_group_get0_generator g.group))
          (internal_error error_string)
    EcPoint.from_point g.group generator

  unfoldable pub get_random_generator : EcGroup lib → Exec Rng (EcPoint lib)
  get_random_generator g = Exec.◌>>=◌ (lift (get_fixed_generator g)) λ generator.
      Exec.◌>>=◌ (lift (BigNum.of_u64 1)) λ one.
        Exec.◌>>=◌ (generate_rand_between one g.order) λ scalar. lift (EcPoint.mul generator scalar)

  unfoldable pub get_point_at_infinity : EcGroup lib → Result (EcPoint lib)
  get_point_at_infinity g = do
    new_point ←
        require_some (ec_point_new g.group)
          (internal_error "ECGroup::GetPointAtInfinity() - Could not create new point.")
    point ←
        require_some (ec_point_set_to_infinity g.group new_point)
          (internal_error "ECGroup::GetPointAtInfinity() - Could not get point at infinity.")
    EcPoint.from_point g.group point
