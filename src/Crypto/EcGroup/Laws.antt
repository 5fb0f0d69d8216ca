-- ===== src/Crypto/EcGroup/Laws.antt =====
-- Points that the group hands out: decoded or hashed, they are valid points of its curve.
use private_join_and_compute.Prelude.{ℕ, zero, suc, ◌≡◌, true, false, Bool-cases, inl, inr, arith}
use private_join_and_compute.Prelude.Int.{pos}
use private_join_and_compute.Prelude.Bytes.{Bytes}
use private_join_and_compute.Util.Result.{ok, >>=-eq-ok}
use private_join_and_compute.Crypto.OpenSsl.{OpenSsl}
use private_join_and_compute.Crypto.OpenSsl.Curve.{Curve, IsOn}
use private_join_and_compute.Crypto.BigNum
use private_join_and_compute.Crypto.BigNum.{BigNum}
use private_join_and_compute.Crypto.EcPoint
use private_join_and_compute.Crypto.EcPoint.{EcPoint}
use private_join_and_compute.Crypto.EcGroup
use private_join_and_compute.Crypto.EcGroup.{EcGroup}
use private_join_and_compute.Crypto.Context.{random_oracle}

module _ ⦃lib : OpenSsl⦄ where
  -- A point of the group's curve that is not at infinity.
  pub record IsValidPoint (g : EcGroup lib) (a : EcPoint lib) : Type 0 where
    pub same_group : a.group ≡ g.group
    pub on : IsOn lib g.group a.point
    pub finite : lib.ec_point_is_at_infinity g.group a.point ≡ false

  is_valid→IsValidPoint :
      (g : EcGroup lib) (a : EcPoint lib)
      → a.group ≡ g.group
      → EcGroup.is_valid g a ≡ true
      → IsValidPoint g a
  unfolding EcGroup.is_valid EcGroup.is_on_curve EcGroup.is_at_infinity
  is_valid→IsValidPoint g a same h = record {
    same_group = same;
    on = ground arith;
    finite = ground arith;
  }

  from_affine-group :
      (group : lib.Group) (x y : BigNum) (a : EcPoint lib)
      → EcPoint.from_affine group x y ≡ ok a
      → a.group ≡ group
  unfolding EcPoint.from_affine EcPoint.new_point
  from_affine-group group x y a h = ground arith

  create_ec_point_affine-valid :
      (g : EcGroup lib) (x y : BigNum) (a : EcPoint lib)
      → EcGroup.create_ec_point_affine g x y ≡ ok a
      → IsValidPoint g a
  unfolding EcGroup.create_ec_point_affine
  create_ec_point_affine-valid g x y a h =
      let (b, made, rest) = >>=-eq-ok (EcPoint.from_affine g.group x y) _ h in
      is_valid→IsValidPoint g a (ground (arith, from_affine-group g.group x y b made))
        (ground arith)

  point_at-valid :
      (g : EcGroup lib) (x y2 : BigNum) (a : EcPoint lib)
      → EcGroup.point_at g x y2 ≡ ok a
      → IsValidPoint g a
  unfolding EcGroup.point_at
  point_at-valid g x y2 a h =
      let (sqrt, _, rest) = >>=-eq-ok (BigNum.mod_sqrt y2 g.curve_params.p) _ h in
      elim (Bool-cases (BigNum.is_bit_set sqrt 0)) [
        | inl odd ↦
            let (negated, _, made) =
              >>=-eq-ok (BigNum.mod_negate sqrt g.curve_params.p) _ (rw odd at rest) in
            create_ec_point_affine-valid g x negated a made
        | inr even ↦ create_ec_point_affine-valid g x sqrt a (rw even at rest)
      ]

  hashing_loop-valid :
      (fuel : ℕ) (g : EcGroup lib) (x : BigNum) (a : EcPoint lib)
      → EcGroup.hashing_loop fuel g x ≡ ok a
      → IsValidPoint g a
  unfolding EcGroup.hashing_loop
  hashing_loop-valid zero g x a h = ground arith
  hashing_loop-valid (suc fuel) g x a h =
      let (reduced, _, h1) = >>=-eq-ok (BigNum.mod_by x g.curve_params.p) _ h in
      let (y2, _, h2) = >>=-eq-ok (EcGroup.compute_y_square g reduced) _ h1 in
      let (square, _, h3) = >>=-eq-ok (EcGroup.is_square g y2) _ h2 in
      elim (Bool-cases square) [
        | inl found ↦ point_at-valid g reduced y2 a (rw found at h3)
        | inr more ↦
            let (bytes, _, h4) = >>=-eq-ok (BigNum.to_bytes reduced) _ (rw more at h3) in
            let (next, _, h5) = >>=-eq-ok (random_oracle bytes g.curve_params.p) _ h4 in
            hashing_loop-valid fuel g next a h5
      ]

  -- Whatever the fuel, a point that the hashing of a text returns is of the group itself, on its curve,
  -- and not at infinity.
  pub get_point_by_hashing_to_curve-valid :
      (fuel : ℕ) (g : EcGroup lib) (m : Bytes) (a : EcPoint lib)
      → EcGroup.get_point_by_hashing_to_curve fuel g m ≡ ok a
      → IsValidPoint g a
  unfolding EcGroup.get_point_by_hashing_to_curve
  get_point_by_hashing_to_curve-valid fuel g m a h =
      let (x, _, rest) = >>=-eq-ok (random_oracle m g.curve_params.p) _ h in
      hashing_loop-valid fuel g x a rest

module _ ⦃lib : OpenSsl⦄ (g : EcGroup lib) (curve : Curve lib g.group) where
  -- The object for a point of the group's curve.
  abbrev pub at : lib.Point → EcPoint lib
  at p = record { group = g.group; point = p }

  pub IsValidPoint-at : (a : EcPoint lib) → IsValidPoint g a → a ≡ at a.point
  IsValidPoint-at a v = λ i. record { group = v.same_group i; point = a.point }

  pub mul-at :
      (p : lib.Point) (k : ℕ)
      → IsOn lib g.group p
      → EcPoint.mul (at p) (pos k) ≡ ok (at (curve.times p k))
  unfolding EcPoint.mul EcPoint.new_point
  mul-at p k h = rw (curve.new_lem.1, curve.mul_lem p k h)

  pub add-at :
      (p q : lib.Point)
      → IsOn lib g.group p
      → IsOn lib g.group q
      → EcPoint.add (at p) (at q) ≡ ok (at (curve.plus p q))
  unfolding EcPoint.add EcPoint.new_point
  add-at p q h k = rw (curve.new_lem.1, curve.add_lem p q h k)

  pub inverse-at :
      (p : lib.Point) → IsOn lib g.group p → EcPoint.inverse (at p) ≡ ok (at (curve.opposite p))
  unfolding EcPoint.inverse EcPoint.clone EcPoint.new_point
  inverse-at p h = rw (curve.new_lem.1, curve.copy_lem p, curve.invert_lem p h)

  pub to_bytes_compressed-at :
      (p : lib.Point)
      → IsOn lib g.group p
      → EcPoint.to_bytes_compressed (at p) ≡ ok (curve.encode p)
  unfolding EcPoint.to_bytes_compressed
  to_bytes_compressed-at p h = rw (curve.point2oct_lem p h)

  -- A valid point is decoded from its compressed encoding.
  pub create_ec_point-encode :
      (p : lib.Point)
      → IsOn lib g.group p
      → lib.ec_point_is_at_infinity g.group p ≡ false
      → EcGroup.create_ec_point g (curve.encode p) ≡ ok (at p)
  unfolding EcGroup.create_ec_point EcPoint.from_point EcPoint.new_point EcGroup.is_valid
      EcGroup.is_on_curve EcGroup.is_at_infinity
  create_ec_point-encode p on finite =
      rw (curve.new_lem.1, curve.oct2point_lem p on finite, on, finite)
