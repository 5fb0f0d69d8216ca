-- ===== src/Crypto/OpenSsl/Curve.antt =====
-- What the code relies on of OpenSSL's curves. An EC_POINT is the point of the curve that it holds.
-- The points on a curve are a commutative group, the calls compute in it, the order of the curve
-- annihilates it, and a point that is not at infinity is decoded from its encoding.
use private_join_and_compute.Prelude.{
  ℕ, zero, suc, ◌+◌, ◌*◌, ◌/◌, ◌%◌, ◌≡◌, refl, sym, ap, ◌∙◌, Bool, true, false, some, arith,
}
use native.Mathlib.Nat.{div-add-mod}
use private_join_and_compute.Prelude.Int.{pos}
use private_join_and_compute.Prelude.Bytes.{Bytes}
use private_join_and_compute.Crypto.OpenSsl.{OpenSsl, compressed}

module _ (lib : OpenSsl) (group : lib.Group) where
  open lib use {
    Point, ec_point_new, ec_point_point2oct, ec_point_oct2point, ec_point_mul, ec_point_add,
    ec_point_copy, ec_point_invert, ec_point_is_at_infinity, ec_point_is_on_curve,
  }

  abbrev pub IsOn : Point → Type 0
  IsOn a = ec_point_is_on_curve group a ≡ true

  pub record Curve : Type 0 where
    pub plus : Point → Point → Point
    pub infinity : Point
    pub opposite : Point → Point
    -- k * P
    pub times : Point → ℕ → Point
    pub encode : Point → Bytes
    -- The order of the curve.
    pub order : ℕ
    -- The points on the curve are a commutative group.
    pub plus-on : (a b : Point) → IsOn a → IsOn b → IsOn (plus a b)
    pub infinity-on : IsOn infinity
    pub opposite-on : (a : Point) → IsOn a → IsOn (opposite a)
    pub plus_assoc :
        (a b c : Point) → IsOn a → IsOn b → IsOn c → plus (plus a b) c ≡ plus a (plus b c)
    pub plus_comm : (a b : Point) → IsOn a → IsOn b → plus a b ≡ plus b a
    pub plus-infinity : (a : Point) → IsOn a → plus a infinity ≡ a
    pub plus-opposite : (a : Point) → IsOn a → plus a (opposite a) ≡ infinity
    pub times-zero : (a : Point) → times a zero ≡ infinity
    pub times-suc : (a : Point) (k : ℕ) → times a (suc k) ≡ plus (times a k) a
    pub times-order : (a : Point) → IsOn a → times a order ≡ infinity
    -- What the calls return.
    pub new_lem : (a : Point) × (ec_point_new group ≡ some a)
    pub mul_lem : (a : Point) (k : ℕ) → IsOn a → ec_point_mul group a (pos k) ≡ some (times a k)
    pub add_lem : (a b : Point) → IsOn a → IsOn b → ec_point_add group a b ≡ some (plus a b)
    pub copy_lem : (a : Point) → ec_point_copy a ≡ some a
    pub invert_lem : (a : Point) → IsOn a → ec_point_invert group a ≡ some (opposite a)
    pub at_infinity_lem : ec_point_is_at_infinity group infinity ≡ true
    pub not_at_infinity_lem : (a : Point) → ec_point_is_at_infinity group a ≡ true → a ≡ infinity
    pub point2oct_lem :
        (a : Point) → IsOn a → ec_point_point2oct group a compressed ≡ some (encode a)
    pub oct2point_lem :
        (a : Point)
        → IsOn a
        → ec_point_is_at_infinity group a ≡ false
        → ec_point_oct2point group (encode a) ≡ some a

module _ {lib : OpenSsl} {group : lib.Group} (curve : Curve lib group) where
  pub times-IsOn : (a : lib.Point) (k : ℕ) → IsOn lib group a → IsOn lib group (curve.times a k)
  times-IsOn a zero h = rw (curve.times-zero a) curve.infinity-on
  times-IsOn a (suc k) h = rw (curve.times-suc a k) (curve.plus-on _ _ (times-IsOn a k h) h)

  pub infinity-plus : (a : lib.Point) → IsOn lib group a → curve.plus curve.infinity a ≡ a
  infinity-plus a h = curve.plus_comm _ _ curve.infinity-on h ∙ curve.plus-infinity a h

  pub times-one : (a : lib.Point) → IsOn lib group a → curve.times a 1 ≡ a
  times-one a h = rw (curve.times-suc a 0, curve.times-zero a) (infinity-plus a h)

  pub times-add :
      (a : lib.Point) (j k : ℕ)
      → IsOn lib group a
      → curve.times a (j + k) ≡ curve.plus (curve.times a j) (curve.times a k)
  times-add a j zero h =
      let e : j + zero ≡ j = omega arith in
      rw (e, curve.times-zero a) (sym (curve.plus-infinity _ (times-IsOn a j h)))
  times-add a j (suc k) h =
      let e : j + suc k ≡ suc (j + k) = omega arith in
      rw (e, curve.times-suc a (j + k), curve.times-suc a k, times-add a j k h)
        (curve.plus_assoc _ _ _ (times-IsOn a j h) (times-IsOn a k h) h)

  pub times-times :
      (a : lib.Point) (j k : ℕ)
      → IsOn lib group a
      → curve.times (curve.times a j) k ≡ curve.times a (j * k)
  times-times a j zero h =
      let e : j * zero ≡ zero = omega arith in
      rw (e, curve.times-zero (curve.times a j), curve.times-zero a)
  times-times a j (suc k) h =
      let e : j * suc k ≡ j * k + j = omega arith in
      rw (e, curve.times-suc (curve.times a j) k, times-add a (j * k) j h, times-times a j k h)

  pub times-infinity : (k : ℕ) → curve.times curve.infinity k ≡ curve.infinity
  times-infinity zero = curve.times-zero _
  times-infinity (suc k) =
      rw (curve.times-suc curve.infinity k, times-infinity k)
        (curve.plus-infinity _ curve.infinity-on)

  -- Scalars count modulo the order.
  pub times-mod :
      (a : lib.Point) (k : ℕ) → IsOn lib group a → curve.times a (k % curve.order) ≡ curve.times a k
  times-mod a k h =
      let n = curve.order in
      sym (
        ap (curve.times a) (sym (div-add-mod k n))
        ∙ times-add a (n * (k / n)) (k % n) h
        ∙ ap (λ p. curve.plus p (curve.times a (k % n)))
            (sym (times-times a n (k / n) h)
              ∙ ap (λ p. curve.times p (k / n)) (curve.times-order a h)
              ∙ times-infinity (k / n))
        ∙ infinity-plus _ (times-IsOn a (k % n) h))

  -- A scalar with an inverse modulo the order undoes it, and never leads to infinity.
  pub times_cancel :
      (a : lib.Point) (j k : ℕ)
      → IsOn lib group a
      → j * k % curve.order ≡ 1 % curve.order
      → curve.times (curve.times a j) k ≡ a
  times_cancel a j k h e =
      times-times a j k h
      ∙ sym (times-mod a (j * k) h)
      ∙ ap (curve.times a) e
      ∙ times-mod a 1 h
      ∙ times-one a h

  pub times-finite :
      (a : lib.Point) (j k : ℕ)
      → IsOn lib group a
      → j * k % curve.order ≡ 1 % curve.order
      → lib.ec_point_is_at_infinity group a ≡ false
      → lib.ec_point_is_at_infinity group (curve.times a j) ≡ false
  times-finite a j k h e finite =
      finite_of (lib.ec_point_is_at_infinity group (curve.times a j)) refl
    where
      finite_of :
          (b : Bool)
          → lib.ec_point_is_at_infinity group (curve.times a j) ≡ b
          → lib.ec_point_is_at_infinity group (curve.times a j) ≡ false
      finite_of false q = q
      finite_of true q = cc (
        curve.at_infinity_lem,
        times_cancel a j k h e,
        times-infinity k,
        curve.not_at_infinity_lem _ q,
      )
