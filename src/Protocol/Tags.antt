-- ===== src/Protocol/Tags.antt =====
-- The strings by which the two parties compare identifiers: an identifier hashed to the curve and
-- multiplied by both keys. Equal tags are equal points, whichever party multiplied first.
use private_join_and_compute.Prelude.{
  ℕ, ◌*◌, ◌%◌, ◌≡◌, refl, sym, ap, ◌∙◌, Bool, true, false, some, List, [], ◌∷◌, All,
}
use native.Mathlib.Nat.{mul_comm}
use private_join_and_compute.Prelude.Bytes.{Bytes}
use private_join_and_compute.Util.Result.{ok}
use private_join_and_compute.Crypto.OpenSsl.{OpenSsl}
use private_join_and_compute.Crypto.OpenSsl.Curve.{
  Curve, IsOn, times-IsOn, times-times, times_cancel, times-finite,
}
use private_join_and_compute.Crypto.EcPoint.{EcPoint}
use private_join_and_compute.Crypto.EcGroup
use private_join_and_compute.Crypto.EcGroup.{EcGroup}
use private_join_and_compute.Crypto.EcGroup.Laws.{IsValidPoint, get_point_by_hashing_to_curve-valid}
use private_join_and_compute.Crypto.CommutativeCipher
use private_join_and_compute.Crypto.CommutativeCipher.{CommutativeCipher}
use private_join_and_compute.Crypto.CommutativeCipher.Laws.{IsKeyed, encrypt_lem, re_encrypt-encode}
use private_join_and_compute.Std.Order.{bytes_eq, bytes_eq_refl, bytes_eq→eq, has}

bytes_eq_congr : (a b c d : Bytes) → (a ≡ b → c ≡ d) → (c ≡ d → a ≡ b) → bytes_eq a b ≡ bytes_eq c d
bytes_eq_congr a b c d there back = same (bytes_eq a b) (bytes_eq c d) refl refl
  where
    same : (s t : Bool) → bytes_eq a b ≡ s → bytes_eq c d ≡ t → bytes_eq a b ≡ bytes_eq c d
    same true true p q = p ∙ sym q
    same false false p q = p ∙ sym q
    same true false p q =
        let e : c ≡ d = there (bytes_eq→eq a b p) in cc (ap (bytes_eq c) e, bytes_eq_refl c)
    same false true p q =
        let e : a ≡ b = back (bytes_eq→eq c d q) in cc (ap (bytes_eq a) e, bytes_eq_refl a)

module _ ⦃lib : OpenSsl⦄ (g : EcGroup lib) (curve : Curve lib g.group) (fuel : ℕ)
    (hash : Bytes → EcPoint lib) (c s : CommutativeCipher lib) (keyed_c : IsKeyed g curve c)
    (keyed_s : IsKeyed g curve s) where
  -- The loop that Hashes the text to the curve ends within the fuel, with this point.
  abbrev pub IsHashed : Bytes → Type 0
  IsHashed m = EcGroup.get_point_by_hashing_to_curve fuel g m ≡ ok (hash m)

  -- Different texts of the two lists have different points.
  abbrev pub NoCollisions : List Bytes → List Bytes → Type 0
  NoCollisions xs ys = All (λ x. All (λ y. (hash x).point ≡ (hash y).point → x ≡ y) ys) xs

  -- Encrypted by the client, and then by the server.
  abbrev pub tag : Bytes → Bytes
  tag m = curve.encode (curve.times (curve.times (hash m).point keyed_c.key) keyed_s.key)

  hashed-valid : (m : Bytes) → IsHashed m → IsValidPoint g (hash m)
  hashed-valid m h = get_point_by_hashing_to_curve-valid fuel g m (hash m) h

  encoded_injective :
      (p q : lib.Point)
      → IsOn lib g.group p
      → IsOn lib g.group q
      → lib.ec_point_is_at_infinity g.group p ≡ false
      → lib.ec_point_is_at_infinity g.group q ≡ false
      → curve.encode p ≡ curve.encode q
      → p ≡ q
  encoded_injective p q p_on q_on p_finite q_finite e =
      let same : some p ≡ some q =
        sym (curve.oct2point_lem p p_on p_finite)
        ∙ ap (lib.ec_point_oct2point g.group) e
        ∙ curve.oct2point_lem q q_on q_finite in
      cc same

  -- Equal tags come from equal points.
  tag_injective :
      (x y : Bytes) → IsHashed x → IsHashed y → tag x ≡ tag y → (hash x).point ≡ (hash y).point
  tag_injective x y hx hy e =
      let vx = hashed-valid x hx in
      let vy = hashed-valid y hy in
      let j = keyed_c.key in
      let k = keyed_s.key in
      let px = curve.times (hash x).point j in
      let py = curve.times (hash y).point j in
      let on_x = times-IsOn curve (hash x).point j vx.on in
      let on_y = times-IsOn curve (hash y).point j vy.on in
      let finite_x =
        times-finite curve (hash x).point j keyed_c.inverse vx.on keyed_c.inverts vx.finite in
      let finite_y =
        times-finite curve (hash y).point j keyed_c.inverse vy.on keyed_c.inverts vy.finite in
      let e₁ =
        encoded_injective (curve.times px k) (curve.times py k) (times-IsOn curve px k on_x)
          (times-IsOn curve py k on_y)
          (times-finite curve px k keyed_s.inverse on_x keyed_s.inverts finite_x)
          (times-finite curve py k keyed_s.inverse on_y keyed_s.inverts finite_y) e in
      let e₂ : px ≡ py =
        sym (times_cancel curve px k keyed_s.inverse on_x keyed_s.inverts)
        ∙ ap (λ p. curve.times p keyed_s.inverse) e₁
        ∙ times_cancel curve py k keyed_s.inverse on_y keyed_s.inverts in
      sym (times_cancel curve (hash x).point j keyed_c.inverse vx.on keyed_c.inverts)
      ∙ ap (λ p. curve.times p keyed_c.inverse) e₂
      ∙ times_cancel curve (hash y).point j keyed_c.inverse vy.on keyed_c.inverts

  -- Where no texts collide, looking a tag up among tags is looking its text up among texts.
  pub has-tag {ℓ} :
      {A : Type ℓ} (key : A → Bytes) (text : A → Bytes) (x : Bytes) (ys : List A)
      → IsHashed x
      → All (λ y. IsHashed (text y)) ys
      → All (λ y. key y ≡ tag (text y)) ys
      → All (λ y. (hash x).point ≡ (hash (text y)).point → x ≡ text y) ys
      → has key (tag x) ys ≡ has text x ys
  unfolding has
  has-tag key text x [] hx hashed tagged apart = refl
  has-tag key text x (y ∷ ys) hx hashed tagged apart =
      let head : bytes_eq (tag x) (key y) ≡ bytes_eq x (text y) =
        ap (bytes_eq (tag x)) tagged.0
        ∙ bytes_eq_congr (tag x) (tag (text y)) x (text y)
            (λ e. apart.0 (tag_injective x (text y) hx hashed.0 e)) (ap tag) in
      rw (head, has-tag key text x ys hx hashed.1 tagged.1 apart.1)

  pub encrypt-hashed :
      (d : CommutativeCipher lib) (keyed : IsKeyed g curve d) (m : Bytes)
      → IsHashed m
      → CommutativeCipher.encrypt fuel d m
        ≡ ok (curve.encode (curve.times (hash m).point keyed.key))
  encrypt-hashed d keyed m h = encrypt_lem g curve d keyed fuel m ∙ rw h

  pub re_encrypt-hashed :
      (d : CommutativeCipher lib) (keyed : IsKeyed g curve d) (m : Bytes) (k inverse : ℕ)
      → k * inverse % curve.order ≡ 1 % curve.order
      → IsHashed m
      → CommutativeCipher.re_encrypt d (curve.encode (curve.times (hash m).point k))
        ≡ ok (curve.encode (curve.times (curve.times (hash m).point k) keyed.key))
  re_encrypt-hashed d keyed m k inverse inverts h =
      let v = hashed-valid m h in
      re_encrypt-encode g curve d keyed (curve.times (hash m).point k)
        (times-IsOn curve (hash m).point k v.on)
        (times-finite curve (hash m).point k inverse v.on inverts v.finite)

  pub tag_commutes :
      (m : Bytes)
      → IsHashed m
      → curve.encode (curve.times (curve.times (hash m).point keyed_s.key) keyed_c.key) ≡ tag m
  tag_commutes m h =
      let v = hashed-valid m h in
      ap curve.encode (
        times-times curve (hash m).point keyed_s.key keyed_c.key v.on
        ∙ ap (curve.times (hash m).point) (mul_comm keyed_s.key keyed_c.key)
        ∙ sym (times-times curve (hash m).point keyed_c.key keyed_s.key v.on))
