-- ===== src/Crypto/CommutativeCipher/Laws.antt =====
-- The cipher on encoded points: what each operation returns, given the documented behaviour of the
-- curve, and so why the encryptions of two parties commute and can be undone.
use private_join_and_compute.Prelude.{ℕ, ◌*◌, ◌%◌, ◌≡◌, sym, ap, ◌∙◌, false}
use native.Mathlib.Nat.{mul_comm}
use private_join_and_compute.Prelude.Int.{pos}
use private_join_and_compute.Prelude.Bytes.{Bytes}
use private_join_and_compute.Util.Result.{ok, ◌>>=◌, bind_cong, bind_assoc}
use private_join_and_compute.Crypto.OpenSsl.{OpenSsl}
use private_join_and_compute.Crypto.OpenSsl.Curve.{
  Curve, IsOn, times-IsOn, times-times, times_cancel, times-finite,
}
use private_join_and_compute.Crypto.EcGroup
use private_join_and_compute.Crypto.EcGroup.{EcGroup}
use private_join_and_compute.Crypto.EcGroup.Laws.{
  at, IsValidPoint-at, mul-at, to_bytes_compressed-at, create_ec_point-encode,
  get_point_by_hashing_to_curve-valid,
}
use private_join_and_compute.Crypto.CommutativeCipher
use private_join_and_compute.Crypto.CommutativeCipher.{CommutativeCipher}

module _ ⦃lib : OpenSsl⦄ (g : EcGroup lib) (curve : Curve lib g.group) where
  -- A cipher over the group, whose two scalars undo each other.
  pub record IsKeyed (c : CommutativeCipher lib) : Type 0 where
    pub same_group : c.group ≡ g
    pub key : ℕ
    pub inverse : ℕ
    pub private_key_lem : c.private_key ≡ pos key
    pub private_key_inverse_lem : c.private_key_inverse ≡ pos inverse
    pub inverts : key * inverse % curve.order ≡ 1 % curve.order

  -- The encoding of a valid point, which is what ciphers exchange.
  pub record IsEncoded (s : Bytes) : Type 0 where
    pub point : lib.Point
    pub on : IsOn lib g.group point
    pub finite : lib.ec_point_is_at_infinity g.group point ≡ false
    pub encoded : s ≡ curve.encode point

  module _ (c : CommutativeCipher lib) (keyed : IsKeyed c) where
    encrypt_point-at :
        (p : lib.Point)
        → IsOn lib g.group p
        → CommutativeCipher.encrypt_point c (at g curve p)
          ≡ ok (at g curve (curve.times p keyed.key))
    unfolding CommutativeCipher.encrypt_point
    encrypt_point-at p h = rw keyed.private_key_lem (mul-at g curve p keyed.key h)

    -- Encrypting a text Hashes it to the curve and multiplies by the key; it fails as the hash fails.
    pub encrypt_lem :
        (fuel : ℕ) (m : Bytes)
        → CommutativeCipher.encrypt fuel c m ≡ (
            EcGroup.get_point_by_hashing_to_curve fuel g m >>= λ a.
            ok (curve.encode (curve.times a.point keyed.key)))
    unfolding CommutativeCipher.encrypt CommutativeCipher.encrypt_point
    encrypt_lem fuel m = rw keyed.same_group (
        bind_cong (EcGroup.get_point_by_hashing_to_curve fuel g m) _ _ λ a hashed.
          let v = get_point_by_hashing_to_curve-valid fuel g m a hashed in
          rw (
            IsValidPoint-at g curve a v,
            encrypt_point-at a.point v.on,
            to_bytes_compressed-at g curve _ (times-IsOn curve a.point keyed.key v.on),
          ))

    pub re_encrypt-encode :
        (p : lib.Point)
        → IsOn lib g.group p
        → lib.ec_point_is_at_infinity g.group p ≡ false
        → CommutativeCipher.re_encrypt c (curve.encode p)
          ≡ ok (curve.encode (curve.times p keyed.key))
    unfolding CommutativeCipher.re_encrypt CommutativeCipher.encrypt_point
    re_encrypt-encode p on finite = rw (
      keyed.same_group,
      create_ec_point-encode g curve p on finite,
      encrypt_point-at p on,
      to_bytes_compressed-at g curve _ (times-IsOn curve p keyed.key on),
    )

    decrypt-encode :
        (p : lib.Point)
        → IsOn lib g.group p
        → lib.ec_point_is_at_infinity g.group p ≡ false
        → CommutativeCipher.decrypt c (curve.encode p)
          ≡ ok (curve.encode (curve.times p keyed.inverse))
    unfolding CommutativeCipher.decrypt
    decrypt-encode p on finite = rw (
      keyed.same_group,
      create_ec_point-encode g curve p on finite,
      keyed.private_key_inverse_lem,
      mul-at g curve p keyed.inverse on,
      to_bytes_compressed-at g curve _ (times-IsOn curve p keyed.inverse on),
    )

    -- Of the encoding of a valid point, what a keyed cipher re-encrypts it decrypts to the same bytes.
    pub decrypt-re_encrypt :
        (s : Bytes)
        → IsEncoded s
        → (CommutativeCipher.re_encrypt c s >>= CommutativeCipher.decrypt c) ≡ ok s
    decrypt-re_encrypt s v =
        let finite =
          times-finite curve v.point keyed.key keyed.inverse v.on keyed.inverts v.finite in
        rw (
          v.encoded,
          re_encrypt-encode v.point v.on v.finite,
          decrypt-encode _ (times-IsOn curve v.point keyed.key v.on) finite,
          times_cancel curve v.point keyed.key keyed.inverse v.on keyed.inverts,
        )

  module _ (c d : CommutativeCipher lib) (keyed_c : IsKeyed c) (keyed_d : IsKeyed d) where
    -- One cipher after the other: the point that the text Hashes to, times both keys.
    pub re_encrypt-encrypt :
        (fuel : ℕ) (m : Bytes)
        → (CommutativeCipher.encrypt fuel c m >>= CommutativeCipher.re_encrypt d) ≡ (
            EcGroup.get_point_by_hashing_to_curve fuel g m >>= λ a.
            ok (curve.encode (curve.times a.point (keyed_c.key * keyed_d.key))))
    re_encrypt-encrypt fuel m =
        rw
          (
            encrypt_lem c keyed_c fuel m,
            bind_assoc (EcGroup.get_point_by_hashing_to_curve fuel g m)
                (λ a. ok (curve.encode (curve.times a.point keyed_c.key)))
                (CommutativeCipher.re_encrypt d),
          )
          (bind_cong (EcGroup.get_point_by_hashing_to_curve fuel g m) _ _ λ a hashed.
            let v = get_point_by_hashing_to_curve-valid fuel g m a hashed in
            let j = keyed_c.key in
            re_encrypt-encode d keyed_d (curve.times a.point j) (times-IsOn curve a.point j v.on)
              (times-finite curve a.point j keyed_c.inverse v.on keyed_c.inverts v.finite)
            ∙ ap (λ p. ok (curve.encode p)) (times-times curve a.point j keyed_d.key v.on))

    -- For two keyed ciphers over the group: a text that the first encrypts, the second re-encrypts and the
    -- first decrypts comes out as the second's own encryption of it, errors included.
    pub decrypt-re_encrypt-encrypt :
        (fuel : ℕ) (m : Bytes)
        → (CommutativeCipher.encrypt fuel c m
            >>= CommutativeCipher.re_encrypt d
            >>= CommutativeCipher.decrypt c)
          ≡ CommutativeCipher.encrypt fuel d m
    decrypt-re_encrypt-encrypt fuel m =
        rw
          (
            re_encrypt-encrypt fuel m,
            encrypt_lem d keyed_d fuel m,
            bind_assoc (EcGroup.get_point_by_hashing_to_curve fuel g m)
                (λ a. ok (curve.encode (curve.times a.point (keyed_c.key * keyed_d.key))))
                (CommutativeCipher.decrypt c),
          )
          (bind_cong (EcGroup.get_point_by_hashing_to_curve fuel g m) _ _ λ a hashed.
            let v = get_point_by_hashing_to_curve-valid fuel g m a hashed in
            let k = keyed_d.key in
            let q = curve.times a.point k in
            let on_q = times-IsOn curve a.point k v.on in
            let finite_q =
              times-finite curve a.point k keyed_d.inverse v.on keyed_d.inverts v.finite in
            ap (λ p. CommutativeCipher.decrypt c (curve.encode p))
              (ap (curve.times a.point) (mul_comm keyed_c.key k)
                ∙ sym (times-times curve a.point k keyed_c.key v.on))
            ∙ decrypt-encode c keyed_c (curve.times q keyed_c.key)
                (times-IsOn curve q keyed_c.key on_q)
                (times-finite curve q keyed_c.key keyed_c.inverse on_q keyed_c.inverts finite_q)
            ∙ ap (λ p. ok (curve.encode p))
                (times_cancel curve q keyed_c.key keyed_c.inverse on_q keyed_c.inverts))

  -- For two keyed ciphers over the group, encrypting with the one and re-encrypting with the other gives
  -- the same result in either order, errors included.
  pub encrypt_commutes :
      (c d : CommutativeCipher lib)
      → IsKeyed c
      → IsKeyed d
      → (fuel : ℕ) (m : Bytes)
      → (CommutativeCipher.encrypt fuel c m >>= CommutativeCipher.re_encrypt d)
        ≡ (CommutativeCipher.encrypt fuel d m >>= CommutativeCipher.re_encrypt c)
  encrypt_commutes c d keyed_c keyed_d fuel m = rw (
    re_encrypt-encrypt c d keyed_c keyed_d fuel m,
    re_encrypt-encrypt d c keyed_d keyed_c fuel m,
    mul_comm keyed_c.key keyed_d.key,
  )
