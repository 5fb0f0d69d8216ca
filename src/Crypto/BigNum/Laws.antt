-- ===== src/Crypto/BigNum/Laws.antt =====
-- The operators of BigNum compute what their names say, given the documented results of OpenSSL.
use private_join_and_compute.Prelude.{
  ℕ, ◌+◌, ◌-◌, ◌*◌, ◌/◌, ◌%◌, ◌^◌, ◌≤◌, ◌<◌, ◌≡◌, ap, ◌∙◌, true, false, some, arith,
}
use private_join_and_compute.Prelude.Int.{
  ℤ, pos, negsuc, ltb_ℤ, leb_ℤ, eqb_ℤ, mod_ℤ, ◌-ℤ◌, ◌*ℤ◌, +ℤ-pos, *ℤ-pos, -ℤ-pos,
}
use private_join_and_compute.Prelude.Bytes.{Bytes}
use private_join_and_compute.Util.Result.{ok, err, crypto_check}
use private_join_and_compute.Util.Status.{invalid_argument_error}
use private_join_and_compute.Crypto.OpenSsl.{OpenSsl}
use private_join_and_compute.Crypto.OpenSsl.Laws.{BnLaws}
use private_join_and_compute.Crypto.BigNum

module _ ⦃lib : OpenSsl⦄ (laws : BnLaws lib) where
  pub of_u64-ok : (n : ℕ) → n < 2 ^ 64 → BigNum.of_u64 n ≡ ok (pos n)
  unfolding BigNum.of_u64
  of_u64-ok n h = ap crypto_check (laws.set_u64 n h)

  pub of_bytes-to_bytes :
      (n : ℕ) (b : Bytes) → BigNum.to_bytes (pos n) ≡ ok b → BigNum.of_bytes b ≡ ok (pos n)
  unfolding BigNum.of_bytes BigNum.to_bytes BigNum.is_non_negative
  of_bytes-to_bytes n b h = ground (arith, laws.is_negative_lem (pos n), laws.bin2bn-bn2bin n)

  pub to_bytes-ok : (n : ℕ) → BigNum.to_bytes (pos n) ≡ ok (lib.bn_bn2bin (pos n))
  unfolding BigNum.to_bytes BigNum.is_non_negative
  to_bytes-ok n = rw (laws.is_negative_lem (pos n)) (ground arith)

  pub is_non_negative-pos : (n : ℕ) → BigNum.is_non_negative (pos n) ≡ true
  unfolding BigNum.is_non_negative
  is_non_negative-pos n = rw (laws.is_negative_lem (pos n)) (ground arith)

  pub is_non_negative-negsuc : (n : ℕ) → BigNum.is_non_negative (negsuc n) ≡ false
  unfolding BigNum.is_non_negative
  is_non_negative-negsuc n = rw (laws.is_negative_lem (negsuc n)) (ground arith)

  pub lt_lem : (a b : ℤ) → BigNum.lt a b ≡ ltb_ℤ a b
  unfolding BigNum.lt
  lt_lem a b = rw (laws.cmp_lem a b) (ground arith)

  pub gt_lem : (a b : ℤ) → BigNum.gt a b ≡ ltb_ℤ b a
  unfolding BigNum.gt
  gt_lem a b = rw (laws.cmp_lem a b) (ground arith)

  pub le_lem : (a b : ℤ) → BigNum.le a b ≡ leb_ℤ a b
  unfolding BigNum.le
  le_lem a b = rw (laws.cmp_lem a b) (ground arith)

  pub ge_lem : (a b : ℤ) → BigNum.ge a b ≡ leb_ℤ b a
  unfolding BigNum.ge
  ge_lem a b = rw (laws.cmp_lem a b) (ground arith)

  pub eq_lem : (a b : ℤ) → BigNum.eq a b ≡ eqb_ℤ a b
  unfolding BigNum.eq
  eq_lem a b = rw (laws.cmp_lem a b) (ground arith)

  pub add-ok : (a b : ℕ) → BigNum.add (pos a) (pos b) ≡ ok (pos (a + b))
  unfolding BigNum.add
  add-ok a b = ap crypto_check (laws.add_lem (pos a) (pos b) ∙ ap some (+ℤ-pos a b))

  pub sub-ok : (a b : ℕ) → b ≤ a → BigNum.sub (pos a) (pos b) ≡ ok (pos (a - b))
  unfolding BigNum.sub
  sub-ok a b h = ap crypto_check (laws.sub_lem (pos a) (pos b) ∙ ap some (-ℤ-pos a b h))

  -- The same for integers of either sign.
  pub sub_signed : (a b : ℤ) → BigNum.sub a b ≡ ok (a -ℤ b)
  unfolding BigNum.sub
  sub_signed a b = ap crypto_check (laws.sub_lem a b)

  pub mod_mul_signed :
      (a b : ℤ) (m : ℕ) → 0 < m → BigNum.mod_mul a b (pos m) ≡ ok (pos (mod_ℤ (a *ℤ b) m))
  unfolding BigNum.mod_mul
  mod_mul_signed a b m h = ap crypto_check (laws.mod_mul_lem a b m h)

  pub mul-ok : (a b : ℕ) → BigNum.mul (pos a) (pos b) ≡ ok (pos (a * b))
  unfolding BigNum.mul
  mul-ok a b = ap crypto_check (laws.mul_lem (pos a) (pos b) ∙ ap some (*ℤ-pos a b))

  pub mod_by-ok : (a m : ℕ) → 0 < m → BigNum.mod_by (pos a) (pos m) ≡ ok (pos (a % m))
  unfolding BigNum.mod_by mod_ℤ
  mod_by-ok a m h = ap crypto_check (laws.nnmod_lem (pos a) m h)

  pub mod_mul-ok :
      (a b m : ℕ) → 0 < m → BigNum.mod_mul (pos a) (pos b) (pos m) ≡ ok (pos (a * b % m))
  unfolding BigNum.mod_mul mod_ℤ
  mod_mul-ok a b m h =
      ap crypto_check
        (laws.mod_mul_lem (pos a) (pos b) m h ∙ ap (λ c. some (pos (mod_ℤ c m))) (*ℤ-pos a b))

  pub mod_sqr-ok : (a m : ℕ) → 0 < m → BigNum.mod_sqr (pos a) (pos m) ≡ ok (pos (a * a % m))
  unfolding BigNum.mod_sqr mod_ℤ
  mod_sqr-ok a m h =
      ap crypto_check (laws.mod_sqr_lem (pos a) m h ∙ ap (λ c. some (pos (mod_ℤ c m))) (*ℤ-pos a a))

  pub mod_exp-ok :
      (a e m : ℕ) → 0 < m → BigNum.mod_exp (pos a) (pos e) (pos m) ≡ ok (pos (a ^ e % m))
  unfolding BigNum.mod_exp
  mod_exp-ok a e m h = rw (is_non_negative-pos e, laws.mod_exp_lem a e m h)

  pub mod_inverse-ok :
      (a m b : ℕ)
      → 0 < m
      → a * b % m ≡ 1 % m
      → (r : ℕ) × (BigNum.mod_inverse (pos a) (pos m) ≡ ok (pos r)) × (r < m) × (a * r % m ≡ 1 % m)
  unfolding BigNum.mod_inverse
  mod_inverse-ok a m b h e =
      let (r, found, below, inverts) = laws.mod_inverse_lem a m b h e in
      (r, ap crypto_check found, below, inverts)

  pub exp-ok : (a e : ℕ) → BigNum.exp (pos a) (pos e) ≡ ok (pos (a ^ e))
  unfolding BigNum.exp
  exp-ok a e = ap crypto_check (laws.exp_lem a e)

  -- `/` ends the process unless the division is exact.
  pub div-ok : (a b : ℕ) → 0 < b → a % b ≡ 0 → BigNum.div (pos a) (pos b) ≡ ok (pos (a / b))
  unfolding BigNum.div
  div-ok a b h e = rw (laws.div_lem a b h, laws.is_zero_lem (pos (a % b)), e)

  -- A number survives its conversion to 64 bits exactly when it has 64 bits at most.
  pub to_int_value_lem :
      (n : ℕ)
      → (n < 2 ^ 64 → BigNum.to_int_value (pos n) ≡ ok n)
        × (2 ^ 64 ≤ n
            → BigNum.to_int_value (pos n)
              ≡ err (invalid_argument_error "BigNum has more than 64 bits."))
  unfolding BigNum.to_int_value
  to_int_value_lem n = (λ h. rw (laws.get_u64 n h), λ h. rw (laws.get_u64_large n h))
