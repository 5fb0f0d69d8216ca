-- ===== src/Sample/Library.antt =====
-- The sample library, with its arithmetic law by law.
use private_join_and_compute.Prelude.{
  ℕ, zero, suc, ◌+◌, ◌-◌, ◌*◌, ◌/◌, ◌%◌, ◌^◌, ◌&&◌, not, ◌==◌, Option, none, some, [], ◌∷◌,
  if◌then◌else◌, ltb, leb,
}
use private_join_and_compute.Prelude.Int.{
  ℤ, pos, negsuc, ◌+ℤ◌, ◌-ℤ◌, ◌*ℤ◌, -ℤ◌, ltb_ℤ, eqb_ℤ, mod_ℤ,
}
use private_join_and_compute.Prelude.Bytes.{Bytes}
use private_join_and_compute.Crypto.OpenSsl.{OpenSsl}
use private_join_and_compute.Crypto.OpenSsl.Laws.{sign_of_comparison}
use private_join_and_compute.Sample.Numbers.{
  to_bytes, from_bytes, search, bits, gcd_loop, magnitude, has_divisor,
}

-- A result for a positive modulus.
abbrev pub when_positive : ℤ → (ℕ → Option ℤ) → Option ℤ
when_positive (pos zero) f = none
when_positive (pos (suc m)) f = f (suc m)
when_positive (negsuc m) f = none

abbrev on_magnitudes : (ℕ → ℕ → ℕ) → ℤ → ℤ → Option ℤ
on_magnitudes f (pos a) (pos b) = some (pos (f a b))
on_magnitudes f a b = none

abbrev as_number : Option ℕ → Option ℤ
as_number none = none
as_number (some n) = some (pos n)

abbrev sample_div : ℤ → ℤ → Option (ℤ × ℤ)
sample_div (pos a) (pos zero) = none
sample_div (pos a) (pos (suc b)) = some (pos (a / suc b), pos (a % suc b))
sample_div a b = none

abbrev sample_rand : ℤ → ℕ → Option ℤ × ℕ
sample_rand (pos (suc m)) g = (some (pos (g % suc m)), suc g)
sample_rand n g = (none, g)

abbrev sample_mask : ℤ → ℕ → Option ℤ
sample_mask (pos a) n = if ltb a (2 ^ n) then none else some (pos (a % 2 ^ n))
sample_mask (negsuc a) n = none

abbrev sample_shift : (ℕ → ℕ → ℕ) → ℤ → ℕ → Option ℤ
sample_shift f (pos a) n = some (pos (f a n))
sample_shift f (negsuc a) n = none

abbrev sample_decode : Bytes → Option ℕ
sample_decode [] = none
sample_decode (p ∷ []) = if ltb p 101 then some p else none
sample_decode (p ∷ q ∷ rest) = none

-- `Rng` counts the draws; a point is its number in the group, and 0 is the point at infinity.
instance abbrev pub sample : OpenSsl
sample = record {
  bn_set_u64 = λ n. some (pos n);
  bn_bin2bn = λ b. some (pos (from_bytes 0 b));
  bn_bn2bin = λ a. to_bytes (magnitude a) (magnitude a);
  bn_get_u64 = λ a. if ltb (magnitude a) (2 ^ 64) then some (magnitude a) else none;
  bn_num_bits = λ a. bits (magnitude a) (magnitude a);
  bn_is_prime_ex =
      λ a rounds. leb 2 (magnitude a) && not (has_divisor (magnitude a) (magnitude a - 1));
  bn_is_zero = λ a. eqb_ℤ a (pos 0);
  bn_is_one = λ a. eqb_ℤ a (pos 1);
  bn_is_negative = λ a. ltb_ℤ a (pos 0);
  bn_set_negative = λ a negative. if negative then -ℤ◌ (pos (magnitude a)) else pos (magnitude a);
  bn_mask_bits = sample_mask;
  bn_is_bit_set = λ a n. magnitude a / 2 ^ n % 2 == 1;
  bn_cmp = sign_of_comparison;
  bn_add = λ a b. some (a +ℤ b);
  bn_sub = λ a b. some (a -ℤ b);
  bn_mul = λ a b. some (a *ℤ b);
  bn_div = sample_div;
  bn_exp = on_magnitudes ◌^◌;
  bn_nnmod = λ a m. when_positive m λ n. some (pos (mod_ℤ a n));
  bn_mod_add = λ a b m. when_positive m λ n. some (pos (mod_ℤ (a +ℤ b) n));
  bn_mod_sub = λ a b m. when_positive m λ n. some (pos (mod_ℤ (a -ℤ b) n));
  bn_mod_mul = λ a b m. when_positive m λ n. some (pos (mod_ℤ (a *ℤ b) n));
  bn_mod_exp = λ a e m. when_positive m λ n. on_magnitudes (λ x y. x ^ y % n) a e;
  bn_mod_sqr = λ a m. when_positive m λ n. some (pos (mod_ℤ (a *ℤ a) n));
  bn_mod_inverse =
      λ a m. when_positive m λ n. as_number (search (λ r. magnitude a * r % n == 1 % n) n);
  bn_mod_sqrt =
      λ a m. when_positive m λ n. as_number (search (λ r. r * r % n == magnitude a % n) n);
  bn_lshift = sample_shift λ a n. a * 2 ^ n;
  bn_rshift = sample_shift λ a n. a / 2 ^ n;
  bn_gcd = λ a b. some (pos (gcd_loop (suc (magnitude b)) (magnitude a) (magnitude b)));
  Rng = ℕ;
  bn_rand_range = sample_rand;
  bn_generate_prime_ex =
      λ length safe g. (some (pos (if safe && (g % 2 == 0) then 7 else 5)), suc g);
  rand_bytes = λ n g. (some (to_bytes n g), suc g);
  evp_sha256 = λ b. some b;
  evp_sha512 = λ b. some b;
  hmac_sha512 = λ key b. some b;
  MontCtx = ℤ;
  bn_mont_ctx_set = λ m. some m;
  bn_to_montgomery = λ m a. when_positive m λ n. some (pos (mod_ℤ a n));
  bn_from_montgomery = λ m a. when_positive m λ n. some (pos (mod_ℤ a n));
  bn_mod_mul_montgomery = λ m a b. when_positive m λ n. some (pos (mod_ℤ (a *ℤ b) n));
  Group = Unit {0};
  Point = ℕ;
  nid_secp224r1 = 713;
  ec_group_new_by_curve_name = λ nid. if nid == 713 then some tt else none;
  ec_group_get_order = λ g. some (pos 101);
  ec_group_get_curve = λ g. some (pos 97, pos 2, pos 3);
  ec_group_get0_generator = λ g. 1;
  ec_point_dup = λ g a. some a;
  ec_point_new = λ g. some 0;
  ec_point_set_to_infinity = λ g a. some 0;
  ec_point_set_affine = λ g x y. some (magnitude x + 1);
  ec_point_point2oct = λ g a form. some (a ∷ []);
  ec_point_oct2point = λ g b. sample_decode b;
  ec_point_mul = λ g a k. some (a * magnitude k % 101);
  ec_point_add = λ g a b. some ((a + b) % 101);
  ec_point_copy = λ a. some a;
  ec_point_invert = λ g a. some ((101 - a) % 101);
  ec_point_is_at_infinity = λ g a. a == 0;
  ec_point_is_on_curve = λ g a. ltb a 101;
  ec_point_cmp = λ g a b. if a == b then pos 0 else pos 1;
  error_string = "sample";
}
