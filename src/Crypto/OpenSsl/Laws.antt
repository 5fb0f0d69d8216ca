-- ===== src/Crypto/OpenSsl/Laws.antt =====
-- What the code relies on of OpenSSL's big numbers and of its random number generator: the documented
-- results of the calls, on the arguments for which they are documented to succeed.
use private_join_and_compute.Prelude.{
  [], ℕ, ◌*◌, ◌/◌, ◌%◌, ◌^◌, ◌≤◌, ◌<◌, ◌≡◌, none, some, if◌then◌else◌,
}
use private_join_and_compute.Prelude.Int.{
  ℤ, pos, negsuc, ◌+ℤ◌, ◌-ℤ◌, ◌*ℤ◌, -ℤ◌, ltb_ℤ, eqb_ℤ, mod_ℤ,
}
use private_join_and_compute.Prelude.Bytes.{Bytes}
use private_join_and_compute.Crypto.OpenSsl.{OpenSsl}

-- BN_cmp: -1, 0 or 1.
abbrev pub sign_of_comparison : ℤ → ℤ → ℤ
sign_of_comparison a b = if ltb_ℤ a b then negsuc 0 else if eqb_ℤ a b then pos 0 else pos 1

module _ (lib : OpenSsl) where
  open lib use {
    bn_set_u64, bn_bin2bn, bn_bn2bin, bn_get_u64, bn_is_zero, bn_is_one, bn_is_negative, bn_cmp,
    bn_add, bn_sub, bn_mul, bn_div, bn_exp, bn_nnmod, bn_mod_mul, bn_mod_exp, bn_mod_inverse,
    bn_lshift, bn_rshift, bn_rand_range, bn_mod_sqr, bn_gcd,
  }

  pub record BnLaws : Type 0 where
    pub set_u64 : (n : ℕ) → n < 2 ^ 64 → bn_set_u64 n ≡ some (pos n)
    pub bin2bn : (b : Bytes) → (n : ℕ) × (bn_bin2bn b ≡ some (pos n))
    -- No bytes are the number 0.
    pub bin2bn-nil : bn_bin2bn [] ≡ some (pos 0)
    pub bin2bn-bn2bin : (n : ℕ) → bn_bin2bn (bn_bn2bin (pos n)) ≡ some (pos n)
    pub get_u64 : (n : ℕ) → n < 2 ^ 64 → bn_get_u64 (pos n) ≡ some n
    pub get_u64_large : (n : ℕ) → 2 ^ 64 ≤ n → bn_get_u64 (pos n) ≡ none
    pub is_zero_lem : (a : ℤ) → bn_is_zero a ≡ eqb_ℤ a (pos 0)
    pub is_one_lem : (a : ℤ) → bn_is_one a ≡ eqb_ℤ a (pos 1)
    pub is_negative_lem : (a : ℤ) → bn_is_negative a ≡ ltb_ℤ a (pos 0)
    pub cmp_lem : (a b : ℤ) → bn_cmp a b ≡ sign_of_comparison a b
    pub add_lem : (a b : ℤ) → bn_add a b ≡ some (a +ℤ b)
    pub sub_lem : (a b : ℤ) → bn_sub a b ≡ some (a -ℤ b)
    pub mul_lem : (a b : ℤ) → bn_mul a b ≡ some (a *ℤ b)
    pub div_lem : (a b : ℕ) → 0 < b → bn_div (pos a) (pos b) ≡ some (pos (a / b), pos (a % b))
    pub exp_lem : (a e : ℕ) → bn_exp (pos a) (pos e) ≡ some (pos (a ^ e))
    pub nnmod_lem : (a : ℤ) (m : ℕ) → 0 < m → bn_nnmod a (pos m) ≡ some (pos (mod_ℤ a m))
    pub mod_mul_lem :
        (a b : ℤ) (m : ℕ) → 0 < m → bn_mod_mul a b (pos m) ≡ some (pos (mod_ℤ (a *ℤ b) m))
    pub mod_exp_lem :
        (a e m : ℕ) → 0 < m → bn_mod_exp (pos a) (pos e) (pos m) ≡ some (pos (a ^ e % m))
    pub mod_sqr_lem : (a : ℤ) (m : ℕ) → 0 < m → bn_mod_sqr a (pos m) ≡ some (pos (mod_ℤ (a *ℤ a) m))
    -- What is found is not 0, and every common divisor divides it.
    pub gcd_lem :
        (a b : ℕ)
        → 0 < b
        → (d : ℕ) × (bn_gcd (pos a) (pos b) ≡ some (pos d))
          × (0 < d)
          × ((e k l : ℕ) → a ≡ e * k → b ≡ e * l → (j : ℕ) × (d ≡ e * j))
    -- An inverse is found where there is one.
    pub mod_inverse_lem :
        (a m b : ℕ)
        → 0 < m
        → a * b % m ≡ 1 % m
        → (r : ℕ) × (bn_mod_inverse (pos a) (pos m) ≡ some (pos r)) × (r < m) × (a * r % m ≡ 1 % m)
    pub lshift_lem : (a n : ℕ) → bn_lshift (pos a) n ≡ some (pos (a * 2 ^ n))
    pub rshift_lem : (a n : ℕ) → bn_rshift (pos a) n ≡ some (pos (a / 2 ^ n))
    pub rand_range_lem :
        (n : ℕ) (g : lib.Rng)
        → 0 < n
        → (r : ℕ) × (h : lib.Rng) × (bn_rand_range (pos n) g ≡ (some (pos r), h)) × (r < n)
