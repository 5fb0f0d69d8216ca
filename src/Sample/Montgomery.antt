-- ===== src/Sample/Montgomery.antt =====
-- The table of powers at concrete numbers: the sample library's Montgomery form of a number is the
-- number itself.
use native.Mathlib.Nat.{mod-eq_of_lt}
use private_join_and_compute.Prelude.{
  ℕ, zero, suc, ◌+◌, ◌*◌, ◌/◌, ◌%◌, ◌^◌, ◌<◌, ◌≡◌, refl, ◌∙◌, some, true, false, [], ◌∷◌, ◌++◌, All,
  arith,
}
use private_join_and_compute.Prelude.Int.{pos, mod_ℤ, *ℤ-pos}
use private_join_and_compute.Prelude.Bytes.{Bytes}
use private_join_and_compute.Util.Result.{ok, die}
use private_join_and_compute.Crypto.OpenSsl.Montgomery.{MontLaws, BytesLaws, big_endian}
use private_join_and_compute.Crypto.Flags.{Flags}
use private_join_and_compute.Crypto.FixedBaseExp
use private_join_and_compute.Crypto.FixedBaseExp.TwoKAry.{mod_exp-two_k_ary, mod_exp-signed}
use private_join_and_compute.Sample.Numbers.{to_bytes, from_bytes, from_bytes-to_bytes}
use private_join_and_compute.Sample.Library.{sample}
use private_join_and_compute.Sample.Group.{sample_laws}

sample_mul :
    (a b : ℕ) → sample.bn_mod_mul_montgomery (pos 101) (pos a) (pos b) ≡ some (pos (a * b % 101))
unfolding mod_ℤ
sample_mul a b = rw (*ℤ-pos a b) refl

reduced : (a : ℕ) → a < 101 → some (pos (mod_ℤ (pos a) 101)) ≡ some (pos a)
unfolding mod_ℤ
reduced a h = rw (mod-eq_of_lt h) refl

abbrev sample_mont : MontLaws sample 101
sample_mont = record {
  ctx = pos 101;
  form = λ a. pos a;
  set_lem = refl;
  to_lem = reduced;
  from_lem = reduced;
  mul_lem = λ a b h k. sample_mul a b;
}

big_endian-from_bytes : (n : ℕ) (bytes : Bytes) → big_endian n bytes ≡ from_bytes n bytes
unfolding big_endian from_bytes
big_endian-from_bytes n [] = refl
big_endian-from_bytes n (b ∷ bytes) = big_endian-from_bytes (n * 256 + b) bytes

snoc_small :
    (bytes : Bytes) (c : ℕ)
    → All (λ b. b < 256) bytes
    → c < 256
    → All (λ b. b < 256) (bytes ++ (c ∷ []))
snoc_small [] c h k = (k, tt)
snoc_small (b ∷ bytes) c (h, hs) k = (h, snoc_small bytes c hs k)

to_bytes_small : (fuel n : ℕ) → All (λ b. b < 256) (to_bytes fuel n)
unfolding to_bytes
to_bytes_small zero n = tt
to_bytes_small (suc fuel) zero = tt
to_bytes_small (suc fuel) (suc n) =
    snoc_small (to_bytes fuel (suc n / 256)) (suc n % 256) (to_bytes_small fuel (suc n / 256))
      (omega arith)

sample_bytes : BytesLaws sample
sample_bytes = record {
  value_lem = λ n. big_endian-from_bytes 0 (to_bytes n n) ∙ from_bytes-to_bytes n n (omega arith);
  bytes_lem = λ n. to_bytes_small n n;
}

abbrev unsigned_char : Flags
unsigned_char = record {
  two_k_ary_exp = true;
  generator_try_count = 10;
  char_is_signed = false;
  ndebug = false;
}

abbrev signed_char : Flags
signed_char = record unsigned_char { char_is_signed = true }

mod_exp-two_k_ary_example :
    (table : FixedBaseExp.FixedBaseExp sample) × (FixedBaseExp.make_two_k_ary (pos 3) (pos 101)
      ≡ ok table)
    × (FixedBaseExp.mod_exp unsigned_char table (pos 1000) ≡ ok (pos (3 ^ 1000 % 101)))
    × (FixedBaseExp.mod_exp unsigned_char (FixedBaseExp.simple (pos 3) (pos 101)) (pos 1000)
        ≡ ok (pos (3 ^ 1000 % 101)))
mod_exp-two_k_ary_example =
    mod_exp-two_k_ary sample_laws 3 101 sample_mont (omega arith) (omega arith) sample_bytes
      unsigned_char 1000 refl

written : sample.bn_bn2bin (pos 1000) ≡ 3 ∷ 232 ∷ []
unfolding to_bytes
written = refl

mod_exp-signed_example :
    (table : FixedBaseExp.FixedBaseExp sample) × (FixedBaseExp.make_two_k_ary (pos 3) (pos 101)
      ≡ ok table)
    × (FixedBaseExp.mod_exp signed_char table (pos 1000) ≡ die)
mod_exp-signed_example =
    mod_exp-signed sample_laws 3 101 sample_mont (omega arith) (omega arith) sample_bytes
      signed_char 1000 232 (3 ∷ []) [] refl written (omega arith)
