-- ===== src/Crypto/FixedBaseExp/TwoKAry.antt =====
-- The exponentiation with a table of powers computes what BN_mod_exp computes.
use native.Mathlib.Nat.{pow-suc, pow-zero, mod-lt, mod-eq_of_lt, one-mul}
use private_join_and_compute.Prelude.{
  ℕ, zero, suc, ◌+◌, ◌*◌, ◌%◌, ◌^◌, ◌<◌, ◌≤◌, ◌≡◌, refl, sym, ap, ◌∙◌, true, false, some, List, [],
  ◌∷◌, All, arith, get_elem?, ◌++◌, Bool-cases, inl, inr, leb,
}
use private_join_and_compute.Prelude.Int.{pos, ltb_ℤ}
use private_join_and_compute.Prelude.Mod.{mod-mul_left, mod-mul_right, pow_add}
use private_join_and_compute.Prelude.Bytes.{Bytes}
use private_join_and_compute.Util.Result.{ok, die, crypto_check, read_at}
use private_join_and_compute.Util.Macros.{ret_invalid_arg_check}
use private_join_and_compute.Crypto.OpenSsl.{OpenSsl}
use private_join_and_compute.Crypto.OpenSsl.Laws.{BnLaws}
use private_join_and_compute.Crypto.OpenSsl.Montgomery.{MontLaws, BytesLaws, big_endian}
use private_join_and_compute.Crypto.BigNum.Laws.{
  of_u64-ok, to_bytes-ok, lt_lem, is_non_negative-pos, mod_exp-ok,
}
use private_join_and_compute.Crypto.MontMul
use private_join_and_compute.Crypto.MontMul.{MontBigNum, MontContext}
use private_join_and_compute.Crypto.Flags.{Flags}
use private_join_and_compute.Crypto.FixedBaseExp

module _ ⦃lib : OpenSsl⦄ (laws : BnLaws lib) (b m : ℕ) (mont : MontLaws lib m) (small : b < m)
    (large : 1 < m) where
  -- The power of the base to `x`, in its Montgomery form.
  power : ℕ → MontBigNum lib
  power x = record { mont_ctx = mont.ctx; address = 0; bn = mont.form (b ^ x % m) }

  power-mul : (x y : ℕ) → MontMul.mul_in_place (power x) (power y) ≡ ok (power (x + y))
  unfolding MontMul.mul_in_place power
  power-mul x y =
      let product : b ^ x % m * (b ^ y % m) % m ≡ b ^ (x + y) % m =
        mod-mul_left (b ^ x) (b ^ y % m) m
        ∙ mod-mul_right (b ^ x) (b ^ y) m
        ∙ ap (λ t. t % m) (sym (pow_add b x y)) in
      rw
        (
          mont.mul_lem (b ^ x % m) (b ^ y % m) (mod-lt (b ^ x) (omega (arith, large)))
              (mod-lt (b ^ y) (omega (arith, large))),
          product,
        )
        refl

  -- Squaring `rounds` times.
  doubled : ℕ → ℕ → ℕ
  doubled zero x = x
  doubled (suc rounds) x = doubled rounds (x + x)

  square_times-power :
      (rounds x : ℕ) → FixedBaseExp.square_times rounds (power x) ≡ ok (power (doubled rounds x))
  unfolding FixedBaseExp.square_times doubled
  square_times-power zero x = refl
  square_times-power (suc rounds) x = rw (power-mul x x, square_times-power rounds (x + x)) refl

  -- The table from the power after `x` on.
  fill_cache-power :
      (rounds x : ℕ)
      → (powers : List (MontBigNum lib)) × (FixedBaseExp.fill_cache rounds (power x) (power 1)
          ≡ ok powers)
        × ((k : ℕ) → k < rounds → get_elem? powers k ≡ some (power (x + 1 + k)))
  unfolding FixedBaseExp.fill_cache MontMul.mul
  fill_cache-power zero x = ([], refl, λ k h. absurd (omega (arith, h)))
  fill_cache-power (suc rounds) x =
      let (powers, made, has) = fill_cache-power rounds (x + 1) in
      (power (x + 1) ∷ powers, rw (power-mul x 1, made) refl, fill_cache_has x rounds powers has)
    where
      fill_cache_has :
          (x rounds : ℕ) (powers : List (MontBigNum lib))
          → ((k : ℕ) → k < rounds → get_elem? powers k ≡ some (power (x + 1 + 1 + k)))
          → (k : ℕ) → k < suc rounds
          → get_elem? (power (x + 1) ∷ powers) k ≡ some (power (x + 1 + k))
      fill_cache_has x rounds powers has zero h = ap (λ t. some (power t)) (omega arith)
      fill_cache_has x rounds powers has (suc k) h =
          has k (omega (arith, h)) ∙ ap (λ t. some (power t)) (omega arith)

  -- A table that holds the powers up to 255.
  IsTable : List (MontBigNum lib) → Type 0
  IsTable cache = (k : ℕ) → k < 256 → get_elem? cache k ≡ some (power k)

  context : MontContext lib
  context = record { modulus = pos m; mont_ctx = mont.ctx; address = 0 }

  create_mont_big_num-power :
      (a x : ℕ) → a < m → b ^ x % m ≡ a → MontMul.create_mont_big_num context (pos a) ≡ ok (power x)
  unfolding MontMul.create_mont_big_num context power
  create_mont_big_num-power a x h e =
      let below : ltb_ℤ (pos a) (pos m) ≡ true = ground (arith, h) in
      rw (lt_lem laws (pos a) (pos m), below, mont.to_lem a h, e) refl

  make_two_k_ary-IsTable :
      (cache : List (MontBigNum lib)) × (FixedBaseExp.make_two_k_ary (pos b) (pos m)
        ≡ ok (FixedBaseExp.two_k_ary (pos b) (pos m) cache))
      × IsTable cache
  unfolding FixedBaseExp.make_two_k_ary MontMul.make_context context IsTable
  make_two_k_ary-IsTable =
      let (powers, made, has) = fill_cache-power 256 1 in
      let one : b ^ 0 % m ≡ 1 = rw (pow-zero b) (mod-eq_of_lt large) in
      let base : b ^ 1 % m ≡ b = rw (pow-suc b 0, pow-zero b, one-mul b) (mod-eq_of_lt small) in
      (
        power 0 ∷ power 1 ∷ powers,
        rw
            (
              mont.set_lem,
              of_u64-ok laws 1 (omega arith),
              create_mont_big_num-power 1 0 large one,
              create_mont_big_num-power b 1 small base,
              made,
            )
            refl,
        table_of powers has,
      )
    where
      table_of :
          (powers : List (MontBigNum lib))
          → ((k : ℕ) → k < 256 → get_elem? powers k ≡ some (power (1 + 1 + k)))
          → (k : ℕ) → k < 256
          → get_elem? (power 0 ∷ power 1 ∷ powers) k ≡ some (power k)
      table_of powers has zero h = refl
      table_of powers has (suc zero) h = refl
      table_of powers has (suc (suc k)) h =
          has k (omega (arith, h)) ∙ ap (λ t. some (power t)) (omega arith)

  doubled-eight : (x : ℕ) → doubled 8 x ≡ x * 256
  unfolding doubled
  doubled-eight x = omega arith

  exp_loop-power :
      (flags : Flags) (cache : List (MontBigNum lib)) (bytes : Bytes) (x : ℕ)
      → flags.char_is_signed ≡ false
      → IsTable cache
      → All (λ c. c < 256) bytes
      → FixedBaseExp.exp_loop flags cache bytes (power x) ≡ ok (power (big_endian x bytes))
  unfolding FixedBaseExp.exp_loop FixedBaseExp.cache_at big_endian IsTable
  exp_loop-power flags cache [] x unsigned table h = refl
  exp_loop-power flags cache (c ∷ bytes) x unsigned table (h, hs) =
      rw
        (
          square_times-power 8 x,
          doubled-eight x,
          unsigned,
          table c h,
          power-mul (x * 256) c,
          exp_loop-power flags cache bytes (x * 256 + c) unsigned table hs,
        )
        refl

  first_entry : (cache : List (MontBigNum lib)) → IsTable cache → read_at cache 0 ≡ ok (power 0)
  unfolding IsTable
  first_entry cache table = ap crypto_check (table 0 (omega arith))

  to_big_num-power : (e : ℕ) → MontMul.to_big_num (power e) ≡ ok (pos (b ^ e % m))
  unfolding MontMul.to_big_num power
  to_big_num-power e =
      ap crypto_check (mont.from_lem (b ^ e % m) (mod-lt (b ^ e) (omega (arith, large))))

  exp_loop-signed :
      (flags : Flags) (cache : List (MontBigNum lib)) (before after : Bytes) (c x : ℕ)
      → flags.char_is_signed ≡ true
      → IsTable cache
      → All (λ d. d < 256) (before ++ (c ∷ after))
      → 128 ≤ c
      → FixedBaseExp.exp_loop flags cache (before ++ (c ∷ after)) (power x) ≡ die
  unfolding FixedBaseExp.exp_loop FixedBaseExp.cache_at IsTable
  exp_loop-signed flags cache [] after c x signed table h large_byte =
      let big : leb 128 c ≡ true = ground (arith, large_byte) in
      rw (square_times-power 8 x, signed, big) refl
  exp_loop-signed flags cache (d ∷ before) after c x signed table (h, hs) large_byte =
      elim (Bool-cases (leb 128 d)) [
        | inl e ↦ rw (square_times-power 8 x, signed, e) refl
        | inr e ↦
            rw (square_times-power 8 x, signed, e, table d h, power-mul (doubled 8 x) d)
              (exp_loop-signed flags cache before after c (doubled 8 x + d) signed table hs
                large_byte)
      ]

  -- Where a plain char is unsigned, the table of powers of a base below the modulus computes the power to
  -- any exponent that is not negative, as the implementation with BN_mod_exp does.
  pub mod_exp-two_k_ary :
      BytesLaws lib
      → (flags : Flags) (e : ℕ) → flags.char_is_signed ≡ false
      → (table : FixedBaseExp.FixedBaseExp lib) × (FixedBaseExp.make_two_k_ary (pos b) (pos m)
          ≡ ok table)
        × (FixedBaseExp.mod_exp flags table (pos e) ≡ ok (pos (b ^ e % m)))
        × (FixedBaseExp.mod_exp flags (FixedBaseExp.simple (pos b) (pos m)) (pos e)
            ≡ ok (pos (b ^ e % m)))
  unfolding FixedBaseExp.mod_exp FixedBaseExp.impl_mod_exp ret_invalid_arg_check
  mod_exp-two_k_ary bytes flags e unsigned =
      let (cache, made, table) = make_two_k_ary-IsTable in
      let looped =
        exp_loop-power flags cache (lib.bn_bn2bin (pos e)) 0 unsigned table (bytes.bytes_lem e) in
      (
        FixedBaseExp.two_k_ary (pos b) (pos m) cache,
        made,
        rw
            (
              is_non_negative-pos laws e,
              first_entry cache table,
              to_bytes-ok laws e,
              looped,
              bytes.value_lem e,
              to_big_num-power e,
            )
            refl,
        rw (is_non_negative-pos laws e, mod_exp-ok laws b e m (omega (arith, large))) refl,
      )

  -- Where a plain char is signed, the same call reads the table at a negative index, which is undefined
  -- and counts as the end of the process here, at any exponent with a byte from 128 on among its bytes.
  pub mod_exp-signed :
      BytesLaws lib
      → (flags : Flags) (e c : ℕ) (before after : Bytes) → flags.char_is_signed ≡ true
      → lib.bn_bn2bin (pos e) ≡ before ++ (c ∷ after)
      → 128 ≤ c
      → (table : FixedBaseExp.FixedBaseExp lib) × (FixedBaseExp.make_two_k_ary (pos b) (pos m)
          ≡ ok table)
        × (FixedBaseExp.mod_exp flags table (pos e) ≡ die)
  unfolding FixedBaseExp.mod_exp FixedBaseExp.impl_mod_exp ret_invalid_arg_check
  mod_exp-signed bytes flags e c before after signed written large_byte =
      let (cache, made, table) = make_two_k_ary-IsTable in
      let small_bytes = rw written at (bytes.bytes_lem e) in
      (
        FixedBaseExp.two_k_ary (pos b) (pos m) cache,
        made,
        rw
            (
              is_non_negative-pos laws e,
              first_entry cache table,
              to_bytes-ok laws e,
              written,
              exp_loop-signed flags cache before after c 0 signed table small_bytes large_byte,
            )
            refl,
      )
