-- ===== src/Crypto/Paillier/Generator.antt =====
-- crypto/paillier.cc: the generators of Zp*, of Zn* and of Zp^t*.
pub mod Unit
pub mod Drawn
use private_join_and_compute.Prelude.{ℕ, zero, suc, Bool, true, if◌then◌else◌}
use private_join_and_compute.Util.Result.{Result, ok, die, ◌>>=◌, ◌>>◌, check}
use private_join_and_compute.Util.Exec
use private_join_and_compute.Util.Exec.{Exec, lift}
use private_join_and_compute.Crypto.OpenSsl.{OpenSsl}
use private_join_and_compute.Crypto.BigNum
use private_join_and_compute.Crypto.BigNum.{BigNum}
use private_join_and_compute.Crypto.Context.{relatively_prime_random_less_than}
use private_join_and_compute.Crypto.Flags.{Flags}

module _ ⦃lib : OpenSsl⦄ where
  open lib use {Rng}

  -- The test of the loop; `||` leaves the second power out where the first is 1.
  unfoldable pub is_rejected : BigNum → BigNum → BigNum → Result Bool
  is_rejected p q g = do
    square ← BigNum.mod_sqr g p
    let second = BigNum.mod_exp g q p >>= λ power. ok (BigNum.is_one power)
    if BigNum.is_one square then ok true else second

  unfoldable pub generator_loop : ℕ → BigNum → BigNum → BigNum → Result BigNum
  generator_loop zero p q g = die
  generator_loop (suc rounds) p q g = do
    rejected ← is_rejected p q g
    let again = do one ← BigNum.of_u64 1; next ← BigNum.add g one; generator_loop rounds p q next
    if rejected then again else ok g

  unfoldable pub get_generator_for_safe_prime : Flags → BigNum → Result BigNum
  get_generator_for_safe_prime flags p = do
    safe ← BigNum.is_safe_prime p
    check safe
    one ← BigNum.of_u64 1
    difference ← BigNum.sub p one
    two ← BigNum.of_u64 2
    q ← BigNum.div difference two
    g ← BigNum.of_u64 2
    generator_loop flags.generator_try_count p q g

  unfoldable pub get_generator_for_safe_modulus : ℕ → BigNum → Exec Rng BigNum
  get_generator_for_safe_modulus fuel n =
      Exec.◌>>=◌ (relatively_prime_random_less_than fuel n)
        λ x. lift (do square ← BigNum.mod_sqr x n; BigNum.sub n square)

  unfoldable pub get_generator_of_prime_powers_from_safe_prime : Flags → BigNum → Result BigNum
  get_generator_of_prime_powers_from_safe_prime flags p = do
    g ← get_generator_for_safe_prime flags p
    one ← BigNum.of_u64 1
    exponent ← BigNum.sub p one
    square ← BigNum.mul p p
    power ← BigNum.mod_exp g exponent square
    if BigNum.is_one power then BigNum.add g p else ok g
