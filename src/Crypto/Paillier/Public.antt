-- ===== src/Crypto/Paillier/Public.antt =====
-- crypto/paillier.cc: PublicPaillier. `fuel` bounds the search for a number that is prime to n.
pub mod Make
pub mod Encrypt
use private_join_and_compute.Prelude.{ℕ, List, [], ◌∷◌}
use private_join_and_compute.Util.Result.{Result, ok, die, ◌>>=◌, ◌>>◌, read_at}
use private_join_and_compute.Util.Macros.{ret_invalid_arg_check}
use private_join_and_compute.Util.Exec
use private_join_and_compute.Util.Exec.{Exec, lift}
use private_join_and_compute.Crypto.OpenSsl.{OpenSsl}
use private_join_and_compute.Crypto.BigNum
use private_join_and_compute.Crypto.BigNum.{BigNum}
use private_join_and_compute.Crypto.Context.{
  generate_rand_less_than, relatively_prime_random_less_than,
}
use private_join_and_compute.Crypto.Flags.{Flags}
use private_join_and_compute.Crypto.FixedBaseExp
use private_join_and_compute.Crypto.FixedBaseExp.{FixedBaseExp}
use private_join_and_compute.Crypto.Paillier.Precomp.{
  get_powers, get_precomp, compute_by_binomial_expansion,
}
use private_join_and_compute.Crypto.Paillier.Generator.{get_generator_for_safe_modulus}
use private_join_and_compute.Crypto.Paillier.PrimeCrypto.{PaillierEncAndRand}

pub record PublicPaillier (lib : OpenSsl) : Type 0 where
  pub n : BigNum
  pub s : ℕ
  pub n_powers : List BigNum
  pub modulus : BigNum
  pub g_n_fbe : FixedBaseExp lib
  pub precomp : List BigNum

-- kDefaultS
abbrev pub default_s : ℕ
default_s = 1

-- powers.back()
abbrev pub back : List BigNum → Result BigNum
back [] = die
back (x ∷ []) = ok x
back (x ∷ y ∷ rest) = back (y ∷ rest)

module _ ⦃lib : OpenSsl⦄ where
  open lib use {Rng}

  -- PublicPaillier(ctx, n, s)
  unfoldable pub make_public : Flags → ℕ → BigNum → ℕ → Exec Rng (PublicPaillier lib)
  make_public flags fuel n s = Exec.◌>>=◌ (lift (get_powers n s)) λ n_powers.
      Exec.◌>>=◌ (lift (back n_powers)) λ modulus.
        Exec.◌>>=◌ (get_generator_for_safe_modulus fuel n) λ generator. lift (do
          n_to_s ← read_at n_powers s
          base ← BigNum.mod_exp generator n_to_s modulus
          fbe ← FixedBaseExp.get_fixed_base_exp flags base modulus
          precomp ← get_precomp n modulus s
          ok (record {
            n = n;
            s = s;
            n_powers = n_powers;
            modulus = modulus;
            g_n_fbe = fbe;
            precomp = precomp;
          }))

  -- PublicPaillier(ctx, n)
  unfoldable pub make_public_default : Flags → ℕ → BigNum → Exec Rng (PublicPaillier lib)
  make_public_default flags fuel n = make_public flags fuel n default_s

  unfoldable pub add : PublicPaillier lib → BigNum → BigNum → Result BigNum
  add pub_key c1 c2 = BigNum.mod_mul c1 c2 pub_key.modulus

  unfoldable pub multiply : PublicPaillier lib → BigNum → BigNum → Result BigNum
  multiply pub_key c m = BigNum.mod_exp c m pub_key.modulus

  unfoldable pub left_shift : PublicPaillier lib → BigNum → ℕ → Result BigNum
  left_shift pub_key c shift_amount = do
    one ← BigNum.of_u64 1
    multiplier ← BigNum.lshift one shift_amount
    multiply pub_key c multiplier

  unfoldable pub encrypt_using_generator_and_rand :
      Flags → PublicPaillier lib → BigNum → BigNum → Result BigNum
  encrypt_using_generator_and_rand flags pub_key m r = do
    ret_invalid_arg_check (BigNum.le r pub_key.n) "r <= n_"
        "The given random is not less than or equal to n."
    c ← compute_by_binomial_expansion pub_key.precomp pub_key.n_powers m
    g_n_to_r ← FixedBaseExp.mod_exp flags pub_key.g_n_fbe r
    BigNum.mod_mul c g_n_to_r pub_key.modulus

  -- The two checks of Encrypt.
  unfoldable pub check_message : BigNum → BigNum → Result (Unit {0})
  check_message m n_to_s = do
    ret_invalid_arg_check (BigNum.is_non_negative m) "m.IsNonNegative()"
        "PublicPaillier::Encrypt() - Cannot encrypt negative number."
    ret_invalid_arg_check (BigNum.lt m n_to_s) "m < n_powers_[s_]"
        "PublicPaillier::Encrypt() - Message not smaller than n^s."

  unfoldable pub encrypt : Flags → PublicPaillier lib → BigNum → Exec Rng BigNum
  encrypt flags pub_key m =
      Exec.◌>>=◌ (lift (read_at pub_key.n_powers pub_key.s >>= check_message m)) λ _.
        Exec.◌>>=◌ (generate_rand_less_than pub_key.n)
          λ r. lift (encrypt_using_generator_and_rand flags pub_key m r)

  unfoldable pub encrypt_with_rand : PublicPaillier lib → BigNum → BigNum → Result BigNum
  encrypt_with_rand pub_key m r = do
    divisor ← BigNum.gcd r pub_key.n
    one ← BigNum.of_u64 1
    ret_invalid_arg_check (BigNum.eq divisor one) "r.Gcd(n_) == ctx_->One()"
        "The given random is not in Z*n."
    c ← compute_by_binomial_expansion pub_key.precomp pub_key.n_powers m
    n_to_s ← read_at pub_key.n_powers pub_key.s
    mask ← BigNum.mod_exp r n_to_s pub_key.modulus
    BigNum.mod_mul c mask pub_key.modulus

  unfoldable pub encrypt_and_get_rand :
      ℕ → PublicPaillier lib → BigNum → Exec Rng PaillierEncAndRand
  encrypt_and_get_rand fuel pub_key m =
      Exec.◌>>=◌ (relatively_prime_random_less_than fuel pub_key.n)
        λ r. lift (do c ← encrypt_with_rand pub_key m r; ok (record { ciphertext = c; rand = r }))
