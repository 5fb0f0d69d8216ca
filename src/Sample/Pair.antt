-- ===== src/Sample/Pair.antt =====
-- The Paillier key of the primes 7 and 5, as the code makes it.
use private_join_and_compute.Prelude.{◌≡◌, refl, [], ◌∷◌}
use private_join_and_compute.Prelude.Int.{pos}
use private_join_and_compute.Util.Result.{ok}
use private_join_and_compute.Crypto.BigNum
use private_join_and_compute.Crypto.FixedBaseExp
use private_join_and_compute.Crypto.Paillier.Private
use private_join_and_compute.Crypto.Paillier.PrimeCrypto
use private_join_and_compute.Crypto.Paillier.Precomp
use private_join_and_compute.Crypto.Paillier.Generator
use private_join_and_compute.Crypto.Paillier.Table
use private_join_and_compute.Crypto.TwoModulusCrt
use private_join_and_compute.Prelude.Int.{◌+ℤ◌, ◌-ℤ◌, ◌*ℤ◌, mod_ℤ}
use private_join_and_compute.Crypto.Paillier.Private.{PrivatePaillier}
use private_join_and_compute.Sample.Numbers.{search, has_divisor}
use private_join_and_compute.Sample.Library.{sample}
use private_join_and_compute.Sample.Proto.{sample_proto}
use private_join_and_compute.Sample.Data.{flags}

abbrev pub pair : PrivatePaillier sample
pair = record {
  n_to_s = pos 1225;
  n_to_s_plus_one = pos 42875;
  p_crypto = record {
    p = pos 7;
    p_phi = pos 6;
    n = pos 35;
    s = 2;
    powers = pos 1 ∷ pos 7 ∷ pos 49 ∷ pos 343 ∷ [];
    precomp = pos 1 ∷ pos 35 ∷ pos 98 ∷ [];
    lambda_inv = pos 41;
    other_prime_inv = pos 10;
    decrypt_precomp = record { column_length = 3; table = (8, pos 42) ∷ [] };
    g_p = pos 3;
    fbe = FixedBaseExp.simple (pos 325) (pos 343);
  };
  q_crypto = record {
    p = pos 5;
    p_phi = pos 4;
    n = pos 35;
    s = 2;
    powers = pos 1 ∷ pos 5 ∷ pos 25 ∷ pos 125 ∷ [];
    precomp = pos 1 ∷ pos 35 ∷ pos 50 ∷ [];
    lambda_inv = pos 19;
    other_prime_inv = pos 18;
    decrypt_precomp = record { column_length = 3; table = (8, pos 5) ∷ [] };
    g_p = pos 2;
    fbe = FixedBaseExp.simple (pos 57) (pos 125);
  };
  two_mod_crt_encrypt = record {
    crt_term1 = pos 14750;
    crt_term2 = pos 28126;
    coprime_product = pos 42875;
  };
  two_mod_crt_decrypt = record {
    crt_term1 = pos 50;
    crt_term2 = pos 1176;
    coprime_product = pos 1225;
  };
}

pub pair_made : Private.make_private flags (pos 7) (pos 5) 2 ≡ ok pair
unfolding Private.make_private PrimeCrypto.make_prime_crypto PrimeCrypto.get_p_to_exp
    PrimeCrypto.l_func Precomp.get_powers Precomp.powers_loop Precomp.get_precomp
    Precomp.precomp_loop Precomp.get_decrypt_precomp Precomp.decrypt_rows Precomp.decrypt_row
    Table.make_table Table.insert Table.get Table.find
    Generator.get_generator_of_prime_powers_from_safe_prime Generator.get_generator_for_safe_prime
    Generator.generator_loop Generator.is_rejected TwoModulusCrt.make_crt
    FixedBaseExp.get_fixed_base_exp BigNum.add BigNum.compare_to BigNum.div BigNum.is_non_negative
    BigNum.is_one BigNum.is_prime BigNum.is_safe_prime BigNum.is_zero BigNum.lt BigNum.gt BigNum.eq
    BigNum.mod_by BigNum.mod_exp BigNum.mod_sqr BigNum.mod_mul BigNum.mod_inverse BigNum.mul
    BigNum.of_u64 BigNum.exp BigNum.sub search has_divisor ◌+ℤ◌ ◌-ℤ◌ ◌*ℤ◌ mod_ℤ
pair_made = refl
