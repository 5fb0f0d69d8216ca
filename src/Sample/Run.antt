-- ===== src/Sample/Run.antt =====
-- A whole run of the protocol on the sample library, with the key of the primes 7 and 5.
use private_join_and_compute.Prelude.{ap, ◌∙◌, ℕ, ◌≡◌, refl, some, List, [], ◌∷◌, arith}
use private_join_and_compute.Prelude.Int.{pos, ◌+ℤ◌, ◌-ℤ◌, ◌*ℤ◌, mod_ℤ}
use private_join_and_compute.Prelude.Bytes.{Bytes, bytes_lt}
use private_join_and_compute.Util.Macros
use private_join_and_compute.Util.Result.{ok}
use private_join_and_compute.Crypto.BigNum
use private_join_and_compute.Crypto.CommutativeCipher.Laws.{encrypt_lem}
use private_join_and_compute.Crypto.Context
use private_join_and_compute.Crypto.EcGroup
use private_join_and_compute.Crypto.CommutativeCipher
use private_join_and_compute.Crypto.FixedBaseExp
use private_join_and_compute.Crypto.TwoModulusCrt
use private_join_and_compute.Crypto.Paillier.Precomp
use private_join_and_compute.Crypto.Paillier.Generator
use private_join_and_compute.Crypto.Paillier.PrimeCrypto
use private_join_and_compute.Crypto.Paillier.Table
use private_join_and_compute.Crypto.Paillier.Private
use private_join_and_compute.Crypto.Paillier.Public
use private_join_and_compute.Crypto.Paillier.Public.{PublicPaillier}
use private_join_and_compute.Match.{ServerRoundOne, ClientRoundOne}
use private_join_and_compute.Std.{sort, insert}
use private_join_and_compute.Std.Order.{has, bytes_eq, keep, product}
use private_join_and_compute.Client.{Client, encrypt_items, answer, decrypt_sum}
use private_join_and_compute.Server.{encrypt_inputs, compute_with_cipher}
use private_join_and_compute.Protocol.Join.{Item, common}
use private_join_and_compute.Protocol.Sum.{IsJoinable}
use private_join_and_compute.Protocol.Exchange.{exchange-common}
use private_join_and_compute.Sample.Numbers.{to_bytes, from_bytes, gcd_loop, search}
use private_join_and_compute.Sample.Library.{sample}
use private_join_and_compute.Sample.Group.{sample_laws, sample_curve}
use private_join_and_compute.Sample.Data.{
  group, flags, hash, client_cipher, server_cipher, client_keyed, server_keyed, inputs,
  sample-Hashes,
}
use private_join_and_compute.Sample.Pair.{pair}

abbrev pub client : Client sample
client = record {
  elements = (1 ∷ []) ∷ (2 ∷ []) ∷ (3 ∷ []) ∷ [];
  values = pos 11 ∷ pos 7 ∷ pos 5 ∷ [];
  p = pos 7;
  q = pos 5;
  ec_cipher = client_cipher;
  private_paillier = some pair;
}

-- The client's texts, each with the number that encrypts its value.
abbrev pub ciphertexts : List Item
ciphertexts =
    record { text = 1 ∷ []; value = 37377 }
    ∷ record { text = 2 ∷ []; value = 42778 }
    ∷ record { text = 3 ∷ []; value = 6407 }
    ∷ []

abbrev pub public_key : PublicPaillier sample
public_key = record {
  n = pos 35;
  s = 2;
  n_powers = pos 1 ∷ pos 35 ∷ pos 1225 ∷ pos 42875 ∷ [];
  modulus = pos 42875;
  g_n_fbe = FixedBaseExp.simple (pos 19876) (pos 42875);
  precomp = pos 1 ∷ pos 35 ∷ pos 22050 ∷ [];
}

abbrev pub first : ServerRoundOne
first = record {
  encrypted_set =
      record { element = 34 ∷ []; associated_data = [] }
      ∷ record { element = 72 ∷ []; associated_data = [] }
      ∷ record { element = 83 ∷ []; associated_data = [] }
      ∷ [];
}

abbrev second : ClientRoundOne
second = record {
  public_key = 35 ∷ [];
  encrypted_set =
      record { element = 16 ∷ []; associated_data = 146 ∷ 1 ∷ [] }
      ∷ record { element = 23 ∷ []; associated_data = 167 ∷ 26 ∷ [] }
      ∷ record { element = 82 ∷ []; associated_data = 25 ∷ 7 ∷ [] }
      ∷ [];
  reencrypted_set =
      record { element = 11 ∷ []; associated_data = [] }
      ∷ record { element = 57 ∷ []; associated_data = [] }
      ∷ record { element = 69 ∷ []; associated_data = [] }
      ∷ [];
}

pub element_encrypted :
    (m : ℕ) (r : Bytes)
    → EcGroup.get_point_by_hashing_to_curve 40 group (m ∷ []) ≡ ok (hash (m ∷ []))
    → sample_curve.times (hash (m ∷ [])).point 5 ∷ [] ≡ r
    → CommutativeCipher.encrypt 40 client_cipher (m ∷ []) ≡ ok r
element_encrypted m r h e =
    encrypt_lem group sample_curve client_cipher client_keyed 40 (m ∷ []) ∙ rw h (ap ok e)

first_value : Private.encrypt flags pair (pos 11) 3 ≡ (ok (pos 37377), 5)
unfolding Private.encrypt Private.check_message PrimeCrypto.encrypt PrimeCrypto.encrypt_with_rand
    TwoModulusCrt.compute Precomp.compute_by_binomial_expansion Precomp.binomial_loop
    FixedBaseExp.mod_exp FixedBaseExp.impl_mod_exp Context.generate_rand_between
    Context.generate_rand_less_than BigNum.add BigNum.is_non_negative BigNum.is_one BigNum.is_zero
    BigNum.lt BigNum.gt BigNum.le BigNum.ge BigNum.eq BigNum.mod_by BigNum.mod_exp BigNum.mod_mul
    BigNum.mul BigNum.of_u64 BigNum.sub BigNum.exp ◌+ℤ◌ ◌-ℤ◌ ◌*ℤ◌ mod_ℤ Macros.ret_invalid_arg_check
first_value = refl

pub second_value : Private.encrypt flags pair (pos 7) 5 ≡ (ok (pos 42778), 7)
unfolding Private.encrypt Private.check_message PrimeCrypto.encrypt PrimeCrypto.encrypt_with_rand
    TwoModulusCrt.compute Precomp.compute_by_binomial_expansion Precomp.binomial_loop
    FixedBaseExp.mod_exp FixedBaseExp.impl_mod_exp Context.generate_rand_between
    Context.generate_rand_less_than BigNum.add BigNum.is_non_negative BigNum.is_one BigNum.is_zero
    BigNum.lt BigNum.gt BigNum.le BigNum.ge BigNum.eq BigNum.mod_by BigNum.mod_exp BigNum.mod_mul
    BigNum.mul BigNum.of_u64 BigNum.sub BigNum.exp ◌+ℤ◌ ◌-ℤ◌ ◌*ℤ◌ mod_ℤ Macros.ret_invalid_arg_check
second_value = refl

pub third_value : Private.encrypt flags pair (pos 5) 7 ≡ (ok (pos 6407), 9)
unfolding Private.encrypt Private.check_message PrimeCrypto.encrypt PrimeCrypto.encrypt_with_rand
    TwoModulusCrt.compute Precomp.compute_by_binomial_expansion Precomp.binomial_loop
    FixedBaseExp.mod_exp FixedBaseExp.impl_mod_exp Context.generate_rand_between
    Context.generate_rand_less_than BigNum.add BigNum.is_non_negative BigNum.is_one BigNum.is_zero
    BigNum.lt BigNum.gt BigNum.le BigNum.ge BigNum.eq BigNum.mod_by BigNum.mod_exp BigNum.mod_mul
    BigNum.mul BigNum.of_u64 BigNum.sub BigNum.exp ◌+ℤ◌ ◌-ℤ◌ ◌*ℤ◌ mod_ℤ Macros.ret_invalid_arg_check
third_value = refl

client_encrypts :
    encrypt_items 40 flags client_cipher pair client.elements client.values 3
    ≡ (ok second.encrypted_set, 9)
unfolding encrypt_items to_bytes BigNum.to_bytes Private.encrypt CommutativeCipher.encrypt
client_encrypts =
    let (h1, h2, h3, h4) = sample-Hashes in
    rw (
      element_encrypted 1 (16 ∷ []) h1 refl,
      first_value,
      element_encrypted 2 (23 ∷ []) h2 refl,
      second_value,
      element_encrypted 3 (82 ∷ []) h3 refl,
      third_value,
    )

pub key_made : Public.make_public flags 40 (pos 35) 2 2 ≡ (ok public_key, 3)
unfolding Public.make_public Precomp.get_powers Precomp.powers_loop Precomp.get_precomp
    Precomp.precomp_loop Generator.get_generator_for_safe_modulus
    Context.relatively_prime_random_less_than Context.generate_rand_less_than
    FixedBaseExp.get_fixed_base_exp BigNum.of_u64 BigNum.add BigNum.sub BigNum.mul BigNum.gcd
    BigNum.gt BigNum.mod_by BigNum.mod_exp BigNum.mod_mul BigNum.mod_sqr BigNum.mod_inverse
    BigNum.is_non_negative gcd_loop search ◌+ℤ◌ ◌-ℤ◌ ◌*ℤ◌ mod_ℤ
key_made = refl

zero_encrypted : Public.encrypt flags public_key (pos 0) 3 ≡ (ok (pos 13376), 4)
unfolding Public.encrypt Public.check_message Public.encrypt_using_generator_and_rand
    Precomp.compute_by_binomial_expansion Precomp.binomial_loop FixedBaseExp.mod_exp
    FixedBaseExp.impl_mod_exp Context.generate_rand_less_than BigNum.of_u64 BigNum.add BigNum.sub
    BigNum.mul BigNum.lt BigNum.le BigNum.is_non_negative BigNum.mod_by BigNum.mod_exp
    BigNum.mod_mul ◌+ℤ◌ ◌-ℤ◌ ◌*ℤ◌ mod_ℤ Macros.ret_invalid_arg_check
zero_encrypted = refl

pub joinable :
    IsJoinable sample_laws group sample_curve 40 hash client_cipher server_cipher client_keyed
      server_keyed ciphertexts inputs
unfolding has bytes_eq bytes_lt
joinable =
    let (h1, h2, h3, h4) = sample-Hashes in
    record {
      items_hashed = (h1, (h2, (h3, tt)));
      inputs_hashed = (h3, (h4, (h1, tt)));
      distinct = (refl, (refl, (refl, tt)));
      own_apart = (
        (λ e. refl, (λ e. ground arith, (λ e. ground arith, tt))),
        (
          (λ e. ground arith, (λ e. refl, (λ e. ground arith, tt))),
          ((λ e. ground arith, (λ e. ground arith, (λ e. refl, tt))), tt),
        ),
      );
      apart = (
        (λ e. ground arith, (λ e. ground arith, (λ e. refl, tt))),
        (
          (λ e. ground arith, (λ e. ground arith, (λ e. ground arith, tt))),
          ((λ e. refl, (λ e. ground arith, (λ e. ground arith, tt))), tt),
        ),
      );
    }

exchange-common_example :
    (encrypt_inputs 40 server_cipher inputs ≡ ok first.encrypted_set)
    × (answer 40 flags client pair first 3 ≡ (ok second, 9))
    × (compute_with_cipher 40 flags server_cipher second 2
        ≡ (ok (record { intersection_size = pos 2; encrypted_sum = 93 ∷ 131 ∷ [] }), 4))
unfolding to_bytes common keep has bytes_eq product sort insert bytes_lt
exchange-common_example =
    exchange-common sample_laws group sample_curve 40 hash client server_cipher client_keyed
      server_keyed ciphertexts inputs joinable flags pair 7 5 13376 42875 public_key 3 9 2 3 4 refl
      refl client_encrypts key_made zero_encrypted refl (omega arith)

-- The client decrypts the sum of the two shared values.
pub sum_decrypted :
    decrypt_sum client (record { intersection_size = pos 2; encrypted_sum = 93 ∷ 131 ∷ [] })
    ≡ ok (pos 2, pos 16)
unfolding decrypt_sum Private.decrypt PrimeCrypto.get_p_to_exp PrimeCrypto.decrypt
    PrimeCrypto.decrypt_outer PrimeCrypto.decrypt_inner PrimeCrypto.l_func Table.get Table.find
    TwoModulusCrt.compute BigNum.of_bytes BigNum.div BigNum.div_and_truncate BigNum.mod_sub
    from_bytes BigNum.add BigNum.is_non_negative BigNum.is_one BigNum.is_zero BigNum.lt BigNum.gt
    BigNum.le BigNum.ge BigNum.eq BigNum.mod_by BigNum.mod_exp BigNum.mod_mul BigNum.mul
    BigNum.of_u64 BigNum.sub BigNum.exp ◌+ℤ◌ ◌-ℤ◌ ◌*ℤ◌ mod_ℤ Macros.ret_invalid_arg_check
sum_decrypted = refl
