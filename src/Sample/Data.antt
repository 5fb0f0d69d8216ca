-- ===== src/Sample/Data.antt =====
-- A group, keys, texts and draws of the sample library, with what the code makes of them.
use private_join_and_compute.Prelude.{
  ℕ, ◌≡◌, refl, false, List, [], ◌∷◌, arith, ◌==◌, if◌then◌else◌,
}
use private_join_and_compute.Prelude.Int.{pos, ◌+ℤ◌, ◌-ℤ◌, ◌*ℤ◌, mod_ℤ}
use private_join_and_compute.Prelude.Bytes.{Bytes, bytes_lt}
use private_join_and_compute.Util.Result.{ok}
use private_join_and_compute.Util.Macros
use private_join_and_compute.Crypto.EcPoint.{EcPoint}
use private_join_and_compute.Crypto.EcGroup
use private_join_and_compute.Crypto.EcGroup.{EcGroup}
use private_join_and_compute.Crypto.Flags.{Flags}
use private_join_and_compute.Crypto.CommutativeCipher.{CommutativeCipher}
use private_join_and_compute.Crypto.Paillier.Public
use private_join_and_compute.Crypto.Paillier.Public.{PublicPaillier}
use private_join_and_compute.Crypto.BigNum.{BigNum}
use private_join_and_compute.Crypto.FixedBaseExp
use private_join_and_compute.Crypto.Context
use private_join_and_compute.Crypto.EcPoint
use private_join_and_compute.Crypto.BigNum
use private_join_and_compute.Crypto.Paillier.Precomp
use private_join_and_compute.Crypto.Paillier.Generator
use private_join_and_compute.Crypto.CommutativeCipher.Laws.{IsKeyed}
use private_join_and_compute.Std.Order.{has, bytes_eq}
use private_join_and_compute.Protocol.Join.{Item}
use private_join_and_compute.Protocol.Sum.{IsJoinable}
use private_join_and_compute.Sample.Numbers.{to_bytes, from_bytes, search, bits, gcd_loop}
use private_join_and_compute.Sample.Group.{sample_laws, sample_curve}
use private_join_and_compute.Sample.Library.{sample}
use private_join_and_compute.Sample.Numbers.{has_divisor}
use private_join_and_compute.Crypto.CommutativeCipher

abbrev pub group : EcGroup sample
group = record {
  group = tt;
  order = pos 101;
  curve_params = record { p = pos 97; a = pos 2; b = pos 3 };
  p_minus_one_over_two = pos 48;
}

abbrev pub client_cipher : CommutativeCipher sample
client_cipher = record { group = group; private_key = pos 5; private_key_inverse = pos 81 }

abbrev pub server_cipher : CommutativeCipher sample
server_cipher = record { group = group; private_key = pos 7; private_key_inverse = pos 29 }

abbrev pub flags : Flags
flags = record {
  two_k_ary_exp = false;
  generator_try_count = 3;
  char_is_signed = false;
  ndebug = false;
}

abbrev pub key : PublicPaillier sample
key = record {
  n = pos 15;
  s = 2;
  n_powers = pos 1 ∷ pos 15 ∷ pos 225 ∷ pos 3375 ∷ [];
  modulus = pos 3375;
  g_n_fbe = FixedBaseExp.simple (pos 1376) (pos 3375);
  precomp = pos 1 ∷ pos 15 ∷ pos 1800 ∷ [];
}

-- Where the four sample texts hash to.
abbrev pub hash : Bytes → EcPoint sample
hash [] = record { group = tt; point = 0 }
hash (x ∷ rest) = record {
  group = tt;
  point = if x == 1 then 84 else if x == 2 then 45 else if x == 3 then 77 else 68;
}

abbrev pub client_keyed : IsKeyed group sample_curve client_cipher
client_keyed = record {
  same_group = refl;
  key = 5;
  inverse = 81;
  private_key_lem = refl;
  private_key_inverse_lem = refl;
  inverts = refl;
}

abbrev pub server_keyed : IsKeyed group sample_curve server_cipher
server_keyed = record {
  same_group = refl;
  key = 7;
  inverse = 29;
  private_key_lem = refl;
  private_key_inverse_lem = refl;
  inverts = refl;
}

abbrev pub Hashes : ℕ → Type 0
Hashes x = EcGroup.get_point_by_hashing_to_curve 40 group (x ∷ []) ≡ ok (hash (x ∷ []))

pub sample-Hashes : Hashes 1 × Hashes 2 × Hashes 3 × Hashes 4
unfolding EcGroup.get_point_by_hashing_to_curve EcGroup.hashing_loop EcGroup.compute_y_square
    EcGroup.is_square EcGroup.point_at EcGroup.create_ec_point_affine EcGroup.is_valid
    EcGroup.is_on_curve EcGroup.is_at_infinity EcPoint.from_affine EcPoint.new_point
    Context.random_oracle Context.oracle_loop Context.oracle_block Context.sha512_string
    BigNum.of_u64 BigNum.of_bytes BigNum.to_bytes BigNum.is_one BigNum.is_zero
    BigNum.is_non_negative BigNum.bit_length BigNum.is_bit_set BigNum.add BigNum.sub BigNum.mul
    BigNum.exp BigNum.mod_by BigNum.mod_exp BigNum.mod_sqrt BigNum.mod_negate BigNum.lshift
    BigNum.rshift to_bytes from_bytes bits search ◌+ℤ◌ ◌-ℤ◌ ◌*ℤ◌ mod_ℤ
sample-Hashes = (refl, refl, refl, refl)

pub key_made : Public.make_public flags 40 (pos 15) 2 2 ≡ (ok key, 3)
unfolding Public.make_public Precomp.get_powers Precomp.powers_loop Precomp.get_precomp
    Precomp.precomp_loop Generator.get_generator_for_safe_modulus
    Context.relatively_prime_random_less_than Context.generate_rand_less_than
    FixedBaseExp.get_fixed_base_exp BigNum.of_u64 BigNum.add BigNum.sub BigNum.mul BigNum.gcd
    BigNum.gt BigNum.mod_by BigNum.mod_exp BigNum.mod_mul BigNum.mod_sqr BigNum.mod_inverse
    BigNum.is_non_negative gcd_loop search ◌+ℤ◌ ◌-ℤ◌ ◌*ℤ◌ mod_ℤ
key_made = refl

pub zero_encrypted : Public.encrypt flags key (pos 0) 3 ≡ (ok (pos 1376), 4)
unfolding Public.encrypt Public.check_message Public.encrypt_using_generator_and_rand
    Precomp.compute_by_binomial_expansion Precomp.binomial_loop FixedBaseExp.mod_exp
    FixedBaseExp.impl_mod_exp Context.generate_rand_less_than BigNum.of_u64 BigNum.add BigNum.sub
    BigNum.mul BigNum.lt BigNum.le BigNum.is_non_negative BigNum.mod_by BigNum.mod_exp
    BigNum.mod_mul ◌+ℤ◌ ◌-ℤ◌ ◌*ℤ◌ mod_ℤ Macros.ret_invalid_arg_check
zero_encrypted = refl

abbrev pub items : List Item
items =
    record { text = 1 ∷ []; value = 11 }
    ∷ record { text = 2 ∷ []; value = 7 }
    ∷ record { text = 3 ∷ []; value = 5 }
    ∷ []

abbrev pub inputs : List Bytes
inputs = (3 ∷ []) ∷ (4 ∷ []) ∷ (1 ∷ []) ∷ []

pub joinable :
    IsJoinable sample_laws group sample_curve 40 hash client_cipher server_cipher client_keyed
      server_keyed items inputs
unfolding has bytes_eq bytes_lt
joinable =
    let (h1, h2, h3, h4) = sample-Hashes in
    record {
      items_hashed = (h1, (h2, (h3, tt)));
      inputs_hashed = (h3, (h4, (h1, tt)));
      distinct = (refl, (refl, (refl, tt)));
      own_apart = (
        (λ e. refl, (λ e. ground arith, (λ e. ground arith, tt))),
        (
          (λ e. ground arith, (λ e. refl, (λ e. ground arith, tt))),
          ((λ e. ground arith, (λ e. ground arith, (λ e. refl, tt))), tt),
        ),
      );
      apart = (
        (λ e. ground arith, (λ e. ground arith, (λ e. refl, tt))),
        (
          (λ e. ground arith, (λ e. ground arith, (λ e. ground arith, tt))),
          ((λ e. refl, (λ e. ground arith, (λ e. ground arith, tt))), tt),
        ),
      );
    }

-- Key pair, messages and numbers for ElGamal encryption.
pub drawn : EcGroup.generate_private_key group 6 ≡ (ok (pos 7), 7)
unfolding EcGroup.generate_private_key Context.generate_rand_between Context.generate_rand_less_than
    BigNum.of_u64 BigNum.lt BigNum.sub BigNum.add ◌+ℤ◌ ◌-ℤ◌
drawn = refl

pub group_created : EcGroup.create 713 ≡ ok group
unfolding EcGroup.create EcGroup.create_group EcGroup.create_order EcGroup.create_curve_params
    EcGroup.get_p_minus_one_over_two BigNum.is_prime BigNum.of_u64 BigNum.sub BigNum.div
    BigNum.is_zero has_divisor ◌-ℤ◌
group_created = refl

pub cipher_made : CommutativeCipher.make_cipher group (pos 5) ≡ ok client_cipher
unfolding CommutativeCipher.make_cipher BigNum.mod_inverse search
cipher_made = refl
