-- ===== src/Sample/Keys.antt =====
-- The theorems about Paillier's keys and about the whole protocol at the primes 7 and 5.
use private_join_and_compute.Prelude.{
  ◌≡◌, refl, sym, subst, ◌∙◌, ℕ, zero, suc, ◌*◌, ◌%◌, ◌<◌, none, some, [], ◌∷◌, true, arith,
}
use private_join_and_compute.Prelude.Int.{pos, negsuc, ◌+ℤ◌, ◌-ℤ◌, ◌*ℤ◌, mod_ℤ}
use private_join_and_compute.Prelude.Bytes.{bytes_lt}
use private_join_and_compute.Util.Status.{Status, is_invalid_argument}
use private_join_and_compute.Util.Result.{ok, err}
use private_join_and_compute.Crypto.BigNum
use private_join_and_compute.Crypto.Context
use private_join_and_compute.Crypto.Paillier.Fermat.{IsFieldOrder}
use private_join_and_compute.Crypto.Paillier.Generator
use private_join_and_compute.Crypto.Paillier.Private
use private_join_and_compute.Crypto.Paillier.Public
use private_join_and_compute.Crypto.Paillier.Private.Make.{
  ArePrimes, IsPrivateKey, make_private_lem,
}
use private_join_and_compute.Crypto.Paillier.Private.Encrypt.{decrypt-encrypt_private}
use private_join_and_compute.Crypto.Paillier.Public.Make.{IsPublicKey, make_public_lem}
use private_join_and_compute.Crypto.Paillier.Rejected.{IsOutside, encrypt-decrypt_outside}
use private_join_and_compute.Crypto.Paillier.Homomorphic.{decrypt-add, decrypt-multiply}
use private_join_and_compute.Std.Order.{has, bytes_eq, keep}
use private_join_and_compute.Match.{ServerRoundOne, ClientRoundOne, ServerRoundTwo}
use private_join_and_compute.Client.{Client, re_encrypt_set, decrypt_sum}
use private_join_and_compute.Server.{encrypt_set, compute_intersection}
use private_join_and_compute.Protocol.Join.{common}
use private_join_and_compute.Protocol.Sealed.{sum_of_values}
use private_join_and_compute.Protocol.IntersectionSum.{decrypt_sum-compute_intersection}
use private_join_and_compute.Sample.Numbers.{gcd_loop, has_divisor}
use private_join_and_compute.Sample.Library.{sample}
use private_join_and_compute.Sample.Group.{sample_laws, sample_curve}
use private_join_and_compute.Sample.Data.{
  group, client_cipher, server_cipher, flags, hash, client_keyed, server_keyed, items, inputs,
  joinable,
}
use private_join_and_compute.Sample.Pair.{pair, pair_made}
use private_join_and_compute.Sample.Parties.{server_drawn}
use private_join_and_compute.Sample.Run.{public_key, key_made}

seven : IsFieldOrder 7
unfolding IsFieldOrder
seven = (omega arith, inverse)
  where
    inverse : (j : ℕ) → 0 < j → j < 7 → (b : ℕ) × (j * b % 7 ≡ 1 % 7)
    inverse zero h g = let no : ⊥ = omega (arith, h) in elim no [ ]
    inverse (suc zero) h g = (1, refl)
    inverse (suc (suc zero)) h g = (4, refl)
    inverse (suc (suc (suc zero))) h g = (5, refl)
    inverse (suc (suc (suc (suc zero)))) h g = (2, refl)
    inverse (suc (suc (suc (suc (suc zero))))) h g = (3, refl)
    inverse (suc (suc (suc (suc (suc (suc zero)))))) h g = (6, refl)
    inverse (suc (suc (suc (suc (suc (suc (suc j))))))) h g =
        let no : ⊥ = omega (arith, g) in elim no [ ]

five : IsFieldOrder 5
unfolding IsFieldOrder
five = (omega arith, inverse)
  where
    inverse : (j : ℕ) → 0 < j → j < 5 → (b : ℕ) × (j * b % 5 ≡ 1 % 5)
    inverse zero h g = let no : ⊥ = omega (arith, h) in elim no [ ]
    inverse (suc zero) h g = (1, refl)
    inverse (suc (suc zero)) h g = (3, refl)
    inverse (suc (suc (suc zero))) h g = (2, refl)
    inverse (suc (suc (suc (suc zero)))) h g = (4, refl)
    inverse (suc (suc (suc (suc (suc j))))) h g = let no : ⊥ = omega (arith, g) in elim no [ ]

primes : ArePrimes 7 5 2
primes = record {
  on_p = record {
    field = seven;
    apart = (3, refl);
    some_s = omega arith;
    below = omega arith;
    small = omega arith;
  };
  on_q = record {
    field = five;
    apart = (3, refl);
    some_s = omega arith;
    below = omega arith;
    small = omega arith;
  };
}

found_p : Generator.get_generator_of_prime_powers_from_safe_prime flags (pos 7) ≡ ok (pos 3)
unfolding Generator.get_generator_of_prime_powers_from_safe_prime
    Generator.get_generator_for_safe_prime Generator.generator_loop Generator.is_rejected BigNum.add
    BigNum.div BigNum.is_one BigNum.is_prime BigNum.is_safe_prime BigNum.is_non_negative
    BigNum.mod_exp BigNum.mod_sqr BigNum.mul BigNum.of_u64 BigNum.sub has_divisor ◌+ℤ◌ ◌-ℤ◌ ◌*ℤ◌
    mod_ℤ
found_p = refl

found_q : Generator.get_generator_of_prime_powers_from_safe_prime flags (pos 5) ≡ ok (pos 2)
unfolding Generator.get_generator_of_prime_powers_from_safe_prime
    Generator.get_generator_for_safe_prime Generator.generator_loop Generator.is_rejected BigNum.add
    BigNum.div BigNum.is_one BigNum.is_prime BigNum.is_safe_prime BigNum.is_non_negative
    BigNum.mod_exp BigNum.mod_sqr BigNum.mul BigNum.of_u64 BigNum.sub has_divisor ◌+ℤ◌ ◌-ℤ◌ ◌*ℤ◌
    mod_ℤ
found_q = refl

drawn_first : Generator.get_generator_for_safe_modulus 40 (pos 35) 2 ≡ (ok (pos 31), 3)
unfolding Generator.get_generator_for_safe_modulus Context.relatively_prime_random_less_than
    Context.generate_rand_less_than BigNum.of_u64 BigNum.gcd BigNum.gt BigNum.mod_sqr BigNum.sub
    gcd_loop ◌+ℤ◌ ◌-ℤ◌ ◌*ℤ◌ mod_ℤ
drawn_first = refl

drawn_second : Generator.get_generator_for_safe_modulus 40 (pos 35) 7 ≡ (ok (pos 6), 9)
unfolding Generator.get_generator_for_safe_modulus Context.relatively_prime_random_less_than
    Context.generate_rand_less_than BigNum.of_u64 BigNum.gcd BigNum.gt BigNum.mod_sqr BigNum.sub
    gcd_loop ◌+ℤ◌ ◌-ℤ◌ ◌*ℤ◌ mod_ℤ
drawn_second = refl

pair_key : IsPrivateKey sample_laws flags 7 5 2 primes 3 2 pair
pair_key =
    let (made, runs, is_key) =
      make_private_lem sample_laws flags 7 5 2 primes 3 2 refl found_p found_q in
    let same : ok made ≡ ok pair = sym runs ∙ pair_made in
    let same_key : made ≡ pair = cc same in
    subst (λ k. IsPrivateKey sample_laws flags 7 5 2 primes 3 2 k) same_key is_key

public_key_made : IsPublicKey sample_laws flags 7 5 2 primes 31 public_key
public_key_made =
    let (made, runs, is_key) =
      make_public_lem sample_laws flags 7 5 2 primes 40 31 2 3 refl drawn_first in
    let same = sym runs ∙ key_made in
    let same_key : made ≡ public_key = cc same in
    subst (λ k. IsPublicKey sample_laws flags 7 5 2 primes 31 k) same_key is_key

decrypt-encrypt_private_example :
    (key : Private.PrivatePaillier sample) × (c : ℕ) × (r' : ℕ) × (Private.make_private flags
        (pos 7)
        (pos 5)
        2
      ≡ ok key)
    × (Private.encrypt flags key (pos 11) 3 ≡ (ok (pos c), r'))
    × (Private.decrypt key (pos c) ≡ ok (pos 11))
decrypt-encrypt_private_example =
    decrypt-encrypt_private sample_laws flags 7 5 2 primes 3 2 refl (omega arith) (omega arith)
      found_p found_q 11 3 (omega arith)

decrypt-add_example :
    (c c' d : ℕ) × (r₁ r₂ : ℕ) × (Public.encrypt flags public_key (pos 1000) 4 ≡ (ok (pos c), r₁))
    × (Public.encrypt flags public_key (pos 500) r₁ ≡ (ok (pos c'), r₂))
    × (Public.add public_key (pos c) (pos c') ≡ ok (pos d))
    × (Private.decrypt pair (pos d) ≡ ok (pos 275))
decrypt-add_example =
    decrypt-add sample_laws flags 7 5 2 primes 3 2 31 40 2 3 drawn_first pair pair_key public_key
      public_key_made 1000 500 4 (omega arith) (omega arith)

decrypt-multiply_example :
    (c d : ℕ) × (r' : ℕ) × (Public.encrypt flags public_key (pos 11) 4 ≡ (ok (pos c), r'))
    × (Private.decrypt pair (pos c) ≡ ok (pos 11))
    × (Public.multiply public_key (pos c) (pos 3) ≡ ok (pos d))
    × (Private.decrypt pair (pos d) ≡ ok (pos 33))
decrypt-multiply_example =
    decrypt-multiply sample_laws flags 7 5 2 primes 3 2 31 40 2 3 drawn_first pair pair_key
      public_key public_key_made 11 3 4 (omega arith)

decrypt_sum-compute_intersection_example :
    (first : ServerRoundOne) × (second : ClientRoundOne) × (third : ServerRoundTwo)
    × (client : Client sample) × (r' t' : ℕ) × (encrypt_set 40
          (record { ec_cipher = none; inputs = inputs }, 6)
        ≡ (ok first, (record { ec_cipher = some server_cipher; inputs = inputs }, 7)))
    × (re_encrypt_set 40 flags first (
      record {
        elements = (1 ∷ []) ∷ (2 ∷ []) ∷ (3 ∷ []) ∷ [];
        values = pos 11 ∷ pos 7 ∷ pos 5 ∷ [];
        p = pos 7;
        q = pos 5;
        ec_cipher = client_cipher;
        private_paillier = none;
      },
      3,
    )
        ≡ (ok second, (client, r')))
    × (compute_intersection 40 flags second
          (record { ec_cipher = some server_cipher; inputs = inputs }, 7)
        ≡ (ok third, (record { ec_cipher = some server_cipher; inputs = inputs }, t')))
    × (decrypt_sum client third ≡ ok (pos 2, pos 16))
unfolding common keep has bytes_eq bytes_lt sum_of_values
decrypt_sum-compute_intersection_example =
    decrypt_sum-compute_intersection sample_laws group sample_curve 40 hash client_cipher
      server_cipher client_keyed server_keyed flags 7 5 primes 3 2 6 items inputs 3 6 7 9 refl
      (omega arith) (omega arith) found_p found_q drawn_second server_drawn joinable
      (omega arith, (omega arith, (omega arith, tt))) (omega arith)

encrypt-decrypt_outside_example :
    (e₁ e₂ e₃ : Status) × (is_invalid_argument e₁ ≡ true)
    × (is_invalid_argument e₂ ≡ true)
    × (is_invalid_argument e₃ ≡ true)
    × (Private.encrypt flags pair (pos 1225) 3 ≡ (err e₁, 3))
    × (Public.encrypt flags public_key (pos 1225) 3 ≡ (err e₂, 3))
    × (Private.decrypt pair (negsuc 0) ≡ err e₃)
unfolding IsOutside
encrypt-decrypt_outside_example =
    encrypt-decrypt_outside sample_laws flags 7 5 2 primes 3 2 31 pair pair_key public_key
      public_key_made (pos 1225) (negsuc 0) 3 (omega arith) tt
