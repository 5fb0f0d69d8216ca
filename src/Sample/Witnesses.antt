-- ===== src/Sample/Witnesses.antt =====
-- Runs of the code on the sample library.
use private_join_and_compute.Prelude.{ℕ, ◌≡◌, refl, [], ◌∷◌, arith}
use private_join_and_compute.Prelude.Int.{pos, negsuc}
use private_join_and_compute.Prelude.Bytes.{bytes_lt}
use private_join_and_compute.Util.Result.{ok}
use private_join_and_compute.Crypto.EcGroup
use private_join_and_compute.Crypto.EcGroup.{EcGroup}
use private_join_and_compute.Crypto.CommutativeCipher.{CommutativeCipher}
use private_join_and_compute.Crypto.Paillier.Precomp
use private_join_and_compute.Std.{sort, insert}
use private_join_and_compute.Std.Order.{has, bytes_eq, keep}
use private_join_and_compute.Protocol.Join.{common}
use private_join_and_compute.Sample.Numbers.{to_bytes}
use private_join_and_compute.Sample.Group.{sample_laws, sample_curve}
use private_join_and_compute.Sample.Library.{sample}
use private_join_and_compute.Prelude.{◌<◌, ◌*◌, ◌%◌, length}
use private_join_and_compute.Util.Result.{◌>>=◌}
use private_join_and_compute.Crypto.EcGroup.Laws.{IsValidPoint, get_point_by_hashing_to_curve-valid}
use private_join_and_compute.Crypto.CommutativeCipher.Laws.{
  encrypt_commutes, decrypt-re_encrypt-encrypt,
}
use private_join_and_compute.Crypto.TwoModulusCrt
use private_join_and_compute.Util.Result.{err}
use private_join_and_compute.Util.Status.{invalid_argument_error}
use private_join_and_compute.Util.Exec
use private_join_and_compute.Util.Exec.{lift}
use private_join_and_compute.Crypto.ElGamal
use private_join_and_compute.Crypto.ElGamal.Laws.{
  encrypter, decrypter, ciphertext, decrypt-encrypt, mul-ciphertext, re_randomize-ciphertext,
}
use private_join_and_compute.Crypto.EcGroup.Laws.{at}
use private_join_and_compute.Crypto.CommutativeCipher.Keys.{
  check_private_key_lem, create_from_key-get_private_key_bytes,
}
use private_join_and_compute.Crypto.CommutativeCipher
use private_join_and_compute.Crypto.TwoModulusCrt.Laws.{compute-make_crt}
use private_join_and_compute.Crypto.Paillier.Precomp.Factorials.{
  compute_by_binomial_expansion-get_precomp,
}
use private_join_and_compute.Prelude.{◌≤◌, ◌^◌, zero, suc}
use private_join_and_compute.Server.Intersection.{intersect_lem}
use private_join_and_compute.Server.{intersect}
use private_join_and_compute.Protocol.Join.{length-intersect}
use private_join_and_compute.Sample.Data.{
  group, client_cipher, server_cipher, hash, client_keyed, server_keyed, sample-Hashes, items,
  inputs, joinable, drawn, group_created, cipher_made,
}

intersect_lem_example :
    intersect
      (record { element = 3 ∷ []; associated_data = 9 ∷ [] }
        ∷ record { element = 1 ∷ []; associated_data = 8 ∷ [] }
        ∷ [])
      (record { element = 2 ∷ []; associated_data = [] }
        ∷ record { element = 3 ∷ []; associated_data = [] }
        ∷ record { element = 3 ∷ []; associated_data = [] }
        ∷ [])
    ≡ record { element = 3 ∷ []; associated_data = 9 ∷ [] } ∷ []
unfolding keep has bytes_eq sort insert bytes_lt
intersect_lem_example =
    intersect_lem ⦃lib = sample⦄
      (record { element = 3 ∷ []; associated_data = 9 ∷ [] }
        ∷ record { element = 1 ∷ []; associated_data = 8 ∷ [] }
        ∷ [])
      (record { element = 2 ∷ []; associated_data = [] }
        ∷ record { element = 3 ∷ []; associated_data = [] }
        ∷ record { element = 3 ∷ []; associated_data = [] }
        ∷ [])
      (refl, (refl, tt))

encrypt_commutes_example :
    (CommutativeCipher.encrypt 40 client_cipher (1 ∷ [])
      >>= CommutativeCipher.re_encrypt server_cipher)
    ≡ (CommutativeCipher.encrypt 40 server_cipher (1 ∷ [])
        >>= CommutativeCipher.re_encrypt client_cipher)
encrypt_commutes_example =
    encrypt_commutes group sample_curve client_cipher server_cipher client_keyed server_keyed 40
      (1 ∷ [])

decrypt-re_encrypt-encrypt_example :
    (CommutativeCipher.encrypt 40 client_cipher (2 ∷ [])
      >>= CommutativeCipher.re_encrypt server_cipher
      >>= CommutativeCipher.decrypt client_cipher)
    ≡ CommutativeCipher.encrypt 40 server_cipher (2 ∷ [])
decrypt-re_encrypt-encrypt_example =
    decrypt-re_encrypt-encrypt group sample_curve client_cipher server_cipher client_keyed
      server_keyed 40 (2 ∷ [])

get_point_by_hashing_to_curve-valid_example : IsValidPoint group (hash (1 ∷ []))
get_point_by_hashing_to_curve-valid_example =
    get_point_by_hashing_to_curve-valid 40 group (1 ∷ []) (hash (1 ∷ [])) (sample-Hashes.0)

length-intersect_example :
    length (
      intersect
        (record { element = 11 ∷ []; associated_data = 11 ∷ [] }
          ∷ record { element = 60 ∷ []; associated_data = 7 ∷ [] }
          ∷ record { element = 69 ∷ []; associated_data = 5 ∷ [] }
          ∷ [])
        (record { element = 11 ∷ []; associated_data = [] }
          ∷ record { element = 57 ∷ []; associated_data = [] }
          ∷ record { element = 69 ∷ []; associated_data = [] }
          ∷ []))
    ≡ 2
unfolding to_bytes common keep has bytes_eq sort insert bytes_lt
length-intersect_example =
    length-intersect group sample_curve 40 hash client_cipher server_cipher client_keyed
      server_keyed items inputs joinable.items_hashed joinable.inputs_hashed joinable.own_apart
      joinable.apart joinable.distinct

compute-make_crt_example :
    (z : ℕ) × ((TwoModulusCrt.make_crt (pos 5) (pos 7) >>= λ crt.
    TwoModulusCrt.compute crt (pos 3) (pos 4))
      ≡ ok (pos z))
    × (z < 5 * 7)
    × (z % 5 ≡ 3 % 5)
    × (z % 7 ≡ 4 % 7)
compute-make_crt_example =
    compute-make_crt sample_laws 5 7 3 3 3 4 (omega arith) (omega arith) refl refl

decrypt-encrypt_example :
    Exec.◌>>=◌
      (ElGamal.encrypt (encrypter group sample_curve 3 refl 11) (at group sample_curve 40))
      (λ c. lift (ElGamal.decrypt (decrypter group sample_curve 3 refl 11) c))
      6
    ≡ (ok (at group sample_curve 40), 7)
decrypt-encrypt_example = decrypt-encrypt group sample_curve 3 refl 11 40 7 6 7 refl drawn

mul-ciphertext_example :
    ElGamal.mul
      (ciphertext group sample_curve 3 refl 11 40 7)
      (ciphertext group sample_curve 3 refl 11 90 8)
    ≡ ok (ciphertext group sample_curve 3 refl 11 29 15)
mul-ciphertext_example = mul-ciphertext group sample_curve 3 refl 11 40 90 7 8 refl refl

re_randomize-ciphertext_example :
    ElGamal.re_randomize
      (encrypter group sample_curve 3 refl 11)
      (ciphertext group sample_curve 3 refl 11 40 8)
      6
    ≡ (ok (ciphertext group sample_curve 3 refl 11 40 15), 7)
re_randomize-ciphertext_example =
    re_randomize-ciphertext group sample_curve 3 refl 11 40 8 7 6 7 refl drawn

check_private_key_lem_example :
    EcGroup.check_private_key group (negsuc 4)
    ≡ err (
        invalid_argument_error "The given key is out of bounds, needs to be in [1, order) instead.")
check_private_key_lem_example = check_private_key_lem sample_laws group 101 refl (negsuc 4)

create_from_key-get_private_key_bytes_example :
    (CommutativeCipher.get_private_key_bytes client_cipher
      >>= CommutativeCipher.create_from_key 713)
    ≡ ok client_cipher
create_from_key-get_private_key_bytes_example =
    create_from_key-get_private_key_bytes sample_laws group 101 refl 713 5 client_cipher
      group_created (omega arith) (omega arith) cipher_made

compute_by_binomial_expansion-get_precomp_example :
    (result : ℕ) × ((Precomp.get_powers (pos 15) 2 >>= λ powers.
    Precomp.get_precomp (pos 15) (pos 3375) 2 >>= λ precomp.
    Precomp.compute_by_binomial_expansion precomp powers (pos 7))
      ≡ ok (pos result))
    × (result % 3375 ≡ 1456)
compute_by_binomial_expansion-get_precomp_example =
    compute_by_binomial_expansion-get_precomp sample_laws 15 2 7 (omega arith) (omega arith) inverse
  where
    inverse : (j : ℕ) → 0 < j → j ≤ 2 → (b : ℕ) × (j * b % 15 ^ 3 ≡ 1 % 15 ^ 3)
    inverse zero h g = let no : ⊥ = omega (arith, h) in elim no [ ]
    inverse (suc zero) h g = (1, refl)
    inverse (suc (suc zero)) h g = (1688, refl)
    inverse (suc (suc (suc j))) h g = let no : ⊥ = omega (arith, g) in elim no [ ]
