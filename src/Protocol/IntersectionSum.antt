-- ===== src/Protocol/IntersectionSum.antt =====
-- The whole protocol: the four calls of the two parties in a row, up to the number and the sum that the
-- client learns.
use native.Mathlib.Nat.{mod-eq_of_lt, one-le-pow, mod-lt}
use private_join_and_compute.Prelude.{
  ℕ, ◌+◌, ◌*◌, ◌%◌, ◌^◌, ◌<◌, ◌≡◌, refl, sym, ap, ◌∙◌, subst, List, [], ◌∷◌, map, length, All, none,
  some, false, arith,
}
use private_join_and_compute.Prelude.Int.{pos}
use private_join_and_compute.Prelude.Bytes.{Bytes}
use private_join_and_compute.Util.Result.{ok}
use private_join_and_compute.Crypto.OpenSsl.{OpenSsl}
use private_join_and_compute.Crypto.OpenSsl.Laws.{BnLaws}
use private_join_and_compute.Crypto.OpenSsl.Curve.{Curve}
use private_join_and_compute.Crypto.BigNum.Laws.{to_bytes-ok, of_bytes-to_bytes}
use private_join_and_compute.Crypto.EcPoint.{EcPoint}
use private_join_and_compute.Crypto.EcGroup.{EcGroup}
use private_join_and_compute.Crypto.Flags.{Flags}
use private_join_and_compute.Crypto.CommutativeCipher
use private_join_and_compute.Crypto.CommutativeCipher.{CommutativeCipher}
use private_join_and_compute.Crypto.CommutativeCipher.Laws.{IsKeyed}
use private_join_and_compute.Crypto.Paillier.Generator.{
  get_generator_of_prime_powers_from_safe_prime, get_generator_for_safe_modulus,
}
use private_join_and_compute.Crypto.Paillier.Generator.Unit.{generator-unit}
use private_join_and_compute.Crypto.Paillier.Generator.Drawn.{drawn-unit}
use private_join_and_compute.Crypto.Paillier.Private
use private_join_and_compute.Crypto.Paillier.Private.{PrivatePaillier}
use private_join_and_compute.Crypto.Paillier.Private.Make.{
  ArePrimes, IsPrivateKey, make_private_lem,
}
use private_join_and_compute.Crypto.Paillier.Private.Decrypt.{IsCiphertext, decrypt-IsCiphertext}
use private_join_and_compute.Crypto.Paillier.Private.Encrypt.{encrypt-IsCiphertext}
use private_join_and_compute.Crypto.Paillier.Public.Make.{make_public_lem, n_positive}
use private_join_and_compute.Crypto.Paillier.Public.Encrypt.{encrypt_public-IsCiphertext}
use private_join_and_compute.Std.Order.{product}
use private_join_and_compute.Match.{ServerRoundOne, ClientRoundOne, ServerRoundTwo}
use private_join_and_compute.Client.{Client, encrypt_items, re_encrypt_set, decrypt_sum}
use private_join_and_compute.Server.{encrypt_set, encrypt_with_new_key, compute_intersection}
use private_join_and_compute.Protocol.Tags
use private_join_and_compute.Protocol.Join
use private_join_and_compute.Protocol.Join.{Item, common}
use private_join_and_compute.Protocol.Sum.{IsJoinable}
use private_join_and_compute.Protocol.Exchange
use private_join_and_compute.Protocol.Exchange.{exchange-common}
use private_join_and_compute.Protocol.Sealed.{
  sum_of_values, with_values, Sealed, product-Sealed, length-common-with_values, texts-with_values,
  All-with_values, IsDistinct-with_values,
}

module _ ⦃lib : OpenSsl⦄ (laws : BnLaws lib) (group : EcGroup lib) (curve : Curve lib group.group)
    (fuel : ℕ) (hash : Bytes → EcPoint lib) (c s : CommutativeCipher lib)
    (keyed_c : IsKeyed group curve c) (keyed_s : IsKeyed group curve s) where
  IsJoinable-with_values :
      (p q : ℕ) (items : List Item) (cs : List ℕ) (ys : List Bytes)
      → Sealed p q 2 items cs
      → IsJoinable laws group curve fuel hash c s keyed_c keyed_s items ys
      → IsJoinable laws group curve fuel hash c s keyed_c keyed_s (with_values items cs) ys
  IsJoinable-with_values p q items cs ys sealed joinable =
      let apart_in : List Bytes → Bytes → Type 0 =
        λ ts x. All (λ y. (hash x).point ≡ (hash y).point → x ≡ y) ts in
      record {
        items_hashed =
            All-with_values p q 2 (Tags.IsHashed group curve fuel hash c s keyed_c keyed_s) items cs
              joinable.items_hashed;
        inputs_hashed = joinable.inputs_hashed;
        distinct = IsDistinct-with_values p q 2 items cs sealed joinable.distinct;
        own_apart =
            subst (λ ts. All (λ x. apart_in ts x.text) (with_values items cs))
              (sym (texts-with_values p q 2 items cs sealed))
              (All-with_values p q 2 (apart_in (map Item.text items)) items cs joinable.own_apart);
        apart = All-with_values p q 2 (apart_in ys) items cs joinable.apart;
      }

  module _ (flags : Flags) (p q : ℕ) (primes : ArePrimes p q 2) (g h : ℕ) where
    -- The client encrypts its items, each value to a ciphertext that holds it.
    encrypt_items-Sealed :
        (g' h' : ℕ)
        → g * g' % p ≡ 1 % p
        → h * h' % q ≡ 1 % q
        → (key : PrivatePaillier lib) → IsPrivateKey laws flags p q 2 primes g h key
        → (items : List Item) (r : lib.Rng)
        → All (λ x. Tags.IsHashed group curve fuel hash c s keyed_c keyed_s x.text) items
        → All (λ x. x.value < (p * q) ^ 2) items
        → (cs : List ℕ) × (r' : lib.Rng) × (encrypt_items fuel flags c key
              (map Item.text items)
              (map (λ x. pos x.value) items)
              r
            ≡ (
              ok (
                  map
                    (Join.client_item group curve fuel hash c s keyed_c keyed_s)
                    (with_values items cs)),
              r',
            ))
          × Sealed p q 2 items cs
    unfolding encrypt_items with_values Sealed
    encrypt_items-Sealed g' h' unit_p unit_q key is_key [] r hashed small = ([], r, refl, tt)
    encrypt_items-Sealed g' h' unit_p unit_q key is_key (x ∷ xs) r hashed small =
        let (v, r₁, encrypted, _, holds) =
          encrypt-IsCiphertext laws flags p q 2 primes g g' h h' unit_p unit_q key is_key x.value r
            small.0 in
        let (cs, r', rest, sealed) =
          encrypt_items-Sealed g' h' unit_p unit_q key is_key xs r₁ hashed.1 small.1 in
        let element =
          Tags.encrypt-hashed group curve fuel hash c s keyed_c keyed_s c keyed_c x.text hashed.0 in
        (v ∷ cs, r', rw (element, encrypted, to_bytes-ok laws v, rest) refl, (holds, sealed))

    -- The client as its constructor makes it, with the items and the primes.
    abbrev pub new_client : List Item → Client lib
    new_client items = record {
      elements = map Item.text items;
      values = map (λ x. pos x.value) items;
      p = pos p;
      q = pos q;
      ec_cipher = c;
      private_paillier = none;
    }

    sum_decrypted :
        (key : PrivatePaillier lib)
        → IsPrivateKey laws flags p q 2 primes g h key
        → (client : Client lib) (items : List Item) (cs : List ℕ) (ys : List Bytes) (z : ℕ)
        → Sealed p q 2 items cs
        → sum_of_values (common items ys) < (p * q) ^ 2
        → z < (p * q) ^ 3
        → IsCiphertext p q 2 0 z
        → decrypt_sum
            (record client { private_paillier = some key })
            (record {
              intersection_size = pos (length (common (with_values items cs) ys));
              encrypted_sum =
                  lib.bn_bn2bin
                    (pos (z * product Item.value (common (with_values items cs) ys) % (p * q) ^ 3));
            })
          ≡ ok (pos (length (common items ys)), pos (sum_of_values (common items ys)))
    unfolding decrypt_sum
    sum_decrypted key is_key client items cs ys z sealed total less holds =
        let N = (p * q) ^ 3 in
        let large : 0 < N = one-le-pow 3 (p * q) (n_positive p q 2 primes) in
        let w = product Item.value (common (with_values items cs) ys) in
        let sum = sum_of_values (common items ys) in
        let held = product-Sealed p q 2 items cs ys 0 z large sealed less holds in
        let decrypted : Private.decrypt key (pos (z * w % N)) ≡ ok (pos sum) =
          decrypt-IsCiphertext laws flags p q 2 primes g h key is_key (0 + sum) (z * w % N) held
            (mod-lt (z * w) large)
          ∙ ap (λ t. ok (pos t))
              (let e : 0 + sum ≡ sum = omega arith in
                ap (λ t. t % (p * q) ^ 2) e ∙ mod-eq_of_lt total) in
        rw
          (
            of_bytes-to_bytes laws (z * w % N) _ (to_bytes-ok laws (z * w % N)),
            decrypted,
            length-common-with_values p q 2 items cs ys sealed,
          )
          refl

    -- Where the client's primes p and q suit s = 2 and are above the number of tries of the search for
    -- their generators, which succeeds, a number is drawn for n = p * q within the fuel, and tables of
    -- powers are off; where the server draws the key s
    -- of its cipher, all texts hash to the curve within the fuel, the client's are distinct and no two
    -- different ones hash to the same point; and where the values and the sum of the shared ones are below
    -- n ^ 2: EncryptSet of a new server, ReEncryptSet of a new client, ComputeIntersection and DecryptSum
    -- succeed in a row, and DecryptSum returns the number of the client's identifiers that the server
    -- holds and the sum of the values beside them.
    pub decrypt_sum-compute_intersection :
        (u : ℕ) (items : List Item) (ys : List Bytes) (r t₀ t₁ t₂ : lib.Rng)
        → flags.two_k_ary_exp ≡ false
        → 1 + flags.generator_try_count < p
        → 1 + flags.generator_try_count < q
        → get_generator_of_prime_powers_from_safe_prime flags (pos p) ≡ ok (pos g)
        → get_generator_of_prime_powers_from_safe_prime flags (pos q) ≡ ok (pos h)
        → get_generator_for_safe_modulus fuel (pos (p * q)) t₁ ≡ (ok (pos u), t₂)
        → CommutativeCipher.create_with_new_key lib.nid_secp224r1 t₀ ≡ (ok s, t₁)
        → IsJoinable laws group curve fuel hash c s keyed_c keyed_s items ys
        → All (λ x. x.value < (p * q) ^ 2) items
        → sum_of_values (common items ys) < (p * q) ^ 2
        → (first : ServerRoundOne) × (second : ClientRoundOne) × (third : ServerRoundTwo)
          × (client : Client lib) × (r' t' : lib.Rng) × (encrypt_set fuel
                (record { ec_cipher = none; inputs = ys }, t₀)
              ≡ (ok first, (record { ec_cipher = some s; inputs = ys }, t₁)))
          × (re_encrypt_set fuel flags first (new_client items, r) ≡ (ok second, (client, r')))
          × (compute_intersection fuel flags second (record { ec_cipher = some s; inputs = ys }, t₁)
              ≡ (ok third, (record { ec_cipher = some s; inputs = ys }, t')))
          × (decrypt_sum client third
              ≡ ok (pos (length (common items ys)), pos (sum_of_values (common items ys))))
    unfolding encrypt_set encrypt_with_new_key re_encrypt_set compute_intersection
    decrypt_sum-compute_intersection u items ys r t₀ t₁ t₂ plain few_p few_q found_p found_q drawn
          keyed joinable small total =
        let N = (p * q) ^ 3 in
        let positive = n_positive p q 2 primes in
        let large : 0 < N = one-le-pow 3 (p * q) positive in
        let (key, key_made, is_key) =
          make_private_lem laws flags p q 2 primes g h plain found_p found_q in
        let (g', unit_p) = generator-unit laws flags p g primes.on_p.field few_p found_p in
        let (h', unit_q) = generator-unit laws flags q h primes.on_q.field few_q found_q in
        let (cs, r', encrypted, sealed) =
          encrypt_items-Sealed g' h' unit_p unit_q key is_key items r joinable.items_hashed small in
        let (e, apart) = primes.on_q.apart in
        let (u', unit) =
          drawn-unit laws fuel p q e u t₁ t₂ primes.on_p.field primes.on_q.field apart drawn in
        let (pk, pk_made, is_pk) =
          make_public_lem laws flags p q 2 primes fuel u t₁ t₂ plain drawn in
        let (z, t', zero_encrypted, less, holds) =
          encrypt_public-IsCiphertext laws flags p q 2 primes u u' unit pk is_pk 0 t₂
            (one-le-pow 2 (p * q) positive) in
        let zero_encrypted' =
          zero_encrypted ∙ ap (λ t. (ok (pos t), t')) (sym (mod-eq_of_lt less)) in
        let joinable' = IsJoinable-with_values p q items cs ys sealed joinable in
        let (sent, answered, computed) =
          exchange-common laws group curve fuel hash (new_client items) s keyed_c keyed_s
            (with_values items cs) ys joinable' flags key p q z N pk r r' t₁ t₂ t' refl refl
            encrypted pk_made zero_encrypted' is_pk.modulus_lem large in
        (
          Exchange.first_message laws group curve fuel hash (new_client items) s keyed_c keyed_s
              (with_values items cs) ys joinable',
          Exchange.second_message laws group curve fuel hash (new_client items) s keyed_c keyed_s
              (with_values items cs) ys joinable' (p * q),
          record {
            intersection_size = pos (length (common (with_values items cs) ys));
            encrypted_sum =
                lib.bn_bn2bin (pos (z * product Item.value (common (with_values items cs) ys) % N));
          },
          record (new_client items) { private_paillier = some key },
          r',
          t',
          rw (keyed, sent) refl,
          rw (key_made, answered) refl,
          rw computed refl,
          sum_decrypted key is_key (new_client items) items cs ys z sealed total less holds,
        )
