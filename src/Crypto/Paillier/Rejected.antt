-- ===== src/Crypto/Paillier/Rejected.antt =====
-- The checks that Encrypt and Decrypt make of their argument (crypto/paillier.cc).
use Prim.Native.String.{String}
use private_join_and_compute.Prelude.{
  ℕ, suc, ◌+◌, ◌*◌, ◌^◌, ◌≤◌, ◌≡◌, refl, ap, ◌∙◌, true, false, ltb, arith,
}
use private_join_and_compute.Prelude.Int.{pos, negsuc}
use private_join_and_compute.Util.Status.{Status, is_invalid_argument, k_invalid_argument}
use private_join_and_compute.Util.Status
use private_join_and_compute.Util.Result.{Result, ok, err, ◌>>=◌, ◌>>◌, read_at}
use private_join_and_compute.Util.Macros.{ret_invalid_arg_check, ret_error_check}
use private_join_and_compute.Util.Macros
use private_join_and_compute.Crypto.OpenSsl.{OpenSsl}
use private_join_and_compute.Crypto.OpenSsl.Laws.{BnLaws}
use private_join_and_compute.Crypto.BigNum
use private_join_and_compute.Crypto.BigNum.{BigNum}
use private_join_and_compute.Crypto.BigNum.Laws.{
  is_non_negative-pos, is_non_negative-negsuc, lt_lem,
}
use private_join_and_compute.Crypto.Flags.{Flags}
use private_join_and_compute.Crypto.TwoModulusCrt
use private_join_and_compute.Crypto.Paillier.PrimeCrypto
use private_join_and_compute.Crypto.Paillier.Private
use private_join_and_compute.Crypto.Paillier.Private.{PrivatePaillier}
use private_join_and_compute.Crypto.Paillier.Private.Make.{ArePrimes, IsPrivateKey}
use private_join_and_compute.Crypto.Paillier.Public
use private_join_and_compute.Crypto.Paillier.Public.{PublicPaillier}
use private_join_and_compute.Crypto.Paillier.Public.Make.{IsPublicKey}

-- A number that is negative or not below the bound.
unfoldable pub IsOutside : ℕ → BigNum → Type 0
IsOutside bound (pos m) = bound ≤ m
IsOutside bound (negsuc m) = Unit

invalid_argument :
    (condition message : String)
    → is_invalid_argument (ret_error_check condition k_invalid_argument message) ≡ true
unfolding is_invalid_argument ret_error_check Macros.create_status Macros.◌<<◌ Macros.status_builder
    Status.annotate Status.make_status Status.is_ok
invalid_argument condition message = ground arith

module _ ⦃lib : OpenSsl⦄ (laws : BnLaws lib) where
  -- The two checks of a number against the bound: alone, and before the rest of the function.
  checks_outside :
      (c₁ t₁ c₂ t₂ : String) (n : ℕ) (bound b : BigNum) (rest : Result BigNum)
      → bound ≡ pos n
      → IsOutside n b
      → (e : Status) × (is_invalid_argument e ≡ true)
        × ((do
          ret_invalid_arg_check (BigNum.is_non_negative b) c₁ t₁
          ret_invalid_arg_check (BigNum.lt b bound) c₂ t₂)
            ≡ err e)
        × ((do
          ret_invalid_arg_check (BigNum.is_non_negative b) c₁ t₁
          ret_invalid_arg_check (BigNum.lt b bound) c₂ t₂
          rest)
            ≡ err e)
  unfolding IsOutside ret_invalid_arg_check
  checks_outside c₁ t₁ c₂ t₂ n bound (pos m) rest same outside =
      let e : ltb (m + 0) (n + 0) ≡ false = ground (arith, outside) in
      let tested : BigNum.lt (pos m) bound ≡ false =
        ap (BigNum.lt (pos m)) same ∙ lt_lem laws (pos m) (pos n) ∙ e in
      (
        _,
        invalid_argument c₂ t₂,
        rw (is_non_negative-pos laws m, tested) refl,
        rw (is_non_negative-pos laws m, tested) refl,
      )
  checks_outside c₁ t₁ c₂ t₂ n bound (negsuc m) rest same outside = (
    _,
    invalid_argument c₁ t₁,
    rw (is_non_negative-negsuc laws m) refl,
    rw (is_non_negative-negsuc laws m) refl,
  )

  -- Where a private and a public key are made for the primes p and q and the same s, where b is
  -- negative or not below n ^ s, and c is negative or not below n ^ (s + 1): Encrypt of either key
  -- refuses b with an invalid argument and draws no random number, and Decrypt refuses c with an invalid
  -- argument.
  pub encrypt-decrypt_outside :
      (flags : Flags) (p q s : ℕ) (primes : ArePrimes p q s) (g h u : ℕ)
      → (key : PrivatePaillier lib) → IsPrivateKey laws flags p q s primes g h key
      → (pk : PublicPaillier lib) → IsPublicKey laws flags p q s primes u pk
      → (b c : BigNum) (r : lib.Rng) → IsOutside ((p * q) ^ s) b
      → IsOutside ((p * q) ^ suc s) c
      → (e₁ e₂ e₃ : Status) × (is_invalid_argument e₁ ≡ true)
        × (is_invalid_argument e₂ ≡ true)
        × (is_invalid_argument e₃ ≡ true)
        × (Private.encrypt flags key b r ≡ (err e₁, r))
        × (Public.encrypt flags pk b r ≡ (err e₂, r))
        × (Private.decrypt key c ≡ err e₃)
  unfolding Private.encrypt Private.check_message Public.encrypt Public.check_message
      Private.decrypt
  encrypt-decrypt_outside flags p q s primes g h u key is_key pk is_pk b c r above above' =
      let (e₁, coded₁, refused₁, _) =
        checks_outside "m.IsNonNegative()"
          "PrivatePaillier::Encrypt() - Cannot encrypt negative number." "m < n_to_s_"
          "PrivatePaillier::Encrypt() - Message not smaller than n^s." ((p * q) ^ s) key.n_to_s b
          (ok b) is_key.n_to_s_lem above in
      let (e₂, coded₂, refused₂, _) =
        checks_outside "m.IsNonNegative()"
          "PublicPaillier::Encrypt() - Cannot encrypt negative number." "m < n_powers_[s_]"
          "PublicPaillier::Encrypt() - Message not smaller than n^s." ((p * q) ^ s)
          (pos ((p * q) ^ s)) b (ok b) refl above in
      let (e₃, coded₃, _, refused₃) =
        checks_outside "c.IsNonNegative()"
          "PrivatePaillier::Decrypt() - Cannot decrypt negative number." "c < n_to_s_plus_one_"
          "PrivatePaillier::Decrypt() - Ciphertext not smaller than n^(s+1)." ((p * q) ^ suc s)
          key.n_to_s_plus_one c
          (do
            p_part ← PrimeCrypto.decrypt key.p_crypto c
            q_part ← PrimeCrypto.decrypt key.q_crypto c
            TwoModulusCrt.compute key.two_mod_crt_decrypt p_part q_part)
          is_key.n_to_s_plus_one_lem above' in
      let power = ap (read_at pk.n_powers) is_pk.s_lem ∙ is_pk.lists.powers_lem s (omega arith) in
      (e₁, e₂, e₃, coded₁, coded₂, coded₃, rw refused₁ refl, rw (power, refused₂) refl, refused₃)
