-- ===== src/Crypto/OpenSsl/Montgomery.antt =====
-- What the code relies on of OpenSSL's Montgomery multiplication at one modulus, and of the bytes that
-- a number is written in.
use private_join_and_compute.Prelude.{ℕ, ◌+◌, ◌*◌, ◌%◌, ◌<◌, ◌≡◌, some, [], ◌∷◌, All}
use private_join_and_compute.Prelude.Int.{ℤ, pos}
use private_join_and_compute.Prelude.Bytes.{Bytes}
use private_join_and_compute.Crypto.OpenSsl.{OpenSsl}

-- The number that bytes stand for, the highest byte first.
unfoldable pub big_endian : ℕ → Bytes → ℕ
big_endian n [] = n
big_endian n (byte ∷ bytes) = big_endian (n * 256 + byte) bytes

module _ (lib : OpenSsl) where
  open lib use {
    MontCtx, bn_mont_ctx_set, bn_to_montgomery, bn_from_montgomery, bn_mod_mul_montgomery,
    bn_bn2bin,
  }

  -- A modulus for which BN_MONT_CTX_set succeeds, as it is documented to for an odd one: each number
  -- below it has a Montgomery form, and the forms are multiplied as the numbers are.
  pub record MontLaws (m : ℕ) : Type 0 where
    pub ctx : MontCtx
    pub form : ℕ → ℤ
    pub set_lem : bn_mont_ctx_set (pos m) ≡ some ctx
    pub to_lem : (a : ℕ) → a < m → bn_to_montgomery ctx (pos a) ≡ some (form a)
    pub from_lem : (a : ℕ) → a < m → bn_from_montgomery ctx (form a) ≡ some (pos a)
    pub mul_lem :
        (a b : ℕ)
        → a < m
        → b < m
        → bn_mod_mul_montgomery ctx (form a) (form b) ≡ some (form (a * b % m))

  -- BN_bn2bin writes a number that is not negative in its bytes, the highest first.
  pub record BytesLaws : Type 0 where
    pub value_lem : (n : ℕ) → big_endian 0 (bn_bn2bin (pos n)) ≡ n
    pub bytes_lem : (n : ℕ) → All (λ b. b < 256) (bn_bn2bin (pos n))
