-- ===== src/Crypto/Context.antt =====
-- crypto/context.cc: the factory of big numbers, the hash functions, and the random draws. A loop
-- with no bound of its own takes `fuel`, the rounds that it may make.
use private_join_and_compute.Prelude.{
  ℕ, zero, suc, ◌+◌, ◌-◌, ◌*◌, ◌/◌, true, false, ◌++◌, if◌then◌else◌, ltb, leb, length,
}
use private_join_and_compute.Prelude.Int.{ℤ, pos, leb_ℤ, pos_part}
use private_join_and_compute.Prelude.Bytes.{Bytes}
use private_join_and_compute.Util.Result.{Result, ok, running, ◌>>=◌, ◌>>◌, check, crypto_check}
use private_join_and_compute.Util.Exec
use private_join_and_compute.Util.Exec.{Exec, pure, lift, drawn}
use private_join_and_compute.Crypto.OpenSsl.{OpenSsl}
use private_join_and_compute.Crypto.BigNum
use private_join_and_compute.Crypto.BigNum.{BigNum}

module _ ⦃lib : OpenSsl⦄ where
  open lib use {
    Rng, bn_rand_range, bn_generate_prime_ex, rand_bytes, evp_sha256, evp_sha512, hmac_sha512,
  }

  unfoldable pub sha256_string : Bytes → Result Bytes
  sha256_string bytes = crypto_check (evp_sha256 bytes)

  unfoldable pub sha512_string : Bytes → Result Bytes
  sha512_string bytes = crypto_check (evp_sha512 bytes)

  -- One hash of RandomOracle: Sha512String(CreateBigNum(i).ToBytes().append(x)), as a number.
  unfoldable pub oracle_block : Bytes → ℕ → Result BigNum
  oracle_block x i = do
    number ← BigNum.of_u64 i
    prefix ← BigNum.to_bytes number
    hash ← sha512_string (prefix ++ x)
    BigNum.of_bytes hash

  -- The loop of RandomOracle, with the rounds left and the index `i` of the next.
  unfoldable pub oracle_loop : ℕ → Bytes → ℕ → BigNum → Result BigNum
  oracle_loop zero x i hash_output = ok hash_output
  oracle_loop (suc rounds) x i hash_output = do
    shifted ← BigNum.lshift hash_output 512
    block ← oracle_block x i
    next ← BigNum.add shifted block
    oracle_loop rounds x (i + 1) next

  -- std::ceil(static_cast<float>(n) / 512), which is exact wherever the CHECK behind it passes.
  abbrev pub blocks_of_512 : ℕ → ℕ
  blocks_of_512 n = (n + 511) / 512

  unfoldable pub random_oracle : Bytes → BigNum → Result BigNum
  random_oracle x max_value =
      let output_bit_length = BigNum.bit_length max_value + 512 in
      let iter_count = blocks_of_512 output_bit_length in
      (do
        check (ltb iter_count 255)
        start ← BigNum.of_u64 0
        hash_output ← oracle_loop iter_count x 1 start
        shifted ← BigNum.rshift hash_output (iter_count * 512 - output_bit_length)
        BigNum.mod_by shifted max_value)

  unfoldable pub prf : ℕ → Bytes → Bytes → BigNum → Result BigNum
  prf zero key text max_value = running
  prf (suc fuel) key text max_value = do
    check (leb 80 (length key * 8))
    check (leb (BigNum.bit_length max_value) 512)
    hash ← crypto_check (hmac_sha512 key text)
    hash_bn ← BigNum.of_bytes hash
    let hash_bn_reduced = BigNum.get_last_n_bits hash_bn (BigNum.bit_length max_value)
    let again = BigNum.to_bytes hash_bn >>= λ bytes. prf fuel key bytes max_value
    if BigNum.lt hash_bn_reduced max_value then ok hash_bn_reduced else again

  unfoldable pub generate_safe_prime : ℕ → Exec Rng BigNum
  generate_safe_prime prime_length g = drawn (bn_generate_prime_ex prime_length true g)

  unfoldable pub generate_prime : ℕ → Exec Rng BigNum
  generate_prime prime_length g = drawn (bn_generate_prime_ex prime_length false g)

  unfoldable pub generate_rand_less_than : BigNum → Exec Rng BigNum
  generate_rand_less_than max_value g = drawn (bn_rand_range max_value g)

  unfoldable pub generate_rand_between : BigNum → BigNum → Exec Rng BigNum
  generate_rand_between start end =
      Exec.◌>>=◌ (lift (check (BigNum.lt start end) >> BigNum.sub end start))
        λ range. Exec.◌>>=◌ (generate_rand_less_than range) λ r. lift (BigNum.add r start)

  unfoldable pub generate_random_bytes : ℤ → Exec Rng Bytes
  generate_random_bytes num_bytes =
      Exec.◌>>=◌ (lift (check (leb_ℤ (pos 0) num_bytes)))
        λ _ g. drawn (rand_bytes (pos_part num_bytes) g)

  -- The loop draws again while the draw and `num` have a common divisor above 1.
  unfoldable pub relatively_prime_random_less_than : ℕ → BigNum → Exec Rng BigNum
  relatively_prime_random_less_than zero num = lift running
  relatively_prime_random_less_than (suc fuel) num =
      Exec.◌>>=◌ (generate_rand_less_than num) λ rand_num.
        Exec.◌>>=◌ (lift (BigNum.gcd rand_num num)) λ divisor.
          Exec.◌>>=◌ (lift (BigNum.of_u64 1)) λ one.
            let again = relatively_prime_random_less_than fuel num in
            if BigNum.gt divisor one then again else pure rand_num
