-- ===== src/Crypto/Paillier/Precomp.antt =====
-- crypto/paillier.cc: GetPowers, GetPrecomp, GetDecryptPrecomp and ComputeByBinomialExpansion.
pub mod Powers
pub mod Term
pub mod Expansion
pub mod Factorials
pub mod Cell
pub mod DecryptTable
use private_join_and_compute.Prelude.{
  ℕ, zero, suc, ◌+◌, ◌-◌, Bool, true, List, [], ◌∷◌, ◌++◌, length, if◌then◌else◌,
}
use private_join_and_compute.Util.Result.{Result, ok, ◌>>=◌, ◌>>◌, read_at}
use private_join_and_compute.Crypto.OpenSsl.{OpenSsl}
use private_join_and_compute.Crypto.BigNum
use private_join_and_compute.Crypto.BigNum.{BigNum}
use private_join_and_compute.Crypto.Paillier.Table.{BigNumTable, make_table, insert, get}

module _ ⦃lib : OpenSsl⦄ where
  -- The loop of GetPowers: what it appends behind `last`.
  unfoldable pub powers_loop : ℕ → BigNum → BigNum → Result (List BigNum)
  powers_loop zero last num = ok []
  powers_loop (suc rounds) last num = do
    next ← BigNum.mul last num
    rest ← powers_loop rounds next num
    ok (next ∷ rest)

  unfoldable pub get_powers : BigNum → ℕ → Result (List BigNum)
  get_powers num s = do one ← BigNum.of_u64 1; rest ← powers_loop (s + 1) one num; ok (one ∷ rest)

  -- The loop of GetPrecomp from the index `i` on: what it appends behind `last`.
  unfoldable pub precomp_loop : ℕ → ℕ → BigNum → BigNum → BigNum → Result (List BigNum)
  precomp_loop zero i last num modulus = ok []
  precomp_loop (suc rounds) i last num modulus = do
    i_bn ← BigNum.of_u64 i
    i_inv ← BigNum.mod_inverse i_bn modulus
    i_inv_n ← BigNum.mod_mul i_inv num modulus
    next ← BigNum.mod_mul last i_inv_n modulus
    rest ← precomp_loop rounds (i + 1) next num modulus
    ok (next ∷ rest)

  unfoldable pub get_precomp : BigNum → BigNum → ℕ → Result (List BigNum)
  get_precomp num modulus s = do
    one ← BigNum.of_u64 1
    rest ← precomp_loop s 1 one num modulus
    ok (one ∷ rest)

  -- The inner loop of GetDecryptPrecomp, over j = k + rounds - 1 down to k.
  unfoldable pub decrypt_row : ℕ → ℕ → List BigNum → BigNumTable → Result BigNumTable
  decrypt_row zero k powers t = ok t
  decrypt_row (suc rounds) k powers t = do
    let j = k + rounds
    next ← get t k (j + 1)
    power ← read_at powers j
    reduced ← BigNum.mod_by next power
    filled ← insert t k j reduced
    decrypt_row rounds k powers filled

  -- The outer loop, from k on.
  unfoldable pub decrypt_rows :
      ℕ → ℕ → List BigNum → List BigNum → ℕ → BigNumTable → Result BigNumTable
  decrypt_rows zero k precomp powers s t = ok t
  decrypt_rows (suc rounds) k precomp powers s t = do
    power ← read_at powers s
    k_bn ← BigNum.of_u64 k
    k_inverse ← BigNum.mod_inverse k_bn power
    previous ← read_at precomp (k - 1)
    cell ← BigNum.mod_mul k_inverse previous power
    started ← insert t k s cell
    filled ← decrypt_row (s - k) k powers started
    decrypt_rows rounds (k + 1) precomp powers s filled

  unfoldable pub get_decrypt_precomp : List BigNum → List BigNum → ℕ → Result BigNumTable
  get_decrypt_precomp precomp powers s =
      decrypt_rows (s - 1) 2 precomp powers s (make_table (s + 1))

  -- The loop of ComputeByBinomialExpansion, from the index `j` on.
  unfoldable pub binomial_loop :
      ℕ → ℕ → ℕ → List BigNum → List BigNum → BigNum → BigNum → BigNum → Result BigNum
  binomial_loop zero j s precomp powers reduced_message tmp c = ok c
  binomial_loop (suc rounds) j s precomp powers reduced_message tmp c = do
    j_bn ← BigNum.of_u64 j
    let step = do
      difference ← BigNum.sub reduced_message j_bn
      one ← BigNum.of_u64 1
      factor ← BigNum.add difference one
      power ← read_at powers (s + 1 - j)
      next_tmp ← BigNum.mod_mul tmp factor power
      coefficient ← read_at precomp j
      modulus ← read_at powers (s + 1)
      term ← BigNum.mod_mul next_tmp coefficient modulus
      next_c ← BigNum.add c term
      binomial_loop rounds (j + 1) s precomp powers reduced_message next_tmp next_c
    if BigNum.lt reduced_message j_bn then ok c else step

  unfoldable pub compute_by_binomial_expansion : List BigNum → List BigNum → BigNum → Result BigNum
  compute_by_binomial_expansion precomp powers message = do
    c ← BigNum.of_u64 1
    tmp ← BigNum.of_u64 1
    let s = length precomp - 1
    power ← read_at powers s
    reduced_message ← BigNum.mod_by message power
    binomial_loop s 1 s precomp powers reduced_message tmp c
