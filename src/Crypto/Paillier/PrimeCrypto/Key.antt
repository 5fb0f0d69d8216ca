-- ===== src/Crypto/Paillier/PrimeCrypto/Key.antt =====
-- What the constructor of PrimeCrypto leaves in its fields.
use private_join_and_compute.Prelude.{ℕ, ◌-◌, ◌*◌, ◌%◌, ◌^◌, ◌≤◌, ◌≡◌}
use private_join_and_compute.Prelude.Int.{pos}
use private_join_and_compute.Util.Result.{ok}
use private_join_and_compute.Crypto.OpenSsl.{OpenSsl}
use private_join_and_compute.Crypto.OpenSsl.Laws.{BnLaws}
use private_join_and_compute.Crypto.BigNum.{BigNum}
use private_join_and_compute.Crypto.Paillier.Table.{get}
use private_join_and_compute.Crypto.Paillier.Precomp.Expansion.{IsExpanding}
use private_join_and_compute.Crypto.Paillier.Precomp.Cell.{IsCell}
use private_join_and_compute.Crypto.Paillier.PrimeCrypto.{PrimeCrypto}

module _ ⦃lib : OpenSsl⦄ (laws : BnLaws lib) (p q s : ℕ) (c : PrimeCrypto lib) where
  -- The object is made for the prime p, the other prime q and s.
  pub record IsPrimeKey : Type 0 where
    pub p_lem : c.p ≡ pos p
    pub p_phi_lem : c.p_phi ≡ pos (p - 1)
    pub s_lem : c.s ≡ s
    pub lists : IsExpanding laws p q s c.precomp c.powers
    pub lambda : (v : ℕ) × (c.lambda_inv ≡ pos v) × ((p - 1) * v % p ^ s ≡ 1 % p ^ s)
    pub other : (v : ℕ) × (c.other_prime_inv ≡ pos v) × (q * v % p ^ s ≡ 1 % p ^ s)
    pub cells :
        (k j : ℕ)
        → 2 ≤ k
        → k ≤ j
        → j ≤ s
        → (b : BigNum) × (get c.decrypt_precomp k j ≡ ok b) × IsCell p (p * q) k j b
