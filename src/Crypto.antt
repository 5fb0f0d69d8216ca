-- ===== src/Crypto.antt =====
-- crypto/: big numbers, curves, ciphers, over the functions of OpenSSL that the code calls.
pub mod OpenSsl
pub mod BigNum
pub mod Context
pub mod EcPoint
pub mod EcGroup
pub mod ElGamal
pub mod CommutativeCipher
pub mod Flags
pub mod MontMul
pub mod FixedBaseExp
pub mod TwoModulusCrt
pub mod Paillier
