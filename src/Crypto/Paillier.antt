-- ===== src/Crypto/Paillier.antt =====
-- crypto/paillier.h and crypto/paillier.cc, the Damgard-Jurik cryptosystem. The parameter `s` is an
-- int above 0, and the counters of the loops do not wrap.
pub mod Binomial
pub mod Fermat
pub mod Coprime
pub mod Table
pub mod Precomp
pub mod Generator
pub mod PrimeCrypto
pub mod Public
pub mod Private
pub mod Homomorphic
pub mod Rejected
