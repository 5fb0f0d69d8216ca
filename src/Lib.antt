-- ===== src/Lib.antt =====
-- Private Join and Compute: two parties find how many identifiers they share and the sum of the
-- values that one of them holds beside those identifiers, and learn nothing else of each other's
-- data. This library models the protocol of the repository and the cryptography under it.
--
-- The parts of the program, and the files that model them:
--
-- - Prelude: names that all share, signed integers, byte strings, products modulo a number.
-- - Util: util/. Status, StatusOr and the macros (Status, StatusOr, Macros). The other modules use
--   Util.Result, a sum of a value, an error, the end of the process (CHECK, LOG(FATAL)) and a loop
--   that has not ended in the rounds that it was given; Util.Exec adds the state that a call changes.
-- - Crypto.OpenSsl: the functions of OpenSSL that the code calls, a record of parameters. Its
--   children hold what the code relies on: Laws for numbers and draws, Curve for points, Montgomery for
--   the Montgomery form of numbers.
-- - Crypto.BigNum (crypto/big_num.cc), Crypto.Context (crypto/context.cc), Crypto.EcPoint and
--   Crypto.EcGroup (crypto/ec_point.cc, crypto/ec_group.cc), Crypto.CommutativeCipher
--   (crypto/ec_commutative_cipher.cc), Crypto.ElGamal (crypto/elgamal.cc), Crypto.MontMul
--   (crypto/mont_mul.cc), Crypto.FixedBaseExp (crypto/fixed_base_exp.cc), Crypto.TwoModulusCrt
--   (crypto/two_modulus_crt.cc), Crypto.Paillier and its children (crypto/paillier.cc).
--   Binomial, Fermat and Coprime hold the arithmetic that its theorems need, PrimeCrypto.Decrypt and
--   Private.Decrypt what decrypting gives, Homomorphic the two keys together, Rejected the checks,
--   Generator.Unit and Generator.Drawn that the generators are prime to the modulus.
-- - Std: std::sort and std::set_intersection as the protocol calls them.
-- - Match: the messages of match.proto; their serialization is a parameter.
-- - Client and Server: client_lib.cc and server_lib.cc, one record and one function per method.
-- - Rpc: private_join_and_compute_rpc_impl.cc, the service around the server.
-- - Data: data_util.cc. Csv splits and escapes lines of CSV text, Files writes and reads the two data
--   sets, Random draws data sets for tests. Absl holds the functions of abseil as parameters.
-- - Programs: client.cc (ExecuteProtocol), server.cc (RunServer), generate_dummy_data.cc
--   (GenerateDummyData), each with the lines that it prints and its exit code.
-- - Protocol: what the two parties compute together: Tags (doubly encrypted identifiers), Join (what
--   both hold), Sum (the server's answer), Exchange (the messages in a row), Sealed (the ciphertexts in
--   the place of the values), IntersectionSum (the four calls and the decrypted sum).
-- - Sample: small stand-ins for OpenSSL, abseil, the disk and the network, on which all of this runs.
--
-- A function keeps the name of the source's function, in lower case with underscores. A method works
-- on the object's record; where it changes the object or draws random numbers, it takes and returns
-- them. What was changed before an error stays changed, as in the source.
--
-- Bounds and fuel: numbers are unbounded, as BIGNUMs are, and a 64-bit conversion has its bound
-- written out. The loops of the source with no bound of their own take fuel: hashing to the curve, the
-- PRF, and the draw of a number that is prime to another. Running out of it is the result `running`,
-- which no theorem takes for an answer: a theorem about a hashed text supposes that the loop ended,
-- and the runs in Sample show that 40 rounds are enough there. Every other loop is by recursion on
-- what it counts. The allocation of an empty BIGNUM is taken to succeed.
--
-- The system around the programs is parameters, with the documented behaviour that is relied on as laws:
-- the file system (Data.Files.Files), abseil, the source of random identifiers (Data.Random.Entropy),
-- the terminal, and on the client's side the network (Programs.ExecuteProtocol.Stub). The server's
-- program answers requests one at a time, in any order with the main thread's reads of the flag, each of
-- which may miss the flag's change: nothing supposes that a read sees it but a theorem that says so.
-- A line is split in a round for each of its bytes, which is proved to be enough.
--
-- Not modelled: the parsing of the flags, the set-up of gRPC's channels, and OpenSSL's set-up
-- (crypto/openssl_init.cc). That a generator of a safe prime is found, in fewer tries than the prime is
-- large, and that a number is drawn for the public key within the fuel, are hypotheses of the theorems
-- about Paillier: that what is found is prime to the modulus is proved.
pub mod Prelude
pub mod Util
pub mod Crypto
pub mod Data
pub mod Std
pub mod Match
pub mod Client
pub mod Server
pub mod Rpc
pub mod Programs
pub mod Protocol
pub mod Sample
