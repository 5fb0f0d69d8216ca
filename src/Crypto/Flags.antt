-- ===== src/Crypto/Flags.antt =====
-- What the command line and the platform decide: --two_k_ary_exp (crypto/fixed_base_exp.cc),
-- --generator_try_count (crypto/paillier.cc), and whether the type char is signed;
-- and whether the build defines NDEBUG, which takes the text of an assert out.
use private_join_and_compute.Prelude.{ℕ, Bool}

pub record Flags : Type 0 where
  pub two_k_ary_exp : Bool
  pub generator_try_count : ℕ
  pub char_is_signed : Bool
  pub ndebug : Bool
