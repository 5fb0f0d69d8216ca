-- ===== src/Data/Absl.antt =====
-- The functions of abseil that data_util.cc calls: parameters, with what the code relies on.
use Prim.Native.String.{String}
use private_join_and_compute.Prelude.{ℕ, ◌<◌, ◌^◌, ◌≡◌, ◌≢◌, Option, some, [], ◌∷◌, ◌++◌, All}
use private_join_and_compute.Prelude.Int.{ℤ, pos}
use private_join_and_compute.Prelude.Bytes.{Bytes}

pub record Absl : Type 0 where
  -- StrReplaceAll(s, {{from, to}})
  pub str_replace_all : Bytes → Bytes → Bytes → Bytes
  -- StrCat of an int64_t, as bytes and as a part of a message
  pub int_text : ℤ → Bytes
  pub int_message : ℤ → String
  -- SimpleAtoi into an int64_t
  pub simple_atoi : Bytes → Option ℤ

-- A digit is none of the bytes that a line of CSV text treats apart.
abbrev pub IsDigit : ℕ → Type 0
IsDigit c = (47 < c) × (c < 58)

module _ ⦃absl : Absl⦄ where
  pub record AbslLaws : Type 0 where
    -- A pattern of one byte is replaced wherever it stands.
    pub replace-nil : (a : ℕ) (to : Bytes) → absl.str_replace_all [] (a ∷ []) to ≡ []
    pub replace_hit :
        (a : ℕ) (s to : Bytes)
        → absl.str_replace_all (a ∷ s) (a ∷ []) to ≡ to ++ absl.str_replace_all s (a ∷ []) to
    pub replace_miss :
        (a c : ℕ) (s to : Bytes)
        → c ≢ a
        → absl.str_replace_all (c ∷ s) (a ∷ []) to ≡ c ∷ absl.str_replace_all s (a ∷ []) to
    -- A number that is not negative is written in digits, and read back.
    pub int_text-pos : (n : ℕ) → All IsDigit (absl.int_text (pos n))
    pub simple_atoi-int_text :
        (n : ℕ) → n < 2 ^ 63 → absl.simple_atoi (absl.int_text (pos n)) ≡ some (pos n)
