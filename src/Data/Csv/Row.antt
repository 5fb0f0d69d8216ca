-- ===== src/Data/Csv/Row.antt =====
-- What EscapeForCsv writes, SplitCsvLine reads back.
use mathlib.Core.List.{append_assoc}
use private_join_and_compute.Prelude.{
  ℕ, zero, suc, ◌≡◌, ◌≢◌, refl, sym, ◌∙◌, List, [], ◌∷◌, ◌++◌, length, arith, All, ◌≤◌, ◌+◌,
}
use private_join_and_compute.Prelude.Int.{pos}
use private_join_and_compute.Prelude.Bytes.{Bytes}
use private_join_and_compute.Util.Result.{ok}
use private_join_and_compute.Data.Absl.{Absl, AbslLaws, IsDigit}
use private_join_and_compute.Data.Csv.Columns.{split_csv_line_with_delimiter_ends}
use private_join_and_compute.Data.Csv.Quoted.{
  doubled, quoted, append-All, quoted-All, escape_for_csv-quoted, split-quoted, split-digits,
}
use private_join_and_compute.Data.Csv.{
  strndup_with_new, at_delimiter, another_column, split_csv_line_with_delimiter,
  split_csv_line_with_delimiter_for_strings, split_csv_line, escape_for_csv,
}

-- A text with no NUL in it.
abbrev pub IsText : Bytes → Type 0
IsText = All (λ c. c ≢ 0)

pub strndup_with_new-IsText : (s : Bytes) → IsText s → strndup_with_new s ≡ s
unfolding strndup_with_new
strndup_with_new-IsText [] h = refl
strndup_with_new-IsText (c ∷ s) (h, hs) = ground (arith, strndup_with_new-IsText s hs)

digits-IsText : (n : Bytes) → All IsDigit n → IsText n
digits-IsText [] h = tt
digits-IsText (c ∷ n) (d, h) = (omega arith, digits-IsText n h)

-- Rounds enough, and the rounds that the source's line allows, give the same columns.
split_csv_line_of_rounds :
    (fuel : ℕ) (line : Bytes) (columns : List Bytes)
    → IsText line
    → split_csv_line_with_delimiter (suc (fuel + length line)) b',' line ≡ ok columns
    → split_csv_line line ≡ ok columns
unfolding split_csv_line split_csv_line_with_delimiter_for_strings
split_csv_line_of_rounds fuel line columns text h =
    let (_, p, q) =
      split_csv_line_with_delimiter_ends (suc (fuel + length line)) b',' line (omega arith) in
    rw (strndup_with_new-IsText line text) (q ∙ sym p ∙ h)

split_quoted_before :
    (fuel : ℕ) (x rest : Bytes)
    → split_csv_line_with_delimiter fuel b',' (quoted x ++ rest)
      ≡ split_csv_line_with_delimiter fuel b',' (b'"' ∷ (doubled x ++ (b'"' ∷ rest)))
unfolding quoted
split_quoted_before fuel x rest = rw append_assoc refl

quoted_tail : List Bytes → Bytes
quoted_tail [] = []
quoted_tail (x ∷ xs) = b',' ∷ (quoted x ++ quoted_tail xs)

quoted_tail-IsText : (xs : List Bytes) → All IsText xs → IsText (quoted_tail xs)
unfolding quoted_tail
quoted_tail-IsText [] h = tt
quoted_tail-IsText (x ∷ xs) (h, hs) = (
  omega arith,
  append-All (λ c. c ≢ 0) (quoted x) (quoted_tail xs) (quoted-All (λ c. c ≢ 0) (omega arith) x h)
      (quoted_tail-IsText xs hs),
)

split-quoted_tail :
    (fuel : ℕ) (x : Bytes) (xs : List Bytes)
    → length xs ≤ fuel
    → split_csv_line_with_delimiter (suc fuel) b',' (quoted x ++ quoted_tail xs) ≡ ok (x ∷ xs)
unfolding quoted_tail
split-quoted_tail fuel x [] h =
    split_quoted_before (suc fuel) x []
    ∙ split-quoted fuel x [] (unfold at_delimiter in refl)
    ∙ (unfold split_csv_line_with_delimiter another_column in refl)
split-quoted_tail zero x (y ∷ ys) h = absurd (omega (arith, h))
split-quoted_tail (suc fuel) x (y ∷ ys) h =
    split_quoted_before (suc (suc fuel)) x (b',' ∷ (quoted y ++ quoted_tail ys))
    ∙ split-quoted (suc fuel) x (b',' ∷ (quoted y ++ quoted_tail ys)) (unfold at_delimiter in refl)
    ∙ rw (split-quoted_tail fuel y ys (omega (arith, h))) (unfold another_column quoted in refl)

split_quoted_digits :
    (fuel : ℕ) (x n : Bytes)
    → 1 ≤ fuel
    → All IsDigit n
    → split_csv_line_with_delimiter (suc fuel) b',' (quoted x ++ (b',' ∷ n)) ≡ ok (x ∷ n ∷ [])
split_quoted_digits zero x n le h = absurd (omega (arith, le))
split_quoted_digits (suc fuel) x [] le h =
    split_quoted_before (suc (suc fuel)) x (b',' ∷ [])
    ∙ split-quoted (suc fuel) x (b',' ∷ []) (unfold at_delimiter in refl)
    ∙ (unfold split_csv_line_with_delimiter another_column in refl)
split_quoted_digits (suc fuel) x (c ∷ n) le h =
    split_quoted_before (suc (suc fuel)) x (b',' ∷ c ∷ n)
    ∙ split-quoted (suc fuel) x (b',' ∷ c ∷ n) (unfold at_delimiter in refl)
    ∙ rw (split-digits fuel c n h) (unfold another_column in refl)

module _ ⦃absl : Absl⦄ where
  -- The columns of a row, each escaped, with a comma before each but the first.
  abbrev pub csv_tail : List Bytes → Bytes
  csv_tail [] = []
  csv_tail (x ∷ xs) = b',' ∷ (escape_for_csv x ++ csv_tail xs)

  csv_tail-quoted_tail : AbslLaws → (xs : List Bytes) → csv_tail xs ≡ quoted_tail xs
  unfolding quoted_tail
  csv_tail-quoted_tail laws [] = refl
  csv_tail-quoted_tail laws (x ∷ xs) =
      rw (escape_for_csv-quoted laws x, csv_tail-quoted_tail laws xs) refl

  -- A row of one column or more, each escaped and none with a NUL byte in it, is split into the
  -- same columns, whatever commas, quotes, spaces and line ends they hold.
  pub split_csv_line-escape_for_csv :
      AbslLaws
      → (x : Bytes) (xs : List Bytes) → All IsText (x ∷ xs)
      → split_csv_line (escape_for_csv x ++ csv_tail xs) ≡ ok (x ∷ xs)
  split_csv_line-escape_for_csv laws x xs (h, hs) =
      let line = quoted x ++ quoted_tail xs in
      rw (escape_for_csv-quoted laws x, csv_tail-quoted_tail laws xs)
        (split_csv_line_of_rounds (length xs) line (x ∷ xs)
          (append-All (λ c. c ≢ 0) (quoted x) (quoted_tail xs)
            (quoted-All (λ c. c ≢ 0) (omega arith) x h) (quoted_tail-IsText xs hs))
          (split-quoted_tail (length xs + length line) x xs (omega arith)))

  -- A line of the client's file: an escaped identifier and a number that is not negative.
  pub split_csv_line-number :
      AbslLaws
      → (x : Bytes) (n : ℕ) → IsText x
      → split_csv_line (escape_for_csv x ++ (b',' ∷ absl.int_text (pos n)))
        ≡ ok (x ∷ absl.int_text (pos n) ∷ [])
  split_csv_line-number laws x n h =
      let number = absl.int_text (pos n) in
      let digits = laws.int_text-pos n in
      let line = quoted x ++ (b',' ∷ number) in
      rw (escape_for_csv-quoted laws x) (
        split_csv_line_of_rounds 1 line (x ∷ number ∷ [])
          (append-All (λ c. c ≢ 0) (quoted x) (b',' ∷ number)
            (quoted-All (λ c. c ≢ 0) (omega arith) x h) (omega arith, digits-IsText number digits))
          (split_quoted_digits (1 + length line) x number (omega arith) digits))
