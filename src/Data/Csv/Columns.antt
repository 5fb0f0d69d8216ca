-- ===== src/Data/Csv/Columns.antt =====
-- The loop of SplitCSVLineWithDelimiter: it ends on every line.
use private_join_and_compute.Prelude.{
  ℕ, zero, suc, ◌≤◌, ◌≡◌, refl, true, List, [], ◌∷◌, ◌++◌, length, arith,
}
use private_join_and_compute.Prelude.Bytes.{Bytes}
use private_join_and_compute.Util.Result.{ok}
use private_join_and_compute.Data.Csv.{
  skip_blanks, find_delimiter, unquote, quoted_column, plain_column, read_column, at_delimiter,
  another_column, step, split_csv_line_with_delimiter,
}

length-skip_blanks : (d : ℕ) (line : Bytes) → length (skip_blanks d line) ≤ length line
unfolding skip_blanks
length-skip_blanks d [] = omega arith
length-skip_blanks d (c ∷ cs) = ground (arith, length-skip_blanks d cs)

length-find_delimiter : (d : ℕ) (line : Bytes) → length (find_delimiter d line) ≤ length line
unfolding find_delimiter
length-find_delimiter d [] = omega arith
length-find_delimiter d (c ∷ cs) = ground (arith, length-find_delimiter d cs)

length-unquote : (line : Bytes) → length ((unquote line).1) ≤ length line
unfolding unquote
length-unquote [] = omega arith
length-unquote (c ∷ []) = ground arith
length-unquote (c ∷ x ∷ rest) = ground (arith, length-unquote rest, length-unquote (x ∷ rest))

pub at_delimiter-find_delimiter :
    (d : ℕ) (line : Bytes) → at_delimiter d (find_delimiter d line) ≡ true
unfolding find_delimiter at_delimiter
at_delimiter-find_delimiter d [] = refl
at_delimiter-find_delimiter d (c ∷ cs) = ground (arith, at_delimiter-find_delimiter d cs)

length-quoted_column : (d : ℕ) (line : Bytes) → length (quoted_column d line).1 ≤ length line
unfolding quoted_column
length-quoted_column d line =
    omega (arith, length-find_delimiter d (unquote line).1, length-unquote line)

length-read_column : (d : ℕ) (line : Bytes) → length (read_column d line).1 ≤ length line
unfolding read_column plain_column
length-read_column d [] = length-find_delimiter d []
length-read_column d (c ∷ cs) =
    ground (arith, length-quoted_column d cs, length-find_delimiter d (c ∷ cs))

at_delimiter-read_column : (d : ℕ) (line : Bytes) → at_delimiter d (read_column d line).1 ≡ true
unfolding read_column plain_column quoted_column
at_delimiter-read_column d [] = at_delimiter-find_delimiter d []
at_delimiter-read_column d (c ∷ cs) =
    ground
      (arith, at_delimiter-find_delimiter d (unquote cs).1, at_delimiter-find_delimiter d (c ∷ cs))

length-step : (line : Bytes) (n : ℕ) → length line ≤ suc n → length (step line) ≤ n
length-step [] n h = omega arith
length-step (c ∷ cs) n h = omega (arith, h)

split_both :
    (fuel more d : ℕ) (line : Bytes)
    → length line ≤ fuel
    → length line ≤ more
    → (columns : List Bytes) × (split_csv_line_with_delimiter fuel d line ≡ ok columns)
      × (split_csv_line_with_delimiter more d line ≡ ok columns)
unfolding split_csv_line_with_delimiter
split_both fuel more d [] h k = ([], refl, refl)
split_both zero more d (c ∷ cs) h k = absurd (omega (arith, h))
split_both (suc fuel) zero d (c ∷ cs) h k = absurd (omega (arith, k))
split_both (suc fuel) (suc more) d (c ∷ cs) h k =
    let line = skip_blanks d (c ∷ cs) in
    let left = (read_column d line).1 in
    let le : length left ≤ suc (length cs) =
      omega (arith, length-read_column d line, length-skip_blanks d (c ∷ cs)) in
    let (columns, p, q) =
      split_both fuel more d (step left) (omega (arith, length-step left (length cs) le, h))
        (omega (arith, length-step left (length cs) le, k)) in
    (
      (read_column d line).0 ∷ another_column d left ++ columns,
      rw (at_delimiter-read_column d line, p) refl,
      rw (at_delimiter-read_column d line, q) refl,
    )

-- With a round for each byte of the line, or more, splitting a line at any delimiter ends: the
-- source's assertion holds in every round, and the columns do not depend on the number of rounds.
pub split_csv_line_with_delimiter_ends :
    (fuel d : ℕ) (line : Bytes)
    → length line ≤ fuel
    → (columns : List Bytes) × (split_csv_line_with_delimiter fuel d line ≡ ok columns)
      × (split_csv_line_with_delimiter (length line) d line ≡ ok columns)
split_csv_line_with_delimiter_ends fuel d line h =
    split_both fuel (length line) d line h (omega arith)
