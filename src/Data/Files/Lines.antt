-- ===== src/Data/Files/Lines.antt =====
-- The text of a file as the code writes it, and the lines that getline reads from it.
use private_join_and_compute.Prelude.{ℕ, ◌≡◌, ◌≢◌, refl, List, [], ◌∷◌, ◌++◌, arith, All}
use private_join_and_compute.Prelude.Int.{pos}
use private_join_and_compute.Prelude.Bytes.{Bytes}
use private_join_and_compute.Data.Absl.{Absl, AbslLaws, IsDigit}
use private_join_and_compute.Data.Csv.Quoted.{append-All, quoted-All, escape_for_csv-quoted}
use private_join_and_compute.Data.Csv.{escape_for_csv}
use private_join_and_compute.Data.Files.{lines, line_end, concat}

abbrev pub IsLine : Bytes → Type 0
IsLine = All (λ c. c ≢ b'\n')

pub lines-append : (x rest : Bytes) → IsLine x → lines (x ++ (b'\n' ∷ rest)) ≡ x ∷ lines rest
unfolding lines
lines-append [] rest h = refl
lines-append (c ∷ x) rest (h, hs) = rw (lines-append x rest hs) (ground (arith, h))

-- What is written of each line, one after the other.
abbrev pub with_line_ends : List Bytes → List Bytes
with_line_ends [] = []
with_line_ends (line ∷ rest) = line ∷ line_end ∷ with_line_ends rest

pub lines-with_line_ends :
    (xs : List Bytes) → All IsLine xs → lines (concat (with_line_ends xs)) ≡ xs
lines-with_line_ends [] h = unfold lines in refl
lines-with_line_ends (x ∷ xs) (h, hs) =
    rw (lines-append x (concat (with_line_ends xs)) h, lines-with_line_ends xs hs) refl

digits-IsLine : (n : Bytes) → All IsDigit n → IsLine n
digits-IsLine [] h = tt
digits-IsLine (c ∷ n) (d, h) = (omega arith, digits-IsLine n h)

module _ ⦃absl : Absl⦄ (laws : AbslLaws) where
  pub escape_for_csv-IsLine : (x : Bytes) → IsLine x → IsLine (escape_for_csv x)
  escape_for_csv-IsLine x h =
      rw (escape_for_csv-quoted laws x) (quoted-All (λ c. c ≢ b'\n') (omega arith) x h)

  pub client_row-IsLine :
      (x : Bytes) (n : ℕ) → IsLine x → IsLine (escape_for_csv x ++ (b',' ∷ absl.int_text (pos n)))
  client_row-IsLine x n h =
      append-All (λ c. c ≢ b'\n') (escape_for_csv x) (b',' ∷ absl.int_text (pos n))
        (escape_for_csv-IsLine x h)
        (omega arith, digits-IsLine (absl.int_text (pos n)) (laws.int_text-pos n))
