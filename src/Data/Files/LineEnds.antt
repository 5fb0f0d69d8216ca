-- ===== src/Data/Files/LineEnds.antt =====
-- What becomes of identifiers that hold line ends: EscapeForCsv keeps them, getline splits at them.
use Prim.Native.String.{String}
use private_join_and_compute.Prelude.{
  ℕ, suc, ◌+◌, ◌≡◌, refl, List, [], ◌∷◌, ◌++◌, map, length, arith, if◌then◌else◌, ◌==◌, Bool-cases,
  inl, inr, ap, some, not, length-map,
}
use private_join_and_compute.Prelude.Bytes.{Bytes}
use private_join_and_compute.Util.Result.{ok, >>=-eq-ok, require}
use private_join_and_compute.Data.Absl.{Absl, AbslLaws}
use private_join_and_compute.Data.Csv.Quoted.{doubled, quoted, escape_for_csv-quoted}
use private_join_and_compute.Data.Csv.{escape_for_csv, split_csv_line}
use private_join_and_compute.Data.Files.Lines.{with_line_ends}
use private_join_and_compute.Data.Files.RoundTrip.{
  write_server_lines-write_all, write_server_dataset_to_file-ok,
}
use private_join_and_compute.Data.Files.{
  Files, FilesLaws, concat, lines, server_identifier, read_server_lines,
  read_server_dataset_from_file, write_server_dataset_to_file,
}

-- The number of line ends in a text, and in all of several.
abbrev pub line_ends : Bytes → ℕ
line_ends [] = 0
line_ends (c ∷ cs) = (if c == b'\n' then 1 else 0) + line_ends cs

abbrev pub all_line_ends : List Bytes → ℕ
all_line_ends [] = 0
all_line_ends (x ∷ xs) = line_ends x + all_line_ends xs

length-lines-append :
    (s rest : Bytes)
    → length (lines (s ++ (b'\n' ∷ rest))) ≡ suc (line_ends s + length (lines rest))
unfolding lines
length-lines-append [] rest = omega arith
length-lines-append (c ∷ s) rest = elim (Bool-cases (c == b'\n')) [
  | inl e ↦ rw e (omega (arith, length-lines-append s rest))
  | inr e ↦ rw e (
      omega (
        arith,
        length_cons (lines (s ++ (b'\n' ∷ rest))) (length-lines-append s rest),
        length-lines-append s rest,
      ))
]
  where
    length_cons :
        (ls : List Bytes) {k : ℕ}
        → length ls ≡ suc k
        → ◌≡◌ {A = ℕ}
            (length (elim ls [ [] ↦ (c ∷ []) ∷ [] | line ∷ more ↦ (c ∷ line) ∷ more ]))
            (length ls)
    length_cons [] h = absurd (omega (arith, h))
    length_cons (line ∷ more) h = refl

length-lines :
    (xs : List Bytes) → length (lines (concat (with_line_ends xs))) ≡ length xs + all_line_ends xs
length-lines [] = unfold lines in omega arith
length-lines (x ∷ xs) =
    omega (arith, length-lines-append x (concat (with_line_ends xs)), length-lines xs)

line_ends-append : (s t : Bytes) → line_ends (s ++ t) ≡ line_ends s + line_ends t
line_ends-append [] t = omega arith
line_ends-append (c ∷ s) t = omega (arith, line_ends-append s t)

line_ends-doubled : (x : Bytes) → line_ends (doubled x) ≡ line_ends x
unfolding doubled
line_ends-doubled [] = refl
line_ends-doubled (c ∷ x) = ground (arith, line_ends-doubled x)

line_ends-quoted : (x : Bytes) → line_ends (quoted x) ≡ line_ends x
unfolding quoted
line_ends-quoted x = omega (arith, line_ends-append (doubled x) (b'"' ∷ []), line_ends-doubled x)

module _ ⦃absl : Absl⦄ where
  all_line_ends-escape_for_csv :
      AbslLaws → (xs : List Bytes) → all_line_ends (map escape_for_csv xs) ≡ all_line_ends xs
  all_line_ends-escape_for_csv laws [] = refl
  all_line_ends-escape_for_csv laws (x ∷ xs) =
      rw (escape_for_csv-quoted laws x, line_ends-quoted x, all_line_ends-escape_for_csv laws xs)
        refl

module _ ⦃absl : Absl⦄ ⦃files : Files⦄ where
  length-read_server_lines :
      (name : String) (k : ℕ) (ls result : List Bytes)
      → read_server_lines name k ls ≡ ok result
      → length result ≡ length ls
  unfolding read_server_lines
  length-read_server_lines name k [] [] h = refl
  length-read_server_lines name k [] (r ∷ rs) h = cc
  length-read_server_lines name k (l ∷ ls) result h =
      let (columns, split, h₁) = >>=-eq-ok (split_csv_line l) _ h in
      let (identifier, one, h₂) = >>=-eq-ok (server_identifier name k columns) _ h₁ in
      let (others, read, h₃) = >>=-eq-ok (read_server_lines name (k + 1) ls) _ h₂ in
      let e : (identifier ∷ others) ≡ result = cc in
      rw (← e) (ap suc (length-read_server_lines name (k + 1) ls others read))

  read_server_dataset_from_file-ok :
      (name : String) (d : files.Disk) (contents : Bytes) (result : List Bytes)
      → files.open_input name d ≡ some contents
      → read_server_dataset_from_file name d ≡ ok result
      → read_server_lines name 0 (lines contents) ≡ ok result
  unfolding read_server_dataset_from_file
  read_server_dataset_from_file-ok name d contents result e h =
      let (others, read, h₁) =
        >>=-eq-ok (read_server_lines name 0 (lines contents)) _
          (rw (e, read_server_dataset_from_file) at h) in
      let (closed, _, h₂) = >>=-eq-ok (require (not (files.open_after_close name d)) _) _ h₁ in
      let same : others ≡ result = cc in rw (← same) read

  -- Where a server's data set is written with success and read with success, what is read has one
  -- identifier more for each line end inside the identifiers written. So a set with a line end in an
  -- identifier is never read back.
  pub length-read_server_dataset_from_file :
      AbslLaws
      → FilesLaws
      → (ids result : List Bytes) (name : String) (d d' : files.Disk)
      → write_server_dataset_to_file ids name d ≡ (ok tt, d')
      → read_server_dataset_from_file name d' ≡ ok result
      → length result ≡ length ids + all_line_ends ids
  length-read_server_dataset_from_file laws disk ids result name d d' written read =
      let (d₁, opened, closed) = write_server_dataset_to_file-ok ids name d d' written in
      let parts = map escape_for_csv ids in
      let held =
        disk.open_input-close_output name (with_line_ends parts) d d₁ d' opened
          (rw (write_server_lines-write_all name ids d₁) at closed) in
      omega (
        arith,
        length-read_server_lines name 0 (lines (concat (with_line_ends parts))) result
            (read_server_dataset_from_file-ok name d' _ result held read),
        length-lines parts,
        all_line_ends-escape_for_csv laws ids,
        length-map ids escape_for_csv,
      )
