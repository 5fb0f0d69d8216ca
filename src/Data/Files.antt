-- ===== src/Data/Files.antt =====
-- The two data sets as files (data_util.cc). The file system is a parameter: what a call changes of
-- it is a `Disk`. An early return closes a stream that is read, which changes nothing.
pub mod Lines
pub mod RoundTrip
pub mod ClientRoundTrip
pub mod LineEnds
use Prim.Native.String.{String, ◌++◌ as append}
use private_join_and_compute.Prelude.{
  ℕ, suc, Bool, true, false, Option, none, some, List, [], ◌∷◌, ◌++◌, length, ◌==◌, not, ◌||◌, ◌+◌,
  ◌≡◌, ◌≢◌, if◌then◌else◌,
}
use private_join_and_compute.Prelude.Int.{ℤ, pos, pos_part, ltb_ℤ}
use private_join_and_compute.Prelude.Bytes.{Bytes}
use private_join_and_compute.Util.Status.{invalid_argument_error, internal_error}
use private_join_and_compute.Util.Result.{Result, ok, err, die, ◌>>=◌, require}
use private_join_and_compute.Util.Exec
use private_join_and_compute.Util.Exec.{Exec, lift, pure}
use private_join_and_compute.Crypto.OpenSsl.{OpenSsl}
use private_join_and_compute.Crypto.BigNum
use private_join_and_compute.Crypto.BigNum.{BigNum}
use private_join_and_compute.Data.Absl.{Absl}
use private_join_and_compute.Data.Csv.{split_csv_line, escape_for_csv}

-- std::ofstream and std::ifstream, by the name of the file.
pub record Files : Type 1 where
  pub Disk : Type 0
  -- open, and what is_open answers
  pub open_output : String → Disk → Bool × Disk
  -- `<<`
  pub write : String → Bytes → Disk → Disk
  -- close, and what fail answers
  pub close_output : String → Disk → Bool × Disk
  -- open, and the bytes of the file where is_open answers yes
  pub open_input : String → Disk → Option Bytes
  -- what is_open answers after close
  pub open_after_close : String → Disk → Bool

-- Write the parts of a text one after the other.
abbrev pub write_all : ⦃files : Files⦄ → String → List Bytes → files.Disk → files.Disk
write_all ⦃files⦄ name [] d = d
write_all ⦃files⦄ name (part ∷ parts) d = write_all name parts (files.write name part d)

abbrev pub concat : List Bytes → Bytes
concat [] = []
concat (part ∷ parts) = part ++ concat parts

module _ ⦃files : Files⦄ where
  pub record FilesLaws : Type 0 where
    -- A file that was opened, written and closed with no failure holds what was written.
    pub open_input-close_output :
        (name : String) (parts : List Bytes) (d d₁ d₂ : files.Disk)
        → files.open_output name d ≡ (true, d₁)
        → files.close_output name (write_all name parts d₁) ≡ (false, d₂)
        → files.open_input name d₂ ≡ some (concat parts)
    -- The file of another name stays as it was.
    pub open_input_other :
        (name other : String) (parts : List Bytes) (d d₁ d₂ : files.Disk)
        → name ≢ other
        → files.open_output name d ≡ (true, d₁)
        → files.close_output name (write_all name parts d₁) ≡ (false, d₂)
        → files.open_input other d₂ ≡ files.open_input other d
    pub close_input : (name : String) (d : files.Disk) → files.open_after_close name d ≡ false

abbrev pub line_end : Bytes
line_end = b'\n' ∷ []

-- The lines that getline reads: the text after the last line end is one where it is not empty.
unfoldable pub lines : Bytes → List Bytes
lines [] = []
lines (c ∷ cs) =
    if c == b'\n'
    then [] ∷ lines cs
    else elim (lines cs) [ [] ↦ (c ∷ []) ∷ [] | line ∷ rest ↦ (c ∷ line) ∷ rest ]

module _ ⦃absl : Absl⦄ ⦃files : Files⦄ where
  unfoldable pub write_server_lines : String → List Bytes → files.Disk → files.Disk
  unfolding escape_for_csv
  write_server_lines name [] d = d
  write_server_lines name (identifier ∷ rest) d =
      write_server_lines name rest
        (files.write name line_end (files.write name (escape_for_csv identifier) d))

  -- close, and the status behind it
  unfoldable pub close_written : String → String → Exec files.Disk (Unit {0})
  close_written name message d =
      let (failed, d') = files.close_output name d in
      (require (not failed) (internal_error (append message name)), d')

  unfoldable pub write_server_dataset_to_file : List Bytes → String → Exec files.Disk (Unit {0})
  write_server_dataset_to_file server_data name d =
      let (is_open, opened) = files.open_output name d in
      if is_open
      then close_written name
          "WriteServerDatasetToFile: Couldn't write to or close server data file: "
          (write_server_lines name server_data opened)
      else (
        err (
            invalid_argument_error
              (append "WriteServerDatasetToFile: Couldn't open server data file: " name)),
        opened,
      )

  -- The loop reads both lists at `i`; a read past the end of the values is undefined.
  unfoldable pub write_client_lines : String → List Bytes → List ℤ → Exec files.Disk (Unit {0})
  unfolding escape_for_csv
  write_client_lines name [] values d = (ok tt, d)
  write_client_lines name (identifier ∷ rest) [] d = (die, d)
  write_client_lines name (identifier ∷ rest) (value ∷ values) d =
      let line = escape_for_csv identifier ++ (b',' ∷ absl.int_text value) in
      write_client_lines name rest values (files.write name line_end (files.write name line d))

  unfoldable pub write_client_dataset_to_file :
      List Bytes → List ℤ → String → Exec files.Disk (Unit {0})
  write_client_dataset_to_file identifiers values name d =
      let (is_open, opened) = files.open_output name d in
      if not (length values == length identifiers)
      then (
        err (
            invalid_argument_error
              "WriteClientDatasetToFile: there should be the same number of client identifiers and associated values."),
        d,
      )
      else if is_open
      then (Exec.◌>>=◌ (write_client_lines name identifiers values) λ _.
            close_written name
              "WriteClientDatasetToFile: Couldn't write to or close client data file: ")
          opened
      else (
        err (
            invalid_argument_error
              (append "WriteClientDatasetToFile: Couldn't open client data file: " name)),
        opened,
      )

  -- The error of a line with a number of columns that is not the expected one.
  abbrev pub columns_message : String → ℕ → ℕ → String → String
  columns_message start line_number size name = append start (
      append (absl.int_message (pos line_number)) (
        append "has " (
          append (absl.int_message (pos size))
            (append " comma-separated items (file: " (append name ")")))))

  -- The body of the loop over the server's lines.
  unfoldable pub server_identifier : String → ℕ → List Bytes → Result Bytes
  server_identifier name line_number (identifier ∷ []) = ok identifier
  server_identifier name line_number columns = err (
      invalid_argument_error (
        columns_message
          "ReadServerDatasetFromFile: Expected exactly 1 identifier per line, but line " line_number
          (length columns) name))

  unfoldable pub read_server_lines : String → ℕ → List Bytes → Result (List Bytes)
  unfolding split_csv_line server_identifier
  read_server_lines name line_number [] = ok []
  read_server_lines name line_number (line ∷ rest) = do
    columns ← split_csv_line line
    identifier ← server_identifier name line_number columns
    identifiers ← read_server_lines name (line_number + 1) rest
    ok (identifier ∷ identifiers)

  unfoldable pub read_server_dataset_from_file : String → files.Disk → Result (List Bytes)
  unfolding lines
  read_server_dataset_from_file name d = elim (files.open_input name d) [
    | none ↦ err (
        invalid_argument_error
          (append "ReadServerDatasetFromFile: Couldn't open server data file: " name))
    | some contents ↦ do
      server_data ← read_server_lines name 0 (lines contents)
      closed ← require (not (files.open_after_close name d)) (
          internal_error
            (append "ReadServerDatasetFromFile: Couldn't close server data file: " name))
      ok server_data
  ]

  -- `!absl::SimpleAtoi(...) || parsed_associated_value < 0`
  unfoldable pub client_value : ℕ → Bytes → Result ℕ
  client_value line_number column =
      let refused = err (
        invalid_argument_error (
          append
            "ReadClientDatasetFromFile: could not parse a nonnegative associated value at line number"
            (absl.int_message (pos line_number)))) in
      elim (absl.simple_atoi column) [
        | none ↦ refused
        | some value ↦ if ltb_ℤ value (pos 0) then refused else ok (pos_part value)
      ]

  module _ ⦃lib : OpenSsl⦄ where
    -- The body of the loop over the client's lines.
    unfoldable pub client_item : String → ℕ → List Bytes → Result (Bytes × BigNum)
    unfolding client_value
    client_item name line_number (identifier ∷ column ∷ []) = do
      value ← client_value line_number column
      number ← BigNum.of_u64 value
      ok (identifier, number)
    client_item name line_number columns = err (
        invalid_argument_error (
          columns_message "ReadClientDatasetFromFile: Expected exactly 2 items per line, but line "
            line_number (length columns) name))

    unfoldable pub read_client_lines : String → ℕ → List Bytes → Result (List Bytes × List BigNum)
    unfolding split_csv_line client_item
    read_client_lines name line_number [] = ok ([], [])
    read_client_lines name line_number (line ∷ rest) = do
      columns ← split_csv_line line
      item ← client_item name line_number columns
      others ← read_client_lines name (line_number + 1) rest
      ok (item.0 ∷ others.0, item.1 ∷ others.1)

    unfoldable pub read_client_dataset_from_file :
        String → files.Disk → Result (List Bytes × List BigNum)
    unfolding lines
    read_client_dataset_from_file name d = elim (files.open_input name d) [
      | none ↦ err (
          invalid_argument_error
            (append "ReadClientDatasetFromFile: Couldn't open client data file: " name))
      | some contents ↦ do
        client_data ← read_client_lines name 0 (lines contents)
        closed ← require (not (files.open_after_close name d)) (
            internal_error
              (append "ReadClientDatasetFromFile: Couldn't close client data file: " name))
        ok client_data
    ]
