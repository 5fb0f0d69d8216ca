-- ===== src/Data/Files/RoundTrip.antt =====
-- A data set that was written to a file is read back.
use Prim.Native.String.{String, ◌++◌ as append}
use mathlib.Core.List.{append-nil}
use private_join_and_compute.Prelude.{
  ℕ, ◌+◌, ◌≡◌, refl, Bool, true, false, List, [], ◌∷◌, map, All, not,
}
use private_join_and_compute.Prelude.Bytes.{Bytes}
use private_join_and_compute.Util.Result.{Result, ok, require}
use private_join_and_compute.Util.Status.{internal_error}
use private_join_and_compute.Data.Absl.{Absl, AbslLaws}
use private_join_and_compute.Data.Csv.{escape_for_csv}
use private_join_and_compute.Data.Csv.Row.{IsText, split_csv_line-escape_for_csv}
use private_join_and_compute.Data.Files.Lines.{
  IsLine, with_line_ends, lines-with_line_ends, escape_for_csv-IsLine,
}
use private_join_and_compute.Data.Files.{
  Files, FilesLaws, write_all, write_server_lines, close_written, write_server_dataset_to_file,
  read_server_lines, read_server_dataset_from_file,
}

module _ ⦃absl : Absl⦄ ⦃files : Files⦄ where
  pub close_written-ok :
      (name message : String) (d d' : files.Disk)
      → close_written name message d ≡ (ok tt, d')
      → files.close_output name d ≡ (false, d')
  unfolding close_written
  close_written-ok name message d d' h = close_written-ok_of (files.close_output name d) h
    where
      close_written-ok_of :
          (p : Bool × files.Disk)
          → ◌≡◌ {A = Result (Unit {0}) × files.Disk}
              (require (not p.0) (internal_error (append message name)), p.1)
              (ok tt, d')
          → p ≡ (false, d')
      close_written-ok_of (true, d₁) h = cc
      close_written-ok_of (false, d₁) h = cc

  pub write_server_lines-write_all :
      (name : String) (ids : List Bytes) (d : files.Disk)
      → write_server_lines name ids d ≡ write_all name (with_line_ends (map escape_for_csv ids)) d
  unfolding write_server_lines
  write_server_lines-write_all name [] d = refl
  write_server_lines-write_all name (x ∷ ids) d = write_server_lines-write_all name ids _

  pub write_server_dataset_to_file-ok :
      (ids : List Bytes) (name : String) (d d' : files.Disk)
      → write_server_dataset_to_file ids name d ≡ (ok tt, d')
      → (d₁ : files.Disk) × (files.open_output name d ≡ (true, d₁))
        × (files.close_output name (write_server_lines name ids d₁) ≡ (false, d'))
  unfolding write_server_dataset_to_file
  write_server_dataset_to_file-ok ids name d d' h = opened (files.open_output name d) refl
    where
      opened :
          (p : Bool × files.Disk)
          → files.open_output name d ≡ p
          → (d₁ : files.Disk) × (files.open_output name d ≡ (true, d₁))
            × (files.close_output name (write_server_lines name ids d₁) ≡ (false, d'))
      opened (true, d₁) e =
          (d₁, e, close_written-ok name _ _ d' (rw (e, write_server_dataset_to_file) at h))
      opened (false, d₁) e = let failed = rw (e, write_server_dataset_to_file) at h in absurd (cc)

  map-IsLine : AbslLaws → (ids : List Bytes) → All IsLine ids → All IsLine (map escape_for_csv ids)
  map-IsLine laws [] h = tt
  map-IsLine laws (x ∷ ids) (h, hs) = (escape_for_csv-IsLine laws x h, map-IsLine laws ids hs)

  read_server_lines-escape_for_csv :
      AbslLaws
      → (name : String) (k : ℕ) (ids : List Bytes) → All IsText ids
      → read_server_lines name k (map escape_for_csv ids) ≡ ok ids
  unfolding read_server_lines
  read_server_lines-escape_for_csv laws name k [] h = refl
  read_server_lines-escape_for_csv laws name k (x ∷ ids) (h, hs) =
      let one = split_csv_line-escape_for_csv laws x [] (h, tt) in
      rw (rw append-nil at one, read_server_lines-escape_for_csv laws name (k + 1) ids hs) refl

  -- Where no identifier holds a NUL byte or a line end, a server's data set that was written with
  -- success is read back from the file: the same identifiers in the same order.
  pub read_server_dataset_from_file-write :
      AbslLaws
      → FilesLaws
      → (ids : List Bytes) (name : String) (d d' : files.Disk) → All IsText ids
      → All IsLine ids
      → write_server_dataset_to_file ids name d ≡ (ok tt, d')
      → read_server_dataset_from_file name d' ≡ ok ids
  unfolding read_server_dataset_from_file
  read_server_dataset_from_file-write laws disk ids name d d' text one_line written =
      let (d₁, opened, closed) = write_server_dataset_to_file-ok ids name d d' written in
      rw
        (
          disk.open_input-close_output name (with_line_ends (map escape_for_csv ids)) d d₁ d' opened
              (rw (write_server_lines-write_all name ids d₁) at closed),
          read_server_dataset_from_file,
        )
        (rw
          (
            lines-with_line_ends (map escape_for_csv ids) (map-IsLine laws ids one_line),
            read_server_lines-escape_for_csv laws name 0 ids text,
            disk.close_input name d',
          )
          refl)
