-- ===== src/Data/Files/ClientRoundTrip.antt =====
-- A client's data set that was written to a file is read back.
use Prim.Native.String.{String}
use private_join_and_compute.Prelude.{
  ℕ, ◌+◌, ◌<◌, ◌^◌, ◌≡◌, ◌≢◌, Option, none, some, refl, Bool, true, false, List, [], ◌∷◌, ◌++◌, map,
  All, arith, length, ◌==◌, Bool-cases, inl, inr,
}
use private_join_and_compute.Prelude.Int.{pos}
use private_join_and_compute.Prelude.Bytes.{Bytes}
use private_join_and_compute.Util.Result.{ok}
use private_join_and_compute.Crypto.OpenSsl.{OpenSsl}
use private_join_and_compute.Crypto.OpenSsl.Laws.{BnLaws}
use private_join_and_compute.Crypto.BigNum
use private_join_and_compute.Data.Absl.{Absl, AbslLaws}
use private_join_and_compute.Data.Csv.{escape_for_csv}
use private_join_and_compute.Data.Csv.Row.{IsText, split_csv_line-number}
use private_join_and_compute.Data.Files.RoundTrip.{close_written-ok}
use private_join_and_compute.Data.Files.Lines.{
  IsLine, with_line_ends, lines-with_line_ends, client_row-IsLine,
}
use private_join_and_compute.Data.Files.{
  Files, FilesLaws, write_all, write_client_lines, write_client_dataset_to_file, client_value,
  client_item, read_client_lines, read_client_dataset_from_file, read_server_dataset_from_file,
}

module _ ⦃absl : Absl⦄ where
  client_text : List Bytes → List ℕ → List Bytes
  client_text [] ns = []
  client_text (x ∷ xs) [] = []
  client_text (x ∷ xs) (n ∷ ns) =
      (escape_for_csv x ++ (b',' ∷ absl.int_text (pos n))) ∷ client_text xs ns

  client_text-IsLine :
      AbslLaws → (xs : List Bytes) (ns : List ℕ) → All IsLine xs → All IsLine (client_text xs ns)
  unfolding client_text
  client_text-IsLine laws [] ns h = tt
  client_text-IsLine laws (x ∷ xs) [] h = tt
  client_text-IsLine laws (x ∷ xs) (n ∷ ns) (h, hs) =
      (client_row-IsLine laws x n h, client_text-IsLine laws xs ns hs)

module _ ⦃absl : Absl⦄ ⦃files : Files⦄ where
  write_client_lines-write_all :
      (name : String) (xs : List Bytes) (ns : List ℕ) (d : files.Disk)
      → length (map pos ns) ≡ length xs
      → write_client_lines name xs (map pos ns) d
        ≡ (ok tt, write_all name (with_line_ends (client_text xs ns)) d)
  unfolding write_client_lines client_text
  write_client_lines-write_all name [] ns d h = refl
  write_client_lines-write_all name (x ∷ xs) [] d h = absurd (omega (arith, h))
  write_client_lines-write_all name (x ∷ xs) (n ∷ ns) d h =
      write_client_lines-write_all name xs ns _ (omega (arith, h))

  write_client_dataset_to_file-length :
      (xs : List Bytes) (ns : List ℕ) (name : String) (d d' : files.Disk)
      → write_client_dataset_to_file xs (map pos ns) name d ≡ (ok tt, d')
      → (length (map pos ns) == length xs) ≡ true
  unfolding write_client_dataset_to_file
  write_client_dataset_to_file-length xs ns name d d' h =
      elim (Bool-cases (length (map pos ns) == length xs)) [
        | inl e ↦ e
        | inr e ↦ let failed = rw (e, write_client_dataset_to_file) at h in absurd (cc)
      ]

  write_client_dataset_to_file-ok :
      (xs : List Bytes) (ns : List ℕ) (name : String) (d d' : files.Disk)
      → write_client_dataset_to_file xs (map pos ns) name d ≡ (ok tt, d')
      → (length (map pos ns) == length xs) ≡ true
      → (d₁ : files.Disk) × (files.open_output name d ≡ (true, d₁))
        × (files.close_output name (write_all name (with_line_ends (client_text xs ns)) d₁)
            ≡ (false, d'))
  unfolding write_client_dataset_to_file
  write_client_dataset_to_file-ok xs ns name d d' h len = opened (files.open_output name d) refl
    where
      opened :
          (p : Bool × files.Disk)
          → files.open_output name d ≡ p
          → (d₁ : files.Disk) × (files.open_output name d ≡ (true, d₁))
            × (files.close_output name (write_all name (with_line_ends (client_text xs ns)) d₁)
                ≡ (false, d'))
      opened (true, d₁) e = (
        d₁,
        e,
        close_written-ok name _ _ d' (
            rw
              (
                e,
                write_client_dataset_to_file,
                len,
                write_client_lines-write_all name xs ns d₁ (ground (arith, len)),
              )
              at h),
      )
      opened (false, d₁) e =
          let failed = rw (e, write_client_dataset_to_file, len) at h in absurd (cc)

  module _ ⦃lib : OpenSsl⦄ (bn : BnLaws lib) (laws : AbslLaws) where
    client_value-int_text : (k n : ℕ) → n < 2 ^ 63 → client_value k (absl.int_text (pos n)) ≡ ok n
    unfolding client_value
    client_value-int_text k n h = rw (laws.simple_atoi-int_text n h, client_value) (ground arith)

    client_item-number :
        (name : String) (k n : ℕ) (x : Bytes)
        → n < 2 ^ 63
        → client_item name k (x ∷ absl.int_text (pos n) ∷ []) ≡ ok (x, pos n)
    unfolding client_item BigNum.of_u64
    client_item-number name k n x h =
        rw (client_value-int_text k n h, bn.set_u64 n (omega (arith, h))) refl

    read_client_lines-client_text :
        (name : String) (k : ℕ) (xs : List Bytes) (ns : List ℕ)
        → length (map pos ns) ≡ length xs
        → All IsText xs
        → All (λ n. n < 2 ^ 63) ns
        → read_client_lines name k (client_text xs ns) ≡ ok (xs, map pos ns)
    unfolding read_client_lines client_text
    read_client_lines-client_text name k [] [] len h small = refl
    read_client_lines-client_text name k [] (n ∷ ns) len h small = absurd (omega (arith, len))
    read_client_lines-client_text name k (x ∷ xs) [] len h small = absurd (omega (arith, len))
    read_client_lines-client_text name k (x ∷ xs) (n ∷ ns) len (h, hs) (small, smalls) =
        rw
          (
            split_csv_line-number laws x n h,
            client_item-number name k n x small,
            read_client_lines-client_text name (k + 1) xs ns (omega (arith, len)) hs smalls,
          )
          refl

    -- Where no identifier holds a NUL byte or a line end and no value reaches 2 ^ 63, a client's data set
    -- that was written with success is read back from the file: the same identifiers in the same order,
    -- each with its value.
    pub read_client_dataset_from_file-write :
        FilesLaws
        → (xs : List Bytes) (ns : List ℕ) (name : String) (d d' : files.Disk) → All IsText xs
        → All IsLine xs
        → All (λ n. n < 2 ^ 63) ns
        → write_client_dataset_to_file xs (map pos ns) name d ≡ (ok tt, d')
        → read_client_dataset_from_file name d' ≡ ok (xs, map pos ns)
    unfolding read_client_dataset_from_file
    read_client_dataset_from_file-write disk xs ns name d d' text one_line small written =
        let same = write_client_dataset_to_file-length xs ns name d d' written in
        let len : length (map pos ns) ≡ length xs = ground (arith, same) in
        let (d₁, opened, closed) = write_client_dataset_to_file-ok xs ns name d d' written same in
        rw
          (
            disk.open_input-close_output name (with_line_ends (client_text xs ns)) d d₁ d' opened
                closed,
            read_client_dataset_from_file,
          )
          (rw
            (
              lines-with_line_ends (client_text xs ns) (client_text-IsLine laws xs ns one_line),
              read_client_lines-client_text name 0 xs ns len text small,
              disk.close_input name d',
            )
            refl)

  -- What is read of a file depends on what open_input answers alone.
  read_server_dataset_from_file-open_input :
      FilesLaws
      → (name : String) (d d' : files.Disk) (contents : Option Bytes)
      → files.open_input name d ≡ contents
      → files.open_input name d' ≡ contents
      → read_server_dataset_from_file name d ≡ read_server_dataset_from_file name d'
  unfolding read_server_dataset_from_file
  read_server_dataset_from_file-open_input disk name d d' none e e' =
      rw (e, e', read_server_dataset_from_file) refl
  read_server_dataset_from_file-open_input disk name d d' (some contents) e e' =
      rw (e, e', read_server_dataset_from_file)
        (rw (disk.close_input name d, disk.close_input name d') refl)

  -- Writing a client's data set leaves the server's data set in another file.
  pub read_server_dataset_from_file-write_client :
      FilesLaws
      → (xs : List Bytes) (ns : List ℕ) (name other : String) (d d' : files.Disk) → name ≢ other
      → write_client_dataset_to_file xs (map pos ns) name d ≡ (ok tt, d')
      → read_server_dataset_from_file other d' ≡ read_server_dataset_from_file other d
  read_server_dataset_from_file-write_client disk xs ns name other d d' apart written =
      let same = write_client_dataset_to_file-length xs ns name d d' written in
      let (d₁, opened, closed) = write_client_dataset_to_file-ok xs ns name d d' written same in
      read_server_dataset_from_file-open_input disk other d' d (files.open_input other d)
        (disk.open_input_other name other (with_line_ends (client_text xs ns)) d d₁ d' apart opened
          closed)
        refl
