-- ===== src/Data/Csv/Quoted.antt =====
-- One column of a line: a quoted text, and a number in digits.
use private_join_and_compute.Prelude.{
  ℕ, suc, ◌≡◌, ◌≢◌, inl, inr, refl, true, false, [], ◌∷◌, ◌++◌, arith, if◌then◌else◌, ◌==◌, All,
  Bool-cases,
}
use private_join_and_compute.Prelude.Bytes.{Bytes}
use private_join_and_compute.Util.Result.{ok, ◌>>=◌}
use private_join_and_compute.Data.Absl.{Absl, AbslLaws, IsDigit}
use private_join_and_compute.Data.Csv.{
  is_blank, is_space, skip_blanks, find_delimiter, before_delimiter, trim_end, unquote,
  quoted_column, plain_column, read_column, at_delimiter, another_column, step,
  split_csv_line_with_delimiter, escape_for_csv,
}

abbrev pub IsText : Bytes → Type 0
IsText = All (λ c. c ≢ 0)

-- Each quote twice.
unfoldable pub doubled : Bytes → Bytes
doubled [] = []
doubled (c ∷ cs) = if c == b'"' then b'"' ∷ b'"' ∷ doubled cs else c ∷ doubled cs

-- The same with its quotes.
unfoldable pub quoted : Bytes → Bytes
unfolding doubled
quoted x = b'"' ∷ (doubled x ++ (b'"' ∷ []))

module _ (P : ℕ → Type 0) where
  pub append-All : (s t : Bytes) → All P s → All P t → All P (s ++ t)
  append-All [] t h k = k
  append-All (c ∷ s) t (h, hs) k = (h, append-All s t hs k)

  doubled-All : P b'"' → (x : Bytes) → All P x → All P (doubled x)
  unfolding doubled
  doubled-All quote [] h = tt
  doubled-All quote (c ∷ x) (h, hs) = elim (Bool-cases (c == b'"')) [
    | inl e ↦ rw e (quote, (quote, doubled-All quote x hs))
    | inr e ↦ rw e (h, doubled-All quote x hs)
  ]

  pub quoted-All : P b'"' → (x : Bytes) → All P x → All P (quoted x)
  unfolding quoted
  quoted-All quote x h =
      (quote, append-All (doubled x) (b'"' ∷ []) (doubled-All quote x h) (quote, tt))

module _ ⦃absl : Absl⦄ (laws : AbslLaws) where
  replace-doubled : (x : Bytes) → absl.str_replace_all x (b'"' ∷ []) (b'"' ∷ b'"' ∷ []) ≡ doubled x
  unfolding doubled
  replace-doubled [] = laws.replace-nil b'"' (b'"' ∷ b'"' ∷ [])
  replace-doubled (c ∷ x) = elim (Bool-cases (c == b'"')) [
    | inl e ↦
        let same : c ≡ b'"' = ground (arith, e) in
        rw (e, same, laws.replace_hit b'"' x (b'"' ∷ b'"' ∷ []), replace-doubled x) refl
    | inr e ↦
        let other : c ≢ b'"' = ground (arith, e) in
        rw (e, laws.replace_miss b'"' c x (b'"' ∷ b'"' ∷ []) other, replace-doubled x) refl
  ]

  pub escape_for_csv-quoted : (x : Bytes) → escape_for_csv x ≡ quoted x
  unfolding escape_for_csv quoted
  escape_for_csv-quoted x = rw (replace-doubled x) refl

unquote-hit : (s : Bytes) → unquote (b'"' ∷ b'"' ∷ s) ≡ (b'"' ∷ (unquote s).0, (unquote s).1)
unfolding unquote
unquote-hit s = refl

unquote-miss : (c : ℕ) (s : Bytes) → c ≢ b'"' → unquote (c ∷ s) ≡ (c ∷ (unquote s).0, (unquote s).1)
unfolding unquote
unquote-miss c [] h = ground arith
unquote-miss c (x ∷ s) h = ground arith

unquote-doubled :
    (x rest : Bytes)
    → at_delimiter b',' rest ≡ true
    → unquote (doubled x ++ (b'"' ∷ rest)) ≡ (x, rest)
unfolding doubled at_delimiter
unquote-doubled [] [] h = unfold unquote in refl
unquote-doubled [] (r ∷ rest) h = unfold unquote in ground arith
unquote-doubled (c ∷ x) rest h = elim (Bool-cases (c == b'"')) [
  | inl e ↦
      let same : c ≡ b'"' = ground (arith, e) in
      rw (e, unquote-hit (doubled x ++ (b'"' ∷ rest)), unquote-doubled x rest h, same) refl
  | inr e ↦
      let other : c ≢ b'"' = ground (arith, e) in
      rw (e, unquote-miss c (doubled x ++ (b'"' ∷ rest)) other, unquote-doubled x rest h) refl
]

find_delimiter-at_delimiter :
    (rest : Bytes) → at_delimiter b',' rest ≡ true → find_delimiter b',' rest ≡ rest
unfolding find_delimiter at_delimiter
find_delimiter-at_delimiter [] h = refl
find_delimiter-at_delimiter (r ∷ rest) h = ground (arith, h)

pub split-quoted :
    (fuel : ℕ) (x rest : Bytes)
    → at_delimiter b',' rest ≡ true
    → split_csv_line_with_delimiter (suc fuel) b',' (b'"' ∷ (doubled x ++ (b'"' ∷ rest))) ≡ (
        split_csv_line_with_delimiter fuel b',' (step rest) >>= λ columns.
        ok (x ∷ another_column b',' rest ++ columns))
unfolding split_csv_line_with_delimiter read_column quoted_column skip_blanks is_blank is_space
split-quoted fuel x rest h =
    rw (unquote-doubled x rest h, find_delimiter-at_delimiter rest h, h) refl

before_delimiter-digits : (n : Bytes) → All IsDigit n → before_delimiter b',' n ≡ n
unfolding before_delimiter
before_delimiter-digits [] h = refl
before_delimiter-digits (c ∷ n) (d, h) = ground (arith, before_delimiter-digits n h)

find_delimiter-digits : (n : Bytes) → All IsDigit n → find_delimiter b',' n ≡ []
unfolding find_delimiter
find_delimiter-digits [] h = refl
find_delimiter-digits (c ∷ n) (d, h) = ground (arith, find_delimiter-digits n h)

is_blank-digit : (c : ℕ) → IsDigit c → is_blank b',' c ≡ false
unfolding is_blank is_space
is_blank-digit c h = ground arith

trim_end-digits : (n : Bytes) → All IsDigit n → trim_end b',' n ≡ n
unfolding trim_end
trim_end-digits [] h = refl
trim_end-digits (c ∷ []) (d, h) = rw (is_blank-digit c d) refl
trim_end-digits (c ∷ x ∷ n) (d, h) = rw (trim_end-digits (x ∷ n) h) refl

plain_column-digits : (n : Bytes) → All IsDigit n → plain_column b',' n ≡ (n, [])
unfolding plain_column
plain_column-digits n h =
    rw (before_delimiter-digits n h, trim_end-digits n h, find_delimiter-digits n h) refl

read_column-digits : (n : Bytes) → All IsDigit n → read_column b',' n ≡ (n, [])
unfolding read_column
read_column-digits [] h = plain_column-digits [] h
read_column-digits (c ∷ n) (d, h) = ground (arith, plain_column-digits (c ∷ n) (d, h))

pub split-digits :
    (fuel c : ℕ) (n : Bytes)
    → All IsDigit (c ∷ n)
    → split_csv_line_with_delimiter (suc fuel) b',' (c ∷ n) ≡ ok ((c ∷ n) ∷ [])
unfolding split_csv_line_with_delimiter skip_blanks
split-digits fuel c n (d, h) =
    rw (is_blank-digit c d, read_column-digits (c ∷ n) (d, h))
      (unfold at_delimiter another_column split_csv_line_with_delimiter in refl)
