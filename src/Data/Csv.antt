-- ===== src/Data/Csv.antt =====
-- Lines of CSV text (data_util.cc). A `char*` is the list of the bytes before its NUL; the columns
-- that the source cuts out of its buffer in place are lists of their own. isspace is that of the C
-- locale, where no byte from 128 on is a space.
pub mod Columns
pub mod Quoted
pub mod Row
use private_join_and_compute.Prelude.{
  ℕ, zero, suc, Bool, true, false, List, [], ◌∷◌, ◌++◌, not, ◌&&◌, ◌||◌, length, leb, ◌==◌,
  if◌then◌else◌,
}
use private_join_and_compute.Prelude.Bytes.{Bytes}
use private_join_and_compute.Util.Result.{Result, ok, running, check, ◌>>=◌, ◌>>◌}
use private_join_and_compute.Data.Absl.{Absl}

-- strndup_with_new(the_string, max_length), whose strncpy ends at a NUL
unfoldable pub strndup_with_new : Bytes → Bytes
strndup_with_new [] = []
strndup_with_new (c ∷ cs) = let rest = strndup_with_new cs in if c == 0 then [] else c ∷ rest

unfoldable pub is_space : ℕ → Bool
is_space c = (leb 9 c && leb c 13) || c == 32

-- A space that is not the delimiter.
unfoldable pub is_blank : ℕ → ℕ → Bool
unfolding is_space
is_blank delimiter c = is_space c && not (c == delimiter)

-- `while (std::isspace(*line) && *line != delimiter) ++line;`
unfoldable pub skip_blanks : ℕ → Bytes → Bytes
unfolding is_blank
skip_blanks delimiter [] = []
skip_blanks delimiter (c ∷ cs) =
    let rest = skip_blanks delimiter cs in if is_blank delimiter c then rest else c ∷ cs

-- strchr(line, delimiter), and the end of the line in place of a null pointer
unfoldable pub find_delimiter : ℕ → Bytes → Bytes
find_delimiter delimiter [] = []
find_delimiter delimiter (c ∷ cs) =
    let rest = find_delimiter delimiter cs in if c == delimiter then c ∷ cs else rest

-- What stands before the place that `find_delimiter` finds.
unfoldable pub before_delimiter : ℕ → Bytes → Bytes
before_delimiter delimiter [] = []
before_delimiter delimiter (c ∷ cs) =
    let rest = before_delimiter delimiter cs in if c == delimiter then [] else c ∷ rest

-- `for (end = line; end > start; --end)`
unfoldable pub trim_end : ℕ → Bytes → Bytes
unfolding is_blank
trim_end delimiter [] = []
trim_end delimiter (c ∷ cs) = elim (trim_end delimiter cs) [
  | [] ↦ if is_blank delimiter c then [] else c ∷ []
  | x ∷ xs ↦ c ∷ x ∷ xs
]

-- The loop over a quoted value: what it writes, and where it leaves the line.
unfoldable pub unquote : Bytes → Bytes × Bytes
unquote [] = ([], [])
unquote (c ∷ []) = if c == b'"' then ([], []) else (c ∷ [], [])
unquote (c ∷ x ∷ rest) = elim (c == b'"') [
  | true ↦ elim (x == b'"') [
    | true ↦ let (value, left) = unquote rest in (b'"' ∷ value, left)
    | false ↦ ([], x ∷ rest)
  ]
  | false ↦ let (value, left) = unquote (x ∷ rest) in (c ∷ value, left)
]

unfoldable pub quoted_column : ℕ → Bytes → Bytes × Bytes
unfolding unquote find_delimiter
quoted_column delimiter line =
    let (value, left) = unquote line in (value, find_delimiter delimiter left)

unfoldable pub plain_column : ℕ → Bytes → Bytes × Bytes
unfolding before_delimiter trim_end find_delimiter
plain_column delimiter line =
    (trim_end delimiter (before_delimiter delimiter line), find_delimiter delimiter line)

-- One column, and the line from its delimiter on.
unfoldable pub read_column : ℕ → Bytes → Bytes × Bytes
unfolding quoted_column plain_column
read_column delimiter [] = plain_column delimiter []
read_column delimiter (c ∷ cs) =
    if c == b'"' && delimiter == b','
    then quoted_column delimiter cs
    else plain_column delimiter (c ∷ cs)

-- need_another_column, and the empty column that it adds
unfoldable pub another_column : ℕ → Bytes → List Bytes
another_column delimiter (c ∷ []) = if c == delimiter then [] ∷ [] else []
another_column delimiter line = []

-- `assert(*line == '\0' || *line == delimiter)`
unfoldable pub at_delimiter : ℕ → Bytes → Bool
at_delimiter delimiter [] = true
at_delimiter delimiter (c ∷ cs) = c == delimiter

-- The `line++` of the outer loop.
abbrev pub step : Bytes → Bytes
step [] = []
step (c ∷ cs) = cs

-- SplitCSVLineWithDelimiter, for as many rounds of its loop as the fuel allows
unfoldable pub split_csv_line_with_delimiter : ℕ → ℕ → Bytes → Result (List Bytes)
unfolding skip_blanks read_column another_column at_delimiter
split_csv_line_with_delimiter fuel delimiter [] = ok []
split_csv_line_with_delimiter zero delimiter (c ∷ cs) = running
split_csv_line_with_delimiter (suc fuel) delimiter (c ∷ cs) =
    let (column, line) = read_column delimiter (skip_blanks delimiter (c ∷ cs)) in
    do
      check (at_delimiter delimiter line)
      columns ← split_csv_line_with_delimiter fuel delimiter (step line)
      ok (column ∷ another_column delimiter line ++ columns)

-- A round for each byte of the line.
unfoldable pub split_csv_line_with_delimiter_for_strings : Bytes → ℕ → Result (List Bytes)
unfolding strndup_with_new split_csv_line_with_delimiter
split_csv_line_with_delimiter_for_strings line delimiter =
    let cline = strndup_with_new line in
    split_csv_line_with_delimiter (length cline) delimiter cline

unfoldable pub split_csv_line : Bytes → Result (List Bytes)
unfolding split_csv_line_with_delimiter_for_strings
split_csv_line line = split_csv_line_with_delimiter_for_strings line b','

unfoldable pub escape_for_csv : ⦃absl : Absl⦄ → Bytes → Bytes
escape_for_csv ⦃absl⦄ input =
    (b'"' ∷ []) ++ absl.str_replace_all input (b'"' ∷ []) (b'"' ∷ b'"' ∷ []) ++ (b'"' ∷ [])
