-- ===== src/Sample/Files.antt =====
-- Small stand-ins for abseil's functions, a disk, and the source of random identifiers, each with its
-- laws: numbers in decimal, a disk as a list of named texts, and a counter.
use Prim.Native.String.{String}
use mathlib.Core.List.{Permᴰ, append-nil, append_assoc}
use text.Mathlib.Text.{◌==◌}
use text.Mathlib.TextEquality.{eq_iff}
use private_join_and_compute.Prelude.{
  ℕ, zero, suc, ◌+◌, ◌-◌, ◌*◌, ◌/◌, ◌%◌, ◌^◌, ◌<◌, ◌≤◌, ◌≡◌, ◌≢◌, refl, ap, ◌∙◌, true, false,
  Option, none, some, List, [], ◌∷◌, ◌++◌, All, arith, if◌then◌else◌, ltb, Bool-cases, inl, inr,
  ◌==◌ as nat_eq,
}
use private_join_and_compute.Prelude.Int.{ℤ, pos, negsuc}
use private_join_and_compute.Prelude.Bytes.{Bytes}
use private_join_and_compute.Data.Absl.{Absl, AbslLaws, IsDigit}
use private_join_and_compute.Data.Files.{Files, FilesLaws, write_all, concat}
use private_join_and_compute.Data.Random.{Entropy}
use private_join_and_compute.Data.Random.Identifiers.{EntropyLaws}

abbrev pub replace_byte : ℕ → Bytes → Bytes → Bytes
replace_byte a to [] = []
replace_byte a to (c ∷ cs) =
    let rest = replace_byte a to cs in if nat_eq c a then to ++ rest else c ∷ rest

abbrev pub replace_all : Bytes → Bytes → Bytes → Bytes
replace_all s [] to = s
replace_all s (a ∷ []) to = replace_byte a to s
replace_all s (a ∷ b ∷ pattern) to = s

-- In as many digits as the fuel allows.
unfoldable pub decimal : ℕ → ℕ → Bytes
decimal zero n = []
decimal (suc fuel) n = elim (ltb n 10) [
  | true ↦ (48 + n) ∷ []
  | false ↦ decimal fuel (n / 10) ++ ((48 + n % 10) ∷ [])
]

unfoldable pub read_decimal : ℕ → Bytes → ℕ
read_decimal n [] = n
read_decimal n (c ∷ cs) = read_decimal (n * 10 + (c - 48)) cs

read_decimal-append :
    (n : ℕ) (s : Bytes) (c : ℕ) → read_decimal n (s ++ (c ∷ [])) ≡ read_decimal n s * 10 + (c - 48)
unfolding read_decimal
read_decimal-append n [] c = refl
read_decimal-append n (x ∷ s) c = read_decimal-append (n * 10 + (x - 48)) s c

read_decimal-decimal : (fuel n : ℕ) → n < fuel → read_decimal 0 (decimal fuel n) ≡ n
unfolding decimal
read_decimal-decimal zero n h = absurd (omega (arith, h))
read_decimal-decimal (suc fuel) n h = elim (Bool-cases (ltb n 10)) [
  | inl e ↦ rw (e, decimal) (unfold read_decimal in omega arith)
  | inr e ↦
      let big : 10 ≤ n = ground (arith, e) in
      rw (e, decimal)
        (read_decimal-append 0 (decimal fuel (n / 10)) (48 + n % 10)
          ∙ rw (read_decimal-decimal fuel (n / 10) (omega (arith, h, big))) (omega arith))
]

append-IsDigit : (s : Bytes) (c : ℕ) → All IsDigit s → IsDigit c → All IsDigit (s ++ (c ∷ []))
append-IsDigit [] c h d = (d, tt)
append-IsDigit (x ∷ s) c (e, h) d = (e, append-IsDigit s c h d)

decimal-IsDigit : (fuel n : ℕ) → All IsDigit (decimal fuel n)
unfolding decimal
decimal-IsDigit zero n = tt
decimal-IsDigit (suc fuel) n = elim (Bool-cases (ltb n 10)) [
  | inl e ↦ let small : n < 10 = ground (arith, e) in rw (e, decimal) (omega (arith, small))
  | inr e ↦
      rw (e, decimal)
        (append-IsDigit (decimal fuel (n / 10)) (48 + n % 10) (decimal-IsDigit fuel (n / 10))
          (omega arith))
]

-- A byte that is no digit counts as 0.
unfoldable pub sample_atoi : Bytes → Option ℤ
unfolding read_decimal
sample_atoi s = if ltb (read_decimal 0 s) (2 ^ 63) then some (pos (read_decimal 0 s)) else none

unfoldable pub sample_int_text : ℤ → Bytes
unfolding decimal
sample_int_text (pos n) = decimal (suc n) n
sample_int_text (negsuc n) = b'-' ∷ decimal (suc (suc n)) (suc n)

instance abbrev pub sample_absl : Absl
sample_absl = record {
  str_replace_all = replace_all;
  int_text = sample_int_text;
  int_message = λ z. "n";
  simple_atoi = sample_atoi;
}

replace_byte_hit : (a : ℕ) (s to : Bytes) → replace_byte a to (a ∷ s) ≡ to ++ replace_byte a to s
replace_byte_hit a s to = ground arith

replace_byte_miss :
    (a c : ℕ) (s to : Bytes) → c ≢ a → replace_byte a to (c ∷ s) ≡ c ∷ replace_byte a to s
replace_byte_miss a c s to h = ground arith

atoi_int_text : (n : ℕ) → n < 2 ^ 63 → sample_atoi (sample_int_text (pos n)) ≡ some (pos n)
unfolding sample_atoi sample_int_text
atoi_int_text n h = rw (read_decimal-decimal (suc n) n (omega arith)) (ground (arith, h))

digits_text : (n : ℕ) → All IsDigit (sample_int_text (pos n))
unfolding sample_int_text
digits_text n = decimal-IsDigit (suc n) n

pub sample_absl_laws : AbslLaws
sample_absl_laws = record {
  replace-nil = λ a to. refl;
  replace_hit = replace_byte_hit;
  replace_miss = replace_byte_miss;
  int_text-pos = digits_text;
  simple_atoi-int_text = atoi_int_text;
}

-- The newest file of a name stands first.
abbrev pub NamedTexts : Type 0
NamedTexts = List (String × Bytes)

abbrev pub extend : Bytes → NamedTexts → NamedTexts
extend part [] = []
extend part ((n, b) ∷ d) = (n, b ++ part) ∷ d

abbrev pub find : String → NamedTexts → Option Bytes
find name [] = none
find name ((n, b) ∷ d) = let rest = find name d in if n == name then some b else rest

instance abbrev pub sample_files : Files
sample_files = record {
  Disk = NamedTexts;
  open_output = λ name d. (true, (name, []) ∷ d);
  write = λ name part d. extend part d;
  close_output = λ name d. (false, d);
  open_input = find;
  open_after_close = λ name d. false;
}

write_all-extend :
    (name : String) (parts : List Bytes) (b : Bytes) (d : NamedTexts)
    → write_all name parts ((name, b) ∷ d) ≡ (name, b ++ concat parts) ∷ d
write_all-extend name [] b d = rw append-nil refl
write_all-extend name (part ∷ parts) b d =
    write_all-extend name parts (b ++ part) d ∙ rw append_assoc refl

find_first : (name : String) (b : Bytes) (d : NamedTexts) → find name ((name, b) ∷ d) ≡ some b
find_first name b d = let (_, back) = eq_iff name name in rw (back refl) refl

find_other :
    (name other : String) (b : Bytes) (d : NamedTexts)
    → name ≢ other
    → find other ((name, b) ∷ d) ≡ find other d
find_other name other b d h = elim (Bool-cases (name == other)) [
  | inl e ↦ absurd (h ((eq_iff name other).0 e))
  | inr e ↦ rw e refl
]

pub sample_files_laws : FilesLaws
sample_files_laws = record {
  open_input-close_output = λ name parts d d₁ d₂ opened closed.
      let e : (name, []) ∷ d ≡ d₁ = ap (λ r. r.1) opened in
      let f : write_all name parts d₁ ≡ d₂ = ap (λ r. r.1) closed in
      rw (← f, ← e, write_all-extend name parts [] d) (find_first name (concat parts) d);
  open_input_other = λ name other parts d d₁ d₂ apart opened closed.
      let e : (name, []) ∷ d ≡ d₁ = ap (λ r. r.1) opened in
      let f : write_all name parts d₁ ≡ d₂ = ap (λ r. r.1) closed in
      rw (← f, ← e, write_all-extend name parts [] d)
        (find_other name other (concat parts) d apart);
  close_input = λ name d. refl;
}

-- rand counts up, and the shuffle swaps the first two.
abbrev pub swap_first : List Bytes → ℕ → List Bytes × ℕ
swap_first [] s = ([], s)
swap_first (x ∷ []) s = (x ∷ [], s)
swap_first (x ∷ y ∷ rest) s = (y ∷ x ∷ rest, s)

instance abbrev pub sample_entropy : Entropy
sample_entropy = record {
  Source = ℕ;
  rand = λ s. (s, suc s);
  seed_generator = λ s. s;
  shuffle = swap_first;
}

swap_first-Perm : (xs : List Bytes) (s : ℕ) → Permᴰ (swap_first xs s).0 xs
swap_first-Perm [] s = Permᴰ.nil
swap_first-Perm (x ∷ []) s = Permᴰ.cons refl Permᴰ.nil
swap_first-Perm (x ∷ y ∷ rest) s = Permᴰ.swap refl refl

pub sample_entropy_laws : EntropyLaws
sample_entropy_laws = record { shuffle-Perm = swap_first-Perm }
