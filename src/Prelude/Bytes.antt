-- ===== src/Prelude/Bytes.antt =====
-- A std::string is the list of its bytes, each below 256; `operator<` compares them as unsigned.
use Prim.Native.String.{String}
use Prim.Native.Char.{code}
use private_join_and_compute.Prelude.{
  ℕ, ◌≡◌, refl, Bool, true, false, List, [], ◌∷◌, arith, ltb, ◌==◌, if◌then◌else◌,
}

abbrev pub Bytes : Type 0
Bytes = List ℕ

-- The bytes of an ASCII text.
abbrev pub codes : String → Bytes
codes String.[] = []
codes (String.◌∷◌ c s) = code c ∷ codes s

-- std::string's operator<
unfoldable pub bytes_lt : Bytes → Bytes → Bool
bytes_lt [] [] = false
bytes_lt [] (y ∷ ys) = true
bytes_lt (x ∷ xs) [] = false
bytes_lt (x ∷ xs) (y ∷ ys) =
    let rest = bytes_lt xs ys in if ltb x y then true else if x == y then rest else false

pub bytes_lt_irrefl : (x : Bytes) → bytes_lt x x ≡ false
unfolding bytes_lt
bytes_lt_irrefl [] = refl
bytes_lt_irrefl (a ∷ x) = ground (arith, bytes_lt_irrefl x)

pub bytes_lt_trans :
    (x y z : Bytes) → bytes_lt x y ≡ true → bytes_lt y z ≡ true → bytes_lt x z ≡ true
unfolding bytes_lt
bytes_lt_trans [] y [] h k = ground (arith, bytes_lt_trans_nil y h k)
  where
    bytes_lt_trans_nil : (y : Bytes) → bytes_lt [] y ≡ true → bytes_lt y [] ≡ true → false ≡ true
    bytes_lt_trans_nil [] h k = h
    bytes_lt_trans_nil (b ∷ y) h k = k
bytes_lt_trans [] y (c ∷ z) h k = refl
bytes_lt_trans (a ∷ x) [] z h k = ground arith
bytes_lt_trans (a ∷ x) (b ∷ y) [] h k = k
bytes_lt_trans (a ∷ x) (b ∷ y) (c ∷ z) h k = ground (arith, bytes_lt_trans x y z)

-- Two strings neither of which is below the other are one string.
pub bytes_lt_connex : (x y : Bytes) → bytes_lt x y ≡ false → bytes_lt y x ≡ false → x ≡ y
unfolding bytes_lt
bytes_lt_connex [] [] h k = refl
bytes_lt_connex [] (b ∷ y) h k = ground arith
bytes_lt_connex (a ∷ x) [] h k = ground arith
bytes_lt_connex (a ∷ x) (b ∷ y) h k = ground (arith, bytes_lt_connex x y)

pub bytes_lt_asymm : (x y : Bytes) → bytes_lt x y ≡ true → bytes_lt y x ≡ false
unfolding bytes_lt
bytes_lt_asymm [] [] h = refl
bytes_lt_asymm [] (b ∷ y) h = refl
bytes_lt_asymm (a ∷ x) [] h = ground arith
bytes_lt_asymm (a ∷ x) (b ∷ y) h = ground (arith, bytes_lt_asymm x y)

pub bytes_lt-false_trans :
    (x y z : Bytes) → bytes_lt x y ≡ false → bytes_lt y z ≡ false → bytes_lt x z ≡ false
unfolding bytes_lt
bytes_lt-false_trans [] [] z h k = k
bytes_lt-false_trans [] (b ∷ y) z h k = ground arith
bytes_lt-false_trans (a ∷ x) [] [] h k = refl
bytes_lt-false_trans (a ∷ x) [] (c ∷ z) h k = ground arith
bytes_lt-false_trans (a ∷ x) (b ∷ y) [] h k = refl
bytes_lt-false_trans (a ∷ x) (b ∷ y) (c ∷ z) h k = ground (arith, bytes_lt-false_trans x y z)

pub bytes_lt_of_not_below :
    (x y z : Bytes) → bytes_lt x y ≡ true → bytes_lt z y ≡ false → bytes_lt x z ≡ true
unfolding bytes_lt
bytes_lt_of_not_below [] [] z h k = ground arith
bytes_lt_of_not_below [] (b ∷ y) [] h k = ground arith
bytes_lt_of_not_below [] (b ∷ y) (c ∷ z) h k = refl
bytes_lt_of_not_below (a ∷ x) [] z h k = ground arith
bytes_lt_of_not_below (a ∷ x) (b ∷ y) [] h k = ground arith
bytes_lt_of_not_below (a ∷ x) (b ∷ y) (c ∷ z) h k = ground (arith, bytes_lt_of_not_below x y z)
