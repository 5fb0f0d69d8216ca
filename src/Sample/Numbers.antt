-- ===== src/Sample/Numbers.antt =====
-- The arithmetic of the sample library, where the native numbers do not have it.
use private_join_and_compute.Prelude.{
  ℕ, zero, suc, ◌+◌, ◌*◌, ◌/◌, ◌%◌, ◌≤◌, ◌<◌, ◌≡◌, refl, Bool, true, false, ◌==◌, Option, none,
  some, [], ◌∷◌, ◌++◌, arith, Bool-cases, inl, inr,
}
use private_join_and_compute.Prelude.Int.{ℤ, pos, negsuc}
use private_join_and_compute.Prelude.Bytes.{Bytes}

-- Big-endian digits in base 256.
unfoldable pub to_bytes : ℕ → ℕ → Bytes
to_bytes zero n = []
to_bytes (suc fuel) zero = []
to_bytes (suc fuel) (suc n) = to_bytes fuel (suc n / 256) ++ suc n % 256 ∷ []

unfoldable pub from_bytes : ℕ → Bytes → ℕ
from_bytes acc [] = acc
from_bytes acc (b ∷ bs) = from_bytes (acc * 256 + b) bs

from_bytes-append :
    (acc : ℕ) (bs : Bytes) (d : ℕ) → from_bytes acc (bs ++ d ∷ []) ≡ from_bytes acc bs * 256 + d
unfolding from_bytes
from_bytes-append acc [] d = refl
from_bytes-append acc (b ∷ bs) d = from_bytes-append (acc * 256 + b) bs d

pub from_bytes-to_bytes : (fuel n : ℕ) → n ≤ fuel → from_bytes 0 (to_bytes fuel n) ≡ n
unfolding to_bytes from_bytes
from_bytes-to_bytes zero n h = omega (arith, h)
from_bytes-to_bytes (suc fuel) zero h = refl
from_bytes-to_bytes (suc fuel) (suc n) h =
    let step = from_bytes-append 0 (to_bytes fuel (suc n / 256)) (suc n % 256) in
    let rest = from_bytes-to_bytes fuel (suc n / 256) (omega (arith, h)) in
    rw (step, rest) (omega arith)

-- The largest number below `k` that passes a test.
unfoldable pub search : (ℕ → Bool) → ℕ → Option ℕ
search test zero = none
search test (suc k) = elim (test k) [ true ↦ some k | false ↦ search test k ]

pub search-finds :
    (test : ℕ → Bool) (k r : ℕ)
    → r < k
    → test r ≡ true
    → (n : ℕ) × (search test k ≡ some n) × (n < k) × (test n ≡ true)
unfolding search
search-finds test zero r h e = let no : ⊥ = omega (arith, h) in elim no [ ]
search-finds test (suc k) r h e = elim (Bool-cases (test k)) [
  | inl passes ↦ (k, rw (passes, search) refl, omega arith, passes)
  | inr fails ↦
      let below : r < k = ground (arith, h, e, fails) in
      let (n, found, lt, holds) = search-finds test k r below e in
      (n, rw (fails, search) found, omega (arith, lt), holds)
]

-- How many bits a number has.
unfoldable pub bits : ℕ → ℕ → ℕ
bits zero n = 0
bits (suc fuel) zero = 0
bits (suc fuel) (suc n) = suc (bits fuel (suc n / 2))

unfoldable pub gcd_loop : ℕ → ℕ → ℕ → ℕ
gcd_loop zero a b = a
gcd_loop (suc fuel) a zero = a
gcd_loop (suc fuel) a (suc b) = gcd_loop fuel (suc b) (a % suc b)

abbrev pub magnitude : ℤ → ℕ
magnitude (pos n) = n
magnitude (negsuc n) = suc n

-- Trial division by the numbers from 2 up to `k`.
unfoldable pub has_divisor : ℕ → ℕ → Bool
has_divisor n zero = false
has_divisor n (suc zero) = false
has_divisor n (suc (suc k)) = elim (n % suc (suc k) == 0) [
  | true ↦ true
  | false ↦ has_divisor n (suc k)
]
