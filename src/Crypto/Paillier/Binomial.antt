-- ===== src/Crypto/Paillier/Binomial.antt =====
-- Binomial coefficients on the native numbers, and the powers of 1 + n modulo a power of n.
use native.Mathlib.Nat.{
  add-zero, add-suc, pow-suc, pow-zero, add-mul-mod_self_right, add-mul-mod_self_left, mul_assoc,
}
use private_join_and_compute.Prelude.{
  ℕ, zero, suc, ◌+◌, ◌-◌, ◌*◌, ◌%◌, ◌^◌, ◌<◌, ◌≤◌, ◌≡◌, refl, sym, ap, ◌∙◌, arith, leb, Bool-cases,
  inl, inr,
}
use private_join_and_compute.Prelude.Mod.{mod-mul_left, pow_add, pow_mul}

unfoldable pub choose : ℕ → ℕ → ℕ
choose m zero = 1
choose zero (suc j) = 0
choose (suc m) (suc j) = choose m j + choose m (suc j)

unfoldable pub factorial : ℕ → ℕ
factorial zero = 1
factorial (suc j) = factorial j * suc j

-- m (m - 1) ... (m - j + 1)
unfoldable pub falling : ℕ → ℕ → ℕ
falling m zero = 1
falling m (suc j) = falling m j * (m - j)

pub choose_zero : (m j : ℕ) → m < j → choose m j ≡ 0
unfolding choose
choose_zero m zero h = absurd (omega (arith, h))
choose_zero zero (suc j) h = refl
choose_zero (suc m) (suc j) h =
    rw (choose_zero m j (omega (arith, h)), choose_zero m (suc j) (omega (arith, h))) (omega arith)

choose_absorb : (m j : ℕ) → choose (suc m) (suc j) * suc j ≡ suc m * choose m j
unfolding choose
choose_absorb zero zero = omega arith
choose_absorb zero (suc j) = omega arith
choose_absorb (suc m) zero = omega (arith, choose_absorb m zero)
choose_absorb (suc m) (suc j) = omega (arith, choose_absorb m j, choose_absorb m (suc j))

choose-suc_of : (m j d : ℕ) → j + d ≡ m → choose m (suc j) * suc j ≡ choose m j * d
choose-suc_of m j d h =
    let pascal : choose (suc m) (suc j) ≡ choose m j + choose m (suc j) = unfold choose in refl in
    let absorbed : (choose m j + choose m (suc j)) * suc j ≡ suc (j + d) * choose m j =
      rw (← pascal, h) (choose_absorb m j) in
    omega (arith, absorbed)

choose-suc : (m j : ℕ) → choose m (suc j) * suc j ≡ choose m j * (m - j)
choose-suc m j = elim (Bool-cases (leb j m)) [
  | inl e ↦
      let le : j ≤ m = ground (arith, e) in
      let rest : j + (m - j) ≡ m = omega (arith, le) in choose-suc_of m j (m - j) rest
  | inr e ↦
      let lt : m < j = ground (arith, e) in
      rw (choose_zero m j lt, choose_zero m (suc j) (omega (arith, lt))) (omega arith)
]

-- The sum of the terms up to the index s.
unfoldable pub expansion : ℕ → ℕ → ℕ → ℕ
unfolding choose
expansion n m zero = 1
expansion n m (suc s) = expansion n m s + choose m (suc s) * n ^ suc s

pub expansion-suc :
    (n m s : ℕ) → expansion n (suc m) (suc s) ≡ expansion n m (suc s) + n * expansion n m s
unfolding expansion choose
expansion-suc n m zero = rw (pow-suc n 0, pow-zero n) (omega arith)
expansion-suc n m (suc s) =
    rw (expansion-suc n m s, pow-suc n (suc s)) (unfold expansion in omega arith)

expansion-zero : (n s : ℕ) → expansion n 0 s ≡ 1
unfolding expansion choose
expansion-zero n zero = refl
expansion-zero n (suc s) = rw (expansion-zero n s) (omega arith)

expansion-step :
    (n m s : ℕ) → expansion n m s * (1 + n) % n ^ suc s ≡ expansion n (suc m) s % n ^ suc s
unfolding expansion
expansion-step n m zero =
    rw (pow-suc n 0, pow-zero n)
      (ap (λ t. t % (1 * n)) (omega arith) ∙ add-mul-mod_self_right 1 1 (1 * n))
expansion-step n m (suc s) =
    let e : expansion n m (suc s) * (1 + n)
        ≡ expansion n (suc m) (suc s) + choose m (suc s) * n ^ suc (suc s) =
      rw (expansion-suc n m s, pow-suc n (suc s)) (unfold expansion in omega arith) in
    rw e (add-mul-mod_self_right (expansion n (suc m) (suc s)) (choose m (suc s)) (n ^ suc (suc s)))

-- The terms above the index s vanish modulo the power s + 1 of n.
pub pow-expansion : (n m s : ℕ) → (1 + n) ^ m % n ^ suc s ≡ expansion n m s % n ^ suc s
pow-expansion n zero s = rw (pow-zero (1 + n), expansion-zero n s) refl
pow-expansion n (suc m) s = rw (pow-suc (1 + n) m) (
    sym (mod-mul_left ((1 + n) ^ m) (1 + n) (n ^ suc s))
    ∙ ap (λ t. t * (1 + n) % n ^ suc s) (pow-expansion n m s)
    ∙ mod-mul_left (expansion n m s) (1 + n) (n ^ suc s)
    ∙ expansion-step n m s)

pub choose-factorial : (m j : ℕ) → choose m j * factorial j ≡ falling m j
unfolding factorial falling
choose-factorial m zero = unfold choose in refl
choose-factorial m (suc j) =
    let step = ap (λ t. t * factorial j) (choose-suc m j) in
    let rest = ap (λ t. t * (m - j)) (choose-factorial m j) in omega (arith, step, rest)

-- The terms above the index m are 0.
pub expansion_stops : (n m i k : ℕ) → m ≤ i → expansion n m (i + k) ≡ expansion n m i
unfolding expansion
expansion_stops n m i zero h = rw add-zero refl
expansion_stops n m i (suc k) h =
    rw (add-suc i k, choose_zero m (suc (i + k)) (omega (arith, h)), expansion_stops n m i k h)
      (omega arith)

-- What is left of the expansion without its first term, divided by n.
unfoldable pub log_sum : ℕ → ℕ → ℕ → ℕ
unfolding choose
log_sum n m zero = 0
log_sum n m (suc s) = log_sum n m s + choose m (suc s) * n ^ s

pub expansion-log_sum : (n m s : ℕ) → expansion n m s ≡ 1 + n * log_sum n m s
unfolding expansion log_sum
expansion-log_sum n m zero = omega arith
expansion-log_sum n m (suc s) =
    rw (expansion-log_sum n m s, pow-suc n s) (shuffle n (log_sum n m s) (choose m (suc s)) (n ^ s))
  where
    shuffle : (n l c x : ℕ) → 1 + n * l + c * (x * n) ≡ 1 + n * (l + c * x)
    shuffle n l c x = omega arith

-- The terms above the index j vanish modulo the power j of a divisor of n.
pub log_sum_down : (p q m j r : ℕ) → log_sum (p * q) m (j + r) % p ^ j ≡ log_sum (p * q) m j % p ^ j
unfolding log_sum
log_sum_down p q m j zero =
    let e : j + 0 ≡ j = omega arith in ap (λ k. log_sum (p * q) m k % p ^ j) e
log_sum_down p q m j (suc r) =
    let n = p * q in
    let e : j + suc r ≡ suc (j + r) = omega arith in
    let power : n ^ (j + r) ≡ p ^ j * (q ^ j * n ^ r) =
      pow_add n j r ∙ ap (λ t. t * n ^ r) (pow_mul p q j) ∙ mul_assoc (p ^ j) (q ^ j) (n ^ r) in
    let c = choose m (suc (j + r)) in
    let term : c * n ^ (j + r) ≡ p ^ j * (c * (q ^ j * n ^ r)) =
      ap (λ t. c * t) power ∙ shuffle c (p ^ j) (q ^ j * n ^ r) in
    ap (λ k. log_sum n m k % p ^ j) e
    ∙ ap (λ t. (log_sum n m (j + r) + t) % p ^ j) term
    ∙ add-mul-mod_self_left (log_sum n m (j + r)) (p ^ j) (c * (q ^ j * n ^ r))
    ∙ log_sum_down p q m j r
  where
    shuffle : (c x y : ℕ) → c * (x * y) ≡ x * (c * y)
    shuffle c x y = omega arith

pub choose_one : (m : ℕ) → choose m 1 ≡ m
unfolding choose
choose_one zero = refl
choose_one (suc m) = rw (choose_one m) (omega arith)

pub log_sum_first : (n m : ℕ) → log_sum n m 1 ≡ m
unfolding log_sum
log_sum_first n m = rw (choose_one m, pow-zero n) (omega arith)
