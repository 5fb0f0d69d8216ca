-- ===== src/Crypto/Paillier/Fermat.antt =====
-- Arithmetic modulo a prime and modulo its powers, for the theorems about crypto/paillier.cc.
use native.Mathlib.Nat.{
  pow-suc, pow-zero, one-mul, mul_assoc, mul-mod_right, zero-mod, add-mul-mod_self_left,
  mod-eq_of_lt, one-le-pow, div-add-mod,
}
use private_join_and_compute.Prelude.{
  ℕ, zero, suc, ◌+◌, ◌-◌, ◌*◌, ◌/◌, ◌%◌, ◌^◌, ◌<◌, ◌≤◌, ◌≡◌, refl, sym, ap, ◌∙◌, arith,
}
use private_join_and_compute.Prelude.Mod.{
  mod-mul_cong, mod-add_cong, mod-pow_cong, mod-mul_cancel, mod-mul_unit, mod_cong_down, one_pow,
  pow_mul, pow_pow,
}
use private_join_and_compute.Crypto.Paillier.Binomial.{
  choose, factorial, falling, expansion, choose-factorial, choose_zero, choose_one, pow-expansion,
  expansion-suc, expansion_stops,
}

-- More than 1, and every number from 1 up to it has an inverse modulo it: a prime number.
unfoldable pub IsFieldOrder : ℕ → Type 0
IsFieldOrder p = (1 < p) × ((j : ℕ) → 0 < j → j < p → (b : ℕ) × (j * b % p ≡ 1 % p))

factorial_unit :
    (p : ℕ) → IsFieldOrder p → (k : ℕ) → k < p → (b : ℕ) × (factorial k * b % p ≡ 1 % p)
unfolding factorial IsFieldOrder
factorial_unit p field zero h = (1, refl)
factorial_unit p field (suc k) h =
    let (b, e) = factorial_unit p field k (omega (arith, h)) in
    let (c, f) = field.1 (suc k) (omega arith) h in
    (b * c, mod-mul_unit (factorial k) b (suc k) c p e f)

falling_multiple : (p j : ℕ) → (w : ℕ) × (falling p (suc j) ≡ p * w)
unfolding falling
falling_multiple p zero = (1, omega arith)
falling_multiple p (suc j) =
    let (w, e) = falling_multiple p j in
    (w * (p - suc j), ap (λ t. t * (p - suc j)) e ∙ mul_assoc p w (p - suc j))

-- A prime divides the binomial coefficients between the ends.
choose_prime : (p : ℕ) → IsFieldOrder p → (k : ℕ) → suc k < p → choose p (suc k) % p ≡ 0 % p
choose_prime p field k h =
    let (b, e) = factorial_unit p field (suc k) h in
    let (w, f) = falling_multiple p k in
    let vanishes : choose p (suc k) * factorial (suc k) % p ≡ 0 * factorial (suc k) % p =
      ap (λ t. t % p) (choose-factorial p (suc k) ∙ f)
      ∙ mul-mod_right p w
      ∙ sym (zero-mod p)
      ∙ ap (λ t. t % p) (no_times (factorial (suc k))) in
    mod-mul_cancel (choose p (suc k)) 0 (factorial (suc k)) b p vanishes e
  where
    no_times : (x : ℕ) → 0 ≡ 0 * x
    no_times x = omega arith

expansion_prime : (p n : ℕ) → IsFieldOrder p → (j : ℕ) → j < p → expansion n p j % p ≡ 1 % p
unfolding expansion
expansion_prime p n field zero h = refl
expansion_prime p n field (suc j) h =
    let rest = expansion_prime p n field j (omega (arith, h)) in
    let term : choose p (suc j) * n ^ suc j % p ≡ 0 % p =
      mod-mul_cong (choose p (suc j)) 0 (n ^ suc j) p (choose_prime p field j h)
      ∙ ap (λ t. t % p) (no_times (n ^ suc j)) in
    mod-add_cong (expansion n p j) 1 (choose p (suc j) * n ^ suc j) 0 p rest term
  where
    no_times : (x : ℕ) → 0 * x ≡ 0
    no_times x = omega arith

choose_self : (m : ℕ) → choose m m ≡ 1
unfolding choose
choose_self zero = refl
choose_self (suc m) = rw (choose_self m, choose_zero m (suc m) (omega arith)) (omega arith)

-- The whole power.
pow-expansion_full : (n m : ℕ) → (1 + n) ^ m ≡ expansion n m m
pow-expansion_full n zero = unfold expansion in pow-zero (1 + n)
pow-expansion_full n (suc m) =
    let stops : expansion n m (suc m) ≡ expansion n m m =
      ap (expansion n m) (one_more m) ∙ expansion_stops n m m 1 (omega arith) in
    rw (pow-suc (1 + n) m, pow-expansion_full n m, expansion-suc n m m, stops) (omega arith)
  where
    one_more : (m : ℕ) → suc m ≡ m + 1
    one_more m = omega arith

-- Fermat's little theorem.
pow_prime : (p : ℕ) → IsFieldOrder p → (a : ℕ) → a ^ p % p ≡ a % p
unfolding IsFieldOrder
pow_prime zero field a = absurd (let h : 1 < 0 = field.0 in omega (arith, h))
pow_prime (suc p) field zero = ap (λ t. t % suc p) (pow-suc 0 p ∙ omega arith)
pow_prime (suc p) field (suc a) =
    let q = suc p in
    let whole : suc a ^ q ≡ expansion a q p + a ^ q =
      ap (λ t. t ^ q) (one_more a)
      ∙ pow-expansion_full a q
      ∙ (unfold expansion in rw (choose_self q, one-mul (a ^ q)) refl) in
    ap (λ t. t % q) whole
    ∙ mod-add_cong (expansion a q p) 1 (a ^ q) a q (expansion_prime q a field p (omega arith))
        (pow_prime (suc p) field a)
    ∙ ap (λ t. t % q) (sym (one_more a))
  where
    one_more : (m : ℕ) → suc m ≡ 1 + m
    one_more m = omega arith

pub pow_prime_unit : (p z w : ℕ) → IsFieldOrder p → z * w % p ≡ 1 % p → z ^ (p - 1) % p ≡ 1 % p
unfolding IsFieldOrder
pow_prime_unit zero z w field e = absurd (let h : 1 < 0 = field.0 in omega (arith, h))
pow_prime_unit (suc p) z w field e =
    let below : suc p - 1 ≡ p = omega arith in
    ap (λ k. z ^ k % suc p) below
    ∙ mod-mul_cancel (z ^ p) 1 z w (suc p)
        (ap (λ t. t % suc p) (sym (pow-suc z p))
          ∙ pow_prime (suc p) field z
          ∙ ap (λ t. t % suc p) (sym (one-mul z)))
        e

-- A number congruent to 1 modulo P is 1 more than a multiple of P.
pub above_one : (x P : ℕ) → 1 < P → x % P ≡ 1 % P → x ≡ 1 + P * (x / P)
above_one x P h e =
    let one : x % P ≡ 1 = e ∙ mod-eq_of_lt h in
    sym (div-add-mod x P) ∙ ap (λ t. P * (x / P) + t) one ∙ swap (P * (x / P))
  where
    swap : (y : ℕ) → y + 1 ≡ 1 + y
    swap y = omega arith

expansion_first : (P t p : ℕ) → expansion (P * t) p 1 ≡ 1 + P * p * t
unfolding expansion
expansion_first P t p =
    let one = pow-suc (P * t) 0 ∙ ap (λ v. v * (P * t)) (pow-zero (P * t)) in
    rw (choose_one p, one) (omega arith)

-- One more power of p.
pow_lift :
    (p x k : ℕ)
    → 1 < p
    → x % p ^ suc k ≡ 1 % p ^ suc k
    → x ^ p % p ^ suc (suc k) ≡ 1 % p ^ suc (suc k)
pow_lift p x k h e =
    let P = p ^ suc k in
    let large : 1 < P =
      let smaller = one-le-pow k p (omega (arith, h)) in
      let e' = pow-suc p k in rw e' (grow (p ^ k) p smaller h) in
    let t = x / P in
    let split : x ≡ 1 + P * t = above_one x P large e in
    let scale : P * t * (P * t) ≡ P * p * (p ^ k * t * t) =
      ap (λ v. P * t * (v * t)) (pow-suc p k) ∙ shuffle P t (p ^ k) p in
    let square : (P * t) ^ suc 1 ≡ P * p * (p ^ k * t * t) = two_powers (P * t) ∙ scale in
    let near = pow-expansion (P * t) p 1 in
    let near' = rw (square, expansion_first P t p) at near in
    let close = mod_cong_down ((1 + P * t) ^ p) (1 + P * p * t) (P * p) (p ^ k * t * t) near' in
    rw (pow-suc p (suc k))
      (ap (λ v. v ^ p % (P * p)) split ∙ close ∙ add-mul-mod_self_left 1 (P * p) t)
  where
    grow : (a p : ℕ) → 1 ≤ a → 1 < p → 1 < a * p
    grow zero p h g = absurd (omega (arith, h))
    grow (suc a) p h g = omega (arith, g)

    shuffle : (P t a p : ℕ) → P * t * (a * p * t) ≡ P * p * (a * t * t)
    shuffle P t a p = omega arith

    two_powers : (y : ℕ) → y ^ suc 1 ≡ y * y
    two_powers y =
        pow-suc y 1 ∙ ap (λ v. v * y) (pow-suc y 0 ∙ ap (λ v. v * y) (pow-zero y) ∙ one-mul y)

pub pow_lift_all :
    (p x : ℕ) → 1 < p → x % p ≡ 1 % p → (s : ℕ) → x ^ (p ^ s) % p ^ suc s ≡ 1 % p ^ suc s
pow_lift_all p x h e zero =
    rw (pow-suc p 0, pow-zero p, one-mul p, pow-suc x 0, pow-zero x, one-mul x) e
pow_lift_all p x h e (suc s) =
    ap (λ t. t % p ^ suc (suc s)) (ap (λ t. x ^ t) (pow-suc p s) ∙ sym (pow_pow x (p ^ s) p))
    ∙ pow_lift p (x ^ (p ^ s)) s h (pow_lift_all p x h e s)

-- An inverse modulo a prime gives one modulo the powers of the prime.
pub unit_lift :
    (p z w s : ℕ)
    → IsFieldOrder p
    → z * w % p ≡ 1 % p
    → (v : ℕ) × (z * v % p ^ suc s ≡ 1 % p ^ suc s)
unfolding IsFieldOrder
unit_lift p z w s field e =
    let h = pow_lift_all p (z * w) field.0 e s in
    let positive = one-le-pow s p (let g : 1 < p = field.0 in omega (arith, g)) in
    let next : suc (p ^ s - 1) ≡ p ^ s = omega (arith, positive) in
    let same : z * (w * (z * w) ^ (p ^ s - 1)) ≡ (z * w) ^ (p ^ s) =
      shuffle z w ((z * w) ^ (p ^ s - 1))
      ∙ sym (pow-suc (z * w) (p ^ s - 1))
      ∙ ap (λ k. (z * w) ^ k) next in
    (w * (z * w) ^ (p ^ s - 1), ap (λ t. t % p ^ suc s) same ∙ h)
  where
    shuffle : (z w y : ℕ) → z * (w * y) ≡ y * (z * w)
    shuffle z w y = omega arith

pub unit-pow : (g h r p : ℕ) → g * h % p ≡ 1 % p → g ^ r * h ^ r % p ≡ 1 % p
unit-pow g h r p e =
    ap (λ t. t % p) (sym (pow_mul g h r))
    ∙ mod-pow_cong (g * h) 1 r p e
    ∙ ap (λ t. t % p) (one_pow r)
