-- ===== src/Sample/Group.antt =====
-- The sample library keeps the laws that the code relies on.
use native.Mathlib.Nat.{mod-lt, mul-zero, div-add-mod, mul_assoc}
use private_join_and_compute.Prelude.{
  ℕ, zero, suc, ◌+◌, ◌-◌, ◌*◌, ◌/◌, ◌%◌, ◌<◌, ◌≡◌, refl, sym, ap, ◌∙◌, Bool, true, ◌==◌, Option,
  some, [], ◌∷◌, arith,
}
use private_join_and_compute.Prelude.Mod.{mod-mul_right}
use private_join_and_compute.Prelude.Int.{ℤ, pos}
use private_join_and_compute.Crypto.OpenSsl.Laws.{BnLaws}
use private_join_and_compute.Crypto.OpenSsl.Curve.{Curve}
use private_join_and_compute.Sample.Numbers.{
  from_bytes, from_bytes-to_bytes, search-finds, gcd_loop,
}
use private_join_and_compute.Sample.Library.{sample, when_positive}

pub inverse-found :
    (a m b : ℕ)
    → 0 < m
    → a * b % m ≡ 1 % m
    → (r : ℕ) × (sample.bn_mod_inverse (pos a) (pos m) ≡ some (pos r))
      × (r < m)
      × (a * r % m ≡ 1 % m)
inverse-found a zero b h e = let no : ⊥ = omega (arith, h) in elim no [ ]
inverse-found a (suc m) b h e =
    let test : ℕ → Bool = λ r. a * r % suc m == 1 % suc m in
    let holds : test (b % suc m) ≡ true =
      let same : a * (b % suc m) % suc m ≡ 1 % suc m = mod-mul_right a b (suc m) ∙ e in
      ground (arith, same) in
    let (r, found, lt, inverts) = search-finds test (suc m) (b % suc m) (mod-lt b h) holds in
    (r, rw found, lt, ground (arith, inverts))

pub when_positive_lem : (m : ℕ) (f : ℕ → Option ℤ) → 0 < m → when_positive (pos m) f ≡ f m
when_positive_lem zero f h = let no : ⊥ = omega (arith, h) in elim no [ ]
when_positive_lem (suc m) f h = refl

pub division : (a b : ℕ) → 0 < b → sample.bn_div (pos a) (pos b) ≡ some (pos (a / b), pos (a % b))
division a zero h = let no : ⊥ = omega (arith, h) in elim no [ ]
division a (suc b) h = refl

pub draw :
    (n g : ℕ)
    → 0 < n
    → (r : ℕ) × (h : ℕ) × (sample.bn_rand_range (pos n) g ≡ (some (pos r), h)) × (r < n)
draw zero g h = let no : ⊥ = omega (arith, h) in elim no [ ]
draw (suc n) g h = (g % suc n, suc g, refl, mod-lt g h)

-- What is left of a multiple of e beside another multiple.
rest_of_multiple : (e k m r : ℕ) → e * k ≡ e * m + r → r ≡ e * (k - m)
rest_of_multiple e k zero r h =
    let none : e * zero ≡ 0 = mul-zero e in
    let same : k - 0 ≡ k = omega arith in rw same (omega (arith, h, none))
rest_of_multiple e zero (suc m) r h =
    let none : e * zero ≡ 0 = mul-zero e in
    let gone : zero - suc m ≡ 0 = omega arith in rw gone (omega (arith, h, none))
rest_of_multiple e (suc k) (suc m) r h =
    let same : suc k - suc m ≡ k - m = omega arith in
    rw same (rest_of_multiple e k m r (cancel e k m r h))
  where
    cancel : (e k m r : ℕ) → e * suc k ≡ e * suc m + r → e * k ≡ e * m + r
    cancel e k m r h = omega (arith, h)

gcd_positive : (fuel a b : ℕ) → 0 < a → 0 < gcd_loop fuel a b
unfolding gcd_loop
gcd_positive zero a b h = h
gcd_positive (suc fuel) a zero h = h
gcd_positive (suc fuel) a (suc b) h = gcd_positive fuel (suc b) (a % suc b) (omega arith)

gcd_greatest : (fuel a b e k l : ℕ) → a ≡ e * k → b ≡ e * l → (j : ℕ) × (gcd_loop fuel a b ≡ e * j)
unfolding gcd_loop
gcd_greatest zero a b e k l ak bl = (k, ak)
gcd_greatest (suc fuel) a zero e k l ak bl = (k, ak)
gcd_greatest (suc fuel) a (suc b) e k l ak bl =
    let t = a / suc b in
    let split : e * k ≡ e * (l * t) + a % suc b =
      sym ak
      ∙ sym (div-add-mod a (suc b))
      ∙ ap (λ x. x * t + a % suc b) bl
      ∙ ap (λ x. x + a % suc b) (mul_assoc e l t) in
    gcd_greatest fuel (suc b) (a % suc b) e l (k - l * t) bl
      (rest_of_multiple e k (l * t) (a % suc b) split)

pub gcd-found :
    (a b : ℕ)
    → 0 < b
    → (d : ℕ) × (sample.bn_gcd (pos a) (pos b) ≡ some (pos d))
      × (0 < d)
      × ((e k l : ℕ) → a ≡ e * k → b ≡ e * l → (j : ℕ) × (d ≡ e * j))
unfolding gcd_loop
gcd-found a zero h = let no : ⊥ = omega (arith, h) in elim no [ ]
gcd-found a (suc b) h = (
  gcd_loop (suc (suc b)) a (suc b),
  refl,
  gcd_positive (suc b) (suc b) (a % suc b) (omega arith),
  gcd_greatest (suc (suc b)) a (suc b),
)

pub hundred : 0 < 101
hundred = omega arith

unfoldable pub sample_laws : BnLaws sample
unfolding from_bytes
sample_laws = record {
  set_u64 = λ n h. refl;
  bin2bn = λ b. (from_bytes 0 b, refl);
  bin2bn-nil = refl;
  bin2bn-bn2bin = λ n. ap (λ k. some (pos k)) (from_bytes-to_bytes n n (omega arith));
  get_u64 = λ n h. ground (arith, h);
  get_u64_large = λ n h. ground (arith, h);
  is_zero_lem = λ a. refl;
  is_one_lem = λ a. refl;
  is_negative_lem = λ a. refl;
  cmp_lem = λ a b. refl;
  add_lem = λ a b. refl;
  sub_lem = λ a b. refl;
  mul_lem = λ a b. refl;
  div_lem = λ a b h. division a b h;
  exp_lem = λ a e. refl;
  nnmod_lem = λ a m h. when_positive_lem m _ h;
  mod_mul_lem = λ a b m h. when_positive_lem m _ h;
  mod_exp_lem = λ a e m h. when_positive_lem m _ h;
  mod_sqr_lem = λ a m h. when_positive_lem m _ h;
  gcd_lem = gcd-found;
  mod_inverse_lem = inverse-found;
  lshift_lem = λ a n. refl;
  rshift_lem = λ a n. refl;
  rand_range_lem = λ n g h. draw n g h;
}

abbrev pub sample_curve : Curve sample tt
sample_curve = record {
  plus = λ a b. (a + b) % 101;
  infinity = 0;
  opposite = λ a. (101 - a) % 101;
  times = λ a k. a * k % 101;
  encode = λ a. a ∷ [];
  order = 101;
  plus-on = λ a b h k. ground (arith, mod-lt (a + b) hundred);
  infinity-on = refl;
  opposite-on = λ a h. ground (arith, mod-lt (101 - a) hundred);
  plus_assoc = λ a b c h k l. omega arith;
  plus_comm = λ a b h k. omega arith;
  plus-infinity = λ a h. ground (arith, h);
  plus-opposite = λ a h. ground (arith, h);
  times-zero = λ a. omega arith;
  times-suc = λ a k. omega arith;
  times-order = λ a h. omega arith;
  new_lem = (0, refl);
  mul_lem = λ a k h. refl;
  add_lem = λ a b h k. refl;
  copy_lem = λ a. refl;
  invert_lem = λ a h. refl;
  at_infinity_lem = refl;
  not_at_infinity_lem = λ a h. ground (arith, h);
  point2oct_lem = λ a h. refl;
  oct2point_lem = λ a h k. rw h;
}
