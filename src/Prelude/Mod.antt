-- ===== src/Prelude/Mod.antt =====
-- Products modulo a number.
use Prim.Native.Nat.{ℕ, zero, suc, ◌^◌, ◌+◌, ◌*◌, ◌/◌, ◌%◌}
use mathlib.Core.Path.{◌≡◌, refl, sym, ap, ◌∙◌}
use native.Mathlib.Omega.{arith}
use native.Mathlib.Nat.{
  add-mod, mul-zero, mul-suc, one-mul, div-add-mod, pow-suc, pow-zero, add-zero, add-suc, mul-one,
  mul-add-mod_self_left, mul_comm, add-mul, mul_assoc, mod-mod_of_dvd, dvd-mul_right,
}

pub mod-mul_left : (a b m : ℕ) → a % m * b % m ≡ a * b % m
mod-mul_left a b m = sym (
    ap (λ t. t * b % m) (sym (div-add-mod a m))
    ∙ ap (λ t. t % m)
        (add-mul (m * (a / m)) (a % m) b ∙ ap (λ t. t + a % m * b) (mul_assoc m (a / m) b))
    ∙ mul-add-mod_self_left m (a / m * b) (a % m * b))

pub mod-mul_right : (a b m : ℕ) → a * (b % m) % m ≡ a * b % m
mod-mul_right a b m =
    ap (λ t. t % m) (mul_comm a (b % m)) ∙ mod-mul_left b a m ∙ ap (λ t. t % m) (mul_comm b a)

pub pow_add : (b x y : ℕ) → b ^ (x + y) ≡ b ^ x * b ^ y
pow_add b x zero = rw (add-zero x, pow-zero b, mul-one (b ^ x)) refl
pow_add b x (suc y) =
    rw (add-suc x y, pow-suc b (x + y), pow_add b x y, pow-suc b y) (mul_assoc (b ^ x) (b ^ y) b)

pub mod-mul_cong : (a b c m : ℕ) → a % m ≡ b % m → a * c % m ≡ b * c % m
mod-mul_cong a b c m h = sym (mod-mul_left a c m) ∙ ap (λ t. t * c % m) h ∙ mod-mul_left b c m

mod-mul_scale : (a k p : ℕ) → a * p % (k * p) ≡ a % k * p % (k * p)
mod-mul_scale a k p =
    ap (λ t. t % (k * p))
      (ap (λ t. t * p) (sym (div-add-mod a k))
        ∙ add-mul (k * (a / k)) (a % k) p
        ∙ ap (λ t. t + a % k * p)
            (mul_assoc k (a / k) p
              ∙ ap (λ t. k * t) (mul_comm (a / k) p)
              ∙ sym (mul_assoc k p (a / k))))
    ∙ mul-add-mod_self_left (k * p) (a / k) (a % k * p)

-- A congruence multiplied by a number, with its modulus.
pub mod-mul_cong_scale : (a b k p : ℕ) → a % k ≡ b % k → a * p % (k * p) ≡ b * p % (k * p)
mod-mul_cong_scale a b k p h =
    mod-mul_scale a k p ∙ ap (λ t. t * p % (k * p)) h ∙ sym (mod-mul_scale b k p)

-- A congruence modulo a multiple.
pub mod_cong_down : (a b k p : ℕ) → a % (k * p) ≡ b % (k * p) → a % k ≡ b % k
mod_cong_down a b k p h =
    sym (mod-mod_of_dvd k a (dvd-mul_right k p))
    ∙ ap (λ t. t % k) h
    ∙ mod-mod_of_dvd k b (dvd-mul_right k p)

pub mod-add_cong : (a b c d m : ℕ) → a % m ≡ b % m → c % m ≡ d % m → (a + c) % m ≡ (b + d) % m
mod-add_cong a b c d m e f =
    add-mod a c m ∙ ap (λ t. (t + c % m) % m) e ∙ ap (λ t. (b % m + t) % m) f ∙ sym (add-mod b d m)

pub mod-mul_both : (a b c d m : ℕ) → a % m ≡ b % m → c % m ≡ d % m → a * c % m ≡ b * d % m
mod-mul_both a b c d m e f =
    mod-mul_cong a b c m e
    ∙ ap (λ t. t % m) (mul_comm b c)
    ∙ mod-mul_cong c d b m f
    ∙ ap (λ t. t % m) (mul_comm d b)

pub mod-pow_cong : (a b k m : ℕ) → a % m ≡ b % m → a ^ k % m ≡ b ^ k % m
mod-pow_cong a b zero m e = ap (λ t. t % m) (pow-zero a ∙ sym (pow-zero b))
mod-pow_cong a b (suc k) m e =
    rw (pow-suc a k, pow-suc b k) (mod-mul_both (a ^ k) (b ^ k) a b m (mod-pow_cong a b k m e) e)

pub one_pow : (k : ℕ) → 1 ^ k ≡ 1
one_pow zero = pow-zero 1
one_pow (suc k) = pow-suc 1 k ∙ ap (λ t. t * 1) (one_pow k)

pub pow_mul : (a b k : ℕ) → (a * b) ^ k ≡ a ^ k * b ^ k
pow_mul a b zero = rw (pow-zero (a * b), pow-zero a, pow-zero b) refl
pow_mul a b (suc k) =
    rw (pow-suc (a * b) k, pow_mul a b k, pow-suc a k, pow-suc b k) (shuffle (a ^ k) (b ^ k) a b)
  where
    shuffle : (x y a b : ℕ) → x * y * (a * b) ≡ x * a * (y * b)
    shuffle x y a b = omega arith

pub pow_pow : (b x y : ℕ) → (b ^ x) ^ y ≡ b ^ (x * y)
pow_pow b x zero = pow-zero (b ^ x) ∙ sym (ap (λ t. b ^ t) (mul-zero x) ∙ pow-zero b)
pow_pow b x (suc y) =
    pow-suc (b ^ x) y
    ∙ ap (λ t. t * b ^ x) (pow_pow b x y)
    ∙ sym (ap (λ t. b ^ t) (mul-suc x y) ∙ pow_add b (x * y) x)

-- A factor that has an inverse is cancelled.
pub mod-mul_cancel : (a b u v m : ℕ) → a * u % m ≡ b * u % m → u * v % m ≡ 1 % m → a % m ≡ b % m
mod-mul_cancel a b u v m e f = sym (undo a) ∙ mod-mul_cong (a * u) (b * u) v m e ∙ undo b
  where
    undo : (c : ℕ) → c * u * v % m ≡ c % m
    undo c =
        ap (λ t. t % m) (mul_assoc c u v ∙ mul_comm c (u * v))
        ∙ mod-mul_cong (u * v) 1 c m f
        ∙ ap (λ t. t % m) (one-mul c)

-- Inverses multiply.
pub mod-mul_unit :
    (a b c d m : ℕ) → a * b % m ≡ 1 % m → c * d % m ≡ 1 % m → a * c * (b * d) % m ≡ 1 % m
mod-mul_unit a b c d m e f =
    ap (λ t. t % m) (shuffle a b c d) ∙ mod-mul_both (a * b) 1 (c * d) 1 m e f
  where
    shuffle : (a b c d : ℕ) → a * c * (b * d) ≡ a * b * (c * d)
    shuffle a b c d = omega arith
