-- ===== src/Util/Result.antt =====
-- What a call that may fail comes back with. `ok` and `err` are the two states of a StatusOr
-- (util/statusor.h); `die` is the end of the process, by LOG(FATAL), CHECK or CRYPTO_CHECK,
-- or a read past the end of a vector, whose behaviour is undefined;
-- `running` is an unbounded loop that has not ended within the rounds that the model was given.
use private_join_and_compute.Prelude.{
  ◌≡◌, refl, Bool, true, false, Option, none, some, List, [], ◌∷◌, map, ℕ, get_elem?,
}
use private_join_and_compute.Util.Status.{Status}

pub data Result {ℓ} (A : Type ℓ) : Type ℓ where
  ok : A → Result A
  err : Status → Result A
  die : Result A
  running : Result A

module _ {ℓ κ} {A : Type ℓ} {B : Type κ} where
  infixl 5 ◌>>=◌
  abbrev pub ◌>>=◌ : Result A → (A → Result B) → Result B
  die >>= next = die
  running >>= next = running
  err status >>= next = err status
  ok value >>= next = next value

  -- Only a call that succeeded goes on to a success.
  pub >>=-eq-ok :
      (call : Result A) (next : A → Result B) {result : B}
      → (call >>= next) ≡ ok result
      → (value : A) × (call ≡ ok value) × (next value ≡ ok result)
  >>=-eq-ok die next h = cc
  >>=-eq-ok running next h = cc
  >>=-eq-ok (err status) next h = cc
  >>=-eq-ok (ok value) next h = (value, refl, h)

-- A check, and what comes after it.
infixl 5 ◌>>◌
abbrev pub ◌>>◌ {κ} : {B : Type κ} → Result (Unit {0}) → Result B → Result B
checked >> next = checked >>= λ _. next

-- CRYPTO_CHECK and CHECK_NOTNULL of a call that hands its result back.
abbrev pub crypto_check {ℓ} : {A : Type ℓ} → Option A → Result A
crypto_check none = die
crypto_check (some a) = ok a

-- CHECK
abbrev pub check : Bool → Result (Unit {0})
check true = ok tt
check false = die

-- RET_INTERNAL_CHECK and RET_INVALID_ARG_CHECK, once the status is built.
abbrev pub require : Bool → Status → Result (Unit {0})
require true s = ok tt
require false s = err s

-- The same for a call that hands its result back.
abbrev pub require_some {ℓ} : {A : Type ℓ} → Option A → Status → Result A
require_some none s = err s
require_some (some a) s = ok a

-- ValueOrDie
abbrev pub value_or_die {ℓ} : {A : Type ℓ} → Result A → Result A
value_or_die (ok a) = ok a
value_or_die (err s) = die
value_or_die die = die
value_or_die running = running

-- `v[i]` of a std::vector
abbrev pub read_at {ℓ} : {A : Type ℓ} → List A → ℕ → Result A
read_at v i = crypto_check (get_elem? v i)

-- A loop that ends at its first failure.
abbrev pub map_result {ℓ κ} : {A : Type ℓ} {B : Type κ} → (A → Result B) → List A → Result (List B)
map_result f [] = ok []
map_result f (x ∷ xs) = do y ← f x; ys ← map_result f xs; ok (y ∷ ys)

pub map_result_ok {ℓ κ} :
    {A : Type ℓ} {B : Type κ} (f : A → Result B) (g : A → B)
    → ((a : A) → f a ≡ ok (g a))
    → (xs : List A) → map_result f xs ≡ ok (map g xs)
map_result_ok f g h [] = refl
map_result_ok f g h (x ∷ xs) = rw (h x, map_result_ok f g h xs)

pub bind_cong {ℓ κ} :
    {A : Type ℓ} {B : Type κ} (m : Result A) (f g : A → Result B)
    → ((a : A) → m ≡ ok a → f a ≡ g a)
    → (m >>= f) ≡ (m >>= g)
bind_cong (ok a) f g h = h a refl
bind_cong (err s) f g h = refl
bind_cong die f g h = refl
bind_cong running f g h = refl

pub bind_assoc {ℓ κ μ} :
    {A : Type ℓ} {B : Type κ} {C : Type μ} (m : Result A) (f : A → Result B) (g : B → Result C)
    → (m >>= f >>= g) ≡ (m >>= λ a. f a >>= g)
bind_assoc (ok a) f g = refl
bind_assoc (err s) f g = refl
bind_assoc die f g = refl
bind_assoc running f g = refl
