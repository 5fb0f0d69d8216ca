-- ===== src/Programs.antt =====
-- The command-line programs: what they print, and how a failed call ends them. Reading the flags is a
-- library's work: a program takes their values.
pub mod ExecuteProtocol
pub mod RunServer
pub mod GenerateDummyData
use Prim.Native.String.{String, ◌++◌ as append}
use private_join_and_compute.Prelude.{◌≡◌, refl, ℕ, arith, List, [], ◌∷◌, ◌++◌}
use private_join_and_compute.Prelude.Int.{ℤ}
use private_join_and_compute.Util.Status.{Status, to_string}
use private_join_and_compute.Util.Result.{Result, ok, err, die, running}
use private_join_and_compute.Util.Exec.{Exec, pure, ◌>>=◌, ◌>>◌}

-- A line on std::cout or on std::cerr.
pub data Line : Type 0 where
  out : String → Line
  complaint : String → Line

-- How `ostream <<` prints a number.
pub record Terminal : Type 0 where
  pub int_text : ℤ → String

module _ {S : Type 0} where
  abbrev pub print : Line → Exec (List Line × S) (Unit {0})
  print line (console, s) = (ok tt, (console ++ (line ∷ []), s))

  abbrev pub say : String → Exec (List Line × S) (Unit {0})
  say text = print (out text)

  -- A line on std::cerr and the exit code 1.
  abbrev pub complain : String → Exec (List Line × S) ℕ
  complain text = print (complaint text) >> pure 1

  -- `if (!maybe.ok()) { std::cerr << start << maybe.status() << std::endl; return 1; }`
  unfoldable pub or_complain {ℓ} :
      {A : Type ℓ} → Result A → String → (A → Exec (List Line × S) ℕ) → Exec (List Line × S) ℕ
  or_complain (ok a) start next s = next a s
  or_complain (err status) start next s = complain (append start (to_string status)) s
  or_complain die start next s = (die, s)
  or_complain running start next s = (running, s)

  -- A program that ends with 0 did not complain.
  pub or_complain-zero {ℓ} :
      {A : Type ℓ} (r : Result A) (start : String) (next : A → Exec (List Line × S) ℕ)
      (s s' : List Line × S)
      → or_complain r start next s ≡ (ok 0, s')
      → (a : A) × (r ≡ ok a) × (next a s ≡ (ok 0, s'))
  unfolding or_complain
  or_complain-zero (ok a) start next s s' h = (a, refl, h)
  or_complain-zero (err status) start next s s' h = absurd (ground (arith, h))
  or_complain-zero die start next s s' h = absurd (cc)
  or_complain-zero running start next s s' h = absurd (cc)
