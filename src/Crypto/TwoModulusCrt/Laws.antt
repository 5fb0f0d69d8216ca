-- ===== src/Crypto/TwoModulusCrt/Laws.antt =====
-- The number that the two solutions are combined into solves both congruences.
use native.Mathlib.Nat.{
  mul-one, add-mul-mod_self_right, mod-lt, mod-mod_of_dvd, mul-pos, dvd-mul_left, dvd-mul_right,
}
use private_join_and_compute.Prelude.{ℕ, ◌+◌, ◌*◌, ◌%◌, ◌≡◌, ◌<◌, sym, ap, ◌∙◌, arith}
use private_join_and_compute.Prelude.Mod.{mod-mul_right}
use private_join_and_compute.Prelude.Int.{pos}
use private_join_and_compute.Util.Result.{ok, ◌>>=◌, >>=-eq-ok}
use private_join_and_compute.Crypto.OpenSsl.{OpenSsl}
use private_join_and_compute.Crypto.OpenSsl.Laws.{BnLaws}
use private_join_and_compute.Crypto.BigNum.Laws.{mul-ok, add-ok, mod_by-ok, mod_inverse-ok}
use private_join_and_compute.Crypto.TwoModulusCrt.{TwoModulusCrt, make_crt, compute}

-- The term of one modulus counts for the solution there, and the other's term for nothing.
term_counts : (a t u w : ℕ) → u % a ≡ 1 % a → (t * u + w * a) % a ≡ t % a
term_counts a t u w h =
    add-mul-mod_self_right (t * u) w a
    ∙ sym (mod-mul_right t u a)
    ∙ ap (λ v. t * v % a) h
    ∙ mod-mul_right t 1 a
    ∙ ap (λ v. v % a) (mul-one t)

module _ ⦃lib : OpenSsl⦄ (laws : BnLaws lib) where
  -- For two moduli that are inverses of each other's numbers, the combined solution exists, is below
  -- the product of the moduli, and is congruent to either solution at its modulus.
  pub compute-make_crt :
      (p q p' q' x y : ℕ)
      → 0 < p
      → 0 < q
      → q * q' % p ≡ 1 % p
      → p * p' % q ≡ 1 % q
      → (z : ℕ) × ((make_crt (pos p) (pos q) >>= λ crt. compute crt (pos x) (pos y)) ≡ ok (pos z))
        × (z < p * q)
        × (z % p ≡ x % p)
        × (z % q ≡ y % q)
  unfolding make_crt compute
  compute-make_crt p q p' q' x y hp hq eq ep =
      let (q₁, found_q, _, inverts_q) = mod_inverse-ok laws q p q' hp eq in
      let (p₁, found_p, _, inverts_p) = mod_inverse-ok laws p q p' hq ep in
      let u = q * q₁ in
      let w = p * p₁ in
      let sum = x * u + y * w in
      let on_p : sum ≡ x * u + y * p₁ * p = omega arith in
      let on_q : sum ≡ y * w + x * q₁ * q = omega arith in
      (
        sum % (p * q),
        rw (
          found_q,
          mul-ok laws q q₁,
          found_p,
          mul-ok laws p p₁,
          mul-ok laws p q,
          mul-ok laws x u,
          mul-ok laws y w,
          add-ok laws (x * u) (y * w),
          mod_by-ok laws sum (p * q) (mul-pos hp hq),
        ),
        mod-lt sum (mul-pos hp hq),
        mod-mod_of_dvd p sum (dvd-mul_right p q)
            ∙ ap (λ v. v % p) on_p
            ∙ term_counts p x u (y * p₁) inverts_q,
        mod-mod_of_dvd q sum (dvd-mul_left q p)
            ∙ ap (λ v. v % q) on_q
            ∙ term_counts q y w (x * q₁) inverts_p,
      )

  -- The object made for two such moduli combines any two solutions.
  pub Combines : TwoModulusCrt → ℕ → ℕ → Type 0
  Combines crt p q =
      (x y : ℕ)
      → (z : ℕ) × (compute crt (pos x) (pos y) ≡ ok (pos z))
        × (z < p * q)
        × (z % p ≡ x % p)
        × (z % q ≡ y % q)

  pub make_crt-Combines :
      (p q p' q' : ℕ)
      → 0 < p
      → 0 < q
      → q * q' % p ≡ 1 % p
      → p * p' % q ≡ 1 % q
      → (crt : TwoModulusCrt) × (make_crt (pos p) (pos q) ≡ ok crt) × Combines crt p q
  unfolding Combines
  make_crt-Combines p q p' q' hp hq eq ep =
      let (_, found, _, _, _) = compute-make_crt p q p' q' 0 0 hp hq eq ep in
      let (crt, made, _) =
        >>=-eq-ok (make_crt (pos p) (pos q)) (λ crt. compute crt (pos 0) (pos 0)) found in
      (
        crt,
        made,
        λ x y.
            let (z, computed, less, on_p, on_q) = compute-make_crt p q p' q' x y hp hq eq ep in
            (z, rw made at computed, less, on_p, on_q),
      )

  pub Combines-compute :
      (crt : TwoModulusCrt) (p q : ℕ)
      → Combines crt p q
      → (x y : ℕ)
      → (z : ℕ) × (compute crt (pos x) (pos y) ≡ ok (pos z))
        × (z < p * q)
        × (z % p ≡ x % p)
        × (z % q ≡ y % q)
  unfolding Combines
  Combines-compute crt p q combines = combines
