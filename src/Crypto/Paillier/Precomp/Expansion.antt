-- ===== src/Crypto/Paillier/Precomp/Expansion.antt =====
-- ComputeByBinomialExpansion: the power of 1 + n that it computes.
use native.Mathlib.Nat.{one-le-pow, mod-mod}
use private_join_and_compute.Prelude.{
  ℕ, zero, suc, ◌+◌, ◌-◌, ◌*◌, ◌%◌, ◌^◌, ◌<◌, ◌≤◌, ◌≡◌, refl, sym, ap, ◌∙◌, List, length, arith,
  true, false, ltb, Bool-cases, inl, inr,
}
use private_join_and_compute.Prelude.Int.{pos}
use private_join_and_compute.Prelude.Mod.{mod-add_cong, mod_cong_down, pow_mul}
use private_join_and_compute.Util.Result.{ok, read_at}
use private_join_and_compute.Crypto.OpenSsl.{OpenSsl}
use private_join_and_compute.Crypto.OpenSsl.Laws.{BnLaws}
use private_join_and_compute.Crypto.BigNum
use private_join_and_compute.Crypto.BigNum.{BigNum}
use private_join_and_compute.Crypto.BigNum.Laws.{
  of_u64-ok, sub-ok, add-ok, mod_mul-ok, mod_by-ok, lt_lem,
}
use private_join_and_compute.Crypto.Paillier.Binomial.{
  choose, factorial, falling, expansion, expansion_stops, pow-expansion,
}
use private_join_and_compute.Crypto.Paillier.Precomp.{binomial_loop, compute_by_binomial_expansion}
use private_join_and_compute.Crypto.Paillier.Precomp.Term.{term-choose_at, falling-next}

module _ ⦃lib : OpenSsl⦄ (laws : BnLaws lib) (b w s : ℕ) (precomp powers : List BigNum) where
  -- What GetPowers and GetPrecomp fill the two lists with: the powers of b, and from 1 on the powers
  -- of b * w over the factorials.
  pub record IsExpanding : Type 0 where
    pub size : length precomp ≡ suc s
    pub powers_lem : (k : ℕ) → k ≤ suc s → read_at powers k ≡ ok (pos (b ^ k))
    pub precomp_lem :
        (j : ℕ)
        → 0 < j
        → j ≤ s
        → (c d : ℕ) × (read_at precomp j ≡ ok (pos c))
          × (c % b ^ suc s ≡ (b * w) ^ j * d % b ^ suc s)
          × (d * factorial j % b ^ suc s ≡ 1 % b ^ suc s)

  -- A round above the message ends the loop.
  binomial_loop_stop :
      (r j m tmp c : ℕ)
      → j < 2 ^ 64
      → m < j
      → binomial_loop (suc r) j s precomp powers (pos m) (pos tmp) (pos c) ≡ ok (pos c)
  unfolding binomial_loop
  binomial_loop_stop r j m tmp c small h =
      let e : ltb (m + 0) (j + 0) ≡ true = ground (arith, h) in
      let tested : BigNum.lt (pos m) (pos j) ≡ true = lt_lem laws (pos m) (pos j) ∙ e in
      rw (of_u64-ok laws j small, tested) refl

  -- Any other round adds its term.
  binomial_loop_step :
      (r j m tmp c P q M : ℕ)
      → j < 2 ^ 64
      → j ≤ m
      → 0 < P
      → 0 < M
      → read_at powers (s + 1 - j) ≡ ok (pos P)
      → read_at precomp j ≡ ok (pos q)
      → read_at powers (s + 1) ≡ ok (pos M)
      → binomial_loop (suc r) j s precomp powers (pos m) (pos tmp) (pos c)
        ≡ binomial_loop r
            (j + 1)
            s
            precomp
            powers
            (pos m)
            (pos (tmp * (m - j + 1) % P))
            (pos (c + tmp * (m - j + 1) % P * q % M))
  unfolding binomial_loop
  binomial_loop_step r j m tmp c P q M small h hP hM power coefficient modulus =
      let e : ltb (m + 0) (j + 0) ≡ false = ground (arith, h) in
      let tested : BigNum.lt (pos m) (pos j) ≡ false = lt_lem laws (pos m) (pos j) ∙ e in
      let next = tmp * (m - j + 1) % P in
      rw
        (
          of_u64-ok laws j small,
          tested,
          sub-ok laws m j h,
          of_u64-ok laws 1 (omega arith),
          add-ok laws (m - j) 1,
          power,
          mod_mul-ok laws tmp (m - j + 1) P hP,
          coefficient,
          modulus,
          mod_mul-ok laws next q M hM,
          add-ok laws c (next * q % M),
        )
        refl

  binomial_loop-expansion :
      IsExpanding
      → (rounds i m tmp c : ℕ) → 0 < b
      → s < 2 ^ 64
      → rounds + i ≡ s
      → tmp % b ^ suc rounds ≡ falling m i % b ^ suc rounds
      → c % b ^ suc s ≡ expansion (b * w) m i % b ^ suc s
      → (result : ℕ) × (binomial_loop rounds (suc i) s precomp powers (pos m) (pos tmp) (pos c)
          ≡ ok (pos result))
        × (result % b ^ suc s ≡ expansion (b * w) m s % b ^ suc s)
  binomial_loop-expansion table zero i m tmp c positive small e f g =
      let same : i ≡ s = omega (arith, e) in
      (c, unfold binomial_loop in refl, g ∙ ap (λ k. expansion (b * w) m k % b ^ suc s) same)
  binomial_loop-expansion table (suc r) i m tmp c positive small e f g =
      elim (Bool-cases (ltb m (suc i))) [
        | inl t ↦
            let lt : m < suc i = ground (arith, t) in
            let reached : i + suc r ≡ s = omega (arith, e) in
            let kept = expansion_stops (b * w) m i (suc r) (omega (arith, lt)) in
            (
              c,
              binomial_loop_stop r (suc i) m tmp c (omega (arith, e, small)) lt,
              g
                  ∙ ap (λ x. x % b ^ suc s) (sym kept)
                  ∙ ap (λ k. expansion (b * w) m k % b ^ suc s) reached,
            )
        | inr t ↦
            let le : suc i ≤ m = ground (arith, t) in
            let (q, d, read, power, inverse) =
              table.precomp_lem (suc i) (omega arith) (omega (arith, e)) in
            let M = b ^ suc s in
            let next = tmp * (m - suc i + 1) % b ^ suc r in
            let index : s + 1 - suc i ≡ suc r = omega (arith, e) in
            let top : s + 1 ≡ suc s = omega arith in
            let step =
              binomial_loop_step r (suc i) m tmp c (b ^ suc r) q M (omega (arith, e, small)) le
                (one-le-pow (suc r) b positive) (one-le-pow (suc s) b positive)
                (ap (read_at powers) index ∙ table.powers_lem (suc r) (omega (arith, e))) read
                (ap (read_at powers) top ∙ table.powers_lem (suc s) (omega arith)) in
            let fallen : next % b ^ suc r ≡ falling m (suc i) % b ^ suc r =
              mod-mod (tmp * (m - suc i + 1)) (b ^ suc r) ∙ falling-next b m i r tmp f le in
            let term =
              term-choose_at b w m i r next q d (suc s) (omega (arith, e)) fallen power inverse in
            let summed : (c + next * q % M) % M ≡ expansion (b * w) m (suc i) % M =
              unfold expansion in
              mod-add_cong c (expansion (b * w) m i) (next * q % M)
                (choose m (suc i) * (b * w) ^ suc i) M g (mod-mod (next * q) M ∙ term) in
            let (result, runs, equal) =
              binomial_loop-expansion table r (suc i) m next (c + next * q % M) positive small
                (omega (arith, e)) fallen summed in
            let after : suc i + 1 ≡ suc (suc i) = omega arith in
            (
              result,
              step
                  ∙ ap
                      (λ k.
                        binomial_loop r k s precomp powers (pos m) (pos next)
                          (pos (c + next * q % M)))
                      after
                  ∙ runs,
              equal,
            )
      ]

  compute_by_binomial_expansion_loop :
      IsExpanding
      → (message : ℕ) → 0 < b
      → compute_by_binomial_expansion precomp powers (pos message)
        ≡ binomial_loop s 1 s precomp powers (pos (message % b ^ s)) (pos 1) (pos 1)
  unfolding compute_by_binomial_expansion
  compute_by_binomial_expansion_loop table message positive =
      let listed = table.size in
      let size : length precomp - 1 ≡ s = omega (arith, listed) in
      rw
        (
          of_u64-ok laws 1 (omega arith),
          size,
          table.powers_lem s (omega arith),
          mod_by-ok laws message (b ^ s) (one-le-pow s b positive),
        )
        refl

  -- Where the two lists hold the powers of b and those of n = b * w over the factorials,
  -- ComputeByBinomialExpansion succeeds, and what it returns is a power of 1 + n modulo the power s + 1 of
  -- b: the exponent is the message modulo the power s of b.
  pub compute_by_binomial_expansion-pow :
      IsExpanding
      → (message : ℕ) → 0 < b
      → s < 2 ^ 64
      → (result : ℕ) × (compute_by_binomial_expansion precomp powers (pos message)
          ≡ ok (pos result))
        × (result % b ^ suc s ≡ (1 + b * w) ^ (message % b ^ s) % b ^ suc s)
  compute_by_binomial_expansion-pow table message positive small =
      let m = message % b ^ s in
      let start : 1 % b ^ suc s ≡ falling m 0 % b ^ suc s = unfold falling in refl in
      let start_sum : 1 % b ^ suc s ≡ expansion (b * w) m 0 % b ^ suc s =
        unfold expansion in refl in
      let (result, runs, equal) =
        binomial_loop-expansion table s 0 m 1 1 positive small (omega arith) start start_sum in
      (
        result,
        compute_by_binomial_expansion_loop table message positive ∙ runs,
        equal
            ∙ sym (
                mod_cong_down ((1 + b * w) ^ m) (expansion (b * w) m s) (b ^ suc s) (w ^ suc s)
                  (rw (pow_mul b w (suc s)) at (pow-expansion (b * w) m s))),
      )
