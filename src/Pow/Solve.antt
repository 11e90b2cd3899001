-- ===== src/Pow/Solve.antt =====
-- `solve` and `verify`.
use unknown.Base.{
  ℕ, zero, suc, ◌+◌, ◌^◌, ◌≤◌, ◌<◌, ◌≡◌, refl, ap, ◌∙◌, arith, Bool, true, false, leb, Bool-cases,
  inl, inr, some,
}
use unknown.Base.Bytes.{Bytes}
use unknown.Base.Words.{add_u64}
use unknown.Primitives.{Blake3}
use unknown.Pow.{PowSolution, verify, solve_loop, solve}

module _ ⦃b : Blake3⦄ (challenge : Bytes) (difficulty : ℕ) where
  abbrev accepts : ℕ → Bool
  accepts nonce = verify challenge (record { nonce = nonce }) difficulty

  -- What the loop has found from `start` on: the first nonce that verifies.
  pub record IsLeast (start : ℕ) (s : PowSolution) : Type 0 where
    pub verifies : verify challenge s difficulty ≡ true
    pub from_start : start ≤ s.nonce
    pub least :
        (n : ℕ)
        → start ≤ n
        → n < s.nonce
        → verify challenge (record { nonce = n }) difficulty ≡ false

  solve_loop_step :
      (fuel nonce : ℕ)
      → accepts nonce ≡ false
      → nonce + 1 < 2 ^ 64
      → solve_loop (suc fuel) challenge difficulty nonce
        ≡ solve_loop fuel challenge difficulty (nonce + 1)
  unfolding solve_loop verify
  solve_loop_step fuel nonce refused room =
      let next : add_u64 nonce 1 ≡ nonce + 1 = omega arith in rw (refused, solve_loop, next) refl

  solve_loop_found :
      (fuel nonce : ℕ)
      → accepts nonce ≡ true
      → solve_loop (suc fuel) challenge difficulty nonce ≡ some (record { nonce = nonce })
  unfolding solve_loop verify
  solve_loop_found fuel nonce accepted = rw (accepted, solve_loop) refl

  extend :
      (start : ℕ) {s : PowSolution}
      → accepts start ≡ false
      → IsLeast (start + 1) s
      → IsLeast start s
  extend start {s} refused l = record {
    verifies = l.verifies;
    from_start = omega (arith, l.from_start);
    least = λ n ge lt. elim (Bool-cases (leb n start)) [
      | inl here ↦ (let e : n ≡ start = ground arith in rw e refused)
      | inr later ↦ l.least n (ground arith) lt
    ];
  }

  solve_loop_lem :
      (fuel nonce n : ℕ)
      → accepts n ≡ true
      → nonce ≤ n
      → n < nonce + fuel
      → nonce + fuel ≤ 2 ^ 64
      → (s : PowSolution) × (solve_loop fuel challenge difficulty nonce ≡ some s)
        × IsLeast nonce s
        × (s.nonce ≤ n)
  solve_loop_lem zero nonce n ok le lt room = absurd (omega arith)
  solve_loop_lem (suc fuel) nonce n ok le lt room = elim (Bool-cases (accepts nonce)) [
    | inl accepted ↦ (
      record { nonce = nonce },
      solve_loop_found fuel nonce accepted,
      record {
        verifies = accepted;
        from_start = omega arith;
        least = λ m ge below. absurd (omega arith);
      },
      le,
    )
    | inr refused ↦
        let later : nonce + 1 ≤ n = elim (Bool-cases (leb n nonce)) [
          | inl here ↦ (let e : n ≡ nonce = ground arith in absurd (cc (ap accepts e, ok, refused)))
          | inr after ↦ ground arith
        ] in
        let (s, found, least, bound) =
          solve_loop_lem fuel (nonce + 1) n ok later (omega arith) (omega arith) in
        (
          s,
          solve_loop_step fuel nonce refused (omega arith) ∙ found,
          extend nonce refused least,
          bound,
        )
  ]

  -- If some 64-bit nonce solves the puzzle, the loop ends, with the least such nonce: its solution
  -- verifies, and no smaller nonce does.
  pub solve-verifies :
      (n : ℕ)
      → n < 2 ^ 64
      → verify challenge (record { nonce = n }) difficulty ≡ true
      → (s : PowSolution) × (solve challenge difficulty ≡ some s)
        × (verify challenge s difficulty ≡ true)
        × (s.nonce ≤ n)
        × ((m : ℕ) → m < s.nonce → verify challenge (record { nonce = m }) difficulty ≡ false)
  unfolding solve
  solve-verifies n small ok =
      let (s, found, least, bound) =
        solve_loop_lem (2 ^ 64) 0 n ok (omega arith) (omega arith) (omega arith) in
      (s, found, least.verifies, bound, λ m lt. least.least m (omega arith) lt)
