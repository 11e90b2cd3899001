-- ===== src/Emission/Schedule.antt =====
-- The schedule: bounds, the start, the tail, the halvings, and the order of the heights.
use native.Mathlib.Nat.{mul-div-mul_right, div-eq_of_eq-mul_right, mul-le-mul_left}
use unknown.Base.{ℕ, ◌+◌, ◌-◌, ◌*◌, ◌/◌, ◌%◌, ◌^◌, ◌≤◌, ◌<◌, ◌≡◌, ap, ◌∙◌, arith}
use unknown.Base.Division.{div_mono}
use unknown.Base.Powers.{pow-add, pow-pos}
use unknown.Emission.{EmissionParams, halvings, decay_factor, emission_at, scale}
use unknown.Emission.Decay.{
  decay_factor-antitone, decay_factor-le_scale, decay_factor_end, decay_factor_at_halving,
}

-- `EmissionParams::new` asserts a positive half-life; the start must not lie below the tail.
pub record IsSchedule (p : EmissionParams) : Type 0 where
  pub half_life : 0 < p.half_life
  pub falls : p.e_tail ≤ p.e0
  pub e0 : p.e0 < 2 ^ 64

decayed-le : (span f : ℕ) → f ≤ scale → span * f / scale ≤ span
decayed-le span f h =
    let grow : span * f ≤ span * scale = mul-le-mul_left span h in
    omega (arith, div_mono scale (span * f) (span * scale) grow)

-- No step of `emission_at` wraps.
pub emission_at_lem :
    (p : EmissionParams) (h : ℕ)
    → IsSchedule p
    → emission_at p h ≡ p.e_tail + (p.e0 - p.e_tail) * decay_factor p h / scale
unfolding emission_at
emission_at_lem p h s =
    let f : ℕ = decay_factor p h in
    let span : ℕ = p.e0 - p.e_tail in
    let whole : (p.e0 + 2 ^ 64 - p.e_tail) % 2 ^ 64 ≡ span = omega (arith, s.falls, s.e0) in
    rw whole (omega (arith, s.falls, s.e0, decayed-le span f (decay_factor-le_scale p h)))

-- On a schedule that falls, with a positive half-life and values of 64 bits, emission stays between
-- the tail and the initial value at every height.
pub emission_at_bounds :
    (p : EmissionParams) (h : ℕ)
    → IsSchedule p
    → (p.e_tail ≤ emission_at p h) × (emission_at p h ≤ p.e0)
emission_at_bounds p h s = omega (
  arith,
  emission_at_lem p h s,
  s.falls,
  decayed-le (p.e0 - p.e_tail) (decay_factor p h) (decay_factor-le_scale p h),
)

-- On such a schedule (IsSchedule) a later checkpoint never mints more than an earlier one.
pub emission_at-antitone :
    (p : EmissionParams) (h h' : ℕ) → IsSchedule p → h ≤ h' → emission_at p h' ≤ emission_at p h
emission_at-antitone p h h' s le =
    let span : ℕ = p.e0 - p.e_tail in
    omega (
      arith,
      emission_at_lem p h s,
      emission_at_lem p h' s,
      div_mono scale (span * decay_factor p h') (span * decay_factor p h)
          (mul-le-mul_left span (decay_factor-antitone p h h' s.half_life le)),
    )

-- From height 33 half-lives on, emission is the tail exactly.
pub emission_at_tail :
    (p : EmissionParams) (h : ℕ) → IsSchedule p → 33 * p.half_life ≤ h → emission_at p h ≡ p.e_tail
emission_at_tail p h s late =
    rw (emission_at_lem p h s, decay_factor_end p h s.half_life late) (omega arith)

-- `span * 2^-q` in fixed point loses nothing beyond the rounding of `span / 2^q`.
scaled_half : (span q : ℕ) → q ≤ 32 → span * halvings q / scale ≡ span / 2 ^ q
scaled_half span q h =
    let m : ℕ = 32 - q in
    let split : scale ≡ 2 ^ q * 2 ^ m =
      ap (λ (e : ℕ). 2 ^ e) {x = 32} {y = q + m} (omega arith) ∙ pow-add q m in
    let exact : halvings q ≡ 2 ^ m = div-eq_of_eq-mul_right (pow-pos q) split in
    rw exact (ap (λ (d : ℕ). span * 2 ^ m / d) split ∙ mul-div-mul_right span (2 ^ q) (pow-pos m))

-- After exactly q half-lives, q ≤ 32, emission is the tail plus the initial excess halved q times,
-- rounded down.
pub emission_at_halving :
    (p : EmissionParams) (q : ℕ)
    → IsSchedule p
    → q ≤ 32
    → emission_at p (q * p.half_life) ≡ p.e_tail + (p.e0 - p.e_tail) / 2 ^ q
emission_at_halving p q s small =
    emission_at_lem p (q * p.half_life) s
    ∙ ap (λ (d : ℕ). p.e_tail + d)
        (ap (λ (f : ℕ). (p.e0 - p.e_tail) * f / scale)
            (decay_factor_at_halving p q s.half_life (omega arith))
          ∙ scaled_half (p.e0 - p.e_tail) q small)
