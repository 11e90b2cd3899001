-- ===== src/Examples/Arithmetic.antt =====
-- Emission, difficulty targets and the field, at work on small numbers.
use unknown.Base.{
  ℕ, ◌+◌, ◌-◌, ◌*◌, ◌/◌, ◌%◌, ◌^◌, ◌<◌, ◌≤◌, ◌≡◌, ◌↔◌, refl, arith, List, [], ◌∷◌, length, some,
  get_elem?, ltb, if◌then◌else◌,
}
use unknown.Base.Bytes.{Bytes}
use unknown.Emission.{EmissionParams, emission_at, decay_factor, distribute, sum}
use unknown.Emission.Split.{floors}
use unknown.Emission.Fairness.{get-distribute}
use unknown.Emission.Schedule.{IsSchedule, emission_at_bounds}
use unknown.Pow.{leading_zero_bits}
use unknown.Pow.Target.{big_endian, leading_zero_bits_target}
use unknown.Quota.{pow, p}
use unknown.Quota.Power.{pow_lem}

abbrev params : EmissionParams
params = record { e0 = 1000; e_tail = 100; half_life = 50 }

params-IsSchedule : IsSchedule params
params-IsSchedule = record { half_life = omega arith; falls = omega arith; e0 = omega arith }

emission_at_bounds_example : (100 ≤ emission_at params 75) × (emission_at params 75 ≤ 1000)
emission_at_bounds_example = emission_at_bounds params 75 params-IsSchedule

abbrev weights : List ℕ
weights = 3 ∷ 0 ∷ 4 ∷ []

get-distribute_example :
    let left = 100 - floors 100 (sum weights) weights in
    (left < length weights)
    × (get_elem? (distribute 100 weights) 2
        ≡ some (record {
          validator_index = 2 % 2 ^ 32;
          amount = 100 * 4 / sum weights + (if ltb 2 left then 1 else 0);
        }))
get-distribute_example = get-distribute 100 weights 2 4 (omega arith) (omega arith) refl

abbrev some_hash : Bytes
some_hash = 0 ∷ 31 ∷ 200 ∷ []

leading_zero_bits_target_example :
    (11 ≤ leading_zero_bits some_hash) ↔ (big_endian some_hash * 2 ^ 11 < 256 ^ length some_hash)
leading_zero_bits_target_example =
    leading_zero_bits_target some_hash 11 (omega arith, (omega arith, (omega arith, tt)))
      (omega arith)

pow_lem_example : pow 3 20 ≡ 3 ^ 20 % p
pow_lem_example = pow_lem 3 20 (omega arith)

-- Runs.
emission_test : emission_at params 75 ≡ 437
unfolding emission_at decay_factor
emission_test = refl
