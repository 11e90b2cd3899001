-- ===== src/Emission/Fairness.antt =====
-- Which validator gets what of a reward.
use native.Mathlib.Nat.{
  lt_of_mul-lt-mul_left, mod-eq_of_lt, mul_comm, mul-le-mul_left, mul-div_cancel,
}
use unknown.Base.Division.{div_mono}
use unknown.Base.{
  ℕ, zero, suc, ◌+◌, ◌-◌, ◌*◌, ◌/◌, ◌%◌, ◌^◌, ◌≤◌, ◌<◌, ◌≡◌, refl, false, arith, List, [], ◌∷◌,
  some, length, get_elem?, All, ltb, ◌==◌, if◌then◌else◌, Bool-cases, inl, inr,
}
use unknown.Base.Words.{add_u64}
use unknown.Emission.{RewardShare, sum, floor_shares, bump, hand_out, distribute}
use unknown.Emission.Split.{
  nonempty, floors, floors-near, floors-le, weights-le_sum, share_fits, floor_shares_total,
  length-bump,
}

get-floor_shares :
    (total n : ℕ) (ws : List ℕ) (i d k : ℕ) {w : ℕ}
    → total < 2 ^ 64
    → All (λ w. w ≤ n) ws
    → get_elem? ws k ≡ some w
    → get_elem? (floor_shares total n ws i d).0 k
      ≡ some (record { validator_index = (i + k) % 2 ^ 32; amount = total * w / n })
unfolding floor_shares
get-floor_shares total n [] i d k small h e = cc
get-floor_shares total n (v ∷ ws) i d zero {w} small h e =
    let same : v ≡ w = cc e in
    let start : i + 0 ≡ i = omega arith in rw (← same, start, share_fits total n v small h.0) refl
get-floor_shares total n (v ∷ ws) i d (suc k) small h e =
    let next : i + suc k ≡ i + 1 + k = omega arith in
    rw next (get-floor_shares total n ws (i + 1) (add_u64 d (total * v / n % 2 ^ 64)) k small h.1 e)

get-bump :
    (ss : List RewardShare) (i k : ℕ) {s : RewardShare}
    → get_elem? ss k ≡ some s
    → get_elem? (bump ss i) k
      ≡ some (record s { amount = if i == k then add_u64 s.amount 1 else s.amount })
get-bump [] i k e = cc
get-bump (x ∷ ss) zero zero e = ground arith
get-bump (x ∷ ss) zero (suc k) e = ground arith
get-bump (x ∷ ss) (suc i) zero e = ground arith
get-bump (x ∷ ss) (suc i) (suc k) {s} e = ground (arith, get-bump ss i k {s = s} e)

next_index : (i n : ℕ) → i + 1 < n → (i + 1) % n ≡ i + 1
next_index i n h = mod-eq_of_lt h

-- Indices below the cursor are done.
hand_out_before :
    (r i : ℕ) (ss : List RewardShare) (k : ℕ) {s : RewardShare}
    → i + r ≤ length ss
    → k < i
    → get_elem? ss k ≡ some s
    → get_elem? (hand_out r i ss) k ≡ some s
unfolding hand_out
hand_out_before zero i ss k room lt e = e
hand_out_before (suc zero) i ss k {s} room lt e = ground (arith, get-bump ss i k {s = s} e)
hand_out_before (suc (suc r)) i ss k {s} room lt e =
    let len = length-bump ss i in
    rw (next_index i (length ss) (omega arith)) (
      hand_out_before (suc r) (i + 1) (bump ss i) k (omega (arith, len)) (omega arith)
        (ground (arith, get-bump ss i k {s = s} e)))

abbrev extra : ℕ → ℕ → ℕ → ℕ
extra r i k = if ltb k (i + r) then 1 else 0

hand_out_from :
    (r i : ℕ) (ss : List RewardShare) (k : ℕ) {s : RewardShare}
    → i + r ≤ length ss
    → i ≤ k
    → s.amount + 1 < 2 ^ 64
    → get_elem? ss k ≡ some s
    → get_elem? (hand_out r i ss) k ≡ some (record s { amount = s.amount + extra r i k })
unfolding hand_out
hand_out_from zero i ss k {s} room le fits e = ground arith
hand_out_from (suc zero) i ss k {s} room le fits e = ground (arith, get-bump ss i k {s = s} e)
hand_out_from (suc (suc r)) i ss k {s} room le fits e =
    let len = length-bump ss i in
    rw (next_index i (length ss) (omega arith)) (elim (Bool-cases (i == k)) [
      | inl here ↦
          let bumped : get_elem? (bump ss i) k ≡ some (record s { amount = s.amount + 1 }) =
            ground (arith, get-bump ss i k {s = s} e) in
          let rest =
            hand_out_before (suc r) (i + 1) (bump ss i) k (omega (arith, len)) (ground arith)
              bumped in
          ground (arith, rest)
      | inr later ↦
          let same : get_elem? (bump ss i) k ≡ some s = ground (arith, get-bump ss i k {s = s} e) in
          let rest =
            hand_out_from (suc r) (i + 1) (bump ss i) k {s = s} (omega (arith, len)) (ground arith)
              fits same in
          ground (arith, rest)
    ])

weight_of : (ws : List ℕ) (k w : ℕ) → get_elem? ws k ≡ some w → w ≤ sum ws
weight_of [] k w e = cc
weight_of (v ∷ ws) zero w e = ground arith
weight_of (v ∷ ws) (suc k) w e = omega (arith, weight_of ws k w e)

share-le : (total n w : ℕ) → w ≤ n → total * w / n ≤ total
share-le total zero w h = omega (arith, div_mono 0 (total * w) 0)
share-le total (suc n) w h = omega (
  arith,
  div_mono (suc n) (total * w) (total * suc n) (mul-le-mul_left total h),
  mul-div_cancel total {n = suc n} (omega arith),
)

-- Fewer left-over units than validators.
remainder-lt : (total : ℕ) (ws : List ℕ) → 0 < sum ws → total - floors total (sum ws) ws < length ws
remainder-lt total ws pos =
    let n : ℕ = sum ws in
    let some_one : 0 < length ws = nonempty ws pos in
    let near : total * n + length ws ≤ (floors total n ws + length ws) * n =
      floors-near total n ws pos in
    let swapped : n * total < n * (floors total n ws + length ws) =
      omega (arith, near, some_one, mul_comm n total, mul_comm n (floors total n ws + length ws)) in
    omega (arith, lt_of_mul-lt-mul_left n swapped, floors-le total ws pos)

-- For a reward below `u64::MAX`, where some validator has weight: each validator gets its exact
-- share rounded down, and one unit more exactly if its index is below the number of left-over units,
-- of which there are fewer than validators.
pub get-distribute :
    (total : ℕ) (weights : List ℕ) (k w : ℕ)
    → total + 1 < 2 ^ 64
    → 0 < sum weights
    → get_elem? weights k ≡ some w
    → let left = total - floors total (sum weights) weights in
      (left < length weights)
      × (get_elem? (distribute total weights) k
          ≡ some (record {
            validator_index = k % 2 ^ 32;
            amount = total * w / sum weights + (if ltb k left then 1 else 0);
          }))
unfolding distribute
get-distribute total ws k w small weight e =
    let n : ℕ = sum ws in
    let below = floors-le total ws weight in
    let heavy = weights-le_sum n ws (omega arith) in
    let (all, pays, len) =
      floor_shares_total total n ws 0 0 (omega arith) heavy (omega (arith, below)) in
    let some_weight : n == 0 ≡ false = ground arith in
    let left : (total + 2 ^ 64 - (0 + floors total n ws)) % 2 ^ 64 ≡ total - floors total n ws =
      omega (arith, below, small) in
    let few = remainder-lt total ws weight in
    let start : 0 + k ≡ k = omega arith in
    let start' : 0 + (total - floors total n ws) ≡ total - floors total n ws = omega arith in
    let at_k : get_elem? (floor_shares total n ws 0 0).0 k
        ≡ some (record { validator_index = k % 2 ^ 32; amount = total * w / n }) =
      rw start at (get-floor_shares total n ws 0 0 k (omega arith) heavy e) in
    (
      few,
      rw (some_weight, all, left)
          (rw start' at (
            hand_out_from (total - floors total n ws) 0 (floor_shares total n ws 0 0).0 k
              (omega (arith, few, len)) (omega arith)
              (omega (arith, small, share-le total n w (weight_of ws k w e))) at_k)),
    )
