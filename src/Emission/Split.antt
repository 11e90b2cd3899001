-- ===== src/Emission/Split.antt =====
-- The split of a reward: the rounded shares, and their sum.
use native.Mathlib.Nat.{
  div-mul-le_self, le_of_mul-le-mul_right, mul-le-mul_left, lt-mul-div-succ, mod-lt, mul-div_cancel,
}
use unknown.Base.{
  ℕ, zero, suc, ◌+◌, ◌-◌, ◌*◌, ◌/◌, ◌%◌, ◌^◌, ◌≤◌, ◌<◌, ◌≡◌, refl, ap, false, arith, List, [], ◌∷◌,
  length, All, ◌==◌,
}
use unknown.Base.Division.{div_mono}
use unknown.Base.Words.{add_u64}
use unknown.Emission.{RewardShare, sum, floor_shares, bump, hand_out, distribute}

-- What a list of shares pays out.
abbrev pub paid : List RewardShare → ℕ
paid [] = 0
paid (s ∷ ss) = s.amount + paid ss

-- The shares rounded down, added up.
abbrev pub floors : ℕ → ℕ → List ℕ → ℕ
floors total weight_sum [] = 0
floors total weight_sum (w ∷ ws) = total * w / weight_sum + floors total weight_sum ws

floors-mul_le : (total n : ℕ) (ws : List ℕ) → floors total n ws * n ≤ total * sum ws
floors-mul_le total n [] = omega arith
floors-mul_le total n (w ∷ ws) =
    omega (arith, floors-mul_le total n ws, div-mul-le_self (total * w) n)

-- Rounding down loses less than one unit for each validator.
pub floors-near :
    (total n : ℕ) (ws : List ℕ)
    → 0 < n
    → total * sum ws + length ws ≤ (floors total n ws + length ws) * n
floors-near total n [] pos = omega arith
floors-near total n (w ∷ ws) pos =
    let here : total * w < n * (total * w / n + 1) = lt-mul-div-succ (total * w) pos in
    omega (arith, floors-near total n ws pos, here)

pub floors-le : (total : ℕ) (ws : List ℕ) → 0 < sum ws → floors total (sum ws) ws ≤ total
floors-le total ws pos = le_of_mul-le-mul_right {k = sum ws} (floors-mul_le total (sum ws) ws) pos

pub weights-le_sum : (n : ℕ) (ws : List ℕ) → sum ws ≤ n → All (λ w. w ≤ n) ws
weights-le_sum n [] h = tt
weights-le_sum n (w ∷ ws) h = (omega arith, weights-le_sum n ws (omega arith))

pub share_fits : (total n w : ℕ) → total < 2 ^ 64 → w ≤ n → total * w / n % 2 ^ 64 ≡ total * w / n
share_fits total zero w small h = omega (arith, div_mono 0 (total * w) 0)
share_fits total (suc n) w small h =
    let cap : total * w / suc n ≤ total * suc n / suc n =
      div_mono (suc n) (total * w) (total * suc n) (mul-le-mul_left total h) in
    omega (arith, cap, mul-div_cancel total {n = suc n} (omega arith))

-- The first loop: the running total does not wrap, and is what the shares pay.
pub floor_shares_total :
    (total n : ℕ) (ws : List ℕ) (i d : ℕ)
    → total < 2 ^ 64
    → All (λ w. w ≤ n) ws
    → d + floors total n ws ≤ total
    → ((floor_shares total n ws i d).1 ≡ d + floors total n ws)
      × (paid (floor_shares total n ws i d).0 ≡ floors total n ws)
      × (length (floor_shares total n ws i d).0 ≡ length ws)
unfolding floor_shares
floor_shares_total total n [] i d small h room = (omega arith, refl, refl)
floor_shares_total total n (w ∷ ws) i d small h room =
    let fits = share_fits total n w small h.0 in
    let next : add_u64 d (total * w / n) ≡ d + total * w / n = omega (arith, small, room) in
    let ih = floor_shares_total total n ws (i + 1) (d + total * w / n) small h.1 (omega arith) in
    rw (fits, next) (omega (arith, ih.0), omega (arith, ih.1), omega (arith, ih.2))

pub length-bump : (ss : List RewardShare) (i : ℕ) → length (bump ss i) ≡ length ss
length-bump [] i = refl
length-bump (s ∷ ss) zero = refl
length-bump (s ∷ ss) (suc i) = ap suc (length-bump ss i)

paid-bump :
    (ss : List RewardShare) (i : ℕ)
    → i < length ss
    → paid ss + 1 < 2 ^ 64
    → paid (bump ss i) ≡ paid ss + 1
paid-bump [] i h fits = elim h [ ]
paid-bump (s ∷ ss) zero h fits = omega arith
paid-bump (s ∷ ss) (suc i) h fits = omega (arith, paid-bump ss i (omega arith) (omega arith))

paid-hand_out :
    (r i : ℕ) (ss : List RewardShare)
    → i < length ss
    → paid ss + r < 2 ^ 64
    → paid (hand_out r i ss) ≡ paid ss + r
unfolding hand_out
paid-hand_out zero i ss h fits = omega arith
paid-hand_out (suc r) i ss h fits =
    let bumped = paid-bump ss i h (omega arith) in
    let len = length-bump ss i in
    let wraps : (i + 1) % length ss < length ss = mod-lt (i + 1) (omega arith) in
    omega (
      arith,
      bumped,
      paid-hand_out r ((i + 1) % length ss) (bump ss i) (omega (arith, len, wraps))
          (omega (arith, bumped, fits)),
    )

pub nonempty : (ws : List ℕ) → 0 < sum ws → 0 < length ws
nonempty [] h = omega arith
nonempty (w ∷ ws) h = omega arith

-- Where some validator has weight, the shares of a reward of 64 bits add up to the reward, with no
-- unit lost to rounding.
pub paid-distribute :
    (total : ℕ) (weights : List ℕ)
    → total < 2 ^ 64
    → 0 < sum weights
    → paid (distribute total weights) ≡ total
unfolding distribute
paid-distribute total ws small pos =
    let below = floors-le total ws pos in
    let n : ℕ = sum ws in
    let (all, pays, len) =
      floor_shares_total total n ws 0 0 small (weights-le_sum n ws (omega arith))
        (omega (arith, below)) in
    let some_weight : n == 0 ≡ false = ground arith in
    let left : (total + 2 ^ 64 - (0 + floors total n ws)) % 2 ^ 64 ≡ total - floors total n ws =
      omega (arith, below, small) in
    rw (some_weight, all, left)
      (omega (
        arith,
        below,
        pays,
        paid-hand_out (total - floors total n ws) 0 (floor_shares total n ws 0 0).0
            (omega (arith, len, nonempty ws pos)) (omega (arith, pays, below, small)),
      ))
