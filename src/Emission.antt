-- ===== src/Emission.antt =====
-- crates/emission/src/lib.rs: the issuance schedule and the split of a checkpoint's reward.
-- A `u64` or `u128` is a number; where the code could leave the range, the wrap is written out.
pub mod Decay
pub mod Schedule
pub mod Split
pub mod Fairness
use unknown.Base.{
  ℕ, zero, suc, ◌+◌, ◌-◌, ◌*◌, ◌/◌, ◌%◌, ◌^◌, List, [], ◌∷◌, length, leb, ◌==◌, ◌||◌, if◌then◌else◌,
}
use unknown.Base.Words.{add_u64}

abbrev pub scale : ℕ
scale = 2 ^ 32

pub record EmissionParams : Type 0 where
  pub e0 : ℕ
  pub e_tail : ℕ
  pub half_life : ℕ

-- `SCALE >> q`.
abbrev pub halvings : ℕ → ℕ
halvings q = scale / 2 ^ q

unfoldable pub decay_factor : EmissionParams → ℕ → ℕ
decay_factor p height =
    let q = height / p.half_life in
    let r = height % p.half_life in
    if leb 64 q then 0 else halvings q - halvings q * r / (2 * p.half_life)

unfoldable pub emission_at : EmissionParams → ℕ → ℕ
emission_at p height =
    let span = (p.e0 + 2 ^ 64 - p.e_tail) % 2 ^ 64 in
    let decayed = span * decay_factor p height / scale in add_u64 p.e_tail (decayed % 2 ^ 64)

pub record RewardShare : Type 0 where
  pub validator_index : ℕ
  pub amount : ℕ

abbrev pub sum : List ℕ → ℕ
sum [] = 0
sum (w ∷ ws) = w + sum ws

-- The first loop of `distribute`: the shares rounded down, and what they add up to.
unfoldable pub floor_shares : ℕ → ℕ → List ℕ → ℕ → ℕ → List RewardShare × ℕ
floor_shares total weight_sum [] i distributed = ([], distributed)
floor_shares total weight_sum (w ∷ ws) i distributed =
    let amount = total * w / weight_sum % 2 ^ 64 in
    let (shares, all) = floor_shares total weight_sum ws (i + 1) (add_u64 distributed amount) in
    (record { validator_index = i % 2 ^ 32; amount = amount } ∷ shares, all)

-- `shares[i].amount += 1`.
abbrev pub bump : List RewardShare → ℕ → List RewardShare
bump [] i = []
bump (s ∷ ss) zero = record s { amount = add_u64 s.amount 1 } ∷ ss
bump (s ∷ ss) (suc i) = s ∷ bump ss i

-- The `while remainder > 0` loop, one round for each unit of the remainder.
unfoldable pub hand_out : ℕ → ℕ → List RewardShare → List RewardShare
hand_out zero i shares = shares
hand_out (suc remainder) i shares = hand_out remainder ((i + 1) % length shares) (bump shares i)

unfoldable pub distribute : ℕ → List ℕ → List RewardShare
unfolding floor_shares hand_out
distribute total weights =
    let weight_sum = sum weights in
    let (shares, distributed) = floor_shares total weight_sum weights 0 0 in
    if weight_sum == 0 then [] else hand_out ((total + 2 ^ 64 - distributed) % 2 ^ 64) 0 shares

pub record RewardDescriptor : Type 0 where
  pub height : ℕ
  pub total : ℕ
  pub shares : List RewardShare

unfoldable pub reward_descriptor : EmissionParams → ℕ → List ℕ → RewardDescriptor
reward_descriptor p height validator_weights =
    let total = emission_at p height in
    record { height = height; total = total; shares = distribute total validator_weights }
