-- ===== src/State/Conservation/Rewards.antt =====
-- The notes of the rewards of a checkpoint.
use unknown.Base.{
  ℕ, zero, suc, ◌+◌, ◌-◌, ◌%◌, ◌^◌, ◌≡◌, inl, inr, refl, ap, arith, Bool-cases, List, [], ◌∷◌,
  length, get_or, All, ◌==◌,
}
use mathlib.Core.List.{map}
use unknown.Base.Words.{IsU64}
use unknown.Primitives.{Blake3, length-hash_parts}
use unknown.Notes.{Note, commitment, rho_mint}
use unknown.ProverDev.Statement.{total_out}
use unknown.Emission.{RewardShare, floor_shares, bump, hand_out, distribute, sum}
use unknown.Emission.Split.{paid}
use unknown.State.{ValidatorInfo}
use unknown.State.Checkpoint.{reward_note, no_validator}
use unknown.State.Outputs.{reward_commitments}
use unknown.State.Holdings.{IsOpening}

-- The amounts of shares are words.
abbrev pub AreU64 : List RewardShare → Type 0
AreU64 = All (λ s. IsU64 s.amount)

floor_shares-AreU64 : (total n : ℕ) (ws : List ℕ) (i d : ℕ) → AreU64 (floor_shares total n ws i d).0
unfolding floor_shares
floor_shares-AreU64 total n [] i d = tt
floor_shares-AreU64 total n (w ∷ ws) i d = (omega arith, floor_shares-AreU64 total n ws (i + 1) _)

bump-AreU64 : (ss : List RewardShare) (i : ℕ) → AreU64 ss → AreU64 (bump ss i)
bump-AreU64 [] i h = tt
bump-AreU64 (s ∷ ss) zero h = (omega arith, h.1)
bump-AreU64 (s ∷ ss) (suc i) h = (h.0, bump-AreU64 ss i h.1)

hand_out-AreU64 : (r i : ℕ) (ss : List RewardShare) → AreU64 ss → AreU64 (hand_out r i ss)
unfolding hand_out
hand_out-AreU64 zero i ss h = h
hand_out-AreU64 (suc r) i ss h =
    hand_out-AreU64 r ((i + 1) % length ss) (bump ss i) (bump-AreU64 ss i h)

pub distribute-AreU64 : (total : ℕ) (ws : List ℕ) → AreU64 (distribute total ws)
unfolding distribute
distribute-AreU64 total ws = elim (Bool-cases (sum ws == 0)) [
  | inl none ↦ rw none tt
  | inr some ↦ rw some (
      hand_out-AreU64 ((total + 2 ^ 64 - (floor_shares total (sum ws) ws 0 0).1) % 2 ^ 64) 0
        (floor_shares total (sum ws) ws 0 0).0 (floor_shares-AreU64 total (sum ws) ws 0 0))
]

-- The tags of validators have lengths that a `u64` holds.
abbrev pub AreShortTags : List ValidatorInfo → Type 0
AreShortTags = All (λ v. IsU64 (length v.addr_tag))

short_tag :
    (vs : List ValidatorInfo) (i : ℕ)
    → AreShortTags vs
    → IsU64 (length (get_or vs i no_validator).addr_tag)
short_tag [] i h = omega arith
short_tag (v ∷ vs) zero h = h.0
short_tag (v ∷ vs) (suc i) h = short_tag vs i h.1

module _ ⦃b : Blake3⦄ where
  abbrev pub reward_notes : ℕ → List ValidatorInfo → List RewardShare → List Note
  reward_notes h vs shares = map (reward_note h vs) shares

  pub reward_notes-behind :
      (h : ℕ) (vs : List ValidatorInfo) (shares : List RewardShare)
      → map commitment (reward_notes h vs shares) ≡ reward_commitments h vs shares
  reward_notes-behind h vs [] = refl
  reward_notes-behind h vs (s ∷ ss) =
      ap (◌∷◌ (commitment (reward_note h vs s))) (reward_notes-behind h vs ss)

  pub total_out-reward_notes :
      (h : ℕ) (vs : List ValidatorInfo) (shares : List RewardShare)
      → total_out (reward_notes h vs shares) ≡ paid shares
  unfolding reward_note
  total_out-reward_notes h vs [] = refl
  total_out-reward_notes h vs (s ∷ ss) = omega (arith, total_out-reward_notes h vs ss)

  pub reward_notes-openings :
      (h : ℕ) (vs : List ValidatorInfo) (shares : List RewardShare)
      → AreShortTags vs
      → AreU64 shares
      → All IsOpening (reward_notes h vs shares)
  unfolding reward_note rho_mint
  reward_notes-openings h vs [] short us = tt
  reward_notes-openings h vs (s ∷ ss) short us = (
    record {
      value = us.0;
      addr_tag = short_tag vs s.validator_index short;
      rho = omega (arith, length-hash_parts);
      rseed = omega (arith, length-hash_parts);
    },
    reward_notes-openings h vs ss short us.1,
  )
