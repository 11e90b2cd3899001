-- ===== src/Examples/Ledgers.antt =====
-- A ledger with one validator, two transactions that spend different nullifiers, and a third that
-- spends one of theirs again; a cluster that commits them.
use unknown.Base.{
  ℕ, ◌+◌, ◌-◌, ◌<◌, ◌≡◌, ◌≢◌, ◌↔◌, refl, ap, arith, true, false, ◌&&◌, ◌||◌, some, none, get_elem?,
  get_or, List, [], ◌∷◌, length, replicate, All, ltb,
}
use mathlib.Core.List.{map}
use unknown.Base.Words.{add_u64}
use unknown.Primitives.{hash_parts, frame}
use unknown.Interfaces.{SpendVerifier, Commitment, MerklePath, proof_bucket, anchor_window}
use unknown.Pow
use unknown.Tree
use unknown.Tree.{anchor_eq, verify_path}
use unknown.Emission.{
  EmissionParams, emission_at, decay_factor, reward_descriptor, distribute, floor_shares, hand_out,
  sum,
}
use unknown.Quota.{QuotaRegistry}
use unknown.Tx.{TxV1, pow, binding_digest, check_antispam, validate_stateless}
use unknown.State.{
  Ledger, Staging, ValidatorInfo, start, genesis, allocate, judge, judge_lane, conflict, stage_all,
  anchor_valid, tree_witness,
}
use unknown.State.Checkpoint.{mint, reward_note, apply_checkpoint, audit_supply}
use unknown.State.Judging.{IsAccepted, judge_iff}
use unknown.State.Spending.{Steps}
use unknown.State.Accepted.{accepted_by, outputs_of, accepted-never_again}
use unknown.State.Supply.{weights, apply_checkpoint-supply, unpaid-audit}
use unknown.State.Outputs.{output-spendable}
use unknown.State.Anchors.{anchor_valid-apply_checkpoint}
use unknown.State.Reachable.{IsSound, genesis-IsSound, reachable-IsSound}
use unknown.Examples.{toy, filled, trusting}

abbrev pub params : EmissionParams
params = record { e0 = 1000; e_tail = 100; half_life = 50 }

abbrev pub validators : List ValidatorInfo
validators = record { weight = 1; addr_tag = filled 200 } ∷ []

abbrev pub notes : List (Commitment × ℕ)
notes = (filled 1, 5000) ∷ []

abbrev pub first : Ledger
first = genesis params validators 0 notes

abbrev pub spend : ℕ → ℕ → TxV1
spend a b = record {
  anchor = record { height = 0; root = Tree.root first.tree };
  nullifiers = (filled a, filled b);
  commitments = (filled 10, filled 11);
  enc_outputs = (record { bytes = [] }, record { bytes = [] });
  antispam = pow (record { nonce = 0 });
  proof = replicate proof_bucket 0;
}

abbrev pub txs : List TxV1
txs = spend 1 2 ∷ spend 2 3 ∷ spend 3 4 ∷ []

abbrev second : Ledger
second = (apply_checkpoint first txs trusting).0

pub has_weight : 0 < sum (map ValidatorInfo.weight validators)
has_weight = omega arith

reachable-IsSound_example : IsSound second first.supply
reachable-IsSound_example =
    reachable-IsSound params validators 0 notes second has_weight
      (Steps.later Steps.here txs trusting)

accepted-never_again_example :
    All
      (λ tx.
        (l' : Ledger)
        → Steps second l'
        → (verifier' : SpendVerifier) (height : ℕ) (st : Staging) (q : QuotaRegistry)
        → judge l' verifier' height st tx ≢ (q, none))
      (accepted_by first txs trusting)
accepted-never_again_example =
    accepted-never_again first txs trusting (genesis-IsSound params validators 0 notes).spent_once

judge_iff_example :
    (judge first trusting 1 (start first) (spend 1 2) ≡ (first.quota, none))
    ↔ IsAccepted first trusting 1 (start first) (spend 1 2) first.quota
judge_iff_example = judge_iff first trusting 1 (start first) (spend 1 2) first.quota

first-supply : first.supply ≡ 5000
unfolding genesis allocate
first-supply = refl

first-weights : weights first ≡ 1 ∷ []
unfolding genesis
first-weights = refl

apply_checkpoint-supply_example :
    second.supply ≡ add_u64 first.supply (emission_at first.emission (first.height + 1))
apply_checkpoint-supply_example =
    apply_checkpoint-supply first txs trusting (omega (arith, first-supply))
      (omega (arith, ap sum first-weights))

anchor_valid-apply_checkpoint_example :
    let (l', summary) = apply_checkpoint first txs trusting in
    anchor_valid l' (record { height = 0; root = filled 5 })
    ≡ (anchor_valid first (record { height = 0; root = filled 5 })
        || anchor_eq summary.anchor (record { height = 0; root = filled 5 }))
      && ltb (l'.height - 0) anchor_window
anchor_valid-apply_checkpoint_example =
    anchor_valid-apply_checkpoint first txs trusting (record { height = 0; root = filled 5 })
      (genesis-IsSound params validators 0 notes).sealed

four_outputs : length (outputs_of (accepted_by first txs trusting)) ≡ 4
unfolding judge judge_lane conflict validate_stateless check_antispam Pow.verify
    Pow.leading_zero_bits Pow.pow_hash genesis allocate Tree.anchor_valid Tree.seal Tree.evict
    Tree.append Tree.new Tree.root Tree.climb Tree.next_level Tree.node_hash Tree.empty_roots
    Tree.empty_from hash_parts frame binding_digest
four_outputs = refl

six_leaves : length second.tree.leaves ≡ 6
unfolding apply_checkpoint stage_all mint reward_note judge judge_lane conflict validate_stateless
    check_antispam Pow.verify Pow.leading_zero_bits Pow.pow_hash genesis allocate Tree.anchor_valid
    Tree.seal Tree.evict Tree.append Tree.new Tree.root Tree.climb Tree.next_level Tree.node_hash
    Tree.empty_roots Tree.empty_from hash_parts frame binding_digest reward_descriptor distribute
    floor_shares hand_out emission_at decay_factor
six_leaves = refl

output-spendable_example :
    let (l', summary) = apply_checkpoint first txs trusting in
    (get_elem? summary.output_positions 3 ≡ some (length first.tree.leaves + 3))
    × ((path : MerklePath) × (tree_witness l' (length first.tree.leaves + 3) ≡ some path)
        × (verify_path
              (get_or (outputs_of (accepted_by first txs trusting)) 3 [])
              path
              summary.anchor.root
            ≡ true))
output-spendable_example =
    output-spendable first txs trusting 3 (omega (arith, four_outputs)) (omega (arith, six_leaves))

-- A ledger whose only validator has no weight.
abbrev unpaid : Ledger
unpaid = genesis params (record { weight = 0; addr_tag = filled 200 } ∷ []) 0 notes

unpaid_facts : (sum (weights unpaid) ≡ 0) × (emission_at unpaid.emission (unpaid.height + 1) ≡ 991)
unfolding genesis emission_at decay_factor
unpaid_facts = (refl, refl)

unpaid-audit_example : audit_supply (apply_checkpoint unpaid [] trusting).0 unpaid.supply ≡ false
unpaid-audit_example =
    unpaid-audit unpaid [] trusting unpaid.supply unpaid_facts.0 (omega (arith, unpaid_facts.1))
      (genesis-IsSound params (record { weight = 0; addr_tag = filled 200 } ∷ []) 0 notes).supply
