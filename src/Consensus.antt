-- ===== src/Consensus.antt =====
-- crates/consensus/src/lib.rs: the commit order of a round, and a cluster of replicas. The ordered
-- map from digests to transactions is a list of its entries in order.
pub mod Entries
pub mod Order
pub mod First
pub mod Agreement
use unknown.Base.{
  ℕ, zero, suc, ◌+◌, Bool, true, false, ◌&&◌, Option, none, some, List, [], ◌∷◌, replicate, all,
  ◌==◌, if◌then◌else◌,
}
use mathlib.Core.List.{map}
use unknown.Base.Bytes
use unknown.Base.Bytes.{Bytes}
use unknown.Base.Words.{add_u64}
use unknown.Primitives.{Blake3}
use unknown.Interfaces.{Commitment, SpendVerifier, Anchor}
use unknown.Emission.{EmissionParams}
use unknown.Tx.{TxV1, binding_digest}
use unknown.State.{Ledger, ValidatorInfo, RejectReason, CheckpointSummary, genesis}
use unknown.State.Checkpoint.{apply_checkpoint, audit_supply}

-- `seen.entry(key).or_insert(tx)`: an occupied entry stays as it is.
pub or_insert : Bytes → TxV1 → List (Bytes × TxV1) → List (Bytes × TxV1)
or_insert key tx [] = (key, tx) ∷ []
or_insert key tx ((key', tx') ∷ seen) =
    let rest = or_insert key tx seen in
    if Bytes.lt key key'
    then (key, tx) ∷ (key', tx') ∷ seen
    else if Bytes.eq key key'
    then (key', tx') ∷ seen
    else (key', tx') ∷ rest

pub record RoundOutcome : Type 0 where
  pub height : ℕ
  pub root : Bytes
  pub accepted : ℕ
  pub rejected : List (ℕ × RejectReason)
  pub total_supply : ℕ
  pub agreed : Bool

pub record Cluster : Type 0 where
  pub replicas : List Ledger
  pub genesis_supply : ℕ

-- The sum of the values, `sum` over `u64`.
pub sum_values : ℕ → List (Commitment × ℕ) → ℕ
sum_values total [] = total
sum_values total ((cm, value) ∷ notes) = sum_values (add_u64 total value) notes

-- Whether a replica's summary agrees with the first one.
abbrev pub agrees : CheckpointSummary → CheckpointSummary → Bool
agrees first s =
    Bytes.eq s.anchor.root first.anchor.root
    && (s.accepted == first.accepted
        && (s.total_supply == first.total_supply && s.height == first.height))

-- The outcome from the summaries; without a replica the code stops.
abbrev pub outcome : List CheckpointSummary → Option RoundOutcome
outcome [] = none
outcome (first ∷ rest) = some (record {
  height = first.height;
  root = first.anchor.root;
  accepted = first.accepted;
  rejected = first.rejected;
  total_supply = first.total_supply;
  agreed = all (agrees first) (first ∷ rest);
})

module _ ⦃b : Blake3⦄ where
  pub gather : List TxV1 → List (Bytes × TxV1) → List (Bytes × TxV1)
  unfolding or_insert
  gather [] seen = seen
  gather (tx ∷ submitted) seen = gather submitted (or_insert (binding_digest tx) tx seen)

  pub commit_order : List TxV1 → List TxV1
  unfolding gather
  commit_order submitted = map (λ (entry : Bytes × TxV1). entry.1) (gather submitted [])

  -- `Cluster::new`.
  pub new_cluster : ℕ → EmissionParams → List ValidatorInfo → ℕ → List (Commitment × ℕ) → Cluster
  unfolding sum_values
  new_cluster n emission validators difficulty_bits genesis_notes = record {
    replicas = replicate n (genesis emission validators difficulty_bits genesis_notes);
    genesis_supply = sum_values 0 genesis_notes;
  }

  pub commit_round : Cluster → List TxV1 → SpendVerifier → Cluster × Option RoundOutcome
  unfolding commit_order
  commit_round c submitted verifier =
      let ordered = commit_order submitted in
      let results = map (λ r. apply_checkpoint r ordered verifier) c.replicas in
      (
        record c { replicas = map (λ (r : Ledger × CheckpointSummary). r.0) results },
        outcome (map (λ (r : Ledger × CheckpointSummary). r.1) results),
      )

  pub audit : Cluster → Bool
  audit c = all (λ r. audit_supply r c.genesis_supply) c.replicas
