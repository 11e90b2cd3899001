-- ===== src/State.antt =====
-- crates/state/src/lib.rs: the ledger and its checkpoints. A hash set of nullifiers is a list, the
-- latest first; the variables of the loop over a checkpoint's transactions are a record.
pub mod Checkpoint
pub mod Judging
pub mod Spending
pub mod Accepted
pub mod Supply
pub mod Outputs
pub mod Anchors
pub mod Reachable
pub mod Holdings
pub mod Spent
pub mod Conservation
use unknown.Primitives.{Blake3}
use unknown.Base.{
  ℕ, ◌+◌, ◌/◌, Bool, not, ◌||◌, is_ok, Option, none, some, List, [], ◌∷◌, ◌++◌, any, ◌==◌,
  if◌then◌else◌,
}
use unknown.Base.Bytes
use unknown.Base.Bytes.{Bytes}
use unknown.Base.Words.{add_u64}
use unknown.Interfaces.{Anchor, Commitment, Nullifier, MerklePath, SpendVerifier}
use unknown.Tree
use unknown.Tree.{CommitmentTree, append, root, seal}
use unknown.Emission.{EmissionParams, RewardDescriptor}
use unknown.Quota
use unknown.Quota.{QuotaRegistry, Admit, admitted, admit}
use unknown.Tx.{TxV1, AntiSpam, pow, quota, validate_stateless}

abbrev pub epoch_length : ℕ
epoch_length = 100

pub record ValidatorInfo : Type 0 where
  pub weight : ℕ
  pub addr_tag : Bytes

pub data RejectReason : Type 0 where
  stale_or_unknown_anchor double_spend stateless_invalid quota_rejected : RejectReason

pub record CheckpointSummary : Type 0 where
  pub height : ℕ
  pub anchor : Anchor
  pub accepted : ℕ
  pub rejected : List (ℕ × RejectReason)
  pub rewards : RewardDescriptor
  pub total_supply : ℕ
  pub output_positions : List ℕ

pub record Ledger : Type 0 where
  pub tree : CommitmentTree
  pub nullifiers : List Nullifier
  pub quota : QuotaRegistry
  pub height : ℕ
  pub supply : ℕ
  pub emission : EmissionParams
  pub validators : List ValidatorInfo
  pub difficulty_bits : ℕ

-- What the loop over the transactions has gathered.
pub record Staging : Type 0 where
  pub quota : QuotaRegistry
  pub staged_nf : List Nullifier
  pub staged_cm : List Commitment
  pub seen_this_checkpoint : List Nullifier
  pub accepted : ℕ
  pub rejected : List (ℕ × RejectReason)

-- The variables before the loop.
abbrev pub start : Ledger → Staging
start l = record {
  quota = l.quota;
  staged_nf = [];
  staged_cm = [];
  seen_this_checkpoint = [];
  accepted = 0;
  rejected = [];
}

-- `HashSet::contains`.
abbrev pub contains : List Nullifier → Nullifier → Bool
contains set nf = any (λ x. Bytes.eq x nf) set

-- `for nf in nfs { set.insert(nf) }`
abbrev pub insert_all : List Nullifier → List Nullifier → List Nullifier
insert_all [] set = set
insert_all (nf ∷ nfs) set = insert_all nfs (nf ∷ set)

-- `nullifier_seen`.
abbrev pub nullifier_seen : Ledger → Nullifier → Bool
nullifier_seen l nf = contains l.nullifiers nf

abbrev pub current_epoch : Ledger → ℕ
current_epoch l = l.height / epoch_length

unfoldable pub conflict : Ledger → Staging → TxV1 → Bool
conflict l st tx =
    (contains l.nullifiers tx.nullifiers.0 || contains st.seen_this_checkpoint tx.nullifiers.0)
    || (contains l.nullifiers tx.nullifiers.1 || contains st.seen_this_checkpoint tx.nullifiers.1)

abbrev pub admit_verdict : QuotaRegistry × Admit → QuotaRegistry × Option RejectReason
admit_verdict (q, admitted) = (q, none)
admit_verdict (q, a) = (q, some quota_rejected)

-- The quota lane; the registry is asked only for a proof of the checkpoint's epoch.
unfoldable pub judge_lane : ℕ → QuotaRegistry → AntiSpam → QuotaRegistry × Option RejectReason
judge_lane next_height q (pow sol) = (q, none)
judge_lane next_height q (quota rp) =
    if not (rp.epoch == next_height / epoch_length)
    then (q, some quota_rejected)
    else admit_verdict (admit q rp)

-- The parts of a transaction that the loop stages.
abbrev pub stage : Staging → ℕ → TxV1 → QuotaRegistry × Option RejectReason → Staging
stage st i tx (q, some reason) = record st { quota = q; rejected = st.rejected ++ (i, reason) ∷ [] }
stage st i tx (q, none) = record st {
  quota = q;
  seen_this_checkpoint = tx.nullifiers.1 ∷ tx.nullifiers.0 ∷ st.seen_this_checkpoint;
  staged_nf = st.staged_nf ++ tx.nullifiers.0 ∷ tx.nullifiers.1 ∷ [];
  staged_cm = st.staged_cm ++ tx.commitments.0 ∷ tx.commitments.1 ∷ [];
  accepted = st.accepted + 1;
}

module _ ⦃b : Blake3⦄ where
  -- The genesis loop.
  unfoldable pub allocate : CommitmentTree → ℕ → List (Commitment × ℕ) → CommitmentTree × ℕ
  allocate tree supply [] = (tree, supply)
  allocate tree supply ((cm, value) ∷ notes) =
      allocate (append tree cm).0 (add_u64 supply value) notes

  unfoldable pub genesis : EmissionParams → List ValidatorInfo → ℕ → List (Commitment × ℕ) → Ledger
  unfolding allocate
  genesis emission validators difficulty_bits genesis_notes =
      let (tree, supply) = allocate Tree.new 0 genesis_notes in
      record {
        tree = (seal tree 0).0;
        nullifiers = [];
        quota = Quota.new;
        height = 0;
        supply = supply;
        emission = emission;
        validators = validators;
        difficulty_bits = difficulty_bits;
      }

  unfoldable pub current_anchor : Ledger → Anchor
  current_anchor l = record { height = l.height; root = root l.tree }

  -- One round of the loop: the registry after it, and why the transaction is rejected.
  unfoldable pub judge :
      Ledger → SpendVerifier → ℕ → Staging → TxV1 → QuotaRegistry × Option RejectReason
  unfolding conflict judge_lane
  judge l verifier next_height st tx =
      if not (Tree.anchor_valid l.tree tx.anchor)
      then (st.quota, some stale_or_unknown_anchor)
      else if not (is_ok (validate_stateless tx verifier l.difficulty_bits))
      then (st.quota, some stateless_invalid)
      else if conflict l st tx
      then (st.quota, some double_spend)
      else judge_lane next_height st.quota tx.antispam

  unfoldable pub stage_all : Ledger → SpendVerifier → ℕ → Staging → ℕ → List TxV1 → Staging
  unfolding judge
  stage_all l verifier next_height st i [] = st
  stage_all l verifier next_height st i (tx ∷ txs) =
      stage_all l verifier next_height (stage st i tx (judge l verifier next_height st tx)) (i + 1)
        txs

  -- What the loop leaves for a checkpoint.
  abbrev pub staging : Ledger → List TxV1 → SpendVerifier → Staging
  staging l ordered verifier = stage_all l verifier (l.height + 1) (start l) 0 ordered

  abbrev pub tree_witness : Ledger → ℕ → Option MerklePath
  tree_witness l position = Tree.witness l.tree position

  abbrev pub anchor_valid : Ledger → Anchor → Bool
  anchor_valid l anchor = Tree.anchor_valid l.tree anchor
