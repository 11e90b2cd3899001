-- ===== src/State/Outputs.antt =====
-- The tree after a checkpoint: the outputs of accepted transactions, their positions and their paths.
use unknown.Base.{
  ℕ, zero, suc, ◌+◌, ◌^◌, ◌<◌, ◌≤◌, ◌≡◌, refl, sym, ap, ◌∙◌, arith, true, some, List, [], ◌∷◌, ◌++◌,
  length, length-append, get_or, get_elem?, get_or-append_left, get_or-append_right,
}
use mathlib.Core.List.{append_assoc, append-nil}
use unknown.Base.Words.{add_u64}
use unknown.Primitives.{Blake3}
use unknown.Interfaces.{SpendVerifier, Anchor, MerklePath, Commitment}
use unknown.Tree.{CommitmentTree, append, root, seal, len, verify_path}
use unknown.Tree.Shape.{root_of_parts}
use unknown.Tree.Membership.{witness-verifies}
use unknown.Notes.{commitment}
use unknown.Emission.{RewardShare}
use unknown.Tx.{TxV1}
use unknown.State.{Ledger, ValidatorInfo, staging, start, tree_witness}
use unknown.State.Checkpoint.{range, append_all, mint, reward_note, apply_checkpoint}
use unknown.State.Accepted.{outputs_of, accepted_by, stage_all-IsStagedFor}

get-range : (base n j : ℕ) → j < n → get_elem? (range base n) j ≡ some (base + j)
get-range base zero j h = elim h [ ]
get-range base (suc n) zero h = let e : base + 0 ≡ base = omega arith in rw e
get-range base (suc n) (suc j) h =
    let e : base + suc j ≡ base + 1 + j = omega arith in
    rw e (get-range (base + 1) n j (omega arith))

module _ ⦃b : Blake3⦄ where
  -- A tree that has grown by leaves: its anchors and empty roots are those before.
  pub record IsGrown (t : CommitmentTree) (cms : List Commitment) (t' : CommitmentTree)
      : Type 0 where
    pub leaves : t'.leaves ≡ t.leaves ++ cms
    pub empty : t'.empty ≡ t.empty
    pub anchors : t'.anchors ≡ t.anchors

  IsGrown-none : (t : CommitmentTree) → IsGrown t [] t
  IsGrown-none t = record { leaves = sym (append-nil t.leaves); empty = refl; anchors = refl }

  IsGrown-one :
      (t : CommitmentTree) (cm : Commitment) (cms : List Commitment) (t' : CommitmentTree)
      → IsGrown (append t cm).0 cms t'
      → IsGrown t (cm ∷ cms) t'
  unfolding append
  IsGrown-one t cm cms t' h = record {
    leaves = h.leaves ∙ append_assoc t.leaves (cm ∷ []) cms;
    empty = h.empty;
    anchors = h.anchors;
  }

  append_all-IsGrown :
      (t : CommitmentTree) (cms : List Commitment) → IsGrown t cms (append_all t cms)
  append_all-IsGrown t [] = IsGrown-none t
  append_all-IsGrown t (cm ∷ cms) =
      IsGrown-one t cm cms (append_all (append t cm).0 cms) (append_all-IsGrown (append t cm).0 cms)

  -- The commitments of the reward notes.
  abbrev pub reward_commitments : ℕ → List ValidatorInfo → List RewardShare → List Commitment
  reward_commitments h vs [] = []
  reward_commitments h vs (share ∷ shares) =
      commitment (reward_note h vs share) ∷ reward_commitments h vs shares

  mint-IsGrown :
      (h : ℕ) (vs : List ValidatorInfo) (t : CommitmentTree) (supply : ℕ)
      (shares : List RewardShare)
      → IsGrown t (reward_commitments h vs shares) (mint h vs t supply shares).0
  unfolding mint
  mint-IsGrown h vs t supply [] = IsGrown-none t
  mint-IsGrown h vs t supply (share ∷ shares) =
      let cm : Commitment = commitment (reward_note h vs share) in
      IsGrown-one t cm (reward_commitments h vs shares)
        (mint h vs (append t cm).0 (add_u64 supply share.amount) shares).0
        (mint-IsGrown h vs (append t cm).0 (add_u64 supply share.amount) shares)

  IsGrown-twice :
      (t u v : CommitmentTree) (xs ys : List Commitment)
      → IsGrown t xs u
      → IsGrown u ys v
      → IsGrown t (xs ++ ys) v
  IsGrown-twice t u v xs ys h k = record {
    leaves = k.leaves ∙ (ap (λ ls. ls ++ ys) h.leaves ∙ append_assoc t.leaves xs ys);
    empty = k.empty ∙ h.empty;
    anchors = k.anchors ∙ h.anchors;
  }

  -- The tree of a checkpoint before it is sealed.
  abbrev pub grown_tree : Ledger → List TxV1 → SpendVerifier → CommitmentTree
  grown_tree l txs verifier =
      (mint (l.height + 1) l.validators (append_all l.tree (staging l txs verifier).staged_cm)
        l.supply (apply_checkpoint l txs verifier).1.rewards.shares).0

  -- The commitments that a checkpoint adds: the accepted outputs, then the rewards.
  abbrev pub added : Ledger → List TxV1 → SpendVerifier → List Commitment
  added l txs verifier =
      outputs_of (accepted_by l txs verifier)
      ++ reward_commitments (l.height + 1) l.validators
          (apply_checkpoint l txs verifier).1.rewards.shares

  pub grown_tree-IsGrown :
      (l : Ledger) (txs : List TxV1) (verifier : SpendVerifier)
      → IsGrown l.tree (added l txs verifier) (grown_tree l txs verifier)
  grown_tree-IsGrown l txs verifier =
      let st = staging l txs verifier in
      let staged = stage_all-IsStagedFor l verifier (l.height + 1) (start l) 0 txs in
      let shares = (apply_checkpoint l txs verifier).1.rewards.shares in
      IsGrown-twice l.tree (append_all l.tree st.staged_cm) (grown_tree l txs verifier)
        (outputs_of (accepted_by l txs verifier))
        (reward_commitments (l.height + 1) l.validators shares)
        (rw (← staged.commitments) (append_all-IsGrown l.tree st.staged_cm))
        (mint-IsGrown (l.height + 1) l.validators (append_all l.tree st.staged_cm) l.supply shares)

  -- What a checkpoint leaves of its tree and reports about it.
  pub sealed_tree :
      (l : Ledger) (txs : List TxV1) (verifier : SpendVerifier)
      → ((apply_checkpoint l txs verifier).0.tree
          ≡ (seal (grown_tree l txs verifier) (l.height + 1)).0)
        × ((apply_checkpoint l txs verifier).1.anchor
            ≡ (seal (grown_tree l txs verifier) (l.height + 1)).1)
  unfolding apply_checkpoint
  sealed_tree l txs verifier = (refl, refl)

  -- The tree keeps its leaves, and gains the output commitments of the accepted transactions in
  -- order, followed by the commitments of the reward notes.
  pub apply_checkpoint-leaves :
      (l : Ledger) (txs : List TxV1) (verifier : SpendVerifier)
      → (apply_checkpoint l txs verifier).0.tree.leaves ≡ l.tree.leaves ++ added l txs verifier
  unfolding seal
  apply_checkpoint-leaves l txs verifier =
      ap CommitmentTree.leaves (sealed_tree l txs verifier).0
      ∙ (grown_tree-IsGrown l txs verifier).leaves

  -- The root of the summary's anchor is the root of the ledger's tree.
  pub sealed_root :
      (l : Ledger) (txs : List TxV1) (verifier : SpendVerifier)
      → (apply_checkpoint l txs verifier).1.anchor.root
        ≡ root (apply_checkpoint l txs verifier).0.tree
  unfolding seal
  sealed_root l txs verifier =
      let t = grown_tree l txs verifier in
      ap Anchor.root (sealed_tree l txs verifier).1
      ∙ (root_of_parts t (seal t (l.height + 1)).0 refl refl
          ∙ sym (ap root (sealed_tree l txs verifier).0))

  positions :
      (l : Ledger) (txs : List TxV1) (verifier : SpendVerifier) (j : ℕ)
      → j < length (outputs_of (accepted_by l txs verifier))
      → get_elem? (apply_checkpoint l txs verifier).1.output_positions j
        ≡ some (length l.tree.leaves + j)
  unfolding apply_checkpoint len
  positions l txs verifier j h =
      get-range (length l.tree.leaves) (length (staging l txs verifier).staged_cm) j
        (rw (stage_all-IsStagedFor l verifier (l.height + 1) (start l) 0 txs).commitments h)

  -- Each output of an accepted transaction can be spent at once: the summary reports its position in
  -- commit order, the ledger has a path for that position, and the path proves the output's
  -- commitment against the root of the checkpoint's anchor, if the tree keeps to its 2 ^ 32 leaves.
  pub output-spendable :
      (l : Ledger) (txs : List TxV1) (verifier : SpendVerifier) (j : ℕ)
      → j < length (outputs_of (accepted_by l txs verifier))
      → length (apply_checkpoint l txs verifier).0.tree.leaves ≤ 2 ^ 32
      → let (l', summary) = apply_checkpoint l txs verifier in
        (get_elem? summary.output_positions j ≡ some (length l.tree.leaves + j))
        × ((path : MerklePath) × (tree_witness l' (length l.tree.leaves + j) ≡ some path)
            × (verify_path
                  (get_or (outputs_of (accepted_by l txs verifier)) j [])
                  path
                  summary.anchor.root
                ≡ true))
  output-spendable l txs verifier j h room =
      let l' = (apply_checkpoint l txs verifier).0 in
      let outputs = outputs_of (accepted_by l txs verifier) in
      let leaves = apply_checkpoint-leaves l txs verifier in
      let count = ap length leaves ∙ length-append l.tree.leaves (added l txs verifier) in
      let rest =
        reward_commitments (l.height + 1) l.validators
          (apply_checkpoint l txs verifier).1.rewards.shares in
      let more = length-append outputs rest in
      let (path, found, same, n, good) =
        witness-verifies l'.tree (length l.tree.leaves + j) room (omega (arith, count, more, h)) in
      let leaf : get_or l'.tree.leaves (length l.tree.leaves + j) [] ≡ get_or outputs j [] =
        ap (λ ls. get_or ls (length l.tree.leaves + j) []) leaves
        ∙ (get_or-append_right l.tree.leaves (outputs ++ rest) j []
            ∙ get_or-append_left outputs rest j [] h) in
      (
        positions l txs verifier j h,
        (path, found, rw (sealed_root l txs verifier) (rw leaf at good)),
      )
