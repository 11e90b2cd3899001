-- ===== src/State/Checkpoint.antt =====
-- crates/state/src/lib.rs: a checkpoint of the ledger, and the audit of its supply.
use unknown.Base.{ℕ, zero, suc, ◌+◌, ◌%◌, Bool, List, [], ◌∷◌, length, get_or, ◌==◌}
use mathlib.Core.List.{map}
use unknown.Base.Words.{add_u64}
use unknown.Primitives.{Blake3}
use unknown.Interfaces.{Commitment, SpendVerifier}
use unknown.Notes.{Note, commitment, rho_mint}
use unknown.Tree.{CommitmentTree, append, len, seal}
use unknown.Emission.{EmissionParams, emission_at, RewardShare, reward_descriptor}
use unknown.Tx.{TxV1}
use unknown.State.{ValidatorInfo, CheckpointSummary, Ledger, start, insert_all, stage_all}

-- `(base..base + n).collect()`
abbrev pub range : ℕ → ℕ → List ℕ
range base zero = []
range base (suc n) = base ∷ range (base + 1) n

-- The validator an index out of range would give; the code would stop there.
abbrev pub no_validator : ValidatorInfo
no_validator = record { weight = 0; addr_tag = [] }

module _ ⦃b : Blake3⦄ where
  abbrev pub append_all : CommitmentTree → List Commitment → CommitmentTree
  append_all t [] = t
  append_all t (cm ∷ cms) = append_all (append t cm).0 cms

  -- The note of a reward; the index is cut to a byte, and the sum of bytes wraps.
  unfoldable pub reward_note : ℕ → List ValidatorInfo → RewardShare → Note
  reward_note next_height validators share = record {
    value = share.amount;
    addr_tag = (get_or validators share.validator_index no_validator).addr_tag;
    rho = rho_mint next_height (share.validator_index % 256);
    rseed = rho_mint next_height ((128 + share.validator_index % 256) % 256);
  }

  unfoldable pub mint :
      ℕ → List ValidatorInfo → CommitmentTree → ℕ → List RewardShare → CommitmentTree × ℕ
  unfolding reward_note
  mint next_height validators tree supply [] = (tree, supply)
  mint next_height validators tree supply (share ∷ shares) =
      mint next_height validators
        (append tree (commitment (reward_note next_height validators share))).0
        (add_u64 supply share.amount) shares

  unfoldable pub apply_checkpoint : Ledger → List TxV1 → SpendVerifier → Ledger × CheckpointSummary
  unfolding stage_all mint
  apply_checkpoint l ordered verifier =
      let next_height = l.height + 1 in
      let st = stage_all l verifier next_height (start l) 0 ordered in
      let nullifiers = insert_all st.staged_nf l.nullifiers in
      let output_positions = range (len l.tree) (length st.staged_cm) in
      let tree = append_all l.tree st.staged_cm in
      let rewards =
        reward_descriptor l.emission next_height
          (map (λ (v : ValidatorInfo). v.weight) l.validators) in
      let (minted, supply) = mint next_height l.validators tree l.supply rewards.shares in
      let (sealed, anchor) = seal minted next_height in
      (
        record l {
          tree = sealed;
          nullifiers = nullifiers;
          quota = st.quota;
          height = next_height;
          supply = supply;
        },
        record {
          height = next_height;
          anchor = anchor;
          accepted = st.accepted;
          rejected = st.rejected;
          rewards = rewards;
          total_supply = supply;
          output_positions = output_positions;
        },
      )

-- The emission of the heights from `from` on, `n` of them, on `u64`.
unfoldable pub minted_from : EmissionParams → ℕ → ℕ → ℕ
minted_from p zero from = 0
minted_from p (suc n) from = add_u64 (emission_at p from) (minted_from p n (from + 1))

unfoldable pub audit_supply : Ledger → ℕ → Bool
unfolding minted_from
audit_supply l genesis_supply =
    l.supply == add_u64 genesis_supply (minted_from l.emission l.height 1)
