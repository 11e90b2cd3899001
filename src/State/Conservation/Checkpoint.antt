-- ===== src/State/Conservation/Checkpoint.antt =====
-- The notes behind a ledger, before and after a checkpoint.
use unknown.Base.{
  ℕ, ◌+◌, ◌≡◌, ◌⊎◌, inl, inr, refl, sym, ap, ◌∙◌, arith, Bool, true, false, ◌||◌, List, [], ◌∷◌,
  ◌++◌, any-append, All, All-append,
}
use mathlib.Core.List.{map, map-append, append-nil}
use unknown.Base.Bytes.{Bytes, eq}
use unknown.Primitives.{Blake3, length-hash_parts}
use unknown.Interfaces.{SpendVerifier, Nullifier}
use unknown.Interfaces.Encoding.{Is32}
use unknown.Notes.{Note, commitment}
use unknown.Tree.{CommitmentTree, seal, empty_roots}
use unknown.Tree.Anchors.{All-evict}
use unknown.ProverDev.Statement.{total_out}
use unknown.Emission.{RewardShare, reward_descriptor}
use unknown.Emission.Split.{paid}
use unknown.Tx.{TxV1}
use unknown.State.{Ledger, contains, nullifier_seen, start, staging}
use unknown.State.Checkpoint.{apply_checkpoint}
use unknown.State.Spending.{AreDistinct, IsFresh, stage_all-IsFresh, apply_checkpoint-AreDistinct}
use unknown.State.Accepted.{stage_all-IsStagedFor}
use unknown.State.Outputs.{grown_tree, grown_tree-IsGrown, sealed_tree, added}
use unknown.State.Holdings.{IsOpening, worth_at}
use unknown.State.Spent.{IsSpent, IsSpent-weaken}
use unknown.State.Conservation.{IsSoundVerifier, IsRooted, total_out-append}
use unknown.State.Conservation.Rewards.{
  AreU64, AreShortTags, distribute-AreU64, reward_notes, reward_notes-behind,
  total_out-reward_notes, reward_notes-openings,
}
use unknown.State.Conservation.Round.{IsForgedRound, IsCarried, carry_all}
use unknown.State.Conservation.Growth.{worth_at-append, All-IsRooted-append, IsSpent-append}

module _ ⦃b : Blake3⦄ where
  commitments-Is32 : (notes : List Note) → All Is32 (map commitment notes)
  unfolding commitment
  commitments-Is32 [] = tt
  commitments-Is32 (n ∷ notes) = (length-hash_parts _ _, commitments-Is32 notes)

  -- The notes behind a ledger: those of all its leaves, of which the revealed nullifiers have spent
  -- some, and whose value is what was issued and what was spent.
  pub record IsBacked (key_of : Bytes → Bytes) (l : Ledger) (issued : ℕ) : Type 0 where
    pub notes : List Note
    pub places : List ℕ
    pub openings : All IsOpening notes
    pub leaves : map commitment notes ≡ l.tree.leaves
    pub empty : l.tree.empty ≡ empty_roots
    pub rooted : All (IsRooted notes) l.tree.anchors
    pub once : AreDistinct l.nullifiers
    pub spent : IsSpent key_of notes (nullifier_seen l) places
    pub balance : total_out notes ≡ issued + worth_at notes places

  -- The anchor of a tree of which the notes are behind all leaves.
  pub seal-IsRooted :
      (notes : List Note) (t : CommitmentTree) (h : ℕ)
      → All IsOpening notes
      → map commitment notes ≡ t.leaves
      → t.empty ≡ empty_roots
      → IsRooted notes (seal t h).1
  unfolding seal
  seal-IsRooted notes t h openings leaves empty = (
    t,
    record {
      openings = openings;
      tree = record { leaves = rw (← leaves) (commitments-Is32 notes); empty = empty };
      later = [];
      leaves = append-nil t.leaves ∙ sym leaves;
    },
    refl,
  )

  pub anchors-IsRooted :
      (notes : List Note) (t : CommitmentTree) (h : ℕ)
      → All (IsRooted notes) t.anchors
      → IsRooted notes (seal t h).1
      → All (IsRooted notes) (seal t h).0.anchors
  unfolding seal
  anchors-IsRooted notes t h old new =
      All-evict (IsRooted notes) h (t.anchors ++ (seal t h).1 ∷ [])
        (All-append (IsRooted notes) t.anchors ((seal t h).1 ∷ []) old (new, tt))

  any_order : (s t : Bool) → (s || t) ≡ true → (t || s) ≡ true
  any_order true true e = refl
  any_order true false e = refl
  any_order false true e = refl
  any_order false false e = e

  module _ (key_of : Bytes → Bytes) (l : Ledger) (txs : List TxV1) (verifier : SpendVerifier)
      (issued : ℕ) (h : IsBacked key_of l issued) where
    -- Nothing is moved before the loop.
    started : IsCarried key_of l h.notes (worth_at h.notes h.places) (start l)
    started = record {
      places = h.places;
      spent =
          IsSpent-weaken key_of h.notes _ _ h.places
            (λ nf s. any_order false _ (any_order _ false (rw s refl))) h.spent;
      outputs = [];
      openings = tt;
      commitments = refl;
      balance = omega arith;
    }

    fresh : IsFresh l verifier (l.height + 1) (staging l txs verifier)
    fresh =
        stage_all-IsFresh l verifier (l.height + 1) (start l) 0 txs
          (record { staged = refl; distinct = h.once })

    -- The nullifiers that the loop has seen are those of the ledger afterwards.
    seen_after :
        (nf : Nullifier)
        → (contains l.nullifiers nf || contains (staging l txs verifier).seen_this_checkpoint nf)
          ≡ true
        → nullifier_seen (apply_checkpoint l txs verifier).0 nf ≡ true
    unfolding apply_checkpoint
    seen_after nf e =
        ap (λ set. contains set nf) fresh.staged
        ∙ (any-append (λ x. eq x nf) (staging l txs verifier).seen_this_checkpoint l.nullifiers
            ∙ any_order (contains l.nullifiers nf) _ e)

    abbrev shares : List RewardShare
    shares = (apply_checkpoint l txs verifier).1.rewards.shares

    shares-AreU64 : AreU64 shares
    unfolding apply_checkpoint reward_descriptor
    shares-AreU64 = distribute-AreU64 _ _

    module _ (short : AreShortTags l.validators)
        (c : IsCarried key_of l h.notes (worth_at h.notes h.places) (staging l txs verifier)) where
      abbrev rewards : List Note
      rewards = reward_notes (l.height + 1) l.validators shares

      abbrev more : List Note
      more = c.outputs ++ rewards

      more_openings : All IsOpening more
      more_openings =
          All-append IsOpening c.outputs rewards c.openings
            (reward_notes-openings (l.height + 1) l.validators shares short shares-AreU64)

      more_behind : map commitment more ≡ added l txs verifier
      more_behind =
          let staged = stage_all-IsStagedFor l verifier (l.height + 1) (start l) 0 txs in
          map-append commitment c.outputs rewards ∙ (λ i.
            (c.commitments ∙ staged.commitments) i
            ++ reward_notes-behind (l.height + 1) l.validators shares i)

      grown_behind : map commitment (h.notes ++ more) ≡ (grown_tree l txs verifier).leaves
      grown_behind =
          map-append commitment h.notes more
          ∙ ((λ i. h.leaves i ++ more_behind i) ∙ sym (grown_tree-IsGrown l txs verifier).leaves)

      -- What the loop has carried is behind the ledger afterwards.
      settled : IsBacked key_of (apply_checkpoint l txs verifier).0 (issued + paid shares)
      unfolding seal
      settled =
          let l' = (apply_checkpoint l txs verifier).0 in
          let notes = h.notes ++ more in
          let grown = grown_tree l txs verifier in
          let is_grown = grown_tree-IsGrown l txs verifier in
          let sealed = (sealed_tree l txs verifier).0 in
          let openings = All-append IsOpening h.notes more h.openings more_openings in
          record {
            notes = notes;
            places = c.places;
            openings = openings;
            leaves = grown_behind ∙ sym (ap CommitmentTree.leaves sealed);
            empty = ap CommitmentTree.empty sealed ∙ (is_grown.empty ∙ h.empty);
            rooted = rw sealed (
                anchors-IsRooted notes grown (l.height + 1)
                  (rw is_grown.anchors
                    (All-IsRooted-append h.notes more l.tree.anchors more_openings h.rooted))
                  (seal-IsRooted notes grown (l.height + 1) openings grown_behind
                    (is_grown.empty ∙ h.empty)));
            once = apply_checkpoint-AreDistinct l txs verifier h.once;
            spent =
                IsSpent-append key_of h.notes more (nullifier_seen l') c.places
                  (IsSpent-weaken key_of h.notes _ _ c.places seen_after c.spent);
            balance = omega (
              arith,
              h.balance,
              c.balance,
              total_out-append h.notes more,
              total_out-append c.outputs rewards,
              total_out-reward_notes (l.height + 1) l.validators shares,
              worth_at-append h.notes more c.places c.spent.inside,
            );
          }

  -- A transaction of a checkpoint spends a forged note: one that is not among the notes behind the
  -- ledger's leaves.
  abbrev pub IsForgedCheckpoint :
      (key_of : Bytes → Bytes) (l : Ledger) (txs : List TxV1) (verifier : SpendVerifier)
      → IsSoundVerifier key_of verifier
      → Type 0
  IsForgedCheckpoint key_of l txs verifier sound =
      (notes : List Note) × All IsOpening notes
      × (map commitment notes ≡ l.tree.leaves)
      × IsForgedRound key_of verifier sound notes txs

  -- A checkpoint with a sound verifier issues what its rewards pay, and no more: the notes behind
  -- the ledger are backed before and after, or a transaction spends a forged note.
  pub apply_checkpoint-IsBacked :
      (key_of : Bytes → Bytes) (l : Ledger) (txs : List TxV1) (verifier : SpendVerifier)
      (issued : ℕ)
      → (sound : IsSoundVerifier key_of verifier) → AreShortTags l.validators
      → IsBacked key_of l issued
      → IsBacked key_of
          (apply_checkpoint l txs verifier).0
          (issued + paid (apply_checkpoint l txs verifier).1.rewards.shares)
        ⊎ IsForgedCheckpoint key_of l txs verifier sound
  apply_checkpoint-IsBacked key_of l txs verifier issued sound short h =
      elim (carry_all key_of l verifier (l.height + 1) sound h.notes h.rooted
        (worth_at h.notes h.places) (start l) 0 txs (started key_of l txs verifier issued h)) [
          | inl c ↦ inl (settled key_of l txs verifier issued h short c)
          | inr forged ↦ inr (h.notes, h.openings, h.leaves, forged)
        ]
