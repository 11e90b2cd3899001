-- ===== src/State/Anchors.antt =====
-- The anchors that a ledger accepts after a checkpoint.
use unknown.Base.{
  or_right, ℕ, ◌+◌, ◌-◌, ◌≡◌, refl, sym, ◌∙◌, arith, true, ◌&&◌, ◌||◌, List, ltb, lt→ltb,
}
use unknown.Primitives.{Blake3}
use unknown.Interfaces.{SpendVerifier, Anchor, anchor_window}
use unknown.Tree
use unknown.Tree.{CommitmentTree, anchor_eq, seal, append, root}
use unknown.Tree.Anchors.{anchor_eq_refl, IsSealedBy, seal-IsSealedBy, anchor_valid-seal}
use unknown.Tx.{TxV1}
use unknown.State.{Ledger, anchor_valid, current_anchor}
use unknown.State.Checkpoint.{apply_checkpoint}
use unknown.State.Outputs.{grown_tree, grown_tree-IsGrown, sealed_tree, sealed_root}

module _ ⦃b : Blake3⦄ where
  -- Anchors sealed in order of height, none above the ledger's.
  abbrev pub IsSealed : Ledger → Type 0
  IsSealed l = IsSealedBy l.height l.tree

  seal_of_parts :
      (t u : CommitmentTree) (h : ℕ) → t.anchors ≡ u.anchors → IsSealedBy h t → IsSealedBy h u
  seal_of_parts t u h e s = record {
    ascending = rw (← e) s.ascending;
    bounded = rw (← e) s.bounded;
  }

  valid_of_parts :
      (t u : CommitmentTree) (a : Anchor)
      → t.anchors ≡ u.anchors
      → Tree.anchor_valid t a ≡ Tree.anchor_valid u a
  unfolding Tree.anchor_valid
  valid_of_parts t u a e = rw e refl

  grown_sealed :
      (l : Ledger) (txs : List TxV1) (verifier : SpendVerifier)
      → IsSealed l
      → IsSealedBy l.height (grown_tree l txs verifier)
  grown_sealed l txs verifier h =
      seal_of_parts l.tree (grown_tree l txs verifier) l.height
        (sym (grown_tree-IsGrown l txs verifier).anchors) h

  height_next :
      (l : Ledger) (txs : List TxV1) (verifier : SpendVerifier)
      → (apply_checkpoint l txs verifier).0.height ≡ l.height + 1
  unfolding apply_checkpoint
  height_next l txs verifier = refl

  -- A checkpoint keeps the sealed anchors in order of height.
  pub apply_checkpoint-IsSealed :
      (l : Ledger) (txs : List TxV1) (verifier : SpendVerifier)
      → IsSealed l
      → IsSealed (apply_checkpoint l txs verifier).0
  apply_checkpoint-IsSealed l txs verifier h =
      rw (height_next l txs verifier, (sealed_tree l txs verifier).0)
        (seal-IsSealedBy (grown_tree l txs verifier) l.height (l.height + 1) (omega arith)
          (grown_sealed l txs verifier h))

  -- After a checkpoint the ledger accepts exactly the anchors that it accepted before, with the
  -- checkpoint's own, less those whose height is the window or more below the new height.
  pub anchor_valid-apply_checkpoint :
      (l : Ledger) (txs : List TxV1) (verifier : SpendVerifier) (a : Anchor)
      → IsSealed l
      → let (l', summary) = apply_checkpoint l txs verifier in
        anchor_valid l' a
        ≡ (anchor_valid l a || anchor_eq summary.anchor a)
          && ltb (l'.height - a.height) anchor_window
  anchor_valid-apply_checkpoint l txs verifier a h =
      let t = grown_tree l txs verifier in
      let same = valid_of_parts t l.tree a (grown_tree-IsGrown l txs verifier).anchors in
      rw
        (height_next l txs verifier, (sealed_tree l txs verifier).0, (sealed_tree l txs verifier).1)
        (rw same at (
          anchor_valid-seal t l.height (l.height + 1) a (grown_sealed l txs verifier h)
            (omega arith)))

  sealed_height :
      (l : Ledger) (txs : List TxV1) (verifier : SpendVerifier)
      → (apply_checkpoint l txs verifier).1.anchor.height ≡ l.height + 1
  unfolding apply_checkpoint seal
  sealed_height l txs verifier = refl

  own_valid :
      (l : Ledger) (txs : List TxV1) (verifier : SpendVerifier)
      → IsSealed l
      → anchor_valid (apply_checkpoint l txs verifier).0 (apply_checkpoint l txs verifier).1.anchor
        ≡ true
  own_valid l txs verifier h =
      let own = (apply_checkpoint l txs verifier).1.anchor in
      let heights = height_next l txs verifier in
      let sealed = sealed_height l txs verifier in
      let near : ltb ((apply_checkpoint l txs verifier).0.height - own.height) anchor_window
          ≡ true =
        lt→ltb ((apply_checkpoint l txs verifier).0.height - own.height) anchor_window
          (omega (arith, heights, sealed)) in
      anchor_valid-apply_checkpoint l txs verifier own h
      ∙ rw (or_right (anchor_valid l own) (anchor_eq own own) (anchor_eq_refl own), near) refl

  -- The current anchor of the ledger after a checkpoint is the summary's anchor, and it is accepted.
  pub current_anchor-IsValid :
      (l : Ledger) (txs : List TxV1) (verifier : SpendVerifier)
      → IsSealed l
      → let (l', summary) = apply_checkpoint l txs verifier in
        (current_anchor l' ≡ summary.anchor) × (anchor_valid l' (current_anchor l') ≡ true)
  unfolding current_anchor
  current_anchor-IsValid l txs verifier h =
      let heights = height_next l txs verifier ∙ sym (sealed_height l txs verifier) in
      let roots = sym (sealed_root l txs verifier) in
      let own : current_anchor (apply_checkpoint l txs verifier).0
          ≡ (apply_checkpoint l txs verifier).1.anchor =
        λ i. record { height = heights i; root = roots i } in
      (own, rw own (own_valid l txs verifier h))
