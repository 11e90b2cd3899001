-- ===== src/Wallet/Padding.antt =====
-- The dummy that pads a transfer of one input, and what it means for the next such transfer.
use unknown.Base.{
  or_right, ℕ, ◌≡◌, ◌≢◌, ◌⊎◌, inl, inr, refl, true, false, ◌||◌, Bool-cases, Option, Option-cases,
  none, ok, List, [], ◌∷◌, get_or, replicate,
}
use unknown.Base.Bytes.{Bytes, lt}
use unknown.Primitives.{Blake3}
use unknown.Interfaces.{Anchor, MerklePath, SpendVerifier, Nullifier}
use unknown.Notes.{dummy, nullifier}
use unknown.Keys.{Ciphers, PaymentAddress, SpendingKey, nk}
use unknown.Quota.{QuotaRegistry}
use unknown.ProverDev.{InputWitness}
use unknown.Tx.{TxV1}
use unknown.State.{Ledger, Staging, nullifier_seen, contains, conflict, judge}
use unknown.State.Judging.{conflict_iff, judge_iff}
use unknown.Wallet.Building.{build_transfer-IsBuilt}
use unknown.Wallet.Completion.{complete-IsCompleted}
use unknown.Wallet.{Wallet, NoteRecord, select_inputs}
use unknown.Wallet.Transfer.{with_paths, dummies, sort_nullifiers, build_transfer}

module _ ⦃b : Blake3⦄ where
  -- The nullifier of the padding of every transfer with one input.
  abbrev pub padding_nullifier : SpendingKey → Nullifier
  padding_nullifier k = nullifier (dummy (replicate 32 0xD0)) (nk k)

  sorted_pair :
      (x y : Nullifier)
      → let nfs = sort_nullifiers (x ∷ y ∷ []) in (get_or nfs 0 [] ≡ y) ⊎ (get_or nfs 1 [] ≡ y)
  sorted_pair x y = elim (Bool-cases (lt y x)) [
    | inl below ↦ inl (rw below refl)
    | inr above ↦ inr (rw above refl)
  ]

  one_path :
      (witness_for : ℕ → Option MerklePath) (r : NoteRecord) {inputs : List InputWitness}
      → with_paths witness_for (r ∷ []) ≡ ok inputs
      → (path : MerklePath) × (record { note = r.note; path = path; is_dummy = false } ∷ []
          ≡ inputs)
  unfolding with_paths
  one_path witness_for r e = elim (Option-cases (witness_for r.position)) [
    | inl missing ↦ absurd (cc (rw missing at e))
    | inr (path, found) ↦ (path, cc (rw found at e))
  ]

  module _ ⦃c : Ciphers⦄ where
    -- A transfer of one chosen note always reveals the nullifier of the same dummy, whatever its
    -- amount, recipient and seed: it depends on the spending key alone.
    single-padding :
        (w : Wallet) (recipient : PaymentAddress) (amount : ℕ) (anchor : Anchor)
        (witness_for : ℕ → Option MerklePath) (seed : Bytes) (r : NoteRecord) {tx : TxV1}
        → select_inputs w amount ≡ ok (r ∷ [])
        → build_transfer w recipient amount anchor witness_for seed ≡ ok tx
        → (tx.nullifiers.0 ≡ padding_nullifier w.sk) ⊎ (tx.nullifiers.1 ≡ padding_nullifier w.sk)
    unfolding dummies
    single-padding w recipient amount anchor witness_for seed r {tx} one e =
        let built = build_transfer-IsBuilt w recipient amount anchor witness_for seed e in
        let done = complete-IsCompleted w.sk anchor _ _ _ built.enc0 built.enc1 built.completed in
        let alone : built.selected ≡ r ∷ [] = cc (one, built.chosen) in
        let (path, padded_by) = one_path witness_for r (rw alone at built.found) in
        rw (← done.same, ← padded_by)
          (sorted_pair (nullifier r.note (nk w.sk)) (padding_nullifier w.sk))

    spent_conflict :
        (l : Ledger) (st : Staging) (tx : TxV1) (nf : Nullifier)
        → (tx.nullifiers.0 ≡ nf) ⊎ (tx.nullifiers.1 ≡ nf)
        → nullifier_seen l nf ≡ true
        → conflict l st tx ≡ true
    unfolding conflict
    spent_conflict l st tx nf (inl first) seen = rw (first, seen) refl
    spent_conflict l st tx nf (inr second) seen =
        rw (second, seen)
          (or_right
            (contains l.nullifiers tx.nullifiers.0
              || contains st.seen_this_checkpoint tx.nullifiers.0)
            true refl)

    -- If the nullifier of the dummy with the entropy 0xD0 under a wallet's key is spent in a ledger,
    -- the ledger accepts no transfer that the wallet builds from one chosen note, whatever the note,
    -- the amount, the recipient and the seed: each such transfer is padded with that dummy.
    pub single-rejected :
        (w : Wallet) (recipient : PaymentAddress) (amount : ℕ) (anchor : Anchor)
        (witness_for : ℕ → Option MerklePath) (seed : Bytes) (r : NoteRecord) {tx : TxV1}
        (l : Ledger) (verifier : SpendVerifier) (height : ℕ) (st : Staging) (q : QuotaRegistry)
        → select_inputs w amount ≡ ok (r ∷ [])
        → build_transfer w recipient amount anchor witness_for seed ≡ ok tx
        → nullifier_seen l (padding_nullifier w.sk) ≡ true
        → judge l verifier height st tx ≢ (q, none)
    single-rejected w recipient amount anchor witness_for seed r {tx} l verifier height st q one e
          seen accepted =
        cc (
          (conflict_iff l st tx).1 ((judge_iff l verifier height st tx q).0 accepted).fresh,
          spent_conflict l st tx (padding_nullifier w.sk)
              (single-padding w recipient amount anchor witness_for seed r one e) seen,
        )
