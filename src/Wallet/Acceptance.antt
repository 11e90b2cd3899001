-- ===== src/Wallet/Acceptance.antt =====
-- A built transfer at the ledger.
use unknown.Base.{
  ℕ, ◌≡◌, ◌≢◌, refl, ap, arith, true, false, Bool-cases, Option, none, ok, inl, inr, length, List,
  ==_iff, guard_iff, not_iff,
}
use unknown.Base.Bytes.{Bytes, lt, lt_total}
use unknown.Primitives.{Blake3}
use unknown.Interfaces.{Anchor, MerklePath, SpendPublicInputs, proof_bucket}
use unknown.Notes.{Note}
use unknown.Encryption.{EncryptedOutput}
use unknown.Keys.{Ciphers, PaymentAddress, SpendingKey}
use unknown.ProverDev.{InputWitness, dev_verify, dev_verifier}
use unknown.Tree
use unknown.Tx.{TxV1, to_public_inputs}
use unknown.Tx.Validation.{IsStatelessValid}
use unknown.State.{Ledger, Staging, conflict, judge}
use unknown.State.Judging.{conflict_iff, judge_iff}
use unknown.Wallet.{Wallet}
use unknown.Wallet.Transfer.{build_transfer}
use unknown.Wallet.Building.{build_transfer-IsBuilt}
use unknown.Wallet.Completion.{IsCompleted, complete-IsCompleted}

module _ ⦃b : Blake3⦄ where
  dev_verify-sized :
      (pi : SpendPublicInputs) (proof : Bytes)
      → dev_verify pi proof ≡ ok tt
      → length proof ≡ proof_bucket
  unfolding dev_verify
  dev_verify-sized pi proof e =
      (==_iff (length proof) proof_bucket).0 ((not_iff _).0 ((guard_iff _ _ _ tt).0 e).0)

  strictly : (x y : Bytes) → lt y x ≡ false → x ≢ y → lt x y ≡ true
  strictly x y h differ = elim (Bool-cases (lt x y)) [
    | inl below ↦ below
    | inr above ↦ absurd (differ (lt_total x y above h))
  ]

  completed-valid :
      (sk : SpendingKey) (anchor : Anchor) (inputs : List InputWitness) (o o' : Note)
      (enc0 enc1 : EncryptedOutput) (tx : TxV1)
      → IsCompleted sk anchor inputs o o' enc0 enc1 tx
      → tx.nullifiers.0 ≢ tx.nullifiers.1
      → IsStatelessValid tx dev_verifier 0
  unfolding dev_verifier to_public_inputs
  completed-valid sk anchor inputs o o' enc0 enc1 tx h differ = record {
    proof_size = dev_verify-sized (to_public_inputs tx) tx.proof h.verifies;
    ascending = strictly tx.nullifiers.0 tx.nullifiers.1 h.ascending differ;
    bound = rw (← h.same) (omega arith);
    proven = h.verifies;
  }

  module _ ⦃c : Ciphers⦄ where
    -- The loop of a checkpoint whose ledger asks for no proof of work accepts every transfer that a
    -- wallet has built, in the lane of proof of work, if the anchor that it was built for is valid
    -- in the ledger, its two nullifiers differ and neither is spent or seen in the checkpoint.
    pub built-accepted :
        (w : Wallet) (recipient : PaymentAddress) (amount : ℕ) (anchor : Anchor)
        (witness_for : ℕ → Option MerklePath) (seed : Bytes) {tx : TxV1} (l : Ledger) (height : ℕ)
        (st : Staging)
        → build_transfer w recipient amount anchor witness_for seed ≡ ok tx
        → l.difficulty_bits ≡ 0
        → Tree.anchor_valid l.tree anchor ≡ true
        → tx.nullifiers.0 ≢ tx.nullifiers.1
        → conflict l st tx ≡ false
        → judge l dev_verifier height st tx ≡ (st.quota, none)
    built-accepted w recipient amount anchor witness_for seed {tx} l height st e easy valid differ
          fresh =
        let built = build_transfer-IsBuilt w recipient amount anchor witness_for seed e in
        let done = complete-IsCompleted w.sk anchor _ _ _ built.enc0 built.enc1 built.completed in
        (judge_iff l dev_verifier height st tx st.quota).1 (record {
          anchored = rw (← ap (λ (t : TxV1). t.anchor) done.same) valid;
          valid = rw easy (completed-valid w.sk anchor _ _ _ built.enc0 built.enc1 tx done differ);
          fresh = (conflict_iff l st tx).0 fresh;
          lane = rw (← ap (λ (t : TxV1). t.antispam) done.same) refl;
        })
