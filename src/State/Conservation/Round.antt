-- ===== src/State/Conservation/Round.antt =====
-- The value that the loop over the transactions of a checkpoint moves.
use unknown.Base.{
  ok, or→neither, ℕ, ◌+◌, ◌≡◌, ◌≢◌, ◌⊎◌, inl, inr, refl, ap, ◌∙◌, arith, Bool, true, false, ◌||◌,
  Option, none, some, List, [], ◌∷◌, ◌++◌, All, All-append,
}
use mathlib.Core.List.{map, map-append}
use unknown.Base.Bytes.{Bytes, lt, lt_irrefl, eq}
use unknown.Primitives.{Blake3}
use unknown.Interfaces.{SpendVerifier, Nullifier}
use unknown.Notes.{Note, commitment}
use unknown.Tree
use unknown.ProverDev.Statement.{total_out}
use unknown.Quota.{QuotaRegistry}
use unknown.Tx.{TxV1, to_public_inputs}
use unknown.State.{Ledger, Staging, RejectReason, contains, conflict, stage, stage_all, judge}
use unknown.State.Judging.{conflict_iff, judge_iff}
use unknown.State.Holdings.{IsOpening, HasForged, worth_at}
use unknown.State.Spent.{IsSpent, IsSpent-weaken}
use unknown.State.Conservation.{
  IsSoundVerifier, IsRooted, any-IsRooted, spend_inputs, outputs_behind, total_out-append,
}

any_order : (l s n0 n1 : Bool) → (n1 || (n0 || (l || s))) ≡ true → (l || (n1 || (n0 || s))) ≡ true
any_order true s n0 n1 e = refl
any_order false s n0 n1 e = e

module _ ⦃b : Blake3⦄ where
  abbrev pub seen_by : Ledger → Staging → Nullifier → Bool
  seen_by l st nf = contains l.nullifiers nf || contains st.seen_this_checkpoint nf

  -- What the loop has moved: notes of the ledger are spent, and new ones of the same value are
  -- staged.
  pub record IsCarried (key_of : Bytes → Bytes) (l : Ledger) (notes : List Note) (before : ℕ)
      (st : Staging) : Type 0 where
    pub places : List ℕ
    pub spent : IsSpent key_of notes (seen_by l st) places
    pub outputs : List Note
    pub openings : All IsOpening outputs
    pub commitments : map commitment outputs ≡ st.staged_cm
    pub balance : worth_at notes places ≡ before + total_out outputs

  -- The witness that the verifier's soundness gives for one of the transactions spends a forged note.
  abbrev pub IsForgedRound :
      (key_of : Bytes → Bytes) (verifier : SpendVerifier)
      → IsSoundVerifier key_of verifier
      → List Note
      → List TxV1
      → Type 0
  IsForgedRound key_of verifier sound notes [] = ⊥
  IsForgedRound key_of verifier sound notes (tx ∷ txs) =
      ((e : verifier.verify (to_public_inputs tx) tx.proof ≡ ok tt) × HasForged notes
          (sound (to_public_inputs tx) tx.proof e).0.inputs)
      ⊎ IsForgedRound key_of verifier sound notes txs

module _ ⦃b : Blake3⦄ (key_of : Bytes → Bytes) (l : Ledger) (verifier : SpendVerifier) (height : ℕ)
    (sound : IsSoundVerifier key_of verifier) (notes : List Note)
    (rooted : All (IsRooted notes) l.tree.anchors) (before : ℕ) where
  carry_one :
      (st : Staging) (i : ℕ) (tx : TxV1) (verdict : QuotaRegistry × Option RejectReason)
      → judge l verifier height st tx ≡ verdict
      → IsCarried key_of l notes before st
      → IsCarried key_of l notes before (stage st i tx verdict)
        ⊎ ((e : verifier.verify (to_public_inputs tx) tx.proof ≡ ok tt) × HasForged notes
              (sound (to_public_inputs tx) tx.proof e).0.inputs)
  unfolding conflict to_public_inputs Tree.anchor_valid
  carry_one st i tx (q, some r) e h = inl (record {
    places = h.places;
    spent = h.spent;
    outputs = h.outputs;
    openings = h.openings;
    commitments = h.commitments;
    balance = h.balance;
  })
  carry_one st i tx (q, none) e h =
      let a = (judge_iff l verifier height st tx q).0 e in
      let pi = to_public_inputs tx in
      let nf0 : Nullifier = tx.nullifiers.0 in
      let nf1 : Nullifier = tx.nullifiers.1 in
      let (w, auth) = sound pi tx.proof a.valid.proven in
      let fresh =
        or→neither (seen_by l st nf0) (seen_by l st nf1) ((conflict_iff l st tx).1 a.fresh) in
      let differ : nf0 ≢ nf1 = λ same. cc (ap (lt nf0) same, lt_irrefl nf0, a.valid.ascending) in
      let root = any-IsRooted notes l.tree.anchors tx.anchor rooted a.anchored in
      elim (spend_inputs key_of notes w pi auth root w.inputs (seen_by l st) h.places
        auth.spend.two_inputs auth.inputs auth.spend.inputs differ fresh.0 fresh.1 h.spent) [
          | inr forged ↦ inr (a.valid.proven, forged)
          | inl (places, spent, worth) ↦ inl (record {
            places = places;
            spent =
                IsSpent-weaken key_of notes _ _ places
                  (λ nf. any_order (contains l.nullifiers nf) _ (eq nf0 nf) (eq nf1 nf)) spent;
            outputs = h.outputs ++ w.outputs;
            openings = All-append IsOpening h.outputs w.outputs h.openings auth.outputs;
            commitments = map-append commitment h.outputs w.outputs ∙ (λ i.
                h.commitments i
                ++ outputs_behind key_of notes w pi auth root w.outputs tx.commitments.0
                    tx.commitments.1 auth.spend.two_outputs auth.spend.outputs refl i);
            balance = omega (
              arith,
              worth,
              h.balance,
              auth.minted,
              auth.spend.balance,
              total_out-append h.outputs w.outputs,
            );
          })
        ]

  pub carry_all :
      (st : Staging) (i : ℕ) (txs : List TxV1)
      → IsCarried key_of l notes before st
      → IsCarried key_of l notes before (stage_all l verifier height st i txs)
        ⊎ IsForgedRound key_of verifier sound notes txs
  unfolding stage_all
  carry_all st i [] h = inl h
  carry_all st i (tx ∷ txs) h = elim (carry_one st i tx (judge l verifier height st tx) refl h) [
    | inr forged ↦ inr (inl forged)
    | inl next ↦ elim (carry_all (stage st i tx (judge l verifier height st tx)) (i + 1) txs next) [
      | inl all ↦ inl all
      | inr forged ↦ inr (inr forged)
    ]
  ]
