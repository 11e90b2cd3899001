-- ===== src/State/Accepted.antt =====
-- The transactions that a checkpoint accepts: what is staged for them, the count of the others, and
-- what becomes of them later.
use unknown.Base.{
  or_right, ℕ, suc, ◌+◌, ◌≡◌, ◌≢◌, refl, sym, ap, ◌∙◌, arith, true, Option, none, some, List, [],
  ◌∷◌, ◌++◌, length, length-append, any-append, All,
}
use mathlib.Core.List.{append_assoc, append-nil}
use unknown.Base.Bytes.{eq, eq_refl}
use unknown.Primitives.{Blake3}
use unknown.Interfaces.{SpendVerifier, Nullifier, Commitment}
use unknown.Quota.{QuotaRegistry}
use unknown.Tx.{TxV1}
use unknown.State.{
  Ledger, Staging, RejectReason, contains, conflict, start, staging, stage, stage_all, judge,
  nullifier_seen,
}
use unknown.State.Checkpoint.{apply_checkpoint}
use unknown.State.Judging.{conflict_iff, IsAccepted, judge_iff}
use unknown.State.Spending.{IsFresh, stage_all-IsFresh, AreDistinct, Steps, Steps-keeps_spent}

abbrev pub keep : Option RejectReason → TxV1 → List TxV1 → List TxV1
keep none tx txs = tx ∷ txs
keep (some reason) tx txs = txs

All-keep :
    (P : TxV1 → Type 0) (o : Option RejectReason) (tx : TxV1) (txs : List TxV1)
    → (o ≡ none → P tx)
    → All P txs
    → All P (keep o tx txs)
All-keep P none tx txs h hs = (h refl, hs)
All-keep P (some r) tx txs h hs = hs

abbrev pub spent_by : List TxV1 → List Nullifier
spent_by [] = []
spent_by (tx ∷ txs) = tx.nullifiers.0 ∷ tx.nullifiers.1 ∷ spent_by txs

abbrev pub outputs_of : List TxV1 → List Commitment
outputs_of [] = []
outputs_of (tx ∷ txs) = tx.commitments.0 ∷ tx.commitments.1 ∷ outputs_of txs

module _ ⦃b : Blake3⦄ (l : Ledger) (verifier : SpendVerifier) (next_height : ℕ) where
  -- The transactions that the loop accepts, in order.
  abbrev pub accepted_txs : Staging → ℕ → List TxV1 → List TxV1
  accepted_txs st i [] = []
  accepted_txs st i (tx ∷ txs) =
      keep (judge l verifier next_height st tx).1 tx
        (accepted_txs (stage st i tx (judge l verifier next_height st tx)) (i + 1) txs)

  -- What the loop adds to the variables for the accepted transactions `txs` of `n`.
  pub record IsStagedFor (st : Staging) (n : ℕ) (txs : List TxV1) (st' : Staging) : Type 0 where
    pub nullifiers : st'.staged_nf ≡ st.staged_nf ++ spent_by txs
    pub commitments : st'.staged_cm ≡ st.staged_cm ++ outputs_of txs
    pub accepted : st'.accepted ≡ st.accepted + length txs
    pub all : st'.accepted + length st'.rejected ≡ st.accepted + length st.rejected + n

  staged_none : (st : Staging) → IsStagedFor st 0 [] st
  staged_none st = record {
    nullifiers = sym (append-nil st.staged_nf);
    commitments = sym (append-nil st.staged_cm);
    accepted = omega arith;
    all = omega arith;
  }

  staged_one :
      (st : Staging) (i : ℕ) (tx : TxV1) (verdict : QuotaRegistry × Option RejectReason) (n : ℕ)
      (txs : List TxV1) (st' : Staging)
      → IsStagedFor (stage st i tx verdict) n txs st'
      → IsStagedFor st (suc n) (keep verdict.1 tx txs) st'
  staged_one st i tx (q, some r) n txs st' h = record {
    nullifiers = h.nullifiers;
    commitments = h.commitments;
    accepted = h.accepted;
    all = omega (arith, h.all, length-append st.rejected ((i, r) ∷ []));
  }
  staged_one st i tx (q, none) n txs st' h = record {
    nullifiers =
        h.nullifiers
        ∙ append_assoc st.staged_nf (tx.nullifiers.0 ∷ tx.nullifiers.1 ∷ []) (spent_by txs);
    commitments =
        h.commitments
        ∙ append_assoc st.staged_cm (tx.commitments.0 ∷ tx.commitments.1 ∷ []) (outputs_of txs);
    accepted = omega (arith, h.accepted);
    all = omega (arith, h.all);
  }

  pub stage_all-IsStagedFor :
      (st : Staging) (i : ℕ) (txs : List TxV1)
      → IsStagedFor st
          (length txs)
          (accepted_txs st i txs)
          (stage_all l verifier next_height st i txs)
  unfolding stage_all
  stage_all-IsStagedFor st i [] = staged_none st
  stage_all-IsStagedFor st i (tx ∷ txs) =
      let verdict = judge l verifier next_height st tx in
      staged_one st i tx verdict (length txs) (accepted_txs (stage st i tx verdict) (i + 1) txs)
        (stage_all l verifier next_height (stage st i tx verdict) (i + 1) txs)
        (stage_all-IsStagedFor (stage st i tx verdict) (i + 1) txs)

  -- Each accepted transaction is valid, for the ledger and without the state.
  pub judged-IsAccepted :
      (st : Staging) (i : ℕ) (txs : List TxV1)
      → All
          (λ tx. (st' : Staging) × (q : QuotaRegistry) × IsAccepted l verifier next_height st' tx q)
          (accepted_txs st i txs)
  judged-IsAccepted st i [] = tt
  judged-IsAccepted st i (tx ∷ txs) =
      let verdict = judge l verifier next_height st tx in
      All-keep _ verdict.1 tx (accepted_txs (stage st i tx verdict) (i + 1) txs)
        (λ e. (
          st,
          verdict.0,
          (judge_iff l verifier next_height st tx verdict.0).0 (λ i. (verdict.0, e i)),
        ))
        (judged-IsAccepted (stage st i tx verdict) (i + 1) txs)

  -- The nullifiers seen stay seen.
  stage_keeps :
      (st : Staging) (i : ℕ) (tx : TxV1) (verdict : QuotaRegistry × Option RejectReason)
      (nf : Nullifier)
      → contains st.seen_this_checkpoint nf ≡ true
      → contains (stage st i tx verdict).seen_this_checkpoint nf ≡ true
  stage_keeps st i tx (q, some r) nf h = h
  stage_keeps st i tx (q, none) nf h =
      or_right (eq tx.nullifiers.1 nf) _ (or_right (eq tx.nullifiers.0 nf) _ h)

  stage_all_keeps :
      (st : Staging) (i : ℕ) (txs : List TxV1) (nf : Nullifier)
      → contains st.seen_this_checkpoint nf ≡ true
      → contains (stage_all l verifier next_height st i txs).seen_this_checkpoint nf ≡ true
  unfolding stage_all
  stage_all_keeps st i [] nf h = h
  stage_all_keeps st i (tx ∷ txs) nf h =
      let verdict = judge l verifier next_height st tx in
      stage_all_keeps (stage st i tx verdict) (i + 1) txs nf (stage_keeps st i tx verdict nf h)

  stage_sees :
      (st : Staging) (i : ℕ) (tx : TxV1) (verdict : QuotaRegistry × Option RejectReason)
      → verdict.1 ≡ none
      → contains (stage st i tx verdict).seen_this_checkpoint tx.nullifiers.0 ≡ true
  stage_sees st i tx (q, none) e =
      or_right (eq tx.nullifiers.1 tx.nullifiers.0) _ (rw (eq_refl tx.nullifiers.0) refl)
  stage_sees st i tx (q, some r) e = cc

  pub accepted_seen :
      (st : Staging) (i : ℕ) (txs : List TxV1)
      → All
          (λ tx.
            contains
              (stage_all l verifier next_height st i txs).seen_this_checkpoint
              tx.nullifiers.0
            ≡ true)
          (accepted_txs st i txs)
  unfolding stage_all
  accepted_seen st i [] = tt
  accepted_seen st i (tx ∷ txs) =
      let verdict = judge l verifier next_height st tx in
      All-keep _ verdict.1 tx (accepted_txs (stage st i tx verdict) (i + 1) txs)
        (λ e.
          stage_all_keeps (stage st i tx verdict) (i + 1) txs tx.nullifiers.0
            (stage_sees st i tx verdict e))
        (accepted_seen (stage st i tx verdict) (i + 1) txs)

All-map :
    {P Q : TxV1 → Type 0} (txs : List TxV1) → ((tx : TxV1) → P tx → Q tx) → All P txs → All Q txs
All-map [] f h = tt
All-map (tx ∷ txs) f h = (f tx h.0, All-map txs f h.1)

module _ ⦃b : Blake3⦄ where
  -- The transactions that a checkpoint accepts.
  abbrev pub accepted_by : Ledger → List TxV1 → SpendVerifier → List TxV1
  accepted_by l txs verifier = accepted_txs l verifier (l.height + 1) (start l) 0 txs

  -- A transaction one of whose nullifiers is spent is not accepted.
  spent_rejected :
      (l : Ledger) (verifier : SpendVerifier) (h : ℕ) (st : Staging) (tx : TxV1) (q : QuotaRegistry)
      → nullifier_seen l tx.nullifiers.0 ≡ true
      → judge l verifier h st tx ≢ (q, none)
  unfolding conflict
  spent_rejected l verifier h st tx q spent e =
      cc (rw spent at ((conflict_iff l st tx).1 ((judge_iff l verifier h st tx q).0 e).fresh))

  -- A transaction that a checkpoint accepts is never accepted again: no ledger that later
  -- checkpoints lead to accepts it, at any place of any checkpoint and for any verifier, provided
  -- that the spent nullifiers were pairwise different before.
  pub accepted-never_again :
      (l : Ledger) (txs : List TxV1) (verifier : SpendVerifier)
      → AreDistinct l.nullifiers
      → All
          (λ tx.
            (l' : Ledger)
            → Steps (apply_checkpoint l txs verifier).0 l'
            → (verifier' : SpendVerifier) (height : ℕ) (st : Staging) (q : QuotaRegistry)
            → judge l' verifier' height st tx ≢ (q, none))
          (accepted_by l txs verifier)
  unfolding apply_checkpoint
  accepted-never_again l txs verifier distinct =
      All-map (accepted_by l txs verifier)
        (λ tx seen l' steps verifier' height st q. spent_rejected l' verifier' height st tx q (
          Steps-keeps_spent tx.nullifiers.0 steps (
            ap (λ set. contains set tx.nullifiers.0) fresh.staged
            ∙ (any-append (λ x. eq x tx.nullifiers.0) (staging l txs verifier).seen_this_checkpoint
                  l.nullifiers
                ∙ (rw seen refl)))))
        (accepted_seen l verifier (l.height + 1) (start l) 0 txs)
    where
      fresh : IsFresh l verifier (l.height + 1) (staging l txs verifier)
      fresh =
          stage_all-IsFresh l verifier (l.height + 1) (start l) 0 txs
            (record { staged = refl; distinct = distinct })
