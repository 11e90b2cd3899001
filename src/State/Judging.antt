-- ===== src/State/Judging.antt =====
-- Which transactions the loop of `apply_checkpoint` accepts.
use unknown.Base.Bytes.{eq-ne, eq_refl, eq}
use unknown.Base.{
  or→neither, ap, ◌≢◌, All, ◌∷◌, [], List, ℕ, ◌/◌, ◌≡◌, ◌↔◌, inl, inr, refl, true, false,
  Bool-cases, Result, ok, err, is_ok, none, ◌==◌, ==_iff,
}
use unknown.Primitives.{Blake3}
use unknown.Interfaces.{Nullifier, SpendVerifier}
use unknown.Tree
use unknown.Quota.{QuotaRegistry, Admit, admitted, duplicate, slash, admit}
use unknown.Tx.{TxV1, TxError, AntiSpam, pow, quota, validate_stateless}
use unknown.Tx.Validation.{IsStatelessValid, validate_stateless_iff}
use unknown.State.{
  contains, Ledger, Staging, conflict, judge, judge_lane, admit_verdict, epoch_length,
}

-- The lane admits: proof of work always, a rate proof of the epoch whose slot is free.
abbrev pub IsAdmitted : ℕ → QuotaRegistry → AntiSpam → QuotaRegistry → Type 0
IsAdmitted next_height q (pow sol) q' = q ≡ q'
IsAdmitted next_height q (quota rp) q' =
    (rp.epoch ≡ next_height / epoch_length) × (admit q rp ≡ (q', admitted))

admit_verdict-none :
    (r : QuotaRegistry × Admit) (q : QuotaRegistry)
    → admit_verdict r ≡ (q, none)
    → r ≡ (q, admitted)
admit_verdict-none (r, admitted) q e = let same : r ≡ q = cc e in rw same
admit_verdict-none (r, duplicate) q e = cc
admit_verdict-none (r, slash s) q e = cc

judge_lane_iff :
    (next_height : ℕ) (q : QuotaRegistry) (a : AntiSpam) (q' : QuotaRegistry)
    → (judge_lane next_height q a ≡ (q', none)) ↔ IsAdmitted next_height q a q'
unfolding judge_lane
judge_lane_iff next_height q (pow sol) q' = ((λ e. cc e), λ e. rw e)
judge_lane_iff next_height q (quota rp) q' = (
  (λ e. elim (Bool-cases (rp.epoch == next_height / epoch_length)) [
    | inl same ↦ (
      (==_iff rp.epoch (next_height / epoch_length)).0 same,
      admit_verdict-none (admit q rp) q' (rw same at e),
    )
    | inr other ↦ absurd (cc (rw other at e))
  ]),
  (λ h. rw ((==_iff rp.epoch (next_height / epoch_length)).1 h.0, h.1) refl),
)

-- No spent nullifier is this one, and none that the checkpoint has accepted so far.
abbrev pub IsUnspent : Ledger → Staging → Nullifier → Type 0
IsUnspent l st nf = All (λ x. x ≢ nf) l.nullifiers × All (λ x. x ≢ nf) st.seen_this_checkpoint

contains_iff :
    (set : List Nullifier) (nf : Nullifier) → (contains set nf ≡ false) ↔ All (λ x. x ≢ nf) set
contains_iff [] nf = ((λ e. tt), λ h. refl)
contains_iff (x ∷ set) nf = (
  (λ e.
      let both = or→neither (eq x nf) (contains set nf) e in
      ((λ same. cc (ap (eq x) same, eq_refl x, both.0)), (contains_iff set nf).0 both.1)),
  (λ h. rw (eq-ne x nf h.0, (contains_iff set nf).1 h.1) refl),
)

pub conflict_iff :
    (l : Ledger) (st : Staging) (tx : TxV1)
    → (conflict l st tx ≡ false) ↔ (IsUnspent l st tx.nullifiers.0 × IsUnspent l st tx.nullifiers.1)
unfolding conflict
conflict_iff l st tx = (
  (λ e.
      let both = or→neither _ _ e in
      let first = or→neither _ _ both.0 in
      let second = or→neither _ _ both.1 in
      (
        ((contains_iff _ _).0 first.0, (contains_iff _ _).0 first.1),
        ((contains_iff _ _).0 second.0, (contains_iff _ _).0 second.1),
      )),
  (λ h.
      rw
        (
          (contains_iff l.nullifiers tx.nullifiers.0).1 h.0.0,
          (contains_iff st.seen_this_checkpoint tx.nullifiers.0).1 h.0.1,
          (contains_iff l.nullifiers tx.nullifiers.1).1 h.1.0,
          (contains_iff st.seen_this_checkpoint tx.nullifiers.1).1 h.1.1,
        )
        refl),
)

module _ ⦃b : Blake3⦄ where
  -- What the loop asks of a transaction.
  pub record IsAccepted (l : Ledger) (verifier : SpendVerifier) (next_height : ℕ) (st : Staging)
      (tx : TxV1) (q : QuotaRegistry) : Type 0 where
    pub anchored : Tree.anchor_valid l.tree tx.anchor ≡ true
    pub valid : IsStatelessValid tx verifier l.difficulty_bits
    pub fresh : IsUnspent l st tx.nullifiers.0 × IsUnspent l st tx.nullifiers.1
    pub lane : IsAdmitted next_height st.quota tx.antispam q

  is_ok_iff : (r : Result (Unit {0}) TxError) → (is_ok r ≡ true) ↔ (r ≡ ok tt)
  is_ok_iff (ok u) = ((λ e. refl), λ e. refl)
  is_ok_iff (err x) = ((λ e. absurd (cc e)), λ e. absurd (cc e))

  module _ (l : Ledger) (verifier : SpendVerifier) (next_height : ℕ) (st : Staging) (tx : TxV1)
      (q : QuotaRegistry) where
    valid_iff :
        (is_ok (validate_stateless tx verifier l.difficulty_bits) ≡ true)
        ↔ IsStatelessValid tx verifier l.difficulty_bits
    valid_iff =
        let through = validate_stateless_iff tx verifier l.difficulty_bits in
        let test = is_ok_iff (validate_stateless tx verifier l.difficulty_bits) in
        ((λ e. through.0 (test.0 e)), λ h. test.1 (through.1 h))

    IsAccepted-only :
        judge l verifier next_height st tx ≡ (q, none) → IsAccepted l verifier next_height st tx q
    unfolding judge
    IsAccepted-only e = elim (Bool-cases (Tree.anchor_valid l.tree tx.anchor)) [
      | inr stale ↦ absurd (cc (rw stale at e))
      | inl anchored ↦
          elim (Bool-cases (is_ok (validate_stateless tx verifier l.difficulty_bits))) [
            | inr invalid ↦ absurd (cc (rw (anchored, invalid) at e))
            | inl valid ↦ elim (Bool-cases (conflict l st tx)) [
              | inl spent ↦ absurd (cc (rw (anchored, valid, spent) at e))
              | inr fresh ↦ record {
                anchored = anchored;
                valid = valid_iff.0 valid;
                fresh = (conflict_iff l st tx).0 fresh;
                lane =
                    (judge_lane_iff next_height st.quota tx.antispam q).0
                      (rw (anchored, valid, fresh) at e);
              }
            ]
          ]
    ]

    IsAccepted-all :
        IsAccepted l verifier next_height st tx q → judge l verifier next_height st tx ≡ (q, none)
    unfolding judge
    IsAccepted-all h =
        rw (h.anchored, valid_iff.1 h.valid, (conflict_iff l st tx).1 h.fresh)
          ((judge_lane_iff next_height st.quota tx.antispam q).1 h.lane)

  -- The loop accepts a transaction, and the registry becomes `q`, exactly if its anchor is valid,
  -- it is valid without the state, neither of its nullifiers is one of the spent ones or of those
  -- that the checkpoint has seen, and its lane is proof of work or a rate proof of the checkpoint's epoch that the registry admits.
  pub judge_iff :
      (l : Ledger) (verifier : SpendVerifier) (next_height : ℕ) (st : Staging) (tx : TxV1)
      (q : QuotaRegistry)
      → (judge l verifier next_height st tx ≡ (q, none)) ↔ IsAccepted l verifier next_height st tx q
  judge_iff l verifier next_height st tx q = (
    IsAccepted-only l verifier next_height st tx q,
    IsAccepted-all l verifier next_height st tx q,
  )
