-- ===== src/State/Spending.antt =====
-- The spent nullifiers, within a checkpoint and over a run of checkpoints.
use unknown.Base.{
  or→neither, or_right, ℕ, ◌+◌, ◌≡◌, ◌≢◌, refl, ap, ◌∙◌, Bool, true, false, ◌||◌, Option, none,
  some, List, [], ◌∷◌, ◌++◌, any-append,
}
use unknown.Base.Bytes.{eq-ne, eq, lt, lt_irrefl}
use unknown.Primitives.{Blake3}
use unknown.Interfaces.{SpendVerifier, Nullifier}
use unknown.Quota.{QuotaRegistry}
use unknown.Tx.{TxV1}
use unknown.State.{
  Ledger, Staging, RejectReason, contains, insert_all, conflict, start, staging, stage, stage_all,
  judge, nullifier_seen,
}
use unknown.State.Checkpoint.{apply_checkpoint}
use unknown.State.Judging.{conflict_iff, IsAccepted, judge_iff}

-- No nullifier of the list is in the list behind it.
abbrev pub AreDistinct : List Nullifier → Type 0
AreDistinct [] = Unit
AreDistinct (nf ∷ nfs) = (contains nfs nf ≡ false) × AreDistinct nfs

or_both : (s t : Bool) → s ≡ false → t ≡ false → (s || t) ≡ false
or_both s t e f = rw (e, f) refl

-- Inserting at the end of a run of insertions.
insert_all-append :
    (xs ys set : List Nullifier) → insert_all (xs ++ ys) set ≡ insert_all ys (insert_all xs set)
insert_all-append [] ys set = refl
insert_all-append (x ∷ xs) ys set = insert_all-append xs ys (x ∷ set)

-- What is in a set stays in it.
pub insert_all-keeps :
    (nfs set : List Nullifier) (nf : Nullifier)
    → contains set nf ≡ true
    → contains (insert_all nfs set) nf ≡ true
insert_all-keeps [] set nf h = h
insert_all-keeps (x ∷ nfs) set nf h = insert_all-keeps nfs (x ∷ set) nf (or_right (eq x nf) _ h)

module _ ⦃b : Blake3⦄ (l : Ledger) (verifier : SpendVerifier) (next_height : ℕ) where
  -- The staged nullifiers are those seen, and with the spent ones they are pairwise different.
  pub record IsFresh (st : Staging) : Type 0 where
    pub staged : insert_all st.staged_nf l.nullifiers ≡ st.seen_this_checkpoint ++ l.nullifiers
    pub distinct : AreDistinct (st.seen_this_checkpoint ++ l.nullifiers)

  -- A nullifier without a conflict is in neither set.
  unspent :
      (st : Staging) (nf : Nullifier)
      → (contains l.nullifiers nf || contains st.seen_this_checkpoint nf) ≡ false
      → contains (st.seen_this_checkpoint ++ l.nullifiers) nf ≡ false
  unspent st nf e =
      let both = or→neither (contains l.nullifiers nf) (contains st.seen_this_checkpoint nf) e in
      any-append (λ x. eq x nf) st.seen_this_checkpoint l.nullifiers
      ∙ or_both (contains st.seen_this_checkpoint nf) (contains l.nullifiers nf) both.1 both.0

  stage-IsFresh :
      (st : Staging) (i : ℕ) (tx : TxV1) (verdict : QuotaRegistry × Option RejectReason)
      → judge l verifier next_height st tx ≡ verdict
      → IsFresh st
      → IsFresh (stage st i tx verdict)
  unfolding conflict
  stage-IsFresh st i tx (q, some r) e h = record { staged = h.staged; distinct = h.distinct }
  stage-IsFresh st i tx (q, none) e h =
      let a : IsAccepted l verifier next_height st tx q =
        (judge_iff l verifier next_height st tx q).0 e in
      let nf0 : Nullifier = tx.nullifiers.0 in
      let nf1 : Nullifier = tx.nullifiers.1 in
      let both =
        or→neither (contains l.nullifiers nf0 || contains st.seen_this_checkpoint nf0)
          (contains l.nullifiers nf1 || contains st.seen_this_checkpoint nf1)
          ((conflict_iff l st tx).1 a.fresh) in
      let differ : nf0 ≢ nf1 = λ same. cc (ap (lt nf0) same, lt_irrefl nf0, a.valid.ascending) in
      record {
        staged =
            insert_all-append st.staged_nf (nf0 ∷ nf1 ∷ []) l.nullifiers
            ∙ ap (λ set. nf1 ∷ nf0 ∷ set) h.staged;
        distinct = (
          or_both (eq nf0 nf1) (contains (st.seen_this_checkpoint ++ l.nullifiers) nf1)
              (eq-ne nf0 nf1 differ) (unspent st nf1 both.1),
          (unspent st nf0 both.0, h.distinct),
        );
      }

  pub stage_all-IsFresh :
      (st : Staging) (i : ℕ) (txs : List TxV1)
      → IsFresh st
      → IsFresh (stage_all l verifier next_height st i txs)
  unfolding stage_all
  stage_all-IsFresh st i [] h = h
  stage_all-IsFresh st i (tx ∷ txs) h =
      stage_all-IsFresh (stage st i tx (judge l verifier next_height st tx)) (i + 1) txs
        (stage-IsFresh st i tx (judge l verifier next_height st tx) refl h)

module _ ⦃b : Blake3⦄ where
  -- If the spent nullifiers of a ledger are pairwise different, so are those after a checkpoint:
  -- no transaction that it accepts spends one again, whatever the order and the verifier.
  pub apply_checkpoint-AreDistinct :
      (l : Ledger) (txs : List TxV1) (verifier : SpendVerifier)
      → AreDistinct l.nullifiers
      → AreDistinct (apply_checkpoint l txs verifier).0.nullifiers
  unfolding apply_checkpoint
  apply_checkpoint-AreDistinct l txs verifier h =
      let f =
        stage_all-IsFresh l verifier (l.height + 1) (start l) 0 txs
          (record { staged = refl; distinct = h }) in
      rw (f.staged) f.distinct

  -- A ledger that runs of checkpoints lead to, each with its transactions and its verifier.
  pub data Steps : Ledger → Ledger → Type 0 where
    here : {l : Ledger} → Steps l l
    later :
        {l l' : Ledger}
        → Steps l l'
        → (txs : List TxV1) (verifier : SpendVerifier)
        → Steps l (apply_checkpoint l' txs verifier).0

  pub apply_checkpoint-keeps_spent :
      (l : Ledger) (txs : List TxV1) (verifier : SpendVerifier) (nf : Nullifier)
      → nullifier_seen l nf ≡ true
      → nullifier_seen (apply_checkpoint l txs verifier).0 nf ≡ true
  unfolding apply_checkpoint
  apply_checkpoint-keeps_spent l txs verifier nf h =
      insert_all-keeps (staging l txs verifier).staged_nf l.nullifiers nf h

  pub Steps-keeps_spent :
      {l l' : Ledger} (nf : Nullifier)
      → Steps l l'
      → nullifier_seen l nf ≡ true
      → nullifier_seen l' nf ≡ true
  Steps-keeps_spent nf Steps.here h = h
  Steps-keeps_spent nf (Steps.later {l' = l'} s txs verifier) h =
      apply_checkpoint-keeps_spent l' txs verifier nf (Steps-keeps_spent nf s h)
