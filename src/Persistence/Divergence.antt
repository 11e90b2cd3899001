-- ===== src/Persistence/Divergence.antt =====
-- A replica that restarts beside one that runs on: the registry of rate proofs is not persisted.
use unknown.Base.{
  ℕ, ◌+◌, ◌/◌, ◌≡◌, ◌≢◌, refl, ap, ◌∙◌, true, false, ok, none, some, Option-cases, Bool-cases,
  or_right, ==_iff, inl, inr, [], ◌∷◌, All, ◌==◌,
}
use unknown.Base.Bytes.{eq, eq_refl}
use unknown.Primitives.{Blake3}
use unknown.Interfaces.{SpendVerifier}
use unknown.Interfaces.Encoding.{Is32}
use unknown.Tree.Shape.{IsTree}
use unknown.Quota.{RateProof, Share, QuotaRegistry, slot_of, admitted, find, admit}
use unknown.Quota.Registry.{share_of, admit_free, admit_reused, admit_repeated}
use unknown.Tx.{TxV1, AntiSpam, quota}
use unknown.Tx.Validation.{IsStatelessValid}
use unknown.State.{
  Ledger, RejectReason, start, judge, stage_all, conflict, nullifier_seen, current_anchor,
  epoch_length,
}
use unknown.State.Checkpoint.{apply_checkpoint}
use unknown.State.Judging.{conflict_iff, IsAccepted, IsAdmitted, judge_iff}
use unknown.Storage.{Redb, Store}
use unknown.Storage.Working.{IsWorking}
use unknown.Persistence.{persist, restore}
use unknown.Persistence.Restart.{IsEmpty, IsRestored, restore-persist}

-- The registry admits no proof for a used slot.
used-admitted :
    (r q : QuotaRegistry) (proof : RateProof) (first : Share)
    → find (slot_of proof) r.seen ≡ some first
    → admit r proof ≢ (q, admitted)
used-admitted r q proof first e same = elim (Bool-cases (first.x == proof.x)) [
  | inl again ↦
      absurd (cc (admit_repeated r proof first e ((==_iff first.x proof.x).0 again), same))
  | inr other ↦
      let differ : first.x ≢ proof.x = λ p. cc ((==_iff first.x proof.x).1 p, other) in
      absurd (cc (admit_reused r proof first e differ, same))
]

used-IsAdmitted :
    (next_height : ℕ) (r q : QuotaRegistry) (a : AntiSpam) (rp : RateProof) (first : Share)
    → a ≡ quota rp
    → find (slot_of rp) r.seen ≡ some first
    → ¬ IsAdmitted next_height r a q
used-IsAdmitted next_height r q a rp first lane used h =
    let through : IsAdmitted next_height r (quota rp) q = rw lane at h in
    used-admitted r q rp first used through.1

module _ ⦃b : Blake3⦄ where
  one_rejected :
      (l : Ledger) (tx : TxV1) (verifier : SpendVerifier) (q : QuotaRegistry) (r : RejectReason)
      → judge l verifier (l.height + 1) (start l) tx ≡ (q, some r)
      → nullifier_seen (apply_checkpoint l (tx ∷ []) verifier).0 tx.nullifiers.0
        ≡ nullifier_seen l tx.nullifiers.0
  unfolding apply_checkpoint stage_all
  one_rejected l tx verifier q r e = rw e refl

  one_accepted :
      (l : Ledger) (tx : TxV1) (verifier : SpendVerifier) (q : QuotaRegistry)
      → judge l verifier (l.height + 1) (start l) tx ≡ (q, none)
      → nullifier_seen (apply_checkpoint l (tx ∷ []) verifier).0 tx.nullifiers.0 ≡ true
  unfolding apply_checkpoint stage_all
  one_accepted l tx verifier q e =
      rw e (or_right (eq tx.nullifiers.1 tx.nullifiers.0) _ (rw (eq_refl tx.nullifiers.0) refl))

  -- The loop of a running ledger rejects a proof for a slot that its registry has.
  used-rejected :
      (l : Ledger) (tx : TxV1) (verifier : SpendVerifier) (rp : RateProof) (first : Share)
      → tx.antispam ≡ quota rp
      → find (slot_of rp) l.quota.seen ≡ some first
      → (q : QuotaRegistry) × (r : RejectReason) × (judge l verifier (l.height + 1) (start l) tx
          ≡ (q, some r))
  used-rejected l tx verifier rp first lane used =
      let verdict = judge l verifier (l.height + 1) (start l) tx in
      elim (Option-cases verdict.1) [
        | inr (r, e) ↦ (verdict.0, r, ap (λ o. (verdict.0, o)) e)
        | inl e ↦
            let a : IsAccepted l verifier (l.height + 1) (start l) tx verdict.0 =
              (judge_iff l verifier (l.height + 1) (start l) tx verdict.0).0
                (ap (λ o. (verdict.0, o)) e) in
            absurd (
              used-IsAdmitted (l.height + 1) l.quota verdict.0 tx.antispam rp first lane used
                a.lane)
      ]

  -- The loop of a ledger with an empty registry accepts it.
  restored-accepts :
      (l l' : Ledger) (tx : TxV1) (verifier : SpendVerifier) (rp : RateProof)
      → IsRestored l l'
      → tx.antispam ≡ quota rp
      → rp.epoch ≡ (l.height + 1) / epoch_length
      → tx.anchor ≡ current_anchor l
      → IsStatelessValid tx verifier l.difficulty_bits
      → nullifier_seen l tx.nullifiers.0 ≡ false
      → nullifier_seen l tx.nullifiers.1 ≡ false
      → (q : QuotaRegistry) × (judge l' verifier (l'.height + 1) (start l') tx ≡ (q, none))
  unfolding conflict find
  restored-accepts l l' tx verifier rp copy lane epoch own valid fresh0 fresh1 =
      let empty : find (slot_of rp) l'.quota.seen ≡ none = rw copy.registry refl in
      let q : QuotaRegistry = record l'.quota {
        seen = (slot_of rp, share_of rp) ∷ l'.quota.seen;
      } in
      let admits : IsAdmitted (l'.height + 1) l'.quota tx.antispam q =
        rw lane ((rw copy.height epoch, admit_free l'.quota rp empty)) in
      (
        q,
        (judge_iff l' verifier (l'.height + 1) (start l') tx q).1 (record {
          anchored = rw own copy.anchored;
          valid = rw copy.difficulty valid;
          fresh =
              (conflict_iff l' (start l') tx).0
                (rw (copy.spent tx.nullifiers.0, copy.spent tx.nullifiers.1, fresh0, fresh1) refl);
          lane = admits;
        }),
      )

  -- A replica that runs on and one that is restored from what it persisted, on a database without
  -- failures that held no leaves and nullifiers, part on one transaction. Its rate proof is of the
  -- next height's epoch and for a slot that the running replica has seen used, its anchor is the
  -- current one, it is valid without the state, and its nullifiers are unspent: then the checkpoint of
  -- it alone leaves its first nullifier unspent in the running replica and spends it in the restored
  -- one, though both had one height and one tree. The leaves and nullifiers have 32 bytes.
  pub restart_splits :
      ⦃r : Redb⦄ (works : IsWorking) (s : Store) (l : Ledger) (tx : TxV1) (verifier : SpendVerifier)
      (rp : RateProof) (first : Share)
      → IsEmpty works s
      → IsTree l.tree
      → All Is32 l.nullifiers
      → tx.antispam ≡ quota rp
      → rp.epoch ≡ (l.height + 1) / epoch_length
      → find (slot_of rp) l.quota.seen ≡ some first
      → tx.anchor ≡ current_anchor l
      → IsStatelessValid tx verifier l.difficulty_bits
      → nullifier_seen l tx.nullifiers.0 ≡ false
      → nullifier_seen l tx.nullifiers.1 ≡ false
      → (s' : Store) × (l' : Ledger) × (persist l s ≡ ok s')
        × (restore s' l.emission l.validators l.difficulty_bits ≡ ok l')
        × IsRestored l l'
        × (nullifier_seen (apply_checkpoint l (tx ∷ []) verifier).0 tx.nullifiers.0 ≡ false)
        × (nullifier_seen (apply_checkpoint l' (tx ∷ []) verifier).0 tx.nullifiers.0 ≡ true)
  restart_splits works s l tx verifier rp first fresh tree spent lane epoch used own valid fresh0
        fresh1 =
      let (s', l', saved, loaded, copy) = restore-persist works s l fresh tree spent in
      let (q, r, refused) = used-rejected l tx verifier rp first lane used in
      let (q', admits) =
        restored-accepts l l' tx verifier rp copy lane epoch own valid fresh0 fresh1 in
      (
        s',
        l',
        saved,
        loaded,
        copy,
        one_rejected l tx verifier q r refused ∙ fresh0,
        one_accepted l' tx verifier q' admits,
      )
