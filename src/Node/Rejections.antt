-- ===== src/Node/Rejections.antt =====
-- The indices of a checkpoint's rejected transactions, and the transactions at the others.
use unknown.Base.{
  ==-ne, ℕ, suc, ◌+◌, ◌<◌, ◌≤◌, ◌≡◌, refl, sym, ap₂, ◌∙◌, arith, true, false, Option, none, some,
  List, [], ◌∷◌, ◌++◌, length, get_or, ◌==◌,
}
use mathlib.Core.List.{map, append_assoc, append-nil}
use unknown.Primitives.{Blake3}
use unknown.Interfaces.{SpendVerifier}
use unknown.Encryption.{EncryptedOutput}
use unknown.Quota.{QuotaRegistry}
use unknown.Tx.{TxV1}
use unknown.State.{Ledger, Staging, RejectReason, stage, stage_all, judge}
use unknown.State.Checkpoint.{range}
use unknown.State.Accepted.{accepted_txs, keep}
use unknown.Node.{was_rejected, accepted_of, no_outputs}

abbrev note_rejection : ℕ → Option RejectReason → List (ℕ × RejectReason) → List (ℕ × RejectReason)
note_rejection i none rest = rest
note_rejection i (some reason) rest = (i, reason) ∷ rest

module _ ⦃b : Blake3⦄ (l : Ledger) (verifier : SpendVerifier) (next_height : ℕ) where
  -- What the loop adds to the list of the rejected from the index `i` on.
  abbrev pub rejections : Staging → ℕ → List TxV1 → List (ℕ × RejectReason)
  rejections st i [] = []
  rejections st i (tx ∷ txs) =
      note_rejection i (judge l verifier next_height st tx).1
        (rejections (stage st i tx (judge l verifier next_height st tx)) (i + 1) txs)

  stage_rejected :
      (st : Staging) (i : ℕ) (tx : TxV1) (verdict : QuotaRegistry × Option RejectReason)
      (rest : List (ℕ × RejectReason))
      → (stage st i tx verdict).rejected ++ rest ≡ st.rejected ++ note_rejection i verdict.1 rest
  stage_rejected st i tx (q, none) rest = refl
  stage_rejected st i tx (q, some reason) rest = append_assoc st.rejected ((i, reason) ∷ []) rest

  pub stage_all-rejected :
      (st : Staging) (i : ℕ) (txs : List TxV1)
      → (stage_all l verifier next_height st i txs).rejected ≡ st.rejected ++ rejections st i txs
  unfolding stage_all
  stage_all-rejected st i [] = sym (append-nil st.rejected)
  stage_all-rejected st i (tx ∷ txs) =
      let verdict = judge l verifier next_height st tx in
      let st' = stage st i tx verdict in
      stage_all-rejected st' (i + 1) txs
      ∙ stage_rejected st i tx verdict (rejections st' (i + 1) txs)

  equal : (m : ℕ) → (m == m) ≡ true
  equal m = ground arith

  -- No rejection has an index below the first.
  not_before :
      (st : Staging) (i : ℕ) (txs : List TxV1) (j : ℕ)
      → j < i
      → was_rejected (rejections st i txs) j ≡ false
  not_before st i [] j h = refl
  not_before st i (tx ∷ txs) j h =
      let verdict = judge l verifier next_height st tx in
      noted verdict.1 (rejections (stage st i tx verdict) (i + 1) txs)
        (not_before (stage st i tx verdict) (i + 1) txs j (omega (arith, h)))
    where
      noted :
          (o : Option RejectReason) (rest : List (ℕ × RejectReason))
          → was_rejected rest j ≡ false
          → was_rejected (note_rejection i o rest) j ≡ false
      noted none rest e = e
      noted (some reason) rest e = rw (==-ne i j (λ p. absurd (omega (arith, h, p))), e) refl

  abbrev pick : List (EncryptedOutput × EncryptedOutput) → ℕ → EncryptedOutput × EncryptedOutput
  pick enc_outputs i = get_or enc_outputs i no_outputs

  -- The outputs at the indices that are not in the list of the rejected are those of the accepted.
  pub picked :
      (enc_outputs : List (EncryptedOutput × EncryptedOutput)) (rejected : List (ℕ × RejectReason))
      (st : Staging) (i : ℕ) (txs : List TxV1)
      → ((j : ℕ) → i ≤ j → was_rejected rejected j ≡ was_rejected (rejections st i txs) j)
      → ((j : ℕ) → pick enc_outputs (i + j) ≡ pick (map TxV1.enc_outputs txs) j)
      → map (pick enc_outputs) (accepted_of rejected (range i (length txs)))
        ≡ map TxV1.enc_outputs (accepted_txs l verifier next_height st i txs)
  picked enc_outputs rejected st i [] agree at_ = refl
  picked enc_outputs rejected st i (tx ∷ txs) agree at_ =
      let verdict = judge l verifier next_height st tx in
      let st' = stage st i tx verdict in
      step verdict.1 (rejections st' (i + 1) txs)
        (accepted_txs l verifier next_height st' (i + 1) txs)
        (not_before st' (i + 1) txs i (omega arith)) agree
        (λ agree'.
          picked enc_outputs rejected st' (i + 1) txs agree'
            (λ j. let e : i + 1 + j ≡ i + suc j = omega arith in rw e (at_ (suc j))))
    where
      step :
          (o : Option RejectReason) (rest : List (ℕ × RejectReason)) (after : List TxV1)
          → was_rejected rest i ≡ false
          → ((j : ℕ) → i ≤ j → was_rejected rejected j ≡ was_rejected (note_rejection i o rest) j)
          → (((j : ℕ) → i + 1 ≤ j → was_rejected rejected j ≡ was_rejected rest j)
              → map (pick enc_outputs) (accepted_of rejected (range (i + 1) (length txs)))
                ≡ map TxV1.enc_outputs after)
          → map (pick enc_outputs) (accepted_of rejected (i ∷ range (i + 1) (length txs)))
            ≡ map TxV1.enc_outputs (keep o tx after)
      step none rest after early same ih =
          let kept : was_rejected rejected i ≡ false = same i (omega arith) ∙ early in
          let here : i + 0 ≡ i = omega arith in
          rw kept (ap₂ ◌∷◌ (rw here at (at_ 0)) (ih (λ j h. same j (omega (arith, h)))))
      step (some reason) rest after early same ih =
          let out : was_rejected rejected i ≡ true = same i (omega arith) ∙ rw (equal i) refl in
          rw out (
            ih (λ j h.
              same j (omega (arith, h)) ∙ rw (==-ne i j (λ p. absurd (omega (arith, h, p)))) refl))
