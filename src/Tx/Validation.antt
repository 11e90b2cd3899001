-- ===== src/Tx/Validation.antt =====
-- What stateless validation accepts.
use unknown.Base.{
  ◌∷◌, [], ℕ, ◌≤◌, ◌≡◌, ◌≢◌, ◌↔◌, refl, ap, arith, Bool, true, false, not, Result, ok, err, fail_if,
  >>=-eq-ok, fail_if-eq-ok, length, ◌==◌, ==_iff,
}
use unknown.Base.Bytes.{Bytes, lt, lt_irrefl}
use unknown.Primitives.{Blake3}
use unknown.Interfaces.{SpendVerifier, VerifyError, proof_bucket}
use unknown.Pow.{leading_zero_bits, pow_hash, verify}
use unknown.Quota.{message_x}
use unknown.Tx.{
  TxV1, TxError, AntiSpam, pow, quota, binding_digest, to_public_inputs, check_antispam,
  map_invalid, validate_stateless,
}

module _ ⦃b : Blake3⦄ where
  -- The artifact is tied to the digest: enough leading zeros, or the share of the right message.
  abbrev pub IsBound : AntiSpam → Bytes → ℕ → Type 0
  IsBound (pow sol) binding difficulty = difficulty ≤ leading_zero_bits (pow_hash binding sol.nonce)
  IsBound (quota rp) binding difficulty = rp.x ≡ message_x binding

  -- What validation asks of a transaction.
  pub record IsStatelessValid (tx : TxV1) (verifier : SpendVerifier) (difficulty : ℕ) : Type 0 where
    pub proof_size : length tx.proof ≡ proof_bucket
    pub ascending : lt tx.nullifiers.0 tx.nullifiers.1 ≡ true
    pub bound : IsBound tx.antispam (binding_digest tx) difficulty
    pub proven :
        verifier.verify
          (record {
            anchor = tx.anchor;
            nullifiers = tx.nullifiers.0 ∷ tx.nullifiers.1 ∷ [];
            commitments = tx.commitments.0 ∷ tx.commitments.1 ∷ [];
            binding_digest = binding_digest tx;
            mint_value = 0;
          })
          tx.proof
        ≡ ok tt

  check_antispam-eq-ok :
      (a : AntiSpam) (binding : Bytes) (difficulty : ℕ)
      → (check_antispam a binding difficulty ≡ ok tt) ↔ IsBound a binding difficulty
  unfolding check_antispam verify
  check_antispam-eq-ok (pow sol) binding difficulty = (λ e. ground arith, λ h. ground arith)
  check_antispam-eq-ok (quota rp) binding difficulty = (λ e. ground arith, λ h. ground arith)

  map_invalid-eq-ok : (r : Result (Unit {0}) VerifyError) → map_invalid r ≡ ok tt → r ≡ ok tt
  map_invalid-eq-ok (ok u) e = refl
  map_invalid-eq-ok (err v) e = absurd (cc e)

  not-false : (t : Bool) → not t ≡ false → t ≡ true
  not-false true h = refl
  not-false false h = cc

  accepted :
      (tx : TxV1) (verifier : SpendVerifier) (difficulty : ℕ)
      → validate_stateless tx verifier difficulty ≡ ok tt
      → IsStatelessValid tx verifier difficulty
  unfolding validate_stateless to_public_inputs
  accepted tx verifier difficulty e =
      let size : Bool = length tx.proof == proof_bucket in
      let order : Bool = lt tx.nullifiers.0 tx.nullifiers.1 in
      let (u1, f1, k1) = >>=-eq-ok (fail_if (not size) TxError.proof_size) _ e in
      let (u2, f2, k2) = >>=-eq-ok (fail_if (not order) TxError.nullifier_order) _ k1 in
      let (u3, f3, k3) =
        >>=-eq-ok (check_antispam tx.antispam (binding_digest tx) difficulty) _ k2 in
      record {
        proof_size =
            (==_iff (length tx.proof) proof_bucket).0
              (not-false size (fail_if-eq-ok (not size) TxError.proof_size f1));
        ascending = not-false order (fail_if-eq-ok (not order) TxError.nullifier_order f2);
        bound = (check_antispam-eq-ok tx.antispam (binding_digest tx) difficulty).0 f3;
        proven = map_invalid-eq-ok (verifier.verify (to_public_inputs tx) tx.proof) k3;
      }

  accepts :
      (tx : TxV1) (verifier : SpendVerifier) (difficulty : ℕ)
      → IsStatelessValid tx verifier difficulty
      → validate_stateless tx verifier difficulty ≡ ok tt
  unfolding validate_stateless to_public_inputs
  accepts tx verifier difficulty v =
      rw
        (
          (==_iff (length tx.proof) proof_bucket).1 v.proof_size,
          v.ascending,
          (check_antispam-eq-ok tx.antispam (binding_digest tx) difficulty).1 v.bound,
          v.proven,
        )
        refl

  -- Validation succeeds exactly if the proof fills its bucket, the nullifiers are strictly
  -- ascending, the anti-spam artifact is bound to the binding digest, and the verifier accepts the
  -- proof for the transaction's anchor, its two nullifiers and its two commitments in order, its
  -- binding digest, and a mint value of zero.
  pub validate_stateless_iff :
      (tx : TxV1) (verifier : SpendVerifier) (difficulty : ℕ)
      → (validate_stateless tx verifier difficulty ≡ ok tt)
        ↔ IsStatelessValid tx verifier difficulty
  validate_stateless_iff tx verifier difficulty =
      (accepted tx verifier difficulty, accepts tx verifier difficulty)

  -- A transaction that validates spends two different nullifiers.
  pub validated-distinct :
      (tx : TxV1) (verifier : SpendVerifier) (difficulty : ℕ)
      → validate_stateless tx verifier difficulty ≡ ok tt
      → tx.nullifiers.0 ≢ tx.nullifiers.1
  validated-distinct tx verifier difficulty e same =
      let v = accepted tx verifier difficulty e in
      cc (ap (lt tx.nullifiers.0) same, lt_irrefl tx.nullifiers.0, v.ascending)
