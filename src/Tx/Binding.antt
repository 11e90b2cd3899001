-- ===== src/Tx/Binding.antt =====
-- What the binding digest fixes of a transaction.
use unknown.Base.{◌≡◌, ◌⊎◌, inl, inr, arith, List, [], ◌∷◌}
use unknown.Base.Bytes.{Bytes, le_bytes}
use unknown.Base.Words.{u64_bytes-injective}
use unknown.Primitives.{Blake3, frame, tx_binding}
use unknown.Primitives.Binding.{Collides, AreShort, hash_parts_binding}
use unknown.Tx.{TxV1, binding_digest}
use unknown.Tx.Codec.{IsTx}

-- Equal in everything but the anti-spam artifact and the proof.
pub record SameBody (tx u : TxV1) : Type 0 where
  pub anchor : tx.anchor ≡ u.anchor
  pub nullifiers : tx.nullifiers ≡ u.nullifiers
  pub commitments : tx.commitments ≡ u.commitments
  pub enc_outputs : tx.enc_outputs ≡ u.enc_outputs

module _ ⦃b : Blake3⦄ where
  -- The fields that the digest is to bind.
  abbrev pub bound_parts : TxV1 → List Bytes
  bound_parts tx =
      le_bytes 8 tx.anchor.height
      ∷ tx.anchor.root
      ∷ tx.nullifiers.0
      ∷ tx.nullifiers.1
      ∷ tx.commitments.0
      ∷ tx.commitments.1
      ∷ tx.enc_outputs.0.bytes
      ∷ tx.enc_outputs.1.bytes
      ∷ []

  bound_parts-AreShort : (tx : TxV1) → IsTx tx → AreShort (bound_parts tx)
  bound_parts-AreShort tx h =
      omega
        (arith, h.root, h.nullifier0, h.nullifier1, h.commitment0, h.commitment1, h.enc0, h.enc1)

  bound_parts-SameBody :
      (tx u : TxV1) → IsTx tx → IsTx u → bound_parts tx ≡ bound_parts u → SameBody tx u
  bound_parts-SameBody tx u h k e =
      let heights : tx.anchor.height ≡ u.anchor.height =
        u64_bytes-injective tx.anchor.height u.anchor.height h.height k.height (cc e) in
      let roots : tx.anchor.root ≡ u.anchor.root = cc e in
      let nf0 : tx.nullifiers.0 ≡ u.nullifiers.0 = cc e in
      let nf1 : tx.nullifiers.1 ≡ u.nullifiers.1 = cc e in
      let cm0 : tx.commitments.0 ≡ u.commitments.0 = cc e in
      let cm1 : tx.commitments.1 ≡ u.commitments.1 = cc e in
      let enc0 : tx.enc_outputs.0.bytes ≡ u.enc_outputs.0.bytes = cc e in
      let enc1 : tx.enc_outputs.1.bytes ≡ u.enc_outputs.1.bytes = cc e in
      record {
        anchor = λ i. record { height = heights i; root = roots i };
        nullifiers = λ i. (nf0 i, nf1 i);
        commitments = λ i. (cm0 i, cm1 i);
        enc_outputs = λ i. (record { bytes = enc0 i }, record { bytes = enc1 i });
      }

  -- Two transactions of the right sizes with one binding digest have the same anchor, nullifiers,
  -- commitments and encrypted outputs, or else the framings of just these fields of the one and of
  -- the other are two inputs of BLAKE3 with one digest: no bound field can be changed afterwards.
  pub binding_digest_binding :
      (tx u : TxV1)
      → IsTx tx
      → IsTx u
      → binding_digest tx ≡ binding_digest u
      → SameBody tx u ⊎ Collides tx_binding (frame (bound_parts tx)) (frame (bound_parts u))
  unfolding binding_digest
  binding_digest_binding tx u h k e =
      elim (hash_parts_binding tx_binding (bound_parts tx) (bound_parts u)
        (bound_parts-AreShort tx h) (bound_parts-AreShort u k) e) [
          | inl same ↦ inl (bound_parts-SameBody tx u h k same)
          | inr c ↦ inr c
        ]
