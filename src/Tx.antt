-- ===== src/Tx.antt =====
-- crates/tx/src/lib.rs: the wire format of a transaction and its stateless validation. The arrays of
-- two are pairs; the reader's cursor is what is left of the bytes.
pub mod Codec
pub mod Reading
pub mod Canonical
pub mod Binding
pub mod Validation
use unknown.Base.{
  ℕ, ◌+◌, ◌*◌, Bool, true, false, not, Result, ok, err, ◌>>=◌, ◌>>◌, fail_if, List, [], ◌∷◌, ◌++◌,
  length, take, drop, replicate, any, get_or, ltb, ◌==◌, if◌then◌else◌,
}
use unknown.Base.Bytes
use unknown.Base.Bytes.{Bytes, le_bytes, from_le_bytes}
use unknown.Primitives.{Blake3, hash_parts, tx_binding}
use unknown.Interfaces.{
  Anchor, Nullifier, Commitment, SpendPublicInputs, SpendVerifier, VerifyError, proof_bucket,
  tx_inputs, tx_outputs,
}
use unknown.Encryption.{EncryptedOutput, enc_output_len}
use unknown.Pow
use unknown.Pow.{PowSolution}
use unknown.Quota
use unknown.Quota.{RateProof, rate_proof_len, message_x}

abbrev pub antispam_body_len : ℕ
antispam_body_len = rate_proof_len

abbrev pub pow_tag : ℕ
pow_tag = 0x01

abbrev pub quota_tag : ℕ
quota_tag = 0x02

pub data AntiSpam : Type 0 where
  pow : PowSolution → AntiSpam
  quota : RateProof → AntiSpam

pub data TxError : Type 0 where
  malformed nullifier_order pow_invalid quota_invalid proof_invalid proof_size : TxError

unfoldable pub tag : AntiSpam → ℕ
tag (pow sol) = pow_tag
tag (quota rp) = quota_tag

-- The smaller body is padded with zeros.
unfoldable pub body : AntiSpam → Bytes
body (pow sol) = Pow.to_bytes sol ++ replicate 48 0
body (quota rp) = Quota.to_bytes rp

unfoldable pub from_wire : ℕ → Bytes → Result AntiSpam TxError
from_wire t b =
    if t == pow_tag
    then (if any (λ x. not (x == 0)) (drop 8 b)
        then err malformed
        else ok (pow (Pow.from_bytes (take 8 b))))
    else if t == quota_tag
    then ok (quota (Quota.from_bytes b))
    else err malformed

pub record TxV1 : Type 0 where
  pub anchor : Anchor
  pub nullifiers : Nullifier × Nullifier
  pub commitments : Commitment × Commitment
  pub enc_outputs : EncryptedOutput × EncryptedOutput
  pub antispam : AntiSpam
  pub proof : Bytes

unfoldable pub encode : TxV1 → Bytes
encode tx =
    1
    ∷ (le_bytes 8 tx.anchor.height
        ++ (tx.anchor.root
            ++ (tx.nullifiers.0
                ++ (tx.nullifiers.1
                    ++ (tx.commitments.0
                        ++ (tx.commitments.1
                            ++ (tx.enc_outputs.0.bytes
                                ++ (tx.enc_outputs.1.bytes
                                    ++ (tag tx.antispam ∷ (body tx.antispam ++ tx.proof))))))))))

abbrev pub encoded_len : ℕ
encoded_len =
    1
    + 8
    + 32
    + tx_inputs * 32
    + tx_outputs * 32
    + tx_outputs * enc_output_len
    + 1
    + antispam_body_len
    + proof_bucket

-- `take(&mut cur, n)`: the next `n` bytes, and the rest.
pub read : ℕ → Bytes → Result (Bytes × Bytes) TxError
read n bytes = if ltb (length bytes) n then err malformed else ok (take n bytes, drop n bytes)

unfoldable pub decode : Bytes → Result TxV1 TxError
decode bytes = do
  (version, b1) ← read 1 bytes
  fail_if (not (get_or version 0 0 == 1)) malformed
  (height, b2) ← read 8 b1
  (root, b3) ← read 32 b2
  (nf0, b4) ← read 32 b3
  (nf1, b5) ← read 32 b4
  (cm0, b6) ← read 32 b5
  (cm1, b7) ← read 32 b6
  (enc0, b8) ← read enc_output_len b7
  (enc1, b9) ← read enc_output_len b8
  (lane, b10) ← read 1 b9
  (lane_body, b11) ← read antispam_body_len b10
  antispam ← from_wire (get_or lane 0 0) lane_body
  (proof, b12) ← read proof_bucket b11
  fail_if (not (length b12 == 0)) malformed
  ok (record {
    anchor = record { height = from_le_bytes height; root = root };
    nullifiers = (nf0, nf1);
    commitments = (cm0, cm1);
    enc_outputs = (record { bytes = enc0 }, record { bytes = enc1 });
    antispam = antispam;
    proof = proof;
  })

module _ ⦃b : Blake3⦄ where
  unfoldable pub binding_digest : TxV1 → Bytes
  binding_digest tx = hash_parts tx_binding (
      le_bytes 8 tx.anchor.height
      ∷ tx.anchor.root
      ∷ tx.nullifiers.0
      ∷ tx.nullifiers.1
      ∷ tx.commitments.0
      ∷ tx.commitments.1
      ∷ tx.enc_outputs.0.bytes
      ∷ tx.enc_outputs.1.bytes
      ∷ [])

  unfoldable pub to_public_inputs : TxV1 → SpendPublicInputs
  to_public_inputs tx = record {
    anchor = tx.anchor;
    nullifiers = tx.nullifiers.0 ∷ tx.nullifiers.1 ∷ [];
    commitments = tx.commitments.0 ∷ tx.commitments.1 ∷ [];
    binding_digest = binding_digest tx;
    mint_value = 0;
  }

  -- The anti-spam artifact must be bound to the digest.
  unfoldable pub check_antispam : AntiSpam → Bytes → ℕ → Result (Unit {0}) TxError
  check_antispam (pow sol) binding difficulty_bits =
      fail_if (not (Pow.verify binding sol difficulty_bits)) pow_invalid
  check_antispam (quota rp) binding difficulty_bits =
      fail_if (not (rp.x == message_x binding)) quota_invalid

  -- `verifier.verify(..).map_err(|_| TxError::ProofInvalid)`.
  abbrev pub map_invalid : Result (Unit {0}) VerifyError → Result (Unit {0}) TxError
  map_invalid (ok u) = ok u
  map_invalid (err e) = err proof_invalid

  unfoldable pub validate_stateless : TxV1 → SpendVerifier → ℕ → Result (Unit {0}) TxError
  unfolding check_antispam
  validate_stateless tx verifier difficulty_bits = do
    fail_if (not (length tx.proof == proof_bucket)) proof_size
    fail_if (not (Bytes.lt tx.nullifiers.0 tx.nullifiers.1)) nullifier_order
    check_antispam tx.antispam (binding_digest tx) difficulty_bits
    map_invalid (verifier.verify (to_public_inputs tx) tx.proof)
