-- ===== src/Examples/Wire.antt =====
-- A transaction of the full size on the wire, and its validation.
use unknown.Base.{
  ℕ, ◌≡◌, ◌↔◌, ◌⊎◌, refl, arith, true, ok, [], ◌∷◌, length-replicate, replicate, All, all, ltb,
  ltb→lt, and→both,
}
use unknown.Base.Bytes.{Bytes, IsByte}
use unknown.Primitives.{frame, tx_binding}
use unknown.Primitives.Binding.{Collides}
use unknown.Interfaces.{proof_bucket}
use unknown.Encryption.{EncryptedOutput, enc_output_len}
use unknown.Quota.{RateProof, to_bytes}
use unknown.Tx.{TxV1, quota, encode, decode, tag, body, validate_stateless}
use unknown.Tx.Codec.{IsTx}
use unknown.Tx.Canonical.{decode_iff}
use unknown.Tx.Binding.{bound_parts, SameBody, binding_digest_binding}
use unknown.Tx.Validation.{IsStatelessValid, validate_stateless_iff}
use unknown.Examples.{toy, filled, trusting}

abbrev sealed_note : EncryptedOutput
sealed_note = record { bytes = replicate enc_output_len 7 }

abbrev rate_proof : RateProof
rate_proof = record { epoch = 3; rate_nullifier = filled 6; x = 70000; y = 12 }

abbrev payment : TxV1
payment = record {
  anchor = record { height = 9; root = filled 5 };
  nullifiers = (filled 1, filled 2);
  commitments = (filled 3, filled 4);
  enc_outputs = (sealed_note, sealed_note);
  antispam = quota rate_proof;
  proof = replicate proof_bucket 1;
}

payment-IsTx : IsTx payment
payment-IsTx = record {
  height = omega arith;
  root = refl;
  nullifier0 = refl;
  nullifier1 = refl;
  commitment0 = refl;
  commitment1 = refl;
  enc0 = length-replicate {A = ℕ} enc_output_len 7;
  enc1 = length-replicate {A = ℕ} enc_output_len 7;
  antispam = record {
    epoch = omega arith;
    rate_nullifier = refl;
    x = omega arith;
    y = omega arith;
  };
  proof = length-replicate {A = ℕ} proof_bucket 1;
}

All-IsByte : (xs : Bytes) → all (λ x. ltb x 256) xs ≡ true → All IsByte xs
All-IsByte [] h = tt
All-IsByte (x ∷ xs) h =
    let (here, rest) = and→both (ltb x 256) (all (λ x. ltb x 256) xs) h in
    (ltb→lt x 256 here, All-IsByte xs rest)

wire_bytes : all (λ x. ltb x 256) (encode payment) ≡ true
unfolding encode tag body to_bytes
wire_bytes = refl

decode_iff_example :
    (decode (encode payment) ≡ ok payment) ↔ (IsTx payment × (encode payment ≡ encode payment))
decode_iff_example = decode_iff (encode payment) payment (All-IsByte (encode payment) wire_bytes)

binding_digest_binding_example :
    SameBody payment payment
    ⊎ Collides tx_binding (frame (bound_parts payment)) (frame (bound_parts payment))
binding_digest_binding_example =
    binding_digest_binding payment payment payment-IsTx payment-IsTx refl

validate_stateless_iff_example :
    (validate_stateless payment trusting 8 ≡ ok tt) ↔ IsStatelessValid payment trusting 8
validate_stateless_iff_example = validate_stateless_iff payment trusting 8
