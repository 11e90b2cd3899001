-- ===== src/Tx/Codec.antt =====
-- The size of a transaction on the wire, and its decoding.
use unknown.Base.{
  ℕ, ◌≡◌, refl, ap, arith, false, ok, [], ◌∷◌, ◌++◌, length, ltb, length-append, take_append,
  drop_append, take_all, drop_all,
}
use unknown.Base.Bytes.{Bytes, le_bytes, from_le_bytes-le_bytes}
use unknown.Base.Words.{IsU64}
use unknown.Interfaces.{proof_bucket}
use unknown.Interfaces.Encoding.{Is32}
use unknown.Encryption.{enc_output_len}
use unknown.Quota.Wire.{IsRateProof, length-to_bytes, from_bytes-to_bytes}
use unknown.Tx.{
  TxV1, AntiSpam, pow, quota, tag, body, from_wire, encode, encoded_len, read, decode,
  antispam_body_len,
}

abbrev pub IsAntiSpam : AntiSpam → Type 0
IsAntiSpam (pow sol) = IsU64 sol.nonce
IsAntiSpam (quota rp) = IsRateProof rp

-- The sizes that Rust's types and the constructors of a transaction guarantee.
pub record IsTx (tx : TxV1) : Type 0 where
  pub height : IsU64 tx.anchor.height
  pub root : Is32 tx.anchor.root
  pub nullifier0 : Is32 tx.nullifiers.0
  pub nullifier1 : Is32 tx.nullifiers.1
  pub commitment0 : Is32 tx.commitments.0
  pub commitment1 : Is32 tx.commitments.1
  pub enc0 : length tx.enc_outputs.0.bytes ≡ enc_output_len
  pub enc1 : length tx.enc_outputs.1.bytes ≡ enc_output_len
  pub antispam : IsAntiSpam tx.antispam
  pub proof : length tx.proof ≡ proof_bucket

pub length-body : (a : AntiSpam) → IsAntiSpam a → length (body a) ≡ antispam_body_len
unfolding body
length-body (pow sol) h = refl
length-body (quota rp) h = length-to_bytes rp h.rate_nullifier

-- The lane tag and the padded body determine the artifact, in both lanes.
pub from_wire-body : (a : AntiSpam) → IsAntiSpam a → from_wire (tag a) (body a) ≡ ok a
unfolding from_wire tag body
from_wire-body (pow sol) h =
    ap (λ n. ok (pow (record { nonce = n }))) (from_le_bytes-le_bytes 8 sol.nonce h)
from_wire-body (quota rp) h = ap (λ r. ok (quota r)) (from_bytes-to_bytes rp h)

-- All transactions are equally long, whatever lane they use.
pub length-encode : (tx : TxV1) → IsTx tx → length (encode tx) ≡ encoded_len
unfolding encode
length-encode tx h = omega (
  arith,
  h.root,
  h.nullifier0,
  h.nullifier1,
  h.commitment0,
  h.commitment1,
  h.enc0,
  h.enc1,
  h.proof,
  length-body tx.antispam h.antispam,
  length-append {0},
)

read-append : (n : ℕ) (xs ys : Bytes) → length xs ≡ n → read n (xs ++ ys) ≡ ok (xs, ys)
unfolding read
read-append n xs ys e =
    let enough : ltb (length (xs ++ ys)) n ≡ false = ground (arith, length-append xs ys) in
    rw (enough, take_append n xs ys e, drop_append n xs ys e) refl

read_all : (n : ℕ) (xs : Bytes) → length xs ≡ n → read n xs ≡ ok (xs, [])
unfolding read
read_all n xs e =
    let enough : ltb (length xs) n ≡ false = ground arith in
    rw (enough, take_all n xs (omega arith), drop_all n xs (omega arith)) refl

-- Decoding the encoding of a transaction gives it back, if its parts have the sizes that the types
-- and the constructors guarantee.
pub decode-encode : (tx : TxV1) → IsTx tx → decode (encode tx) ≡ ok tx
unfolding decode encode
decode-encode tx h =
    let t10 : Bytes = body tx.antispam ++ tx.proof in
    let t9 : Bytes = tag tx.antispam ∷ t10 in
    let t8 : Bytes = tx.enc_outputs.1.bytes ++ t9 in
    let t7 : Bytes = tx.enc_outputs.0.bytes ++ t8 in
    let t6 : Bytes = tx.commitments.1 ++ t7 in
    let t5 : Bytes = tx.commitments.0 ++ t6 in
    let t4 : Bytes = tx.nullifiers.1 ++ t5 in
    let t3 : Bytes = tx.nullifiers.0 ++ t4 in
    let t2 : Bytes = tx.anchor.root ++ t3 in
    rw
      (
        read-append 1 (1 ∷ []) (le_bytes 8 tx.anchor.height ++ t2) refl,
        read-append 8 (le_bytes 8 tx.anchor.height) t2 refl,
        read-append 32 tx.anchor.root t3 h.root,
        read-append 32 tx.nullifiers.0 t4 h.nullifier0,
        read-append 32 tx.nullifiers.1 t5 h.nullifier1,
        read-append 32 tx.commitments.0 t6 h.commitment0,
        read-append 32 tx.commitments.1 t7 h.commitment1,
        read-append enc_output_len tx.enc_outputs.0.bytes t8 h.enc0,
        read-append enc_output_len tx.enc_outputs.1.bytes t9 h.enc1,
        read-append 1 (tag tx.antispam ∷ []) t10 refl,
        read-append antispam_body_len (body tx.antispam) tx.proof
            (length-body tx.antispam h.antispam),
        from_wire-body tx.antispam h.antispam,
        read_all proof_bucket tx.proof h.proof,
        from_le_bytes-le_bytes 8 tx.anchor.height h.height,
      )
      refl
