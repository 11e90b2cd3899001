-- ===== src/Tx/Canonical.antt =====
-- The bytes that decode.
use mathlib.Core.List.{append-nil}
use mathlib.Core.Path.{subst}
use unknown.Base.{
  ℕ, List, ◌≡◌, ◌↔◌, refl, ap, sym, ◌∙◌, arith, false, not, Result, ok, ◌>>=◌, ◌>>◌, fail_if,
  >>=-eq-ok, [], ◌∷◌, ◌++◌, length, take, drop, any, All, replicate, get_or, ◌==◌, length-take,
  length-drop, take-append-drop, All-take, Bool-cases, inl, inr, ==_iff,
}
use unknown.Base.Bytes.{Bytes, IsByte, le_bytes, from_le_bytes, le_bytes_of}
use unknown.Interfaces.{proof_bucket}
use unknown.Encryption.{enc_output_len}
use unknown.Pow
use unknown.Quota
use unknown.Base.Words.{from_le_bytes-IsU64}
use unknown.Quota.Wire.{to_bytes-from_bytes, from_bytes-IsRateProof}
use unknown.Tx.Reading.{read_ok, fail_then, Parts, AreSized, joined, reads_ok}
use unknown.Tx.Codec.{IsAntiSpam, IsTx, decode-encode}
use unknown.Tx.{
  TxV1, TxError, malformed, AntiSpam, pow, quota, pow_tag, quota_tag, tag, body, from_wire, encode,
  read, decode, antispam_body_len,
}

all_zero : (xs : Bytes) → any (λ x. not (x == 0)) xs ≡ false → xs ≡ replicate (length xs) 0
all_zero [] h = refl
all_zero (x ∷ xs) h =
    let first : x ≡ 0 = ground arith in
    let rest : any (λ x. not (x == 0)) xs ≡ false = ground arith in
    rw first (ap (◌∷◌ 0) (all_zero xs rest))

one_byte : (xs : Bytes) → length xs ≡ 1 → xs ≡ get_or xs 0 0 ∷ []
one_byte [] h = absurd (omega arith)
one_byte (x ∷ []) h = refl
one_byte (x ∷ y ∷ xs) h = absurd (omega arith)

from_wire-canonical :
    (t : ℕ) (b : Bytes) {a : AntiSpam}
    → length b ≡ antispam_body_len
    → All IsByte b
    → from_wire t b ≡ ok a
    → (tag a ≡ t) × (body a ≡ b) × IsAntiSpam a
unfolding from_wire tag body
from_wire-canonical t b {a} n h e = elim (Bool-cases (t == pow_tag)) [
  | inl lane ↦ elim (Bool-cases (any (λ x. not (x == 0)) (drop 8 b))) [
    | inl dirty ↦ absurd (cc (rw (lane, dirty) at e))
    | inr clean ↦
        let shape : pow (Pow.from_bytes (take 8 b)) ≡ a = cc (rw (lane, clean) at e) in
        let padding : drop 8 b ≡ replicate 48 0 =
          all_zero (drop 8 b) clean
          ∙ ap (λ n. replicate n 0) {y = 48} (omega (arith, n, length-drop 8 b)) in
        let solution : le_bytes 8 (from_le_bytes (take 8 b)) ≡ take 8 b =
          le_bytes_of 8 (take 8 b) (omega (arith, n, length-take 8 b)) (All-take IsByte 8 b h) in
        rw (← shape) (
          sym ((==_iff t pow_tag).0 lane),
          (λ i. solution i ++ sym padding i) ∙ take-append-drop 8 b,
          from_le_bytes-IsU64 (take 8 b) (omega (arith, n, length-take 8 b))
              (All-take IsByte 8 b h),
        )
  ]
  | inr other ↦ elim (Bool-cases (t == quota_tag)) [
    | inl lane ↦
        let shape : quota (Quota.from_bytes b) ≡ a = cc (rw (other, lane) at e) in
        rw (← shape) (
          sym ((==_iff t quota_tag).0 lane),
          to_bytes-from_bytes b n h,
          from_bytes-IsRateProof b n h,
        )
    | inr none_of ↦ absurd (cc (rw (other, none_of) at e))
  ]
]

from_wire_then :
    (t : ℕ) (b : Bytes) (f : AntiSpam → Result TxV1 TxError) {tx : TxV1}
    → length b ≡ antispam_body_len
    → All IsByte b
    → (from_wire t b >>= f) ≡ ok tx
    → (a : AntiSpam) × (tag a ≡ t) × (body a ≡ b) × IsAntiSpam a × (f a ≡ ok tx)
from_wire_then t b f n h e =
    let (a, found, rest) = >>=-eq-ok (from_wire t b) f e in
    let (lane, whole, sized) = from_wire-canonical t b n h found in (a, lane, whole, sized, rest)

empty_of : (xs : Bytes) → not (length xs == 0) ≡ false → xs ≡ []
empty_of [] h = refl
empty_of (x ∷ xs) h = ground arith

-- The last steps of `decode`, from the lane tag on.
abbrev tail : (AntiSpam → Bytes → TxV1) → Bytes → Result TxV1 TxError
tail f bytes = read 1 bytes >>= λ lane. read antispam_body_len lane.1 >>= λ lane_body.
    from_wire (get_or lane.0 0 0) lane_body.0 >>= λ antispam.
    read proof_bucket lane_body.1 >>= λ proof.
    (fail_if (not (length proof.1 == 0)) malformed >> ok (f antispam proof.0))

-- What the last steps, from the lane tag on, have read.
record Tail (bytes : Bytes) (f : AntiSpam → Bytes → TxV1) (tx : TxV1) : Type 0 where
  antispam : AntiSpam
  proof : Bytes
  antispam_sized : IsAntiSpam antispam
  proof_sized : length proof ≡ proof_bucket
  whole : tag antispam ∷ (body antispam ++ proof) ≡ bytes
  result : f antispam proof ≡ tx

tail_ok :
    (bytes : Bytes) (f : AntiSpam → Bytes → TxV1) {tx : TxV1}
    → All IsByte bytes
    → tail f bytes ≡ ok tx
    → Tail bytes f tx
tail_ok bytes f {tx} h e =
    let lane = read_ok 1 bytes _ h e in
    let lane_body = read_ok antispam_body_len lane.rest _ lane.rest_bytes lane.next in
    let (a, same_tag, same_body, sized, e1) =
      from_wire_then (get_or lane.part 0 0) lane_body.part _ lane_body.size lane_body.part_bytes
        lane_body.next in
    let proof = read_ok proof_bucket lane_body.rest _ lane_body.rest_bytes e1 in
    let (ended, e2) = fail_then (not (length proof.rest == 0)) (ok (f a proof.part)) proof.next in
    let body_whole : body a ++ proof.part ≡ lane.rest =
      (λ i.
        same_body i
        ++ (sym (append-nil proof.part)
              ∙ ap (λ t. proof.part ++ t) (sym (empty_of proof.rest ended))
              ∙ proof.whole)
            i)
      ∙ lane_body.whole in
    record {
      antispam = a;
      proof = proof.part;
      antispam_sized = sized;
      proof_sized = proof.size;
      whole =
          (λ i. (ap (λ t. t ∷ []) same_tag ∙ sym (one_byte lane.part lane.size)) i ++ body_whole i)
          ∙ lane.whole;
      result = cc e2;
    }

version_one : (v : ℕ) → not (v == 1) ≡ false → v ≡ 1
version_one v h = ground arith

-- The sizes that `decode` reads between the version and the lane tag, and what it makes of the parts.
abbrev fields : List ℕ
fields = 8 ∷ 32 ∷ 32 ∷ 32 ∷ 32 ∷ 32 ∷ enc_output_len ∷ enc_output_len ∷ []

abbrev made : Parts fields → AntiSpam → Bytes → TxV1
made (height, (root, (nf0, (nf1, (cm0, (cm1, (enc0, (enc1, done)))))))) antispam proof = record {
  anchor = record { height = from_le_bytes height; root = root };
  nullifiers = (nf0, nf1);
  commitments = (cm0, cm1);
  enc_outputs = (record { bytes = enc0 }, record { bytes = enc1 });
  antispam = antispam;
  proof = proof;
}

made-IsTx :
    (ps : Parts fields) (a : AntiSpam) (proof : Bytes)
    → AreSized fields ps
    → IsAntiSpam a
    → length proof ≡ proof_bucket
    → IsTx (made ps a proof)
made-IsTx (height, (root, (nf0, (nf1, (cm0, (cm1, (enc0, (enc1, done)))))))) a proof
      (n0, h0, (n1, h1, (n2, h2, (n3, h3, (n4, h4, (n5, h5, (n6, h6, (n7, h7, end)))))))) sized
      full =
    record {
      height = from_le_bytes-IsU64 height n0 h0;
      root = n1;
      nullifier0 = n2;
      nullifier1 = n3;
      commitment0 = n4;
      commitment1 = n5;
      enc0 = n6;
      enc1 = n7;
      antispam = sized;
      proof = full;
    }

encode-made :
    (ps : Parts fields) (a : AntiSpam) (proof : Bytes)
    → AreSized fields ps
    → encode (made ps a proof) ≡ 1 ∷ joined fields ps (tag a ∷ (body a ++ proof))
unfolding encode
encode-made (height, ps) a proof (n0, h0, sizes) =
    ap (λ b. 1 ∷ (b ++ joined (drop 1 fields) ps (tag a ∷ (body a ++ proof))))
      (le_bytes_of 8 height n0 h0)

-- What decodes has the sizes of its type, and its encoding is the bytes.
decode_ok :
    (bytes : Bytes) {tx : TxV1}
    → All IsByte bytes
    → decode bytes ≡ ok tx
    → IsTx tx × (encode tx ≡ bytes)
unfolding decode
decode_ok bytes {tx} h e =
    let version = read_ok 1 bytes _ h e in
    let (one, e1) = fail_then (not (get_or version.part 0 0 == 1)) _ version.next in
    let (ps, rest, sized, rest_bytes, whole, e2) =
      reads_ok fields (λ ps. tail (made ps)) version.rest version.rest_bytes e1 in
    let end = tail_ok rest (made ps) rest_bytes e2 in
    let start : 1 ∷ [] ≡ version.part = sym (
      one_byte version.part version.size
      ∙ ap (λ t. t ∷ []) (version_one (get_or version.part 0 0) one)) in
    (
      subst IsTx end.result
          (made-IsTx ps end.antispam end.proof sized end.antispam_sized end.proof_sized),
      sym (ap encode end.result)
          ∙ (encode-made ps end.antispam end.proof sized
              ∙ (ap (λ t. 1 ∷ joined fields ps t) end.whole
                  ∙ ((λ i. start i ++ whole i) ∙ version.whole))),
    )

-- Bytes that decode are the encoding of the transaction that they decode to: no two byte strings
-- decode to one transaction.
encode-decode :
    (bytes : Bytes) {tx : TxV1} → All IsByte bytes → decode bytes ≡ ok tx → encode tx ≡ bytes
encode-decode bytes h e = (decode_ok bytes h e).1

-- Bytes decode to a transaction exactly if its parts have the sizes that the types and the
-- constructors guarantee and the bytes are its encoding.
pub decode_iff :
    (bytes : Bytes) (tx : TxV1)
    → All IsByte bytes
    → (decode bytes ≡ ok tx) ↔ (IsTx tx × (encode tx ≡ bytes))
decode_iff bytes tx h = (
  (λ e. decode_ok bytes h e),
  (λ (sized, whole). subst (λ b. decode b ≡ ok tx) whole (decode-encode tx sized)),
)
