-- ===== src/Quota/Wire.antt =====
-- The wire format of a rate proof.
use unknown.Base.{
  ℕ, ◌≤◌, ◌≡◌, ap, sym, ◌∙◌, arith, ◌++◌, length, take, drop, All, take-append-drop, length-append,
  take_append, drop_append, drop-drop, take_all, All-take, All-drop, length-take, length-drop,
}
use unknown.Base.Bytes.{Bytes, IsByte, le_bytes, from_le_bytes, from_le_bytes-le_bytes, le_bytes_of}
use unknown.Base.Words.{IsU64, from_le_bytes-IsU64}
use unknown.Interfaces.Encoding.{Is32}
use unknown.Quota.{RateProof, to_bytes, from_bytes, rate_proof_len}

pub record IsRateProof (rp : RateProof) : Type 0 where
  pub epoch : IsU64 rp.epoch
  pub rate_nullifier : Is32 rp.rate_nullifier
  pub x : IsU64 rp.x
  pub y : IsU64 rp.y

pub length-to_bytes :
    (rp : RateProof) → Is32 rp.rate_nullifier → length (to_bytes rp) ≡ rate_proof_len
unfolding to_bytes
length-to_bytes rp h =
    omega (arith, h, length-append rp.rate_nullifier (le_bytes 8 rp.x ++ le_bytes 8 rp.y))

-- Decoding the encoding of a rate proof gives it back.
pub from_bytes-to_bytes : (rp : RateProof) → IsRateProof rp → from_bytes (to_bytes rp) ≡ rp
unfolding to_bytes from_bytes
from_bytes-to_bytes rp h =
    let tail : Bytes = le_bytes 8 rp.x ++ le_bytes 8 rp.y in
    let shares = drop_append 32 rp.rate_nullifier tail h.rate_nullifier in
    let last : drop 40 (rp.rate_nullifier ++ tail) ≡ le_bytes 8 rp.y =
      sym (drop-drop 32 8 (rp.rate_nullifier ++ tail)) ∙ ap (drop 8) shares in
    let x : from_le_bytes (take 8 (drop 32 (rp.rate_nullifier ++ tail))) ≡ rp.x =
      ap (λ t. from_le_bytes (take 8 t)) shares ∙ from_le_bytes-le_bytes 8 rp.x h.x in
    let y : from_le_bytes (take 8 (drop 40 (rp.rate_nullifier ++ tail))) ≡ rp.y =
      ap (λ t. from_le_bytes (take 8 t)) last ∙ from_le_bytes-le_bytes 8 rp.y h.y in
    λ i. record {
      epoch = from_le_bytes-le_bytes 8 rp.epoch h.epoch i;
      rate_nullifier = take_append 32 rp.rate_nullifier tail h.rate_nullifier i;
      x = x i;
      y = y i;
    }

-- The first `n` bytes as a number, written out again.
word :
    (n : ℕ) (b : Bytes)
    → n ≤ length b
    → All IsByte b
    → le_bytes n (from_le_bytes (take n b)) ≡ take n b
word n b room h = le_bytes_of n (take n b) (omega (arith, length-take n b)) (All-take IsByte n b h)

-- Any 56 bytes are the encoding of the proof that they decode to.
pub to_bytes-from_bytes :
    (b : Bytes) → length b ≡ rate_proof_len → All IsByte b → to_bytes (from_bytes b) ≡ b
unfolding to_bytes from_bytes
to_bytes-from_bytes b n h =
    let second : take 32 (drop 8 b) ++ drop 40 b ≡ drop 8 b =
      ap (λ t. take 32 (drop 8 b) ++ t) (sym (drop-drop 8 32 b)) ∙ take-append-drop 32 (drop 8 b) in
    let third : take 8 (drop 40 b) ++ drop 48 b ≡ drop 40 b =
      ap (λ t. take 8 (drop 40 b) ++ t) (sym (drop-drop 40 8 b)) ∙ take-append-drop 8 (drop 40 b) in
    let fourth : take 8 (drop 48 b) ≡ drop 48 b =
      take_all 8 (drop 48 b) (omega (arith, length-drop 48 b)) in
    let words : to_bytes (from_bytes b)
        ≡ take 8 b ++ (take 32 (drop 8 b) ++ (take 8 (drop 40 b) ++ take 8 (drop 48 b))) =
      λ i.
        word 8 b (omega arith) h i
        ++ (take 32 (drop 8 b)
            ++ (word 8 (drop 40 b) (omega (arith, length-drop 40 b)) (All-drop IsByte 40 b h) i
                ++ word 8 (drop 48 b) (omega (arith, length-drop 48 b)) (All-drop IsByte 48 b h)
                    i)) in
    words
    ∙ (ap (λ t. take 8 b ++ (take 32 (drop 8 b) ++ (take 8 (drop 40 b) ++ t))) fourth
        ∙ (ap (λ t. take 8 b ++ (take 32 (drop 8 b) ++ t)) third
            ∙ (ap (λ t. take 8 b ++ t) second ∙ take-append-drop 8 b)))

-- The number that the first 8 bytes spell.
word-IsU64 : (b : Bytes) → 8 ≤ length b → All IsByte b → IsU64 (from_le_bytes (take 8 b))
word-IsU64 b room h =
    from_le_bytes-IsU64 (take 8 b) (omega (arith, length-take 8 b)) (All-take IsByte 8 b h)

-- What any 56 bytes decode to has the sizes of its type.
pub from_bytes-IsRateProof :
    (b : Bytes) → length b ≡ rate_proof_len → All IsByte b → IsRateProof (from_bytes b)
unfolding from_bytes
from_bytes-IsRateProof b n h = record {
  epoch = word-IsU64 b (omega arith) h;
  rate_nullifier = omega (arith, n, length-take 32 (drop 8 b), length-drop 8 b);
  x = word-IsU64 (drop 40 b) (omega (arith, length-drop 40 b)) (All-drop IsByte 40 b h);
  y = word-IsU64 (drop 48 b) (omega (arith, length-drop 48 b)) (All-drop IsByte 48 b h);
}
