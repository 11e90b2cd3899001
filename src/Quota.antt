-- ===== src/Quota.antt =====
-- crates/antispam-quota/src/lib.rs: the rate-limiting quota lane. The arithmetic of the field is in
-- the child `Field`; the hash map of used slots is an association list whose latest entry is first.
mod Field
pub mod Laws
pub mod Power
pub mod Slashing
pub mod Registry
pub mod Wire
unfoldable pub use Field.{reduce, add, sub, mul, pow_loop, pow, inv}
pub use Field.{p}
use unknown.Base.{
  ℕ, zero, suc, ◌+◌, ◌-◌, ◌*◌, ◌/◌, Bool, true, false, ◌&&◌, String, Option, none, some, Result, ok,
  err, List, [], ◌∷◌, ◌++◌, length, take, drop, ltb, leb, ◌==◌, if◌then◌else◌,
}
use unknown.Base.Bytes
use unknown.Base.Bytes.{Bytes, le_bytes, from_le_bytes}
use unknown.Primitives.{Blake3, hash_parts}

-- `field_from`: the first eight bytes of a hash, reduced.
unfoldable pub field_from : ⦃b : Blake3⦄ → String → List Bytes → ℕ
unfolding reduce
field_from context parts = reduce (from_le_bytes (take 8 (hash_parts context parts)))

pub record QuotaNote : Type 0 where
  pub stake : ℕ
  pub quota_key : Bytes

abbrev pub stake_per_slot : ℕ
stake_per_slot = 1000

-- `(self.stake / STAKE_PER_SLOT).max(1)`.
unfoldable pub quota : QuotaNote → ℕ
quota n = if ltb (n.stake / stake_per_slot) 1 then 1 else n.stake / stake_per_slot

pub record RateProof : Type 0 where
  pub epoch : ℕ
  pub rate_nullifier : Bytes
  pub x : ℕ
  pub y : ℕ

pub data QuotaError : Type 0 where
  quota_exceeded : (k quota : ℕ) → QuotaError

module _ ⦃b : Blake3⦄ where
  -- `QuotaNote::commitment`.
  pub quota_commitment : QuotaNote → Bytes
  quota_commitment n = hash_parts "unknown.v0.quota.cm" (le_bytes 8 n.stake ∷ n.quota_key ∷ [])

  unfoldable pub secret : QuotaNote → ℕ
  secret n = field_from "unknown.v0.quota.a0" (n.quota_key ∷ [])

  unfoldable pub slope : QuotaNote → ℕ → ℕ
  slope n epoch = field_from "unknown.v0.quota.a1" (n.quota_key ∷ le_bytes 8 epoch ∷ [])

  unfoldable pub rate_nullifier : QuotaNote → ℕ → ℕ → Bytes
  rate_nullifier n epoch k =
      hash_parts "unknown.v0.quota.rn" (n.quota_key ∷ le_bytes 8 epoch ∷ le_bytes 8 k ∷ [])

  unfoldable pub message_x : Bytes → ℕ
  message_x message = field_from "unknown.v0.quota.x" (message ∷ [])

  unfoldable pub signal : QuotaNote → ℕ → ℕ → Bytes → Result RateProof QuotaError
  signal n epoch k message =
      let x = message_x message in
      if leb (quota n) k
      then err (quota_exceeded k (quota n))
      else ok (record {
        epoch = epoch;
        rate_nullifier = rate_nullifier n epoch k;
        x = x;
        y = add (secret n) (mul (slope n epoch) x);
      })

abbrev pub rate_proof_len : ℕ
rate_proof_len = 56

-- `RateProof::to_bytes` and `RateProof::from_bytes`.
unfoldable pub to_bytes : RateProof → Bytes
to_bytes rp = le_bytes 8 rp.epoch ++ (rp.rate_nullifier ++ (le_bytes 8 rp.x ++ le_bytes 8 rp.y))

unfoldable pub from_bytes : Bytes → RateProof
from_bytes b = record {
  epoch = from_le_bytes (take 8 b);
  rate_nullifier = take 32 (drop 8 b);
  x = from_le_bytes (take 8 (drop 40 b));
  y = from_le_bytes (take 8 (drop 48 b));
}

pub data Admit : Type 0 where
  admitted : Admit
  duplicate : Admit
  slash : (recovered_secret : ℕ) → Admit

pub record Slot : Type 0 where
  pub epoch : ℕ
  pub rate_nullifier : Bytes

abbrev pub slot_of : RateProof → Slot
slot_of rp = record { epoch = rp.epoch; rate_nullifier = rp.rate_nullifier }

abbrev pub slot_eq : Slot → Slot → Bool
slot_eq s t = s.epoch == t.epoch && Bytes.eq s.rate_nullifier t.rate_nullifier

pub record Share : Type 0 where
  pub x : ℕ
  pub y : ℕ

pub record QuotaRegistry : Type 0 where
  pub seen : List (Slot × Share)

abbrev pub new : QuotaRegistry
new = record { seen = [] }

unfoldable pub find : Slot → List (Slot × Share) → Option Share
find slot [] = none
find slot ((key, share) ∷ rest) = if slot_eq key slot then some share else find slot rest

-- The interpolation of two shares.
unfoldable pub recover : Share → RateProof → ℕ
recover first proof =
    let dx = sub proof.x first.x in
    let dy = sub proof.y first.y in let a1 = mul dy (inv dx) in sub first.y (mul a1 first.x)

-- The answer of `admit` to a slot that is free, or whose first share is known.
unfoldable pub admit_seen : QuotaRegistry → RateProof → Option Share → QuotaRegistry × Admit
unfolding recover
admit_seen r proof none =
    (record r { seen = (slot_of proof, record { x = proof.x; y = proof.y }) ∷ r.seen }, admitted)
admit_seen r proof (some first) =
    if first.x == proof.x then (r, duplicate) else (r, slash (recover first proof))

unfoldable pub admit : QuotaRegistry → RateProof → QuotaRegistry × Admit
unfolding find admit_seen
admit r proof = admit_seen r proof (find (slot_of proof) r.seen)
