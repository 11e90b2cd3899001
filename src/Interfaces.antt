-- ===== src/Interfaces.antt =====
-- crates/interfaces/src/lib.rs: the types and constants that the crates share. The newtypes
-- `Commitment` and `Nullifier` stand for their 32 bytes.
pub mod Encoding
use unknown.Base.{ℕ, String, Result, List, [], ◌∷◌, ◌++◌, ◌^◌, ◌%◌, length}
use unknown.Base.Bytes.{Bytes, le_bytes}

abbrev pub tree_depth : ℕ
tree_depth = 32

abbrev pub anchor_window : ℕ
anchor_window = 1024

abbrev pub max_money : ℕ
max_money = 2 ^ 62

abbrev pub tx_inputs : ℕ
tx_inputs = 2

abbrev pub tx_outputs : ℕ
tx_outputs = 2

abbrev pub proof_bucket : ℕ
proof_bucket = 192

abbrev pub Commitment : Type 0
Commitment = Bytes

abbrev pub Nullifier : Type 0
Nullifier = Bytes

pub record Anchor : Type 0 where
  pub height : ℕ
  pub root : Bytes

pub record MerklePath : Type 0 where
  pub position : ℕ
  pub siblings : List Bytes

pub record SpendPublicInputs : Type 0 where
  pub anchor : Anchor
  pub nullifiers : List Nullifier
  pub commitments : List Commitment
  pub binding_digest : Bytes
  pub mint_value : ℕ

-- `for x in xs { out.extend_from_slice(x) }`
abbrev pub concat : List Bytes → Bytes
concat [] = []
concat (x ∷ xs) = x ++ concat xs

-- `SpendPublicInputs::encode`; a count is cut to a byte.
unfoldable pub encode : SpendPublicInputs → Bytes
encode pi =
    le_bytes 8 pi.anchor.height
    ++ (pi.anchor.root
        ++ (length pi.nullifiers % 256
            ∷ (concat pi.nullifiers
                ++ (length pi.commitments % 256
                    ∷ (concat pi.commitments ++ (pi.binding_digest ++ le_bytes 8 pi.mint_value))))))

pub data ProveError : Type 0 where
  unsatisfied : String → ProveError

pub data VerifyError : Type 0 where
  invalid malformed : VerifyError

-- The trait `SpendVerifier`: what the pipeline asks of a verifier.
pub record SpendVerifier : Type 0 where
  pub verify : SpendPublicInputs → Bytes → Result (Unit {0}) VerifyError

pub record CompactCheckpoint : Type 0 where
  pub anchor : Anchor
  pub outputs : List (Commitment × Bytes)
  pub nullifiers : List Nullifier
