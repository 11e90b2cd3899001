-- ===== src/Primitives.antt =====
-- crates/primitives/src/lib.rs: domain-separated hashing. BLAKE3 itself is a parameter.
pub mod Binding
use unknown.Base.{ℕ, String, List, [], ◌∷◌, ◌++◌, ◌≡◌, length, All}
use unknown.Base.Bytes.{Bytes, IsByte, le_bytes}

-- BLAKE3 in its key-derivation mode: a context string and the concatenation of all that was fed to
-- the hasher give 32 bytes. This is all that is asked of the crate `blake3`.
pub record Blake3 : Type 0 where
  pub digest : String → Bytes → Bytes
  pub length-digest : (context : String) (input : Bytes) → length (digest context input) ≡ 32
  pub IsByte-digest : (context : String) (input : Bytes) → All IsByte (digest context input)

-- What `hash_parts` feeds to the hasher: each part behind its length, a `u64`.
unfoldable pub frame : List Bytes → Bytes
frame [] = []
frame (part ∷ parts) = le_bytes 8 (length part) ++ (part ++ frame parts)

module _ ⦃b : Blake3⦄ where
  unfoldable pub hash_parts : String → List Bytes → Bytes
  unfolding frame
  hash_parts context parts = b.digest context (frame parts)

  unfoldable pub derive_key : String → Bytes → Bytes
  derive_key context key_material = b.digest context key_material

  pub length-hash_parts :
      (context : String) (parts : List Bytes) → length (hash_parts context parts) ≡ 32
  unfolding hash_parts
  length-hash_parts context parts = b.length-digest context (frame parts)

  pub IsByte-hash_parts :
      (context : String) (parts : List Bytes) → All IsByte (hash_parts context parts)
  unfolding hash_parts
  IsByte-hash_parts context parts = b.IsByte-digest context (frame parts)

-- `mod ds`: the domain-separation contexts.
abbrev pub note_commitment : String
note_commitment = "unknown.v0.note.cm"

abbrev pub nullifier_context : String
nullifier_context = "unknown.v0.note.nf"

abbrev pub rho_transfer_context : String
rho_transfer_context = "unknown.v0.note.rho.transfer"

abbrev pub rho_mint_context : String
rho_mint_context = "unknown.v0.note.rho.mint"

abbrev pub merkle_node : String
merkle_node = "unknown.v0.tree.node"

abbrev pub merkle_empty : String
merkle_empty = "unknown.v0.tree.empty"

abbrev pub tx_binding : String
tx_binding = "unknown.v0.tx.binding"

abbrev pub pow_context : String
pow_context = "unknown.v0.antispam.pow"

abbrev pub dev_proof : String
dev_proof = "unknown.v0.devproof.INSECURE"

abbrev pub sk_context : String
sk_context = "unknown.v0.key.sk"

abbrev pub ask_context : String
ask_context = "unknown.v0.key.ask"

abbrev pub nk_context : String
nk_context = "unknown.v0.key.nk"

abbrev pub addr_tag_context : String
addr_tag_context = "unknown.v0.key.addrtag"

abbrev pub kem_seed_context : String
kem_seed_context = "unknown.v0.key.kemseed"

abbrev pub x25519_context : String
x25519_context = "unknown.v0.key.x25519"

abbrev pub note_aead_context : String
note_aead_context = "unknown.v0.enc.aead"
