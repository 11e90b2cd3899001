-- ===== src/Notes.antt =====
-- crates/notes/src/lib.rs: shielded notes, their commitments and nullifiers.
pub mod Binding
use unknown.Base.{ℕ, List, [], ◌∷◌}
use unknown.Base.Bytes.{Bytes, le_bytes}
use unknown.Primitives.{
  Blake3, hash_parts, note_commitment, nullifier_context, rho_transfer_context, rho_mint_context,
}
use unknown.Interfaces.{Commitment, Nullifier}

abbrev pub memo_len : ℕ
memo_len = 64

pub record Note : Type 0 where
  pub value : ℕ
  pub addr_tag : Bytes
  pub rho : Bytes
  pub rseed : Bytes

module _ ⦃b : Blake3⦄ where
  unfoldable pub commitment : Note → Commitment
  commitment n = hash_parts note_commitment (le_bytes 8 n.value ∷ n.addr_tag ∷ n.rho ∷ n.rseed ∷ [])

  -- `note.nullifier(nk)`.
  unfoldable pub nullifier : Note → Bytes → Nullifier
  nullifier n nk = hash_parts nullifier_context (nk ∷ n.rho ∷ [])

  unfoldable pub dummy : Bytes → Note
  dummy entropy = record {
    value = 0;
    addr_tag = hash_parts "unknown.v0.note.dummy.tag" (entropy ∷ []);
    rho = hash_parts "unknown.v0.note.dummy.rho" (entropy ∷ []);
    rseed = hash_parts "unknown.v0.note.dummy.rseed" (entropy ∷ []);
  }

  -- `output_index` is a `u8`.
  unfoldable pub rho_transfer : Nullifier → ℕ → Bytes
  rho_transfer first_input_nf output_index =
      hash_parts rho_transfer_context (first_input_nf ∷ (output_index ∷ []) ∷ [])

  unfoldable pub rho_mint : ℕ → ℕ → Bytes
  rho_mint height output_index =
      hash_parts rho_mint_context (le_bytes 8 height ∷ (output_index ∷ []) ∷ [])
