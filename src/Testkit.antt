-- ===== src/Testkit.antt =====
-- crates/testkit/src/lib.rs: the golden vectors. The text of a value is the list of the bytes of its
-- hexadecimal digits.
use unknown.Base.{String, List, [], ◌∷◌, replicate}
use unknown.Base.Bytes.{Bytes}
use unknown.Primitives.{Blake3, hash_parts, note_commitment, nullifier_context}
use unknown.Keys.{Ciphers, SpendingKey, from_seed, ask, nk, addr_tag}
use unknown.Notes.{Note, commitment, nullifier}

module _ ⦃b : Blake3⦄ ⦃c : Ciphers⦄ where
  abbrev pub push : String → Bytes → String × Bytes
  push label bytes = (label, c.hex_encode bytes)

  abbrev pub fixed_note : SpendingKey → Note
  fixed_note sk = record {
    value = 100;
    addr_tag = addr_tag sk;
    rho = replicate 32 9;
    rseed = replicate 32 8;
  }

  -- The labels and the values, in a stable order.
  unfoldable pub vectors : List (String × Bytes)
  vectors =
      let sk = from_seed (replicate 32 1) in
      let note = fixed_note sk in
      push "hash.empty" (hash_parts "unknown.v0.test" [])
      ∷ push "hash.abc" (hash_parts "unknown.v0.test" ((97 ∷ []) ∷ (98 ∷ []) ∷ (99 ∷ []) ∷ []))
      ∷ push "ds.note_cm_x" (hash_parts note_commitment ((120 ∷ []) ∷ []))
      ∷ push "ds.nullifier_x" (hash_parts nullifier_context ((120 ∷ []) ∷ []))
      ∷ push "key.ask" (ask sk)
      ∷ push "key.nk" (nk sk)
      ∷ push "key.addr_tag" (addr_tag sk)
      ∷ push "note.commitment" (commitment note)
      ∷ push "note.nullifier" (nullifier note (nk sk))
      ∷ []
