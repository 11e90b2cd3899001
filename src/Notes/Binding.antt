-- ===== src/Notes/Binding.antt =====
-- What a commitment, a nullifier and a derived `rho` fix of their inputs.
use unknown.Base.{ℕ, List, [], ◌∷◌, ◌≡◌, ◌⊎◌, inl, inr, arith}
use unknown.Base.Bytes.{Bytes, le_bytes}
use unknown.Base.Words.{IsU64, u64_bytes-injective}
use unknown.Primitives.{
  Blake3, frame, note_commitment, nullifier_context, rho_transfer_context, rho_mint_context,
}
use unknown.Primitives.Binding.{Collides, hash_parts_binding}
use unknown.Interfaces.Encoding.{Is32}
use unknown.Notes.{Note, commitment, nullifier, rho_transfer, rho_mint}

-- What Rust's types guarantee of a note.
pub record IsNote (n : Note) : Type 0 where
  pub value : IsU64 n.value
  pub addr_tag : Is32 n.addr_tag
  pub rho : Is32 n.rho
  pub rseed : Is32 n.rseed

map_left : {A B C : Type 0} → (A → B) → A ⊎ C → B ⊎ C
map_left f (inl a) = inl (f a)
map_left f (inr c) = inr c

-- What a commitment hashes of a note.
abbrev pub note_parts : Note → List Bytes
note_parts n = le_bytes 8 n.value ∷ n.addr_tag ∷ n.rho ∷ n.rseed ∷ []

-- What a nullifier hashes.
abbrev pub nullifier_parts : Bytes → Note → List Bytes
nullifier_parts nk n = nk ∷ n.rho ∷ []

module _ ⦃b : Blake3⦄ where
  note_parts-injective : (n m : Note) → IsNote n → IsNote m → note_parts n ≡ note_parts m → n ≡ m
  note_parts-injective n m hn hm e =
      let values = u64_bytes-injective n.value m.value hn.value hm.value (cc e) in
      let tags : n.addr_tag ≡ m.addr_tag = cc e in
      let rhos : n.rho ≡ m.rho = cc e in
      let seeds : n.rseed ≡ m.rseed = cc e in cc (values, tags, rhos, seeds)

  -- Two notes of the right sizes with one commitment are equal in every field, or their parts
  -- collide.
  pub commitment_binding :
      (n m : Note)
      → IsNote n
      → IsNote m
      → commitment n ≡ commitment m
      → (n ≡ m) ⊎ Collides note_commitment (frame (note_parts n)) (frame (note_parts m))
  unfolding commitment
  commitment_binding n m hn hm e = map_left (note_parts-injective n m hn hm) (
      hash_parts_binding _ _ _ (omega (arith, hn.addr_tag, hn.rho, hn.rseed))
        (omega (arith, hm.addr_tag, hm.rho, hm.rseed)) e)

  -- Two notes of the right sizes with one nullifier, under keys of 32 bytes, have one key and one
  -- `rho`, or their parts collide.
  pub nullifier_binding :
      (n m : Note) (nk nk' : Bytes)
      → IsNote n
      → IsNote m
      → Is32 nk
      → Is32 nk'
      → nullifier n nk ≡ nullifier m nk'
      → ((nk ≡ nk') × (n.rho ≡ m.rho))
        ⊎ Collides nullifier_context (frame (nullifier_parts nk n)) (frame (nullifier_parts nk' m))
  unfolding nullifier
  nullifier_binding n m nk nk' hn hm hk hk' e =
      map_left (λ p. (cc p, cc p))
        (hash_parts_binding _ _ _ (omega (arith, hn.rho)) (omega (arith, hm.rho)) e)

  -- The `rho` of a transfer's output is bound to the first nullifier and to the output's index.
  pub rho_transfer_binding :
      (nf nf' : Bytes) (i j : ℕ)
      → Is32 nf
      → Is32 nf'
      → rho_transfer nf i ≡ rho_transfer nf' j
      → ((nf ≡ nf') × (i ≡ j))
        ⊎ Collides rho_transfer_context (frame (nf ∷ (i ∷ []) ∷ [])) (frame (nf' ∷ (j ∷ []) ∷ []))
  unfolding rho_transfer
  rho_transfer_binding nf nf' i j h h' e =
      map_left (λ p. (cc p, cc p)) (hash_parts_binding _ _ _ (omega arith) (omega arith) e)

  -- The `rho` of a reward is bound to the checkpoint's height and to the validator's index.
  pub rho_mint_binding :
      (h h' i j : ℕ)
      → IsU64 h
      → IsU64 h'
      → rho_mint h i ≡ rho_mint h' j
      → ((h ≡ h') × (i ≡ j))
        ⊎ Collides rho_mint_context
            (frame (le_bytes 8 h ∷ (i ∷ []) ∷ []))
            (frame (le_bytes 8 h' ∷ (j ∷ []) ∷ []))
  unfolding rho_mint
  rho_mint_binding h h' i j hh hh' e =
      map_left (λ p. (u64_bytes-injective h h' hh hh' (cc p), cc p))
        (hash_parts_binding _ _ _ (omega arith) (omega arith) e)
