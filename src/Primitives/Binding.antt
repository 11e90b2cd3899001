-- ===== src/Primitives/Binding.antt =====
-- What `hash_parts` commits to.
use unknown.Base.{
  String, List, [], ◌∷◌, ◌≡◌, ◌≢◌, refl, ap, ap₂, ◌⊎◌, inl, inr, length, All, append_cancel,
  Bool-cases, arith,
}
use unknown.Base.Bytes.{Bytes, le_bytes, eq, eq→≡, eq_refl}
use unknown.Base.Words.{IsU64, u64_bytes-injective}
use unknown.Primitives.{Blake3, frame, hash_parts, derive_key}

-- These two inputs are different and have one digest: BLAKE3 is broken at them.
abbrev pub Collides : ⦃b : Blake3⦄ → String → Bytes → Bytes → Type 0
Collides ⦃b⦄ context m n = (m ≢ n) × (b.digest context m ≡ b.digest context n)

-- Each part has a length that a `u64` holds.
abbrev pub AreShort : List Bytes → Type 0
AreShort = All (λ part. IsU64 (length part))

pub frame-injective :
    (ps qs : List Bytes) → AreShort ps → AreShort qs → frame ps ≡ frame qs → ps ≡ qs
unfolding frame
frame-injective [] [] hp hq e = refl
frame-injective [] (q ∷ qs) hp hq e = absurd (omega (arith, ap length e))
frame-injective (p ∷ ps) [] hp hq e = absurd (omega (arith, ap length e))
frame-injective (p ∷ ps) (q ∷ qs) hp hq e =
    let lengths = append_cancel (le_bytes 8 (length p)) (le_bytes 8 (length q)) refl e in
    let same : length p ≡ length q =
      u64_bytes-injective (length p) (length q) hp.0 hq.0 lengths.0 in
    let parts = append_cancel p q same lengths.1 in
    ap₂ ◌∷◌ parts.0 (frame-injective ps qs hp.1 hq.1 parts.1)

module _ ⦃b : Blake3⦄ where
  -- Two lists of parts, each with a length that a u64 holds, with one hash under one context are
  -- equal, the boundaries between the parts included, or their framings collide.
  pub hash_parts_binding :
      (context : String) (ps qs : List Bytes)
      → AreShort ps
      → AreShort qs
      → hash_parts context ps ≡ hash_parts context qs
      → (ps ≡ qs) ⊎ Collides context (frame ps) (frame qs)
  unfolding hash_parts
  hash_parts_binding context ps qs hp hq e = elim (Bool-cases (eq (frame ps) (frame qs))) [
    | inl same ↦ inl (frame-injective ps qs hp hq (eq→≡ (frame ps) (frame qs) same))
    | inr differ ↦ inr ((λ p. cc (ap (eq (frame ps)) p, eq_refl (frame ps), differ)), e)
  ]

  pub derive_key_binding :
      (context : String) (m n : Bytes)
      → derive_key context m ≡ derive_key context n
      → (m ≡ n) ⊎ Collides context m n
  unfolding derive_key
  derive_key_binding context m n e = elim (Bool-cases (eq m n)) [
    | inl same ↦ inl (eq→≡ m n same)
    | inr differ ↦ inr ((λ p. cc (ap (eq m) p, eq_refl m, differ)), e)
  ]
