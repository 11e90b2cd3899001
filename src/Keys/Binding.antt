-- ===== src/Keys/Binding.antt =====
-- What an owner tag commits to.
use unknown.Base.{◌≡◌, ◌⊎◌, inl, inr, ap, arith, List, [], ◌∷◌, length, get_or}
use unknown.Base.Bytes.{Bytes}
use unknown.Primitives.{Blake3, derive_key, frame, ask_context, sk_context, addr_tag_context}
use unknown.Primitives.Binding.{Collides, hash_parts_binding, derive_key_binding}
use unknown.Keys.{SpendingKey, from_seed, ask, addr_tag}

module _ ⦃b : Blake3⦄ where
  -- What the keys of two seeds hash to one value: the seeds, the spending keys, or the keys that the
  -- tags hash.
  abbrev pub AsksCollide : Bytes → Bytes → Type 0
  AsksCollide s t = Collides ask_context (from_seed s).sk (from_seed t).sk ⊎ Collides sk_context s t

  abbrev pub TagsCollide : Bytes → Bytes → Type 0
  TagsCollide s t =
      Collides addr_tag_context (frame (ask (from_seed s) ∷ [])) (frame (ask (from_seed t) ∷ []))
      ⊎ AsksCollide s t

  length-ask : (k : SpendingKey) → length (ask k) ≡ 32
  unfolding ask derive_key
  length-ask k = b.length-digest _ k.sk

  ask_binding : (s t : Bytes) → ask (from_seed s) ≡ ask (from_seed t) → (s ≡ t) ⊎ AsksCollide s t
  unfolding ask from_seed
  ask_binding s t e =
      elim (derive_key_binding ask_context (derive_key sk_context s) (derive_key sk_context t) e) [
        | inr c ↦ inr (inl c)
        | inl same ↦ elim (derive_key_binding sk_context s t same) [
          | inl seeds ↦ inl seeds
          | inr c ↦ inr (inr c)
        ]
      ]

  -- The keys of two seeds with one tag have one seed, or collide on the way to the tag.
  pub addr_tag_binding :
      (s t : Bytes) → addr_tag (from_seed s) ≡ addr_tag (from_seed t) → (s ≡ t) ⊎ TagsCollide s t
  unfolding addr_tag
  addr_tag_binding s t e =
      let k = from_seed s in
      let l = from_seed t in
      elim (hash_parts_binding _ (ask k ∷ []) (ask l ∷ []) (omega (arith, length-ask k))
        (omega (arith, length-ask l)) e) [
          | inr c ↦ inr (inl c)
          | inl same ↦
              elim (ask_binding s t (ap (λ (parts : List Bytes). get_or parts 0 []) same)) [
                | inl seeds ↦ inl seeds
                | inr c ↦ inr (inr c)
              ]
        ]
