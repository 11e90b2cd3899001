-- ===== src/Tree/Soundness.antt =====
-- What an authentication path that verifies says of the tree.
use unknown.Base.{
  ℕ, zero, suc, ◌+◌, ◌/◌, ◌^◌, ◌≤◌, ◌<◌, ◌≡◌, ◌⊎◌, ap, sym, ◌∙◌, Bool, true, false, List, [], ◌∷◌,
  some, arith, length, get_or, ltb, ltb→lt, leb, ◌==◌, if◌then◌else◌, Bool-cases, inl, inr, All,
  All-get_or,
}
use Prim.Native.Nat.{bit_and, bit_xor}
use unknown.Base.Bytes.{Bytes, eq→≡}
use unknown.Primitives.{Blake3, frame, merkle_node}
use unknown.Primitives.Binding.{Collides, hash_parts_binding}
use unknown.Interfaces.{MerklePath, tree_depth}
use unknown.Interfaces.Encoding.{Is32}
use unknown.Tree.{
  CommitmentTree, next_level, node_hash, sibling_at, path_root, siblings_from, root, witness,
  verify_path,
}
use unknown.Tree.Levels.{parent}
use unknown.Tree.Membership.{witness-verifies}
use unknown.Tree.Shape.{IsTree, Is32-node_hash, Is32-empty_roots, length-empty_roots}

module _ ⦃b : Blake3⦄ where
  node_hash_binding :
      (l r l' r' : Bytes)
      → Is32 l
      → Is32 r
      → Is32 l'
      → Is32 r'
      → node_hash l r ≡ node_hash l' r'
      → ((l ≡ l') × (r ≡ r')) ⊎ Collides merkle_node (frame (l ∷ r ∷ [])) (frame (l' ∷ r' ∷ []))
  unfolding node_hash
  node_hash_binding l r l' r' hl hr hl' hr' e =
      elim (hash_parts_binding _ (l ∷ r ∷ []) (l' ∷ r' ∷ []) (omega arith) (omega arith) e) [
        | inl same ↦ inl (cc same, cc same)
        | inr c ↦ inr c
      ]

  -- What the parent of a node and its sibling hashes.
  abbrev pub node_input : Bytes → Bytes → ℕ → Bytes
  node_input cur sib idx = frame (if bit_and idx 1 == 0 then cur ∷ sib ∷ [] else sib ∷ cur ∷ [])

  -- At some level the two paths hash different inputs to one digest.
  abbrev pub PathsCollide : Bytes → Bytes → ℕ → List Bytes → List Bytes → Type 0
  PathsCollide cur cur' idx [] sibs' = ⊥
  PathsCollide cur cur' idx (s ∷ sibs) [] = ⊥
  PathsCollide cur cur' idx (s ∷ sibs) (s' ∷ sibs') =
      Collides merkle_node (node_input cur s idx) (node_input cur' s' idx)
      ⊎ PathsCollide (parent cur s idx) (parent cur' s' idx) (idx / 2) sibs sibs'

  pub parent_binding :
      (cur cur' sib sib' : Bytes) (idx : ℕ)
      → Is32 cur
      → Is32 sib
      → Is32 cur'
      → Is32 sib'
      → parent cur sib idx ≡ parent cur' sib' idx
      → ((cur ≡ cur') × (sib ≡ sib'))
        ⊎ Collides merkle_node (node_input cur sib idx) (node_input cur' sib' idx)
  parent_binding cur cur' sib sib' idx h k h' k' e = go (bit_and idx 1 == 0) e
    where
      go :
          (left : Bool)
          → (if left then node_hash cur sib else node_hash sib cur)
            ≡ (if left then node_hash cur' sib' else node_hash sib' cur')
          → ((cur ≡ cur') × (sib ≡ sib'))
            ⊎ Collides merkle_node
                (frame (if left then cur ∷ sib ∷ [] else sib ∷ cur ∷ []))
                (frame (if left then cur' ∷ sib' ∷ [] else sib' ∷ cur' ∷ []))
      go true p = node_hash_binding cur sib cur' sib' h k h' k' p
      go false p = elim (node_hash_binding sib cur sib' cur' k h k' h' p) [
        | inl same ↦ inl (same.1, same.0)
        | inr c ↦ inr c
      ]

  pub Is32-parent : (cur sib : Bytes) (idx : ℕ) → Is32 (parent cur sib idx)
  Is32-parent cur sib idx = go (bit_and idx 1 == 0)
    where
      go : (left : Bool) → Is32 (if left then node_hash cur sib else node_hash sib cur)
      go true = Is32-node_hash cur sib
      go false = Is32-node_hash sib cur

  pub path_root_binding :
      (cur cur' : Bytes) (idx : ℕ) (sibs sibs' : List Bytes)
      → Is32 cur
      → Is32 cur'
      → All Is32 sibs
      → All Is32 sibs'
      → length sibs ≡ length sibs'
      → path_root cur idx sibs ≡ path_root cur' idx sibs'
      → (cur ≡ cur') ⊎ PathsCollide cur cur' idx sibs sibs'
  unfolding path_root
  path_root_binding cur cur' idx [] [] h h' k k' n e = inl e
  path_root_binding cur cur' idx [] (s ∷ sibs') h h' k k' n e = absurd (omega arith)
  path_root_binding cur cur' idx (s ∷ sibs) [] h h' k k' n e = absurd (omega arith)
  path_root_binding cur cur' idx (s ∷ sibs) (s' ∷ sibs') h h' k k' n e =
      elim (path_root_binding (parent cur s idx) (parent cur' s' idx) (idx / 2) sibs sibs'
        (Is32-parent cur s idx) (Is32-parent cur' s' idx) k.1 k'.1 (omega arith) e) [
          | inl same ↦ elim (parent_binding cur cur' s s' idx h k.0 h' k'.0 same) [
            | inl both ↦ inl both.0
            | inr c ↦ inr (inl c)
          ]
          | inr c ↦ inr (inr c)
        ]

  Is32-next_level : (pad : Bytes) (level : List Bytes) → All Is32 (next_level node_hash pad level)
  unfolding next_level
  Is32-next_level pad [] = tt
  Is32-next_level pad (l ∷ []) = (Is32-node_hash l pad, tt)
  Is32-next_level pad (l ∷ r ∷ rest) = (Is32-node_hash l r, Is32-next_level pad rest)

  Is32-sibling_at :
      (pad : Bytes) (level : List Bytes) (idx : ℕ)
      → Is32 pad
      → All Is32 level
      → Is32 (sibling_at pad level idx)
  unfolding sibling_at
  Is32-sibling_at pad level idx h k = elim (Bool-cases (ltb (bit_xor idx 1) (length level))) [
    | inl inside ↦
        rw inside (
          All-get_or Is32 level (bit_xor idx 1) [] k (ltb→lt (bit_xor idx 1) (length level) inside))
    | inr past ↦ rw past h
  ]

  pub Is32-siblings_from :
      (n depth : ℕ) (empty level : List Bytes) (idx : ℕ)
      → depth + n ≤ length empty
      → All Is32 empty
      → All Is32 level
      → All Is32 (siblings_from n depth empty level idx)
  unfolding siblings_from
  Is32-siblings_from zero depth empty level idx room he hl = tt
  Is32-siblings_from (suc n) depth empty level idx room he hl =
      let pad : Bytes = get_or empty depth [] in
      (
        Is32-sibling_at pad level idx (All-get_or Is32 empty depth [] he (omega arith)) hl,
        Is32-siblings_from n (depth + 1) empty (next_level node_hash pad level) (idx / 2)
            (omega arith) he (Is32-next_level pad level),
      )

  pub Is32-witness :
      (t : CommitmentTree) (position : ℕ) (path : MerklePath)
      → IsTree t
      → witness t position ≡ some path
      → All Is32 path.siblings
  unfolding witness
  Is32-witness t position path ht found = elim (Bool-cases (leb (length t.leaves) position)) [
    | inl past ↦ absurd (cc (rw past at found))
    | inr inside ↦
        let same : siblings_from tree_depth 0 t.empty t.leaves position ≡ path.siblings =
          cc (rw inside at found) in
        rw (← same) (
          Is32-siblings_from tree_depth 0 t.empty t.leaves position
            (rw ht.empty (rw length-empty_roots (omega arith))) (rw ht.empty Is32-empty_roots)
            ht.leaves)
  ]

  -- A path of 32 siblings that verifies a leaf against the root of a tree, at a position that the
  -- tree fills, proves that this leaf stands there, or collides with the tree's own path for it.
  pub membership_sound :
      (t : CommitmentTree) (leaf : Bytes) (path : MerklePath)
      → IsTree t
      → length t.leaves ≤ 2 ^ 32
      → path.position < length t.leaves
      → Is32 leaf
      → All Is32 path.siblings
      → length path.siblings ≡ tree_depth
      → verify_path leaf path (root t) ≡ true
      → (leaf ≡ get_or t.leaves path.position [])
        ⊎ ((honest : MerklePath) × (witness t path.position ≡ some honest)
            × PathsCollide leaf
                (get_or t.leaves path.position [])
                path.position
                path.siblings
                honest.siblings)
  unfolding verify_path witness
  membership_sound t leaf path ht cap inside hl hs n ok =
      let (honest, found, same, m, good) = witness-verifies t path.position cap inside in
      let stored : Bytes = get_or t.leaves path.position [] in
      let e : path_root leaf path.position path.siblings
          ≡ path_root stored path.position honest.siblings =
        eq→≡ _ _ ok
        ∙ sym (ap (λ p. path_root stored p honest.siblings) (sym same) ∙ eq→≡ _ _ good) in
      elim (path_root_binding leaf stored path.position path.siblings honest.siblings hl
        (All-get_or Is32 t.leaves path.position [] ht.leaves inside) hs
        (Is32-witness t path.position honest ht found) (n ∙ sym m) e) [
          | inl stands ↦ inl stands
          | inr c ↦ inr (honest, found, c)
        ]
