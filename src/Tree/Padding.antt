-- ===== src/Tree/Padding.antt =====
-- Paths at any position: a tree holds the empty leaf beyond its last leaf, and a path uses the lowest
-- 32 bits of its position.
use native.Mathlib.Nat.{div-div-eq-div-mul, pow-succ'}
use Prim.Native.Nat.{bit_and}
use unknown.Base.{
  ℕ, zero, suc, ◌+◌, ◌*◌, ◌/◌, ◌%◌, ◌^◌, ◌<◌, ◌≡◌, ◌⊎◌, refl, ap, sym, ◌∙◌, true, List, [], ◌∷◌,
  arith, length, get_or, All, All-get_or, ◌==◌, if◌then◌else◌,
}
use unknown.Base.Bits.{bit_and-one}
use unknown.Base.Bytes.{Bytes, eq→≡}
use unknown.Primitives.{Blake3, hash_parts, merkle_empty}
use unknown.Interfaces.{MerklePath, tree_depth}
use unknown.Interfaces.Encoding.{Is32}
use unknown.Tree.{
  CommitmentTree, next_level, node_hash, empty_from, empty_roots, path_root, climb, siblings_from,
  root, verify_path,
}
use unknown.Tree.Levels.{get-next_level_padded, length-next_level}
use unknown.Tree.Membership.{length-siblings_from}
use unknown.Tree.Shape.{IsTree, Is32-empty_roots, length-empty_roots}
use unknown.Tree.Soundness.{PathsCollide, path_root_binding, Is32-siblings_from}

Is32-get_or : (xs : List Bytes) (i : ℕ) (d : Bytes) → All Is32 xs → Is32 d → Is32 (get_or xs i d)
Is32-get_or [] i d h k = k
Is32-get_or (x ∷ xs) zero d h k = h.0
Is32-get_or (x ∷ xs) (suc i) d h k = Is32-get_or xs i d h.1 k

module _ ⦃b : Blake3⦄ where
  -- The table of empty roots: each is the parent of two of the one below.
  abbrev IsChain : List Bytes → ℕ → Type 0
  IsChain empty n =
      (d : ℕ) → d < n → get_or empty (d + 1) [] ≡ node_hash (get_or empty d []) (get_or empty d [])

  empty_from-IsChain : (n : ℕ) (node : Bytes) → IsChain (empty_from n node) n
  unfolding empty_from
  empty_from-IsChain zero node d h = absurd (omega arith)
  empty_from-IsChain (suc zero) node zero h = refl
  empty_from-IsChain (suc (suc n)) node zero h = refl
  empty_from-IsChain (suc n) node (suc d) h =
      let s : suc d + 1 ≡ suc (d + 1) = omega arith in
      rw s (empty_from-IsChain n (node_hash node node) d (omega arith))

  empty_roots-IsChain : IsChain empty_roots tree_depth
  unfolding empty_roots
  empty_roots-IsChain = empty_from-IsChain tree_depth (hash_parts merkle_empty [])

  -- Following the path of a node of the padded level ends at its ancestor.
  path_root-padded :
      (n depth : ℕ) (empty level : List Bytes) (i : ℕ)
      → IsChain empty (depth + n)
      → path_root (get_or level i (get_or empty depth [])) i (siblings_from n depth empty level i)
        ≡ get_or (climb n depth empty level) (i / 2 ^ n) (get_or empty (depth + n) [])
  unfolding path_root siblings_from climb
  path_root-padded zero depth empty level i h =
      let e : i / 2 ^ 0 ≡ i = omega arith in
      let d : depth + 0 ≡ depth = omega arith in rw (e, d) refl
  path_root-padded (suc n) depth empty level i h =
      let pad : Bytes = get_or empty depth [] in
      let above = next_level node_hash pad level in
      let e : i / 2 ^ suc n ≡ i / 2 / 2 ^ n =
        ap (λ (m : ℕ). i / m) (pow-succ' 2 n) ∙ sym (div-div-eq-div-mul i 2 (2 ^ n)) in
      let d : depth + suc n ≡ depth + 1 + n = omega arith in
      let up : get_or above (i / 2) (get_or empty (depth + 1) [])
          ≡ get_or above (i / 2) (node_hash pad pad) =
        ap (get_or above (i / 2)) (h depth (omega arith)) in
      rw (e, d)
        (ap (λ c. path_root c (i / 2) (siblings_from n (depth + 1) empty above (i / 2)))
            (sym (up ∙ get-next_level_padded pad level i))
          ∙ path_root-padded n (depth + 1) empty above (i / 2) (λ k lt. h k (omega arith)))

  -- Positions that agree in their lowest bits have one path.
  path_root-low :
      (cur : Bytes) (p r q : ℕ) (sibs : List Bytes)
      → p ≡ r + q * 2 ^ length sibs
      → path_root cur p sibs ≡ path_root cur r sibs
  unfolding path_root
  path_root-low cur p r q [] e = refl
  path_root-low cur p r q (s ∷ sibs) e =
      let half : ℕ = q * 2 ^ length sibs in
      let twice : p ≡ r + 2 * half = grind (arith, e, pow-succ' 2 (length sibs)) in
      let bit : bit_and p 1 ≡ bit_and r 1 = omega (arith, twice, bit_and-one p, bit_and-one r) in
      rw bit (
        path_root-low (if bit_and r 1 == 0 then node_hash cur s else node_hash s cur) (p / 2)
          (r / 2) q sibs (omega (arith, twice)))

  climb_nonempty :
      (n depth : ℕ) (empty level : List Bytes)
      → 0 < length level
      → 0 < length (climb n depth empty level)
  unfolding climb
  climb_nonempty zero depth empty level h = h
  climb_nonempty (suc n) depth empty level h =
      climb_nonempty n (depth + 1) empty (next_level node_hash (get_or empty depth []) level)
        (omega (arith, h, length-next_level node_hash (get_or empty depth []) level))

  climb_empty : (n depth : ℕ) (empty : List Bytes) → climb n depth empty [] ≡ []
  unfolding climb next_level
  climb_empty zero depth empty = refl
  climb_empty (suc n) depth empty = climb_empty n (depth + 1) empty

  default_unused : (xs : List Bytes) (d d' : Bytes) → 0 < length xs → get_or xs 0 d ≡ get_or xs 0 d'
  default_unused [] d d' h = absurd (omega arith)
  default_unused (x ∷ xs) d d' h = refl

  root-padded :
      (t : CommitmentTree)
      → root t ≡ get_or (climb tree_depth 0 t.empty t.leaves) 0 (get_or t.empty tree_depth [])
  unfolding root
  root-padded t = go t.leaves
    where
      go :
          (ls : List Bytes)
          → elim ls as (λ _. Bytes) [
            | [] ↦ get_or t.empty tree_depth []
            | leaf ∷ rest ↦ get_or (climb tree_depth 0 t.empty (leaf ∷ rest)) 0 []
          ]
            ≡ get_or (climb tree_depth 0 t.empty ls) 0 (get_or t.empty tree_depth [])
      go [] =
          sym (
            ap (λ ls. get_or ls 0 (get_or t.empty tree_depth []))
              (climb_empty tree_depth 0 t.empty))
      go (l ∷ ls) =
          default_unused (climb tree_depth 0 t.empty (l ∷ ls)) [] (get_or t.empty tree_depth [])
            (climb_nonempty tree_depth 0 t.empty (l ∷ ls) (omega arith))

  -- The leaf of a tree without a commitment.
  abbrev pub empty_leaf : Bytes
  empty_leaf = hash_parts merkle_empty []

  -- A path and a leaf, and the tree's own path with the leaf that stands there, hash different inputs
  -- to one digest at some level.
  abbrev pub IsForgedPath : CommitmentTree → Bytes → MerklePath → Type 0
  IsForgedPath t leaf path =
      let i : ℕ = path.position % 2 ^ 32 in
      PathsCollide leaf (get_or t.leaves i empty_leaf) i path.siblings
        (siblings_from tree_depth 0 t.empty t.leaves i)

  -- A path of 32 siblings that verifies a leaf against the root of a tree, at any position, proves
  -- that this leaf stands at the place that the lowest 32 bits of the position name, where every
  -- place beyond the last leaf holds the empty leaf, or else at some of the 32 levels the path and the
  -- tree's own path for that place hash two different inputs to one digest.
  pub path_sound :
      (t : CommitmentTree) (leaf : Bytes) (path : MerklePath)
      → IsTree t
      → Is32 leaf
      → All Is32 path.siblings
      → length path.siblings ≡ tree_depth
      → verify_path leaf path (root t) ≡ true
      → (leaf ≡ get_or t.leaves (path.position % 2 ^ 32) empty_leaf) ⊎ IsForgedPath t leaf path
  unfolding verify_path empty_roots empty_from
  path_sound t leaf path ht hl hs n good =
      let i : ℕ = path.position % 2 ^ 32 in
      let honest = siblings_from tree_depth 0 t.empty t.leaves i in
      let stored : Bytes = get_or t.leaves i (get_or t.empty 0 []) in
      let pads : All Is32 t.empty = rw ht.empty Is32-empty_roots in
      let chain : IsChain t.empty tree_depth = rw ht.empty empty_roots-IsChain in
      let size : length t.empty ≡ 33 = rw ht.empty length-empty_roots in
      let pad : Is32 (get_or t.empty 0 []) =
        All-get_or Is32 t.empty 0 [] pads (omega (arith, size)) in
      let top : i / 2 ^ tree_depth ≡ 0 = omega arith in
      let low : path.position ≡ i + path.position / 2 ^ 32 * 2 ^ length path.siblings =
        rw n (omega arith) in
      let e : path_root leaf i path.siblings ≡ path_root stored i honest =
        sym (path_root-low leaf path.position i (path.position / 2 ^ 32) path.siblings low)
        ∙ (eq→≡ _ _ good
            ∙ (root-padded t
                ∙ sym (rw top at (path_root-padded tree_depth 0 t.empty t.leaves i chain)))) in
      rw (← ap (λ es. get_or es 0 []) ht.empty) (
        path_root_binding leaf stored i path.siblings honest hl
          (Is32-get_or t.leaves i (get_or t.empty 0 []) ht.leaves pad) hs
          (Is32-siblings_from tree_depth 0 t.empty t.leaves i (omega (arith, size)) pads ht.leaves)
          (n ∙ sym (length-siblings_from tree_depth 0 t.empty t.leaves i)) e)
