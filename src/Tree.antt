-- ===== src/Tree.antt =====
-- crates/tree/src/lib.rs: the append-only commitment tree, its authentication paths and its sealed
-- anchors. A vector that is only pushed to is a list that grows at its end; the deque of anchors
-- has its front first.
pub mod Shape
pub mod Levels
pub mod Membership
pub mod Soundness
pub mod Anchors
pub mod Growth
pub mod Padding
use Prim.Native.Nat.{bit_and, bit_xor}
use unknown.Base.{
  ℕ, zero, suc, ◌+◌, ◌-◌, ◌/◌, Bool, true, false, ◌&&◌, Option, none, some, List, [], ◌∷◌, ◌++◌,
  length, get_or, any, ltb, leb, ◌==◌, if◌then◌else◌,
}
use unknown.Base.Bytes.{Bytes}
use unknown.Base.Bytes
use unknown.Primitives.{Blake3, hash_parts, merkle_node, merkle_empty}
use unknown.Interfaces.{Anchor, Commitment, MerklePath, tree_depth, anchor_window}

pub record CommitmentTree : Type 0 where
  pub leaves : List Bytes
  pub empty : List Bytes
  pub anchors : List Anchor

-- One level of the tree above `level`; a last node without a partner is hashed with `pad`.
unfoldable pub next_level : (Bytes → Bytes → Bytes) → Bytes → List Bytes → List Bytes
next_level node pad [] = []
next_level node pad (left ∷ []) = node left pad ∷ []
next_level node pad (left ∷ right ∷ rest) = node left right ∷ next_level node pad rest

-- `self.anchors.iter().any(|a| a == anchor)` compares both fields.
abbrev pub anchor_eq : Anchor → Anchor → Bool
anchor_eq a a' = a.height == a'.height && Bytes.eq a.root a'.root

-- The `while let` of `seal`: old anchors leave at the front.
unfoldable pub evict : ℕ → List Anchor → List Anchor
evict height [] = []
evict height (front ∷ rest) =
    if leb anchor_window (height - front.height) then evict height rest else front ∷ rest

module _ ⦃b : Blake3⦄ where
  unfoldable pub node_hash : Bytes → Bytes → Bytes
  node_hash left right = hash_parts merkle_node (left ∷ right ∷ [])

  -- The levels that are left, from the root of the empty subtree below them.
  unfoldable pub empty_from : ℕ → Bytes → List Bytes
  empty_from zero node = node ∷ []
  empty_from (suc n) node = node ∷ empty_from n (node_hash node node)

  unfoldable pub empty_roots : List Bytes
  unfolding empty_from
  empty_roots = empty_from tree_depth (hash_parts merkle_empty [])

  unfoldable pub new : CommitmentTree
  new = record { leaves = []; empty = empty_roots; anchors = [] }

  unfoldable pub len : CommitmentTree → ℕ
  len t = length t.leaves

  unfoldable pub append : CommitmentTree → Commitment → CommitmentTree × ℕ
  append t cm = (record t { leaves = t.leaves ++ cm ∷ [] }, length t.leaves)

  unfoldable pub from_raw_leaves : List Bytes → CommitmentTree
  unfolding new
  from_raw_leaves leaves = record new { leaves = leaves }

  -- `n` rounds of the loop of `root`, from level `depth` on.
  unfoldable pub climb : ℕ → ℕ → List Bytes → List Bytes → List Bytes
  climb zero depth empty level = level
  climb (suc n) depth empty level =
      climb n (depth + 1) empty (next_level node_hash (get_or empty depth []) level)

  unfoldable pub root : CommitmentTree → Bytes
  unfolding climb next_level
  root t = elim t.leaves [
    | [] ↦ get_or t.empty tree_depth []
    | leaf ∷ rest ↦ get_or (climb tree_depth 0 t.empty (leaf ∷ rest)) 0 []
  ]

  -- `idx ^ 1`, padded by the empty subtree of the level.
  unfoldable pub sibling_at : Bytes → List Bytes → ℕ → Bytes
  sibling_at pad level idx =
      let sib = bit_xor idx 1 in if ltb sib (length level) then get_or level sib [] else pad

  unfoldable pub siblings_from : ℕ → ℕ → List Bytes → List Bytes → ℕ → List Bytes
  siblings_from zero depth empty level idx = []
  siblings_from (suc n) depth empty level idx =
      sibling_at (get_or empty depth []) level idx
      ∷ siblings_from n (depth + 1) empty (next_level node_hash (get_or empty depth []) level)
          (idx / 2)

  unfoldable pub witness : CommitmentTree → ℕ → Option MerklePath
  unfolding siblings_from sibling_at next_level
  witness t position =
      if leb (length t.leaves) position
      then none
      else some (record {
        position = position;
        siblings = siblings_from tree_depth 0 t.empty t.leaves position;
      })

  unfoldable pub seal : CommitmentTree → ℕ → CommitmentTree × Anchor
  unfolding evict
  seal t height =
      let anchor : Anchor = record { height = height; root = root t } in
      (record t { anchors = evict height (t.anchors ++ anchor ∷ []) }, anchor)

  unfoldable pub anchor_valid : CommitmentTree → Anchor → Bool
  anchor_valid t anchor = any (λ a. anchor_eq a anchor) t.anchors

  -- The loop of `verify_path`.
  unfoldable pub path_root : Bytes → ℕ → List Bytes → Bytes
  path_root cur idx [] = cur
  path_root cur idx (sib ∷ sibs) =
      path_root (if bit_and idx 1 == 0 then node_hash cur sib else node_hash sib cur) (idx / 2) sibs

  unfoldable pub verify_path : Commitment → MerklePath → Bytes → Bool
  unfolding path_root
  verify_path leaf path root = Bytes.eq (path_root leaf path.position path.siblings) root
