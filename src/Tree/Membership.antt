-- ===== src/Tree/Membership.antt =====
-- The paths that `witness` returns, under `verify_path`.
use native.Mathlib.Nat.{div-div-eq-div-mul, pow-succ'}
use unknown.Base.{
  ℕ, zero, suc, ◌+◌, ◌/◌, ◌^◌, ◌≤◌, ◌<◌, ◌≡◌, refl, ap, true, false, List, [], ◌∷◌, some, arith,
  length, get_or, leb, ◌∙◌, sym,
}
use unknown.Base.Bytes.{Bytes, eq_refl}
use unknown.Primitives.{Blake3}
use unknown.Interfaces.{MerklePath, tree_depth}
use unknown.Tree.{
  CommitmentTree, next_level, node_hash, path_root, climb, siblings_from, root, witness,
  verify_path,
}
use unknown.Tree.Levels.{get-next_level, length-next_level}

module _ ⦃b : Blake3⦄ where
  half_lt : (n i : ℕ) → i < n → i / 2 < (n + 1) / 2
  half_lt n i h = omega arith

  -- Following the path of node `i` for `n` levels ends at its ancestor.
  path_root-siblings_from :
      (n depth : ℕ) (empty level : List Bytes) (i : ℕ)
      → i < length level
      → path_root (get_or level i []) i (siblings_from n depth empty level i)
        ≡ get_or (climb n depth empty level) (i / 2 ^ n) []
  unfolding path_root siblings_from climb
  path_root-siblings_from zero depth empty level i h =
      let e : i / 2 ^ 0 ≡ i = omega arith in rw e refl
  path_root-siblings_from (suc n) depth empty level i h =
      let pad : Bytes = get_or empty depth [] in
      let above = next_level node_hash pad level in
      let e : i / 2 ^ suc n ≡ i / 2 / 2 ^ n =
        ap (λ (m : ℕ). i / m) (pow-succ' 2 n) ∙ sym (div-div-eq-div-mul i 2 (2 ^ n)) in
      let inside : i / 2 < length above =
        rw (length-next_level node_hash pad level) (half_lt (length level) i h) in
      rw e (
        ap (λ c. path_root c (i / 2) (siblings_from n (depth + 1) empty above (i / 2)))
          (sym (get-next_level pad level i h))
        ∙ path_root-siblings_from n (depth + 1) empty above (i / 2) inside)

  pub length-siblings_from :
      (n depth : ℕ) (empty level : List Bytes) (i : ℕ)
      → length (siblings_from n depth empty level i) ≡ n
  unfolding siblings_from
  length-siblings_from zero depth empty level i = refl
  length-siblings_from (suc n) depth empty level i =
      ap suc (length-siblings_from n (depth + 1) empty _ (i / 2))

  root-climb :
      (t : CommitmentTree)
      → 0 < length t.leaves
      → root t ≡ get_or (climb tree_depth 0 t.empty t.leaves) 0 []
  unfolding root
  root-climb t h = go t.leaves h
    where
      go :
          (ls : List Bytes)
          → 0 < length ls
          → elim ls as (λ _. Bytes) [
            | [] ↦ get_or t.empty tree_depth []
            | leaf ∷ rest ↦ get_or (climb tree_depth 0 t.empty (leaf ∷ rest)) 0 []
          ]
            ≡ get_or (climb tree_depth 0 t.empty ls) 0 []
      go [] p = absurd (omega arith)
      go (l ∷ ls) p = refl

  -- A tree of at most 2 ^ 32 leaves has an authentication path for each of its leaves, and the path
  -- verifies that leaf against the tree's root.
  pub witness-verifies :
      (t : CommitmentTree) (position : ℕ)
      → length t.leaves ≤ 2 ^ 32
      → position < length t.leaves
      → (path : MerklePath) × (witness t position ≡ some path)
        × (path.position ≡ position)
        × (length path.siblings ≡ tree_depth)
        × (verify_path (get_or t.leaves position []) path (root t) ≡ true)
  unfolding witness verify_path
  witness-verifies t position cap h = (
    record { position = position; siblings = siblings_from tree_depth 0 t.empty t.leaves position },
    rw (past t.leaves position h),
    refl,
    length-siblings_from tree_depth 0 t.empty t.leaves position,
    rw
        (
          root-climb t (omega arith),
          path_root-siblings_from tree_depth 0 t.empty t.leaves position h,
          top position (omega arith),
        )
        (eq_refl (get_or (climb tree_depth 0 t.empty t.leaves) 0 [])),
  )
    where
      past : (ls : List Bytes) (p : ℕ) → p < length ls → leb (length ls) p ≡ false
      past ls p q = ground arith

      top : (p : ℕ) → p < 2 ^ 32 → p / 2 ^ tree_depth ≡ 0
      top p q = omega arith
