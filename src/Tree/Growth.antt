-- ===== src/Tree/Growth.antt =====
-- Appending: the position of the new leaf, its path, and the older leaves.
use unknown.Base.{
  get_or-append_left, ℕ, ◌^◌, ◌<◌, ◌≡◌, refl, true, List, [], ◌∷◌, ◌++◌, some, arith, length,
  get_or, length-append,
}
use unknown.Base.Bytes.{Bytes}
use unknown.Primitives.{Blake3}
use unknown.Interfaces.{MerklePath}
use unknown.Tree.{CommitmentTree, append, root, witness, verify_path}
use unknown.Tree.Membership.{witness-verifies}

get_or-append_last : (xs : List Bytes) (x : Bytes) → get_or (xs ++ x ∷ []) (length xs) [] ≡ x
get_or-append_last [] x = refl
get_or-append_last (y ∷ xs) x = get_or-append_last xs x

module _ ⦃b : Blake3⦄ where
  -- In a tree with room for one more of its 2 ^ 32 leaves, an appended commitment takes the position
  -- after the last, every older leaf stays at its position, and a path for the new position
  -- verifies the commitment against the new root.
  pub append-provable :
      (t : CommitmentTree) (cm : Bytes)
      → length t.leaves < 2 ^ 32
      → let (t', position) = append t cm in
        (position ≡ length t.leaves)
        × ((p : ℕ) → p < position → get_or t'.leaves p [] ≡ get_or t.leaves p [])
        × ((path : MerklePath) × (witness t' position ≡ some path)
            × (verify_path cm path (root t') ≡ true))
  unfolding append
  append-provable t cm room =
      let grown = length-append t.leaves (cm ∷ []) in
      let (path, found, same, n, good) =
        witness-verifies (append t cm).0 (length t.leaves) (omega arith) (omega arith) in
      (
        refl,
        (λ p h. get_or-append_left t.leaves (cm ∷ []) p [] h),
        (path, found, rw (get_or-append_last t.leaves cm) at good),
      )
