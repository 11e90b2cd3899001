-- ===== src/Examples/Trees.antt =====
-- A small commitment tree under the toy hash.
use unknown.Base.{
  get_or, ◌+◌, ◌%◌, ◌^◌, ◌≡◌, ◌⊎◌, refl, arith, true, some, List, [], ◌∷◌, length, All, all, ◌==◌,
  ==_iff, and→both,
}
use unknown.Base.Bytes.{Bytes}
use unknown.Primitives.{hash_parts, frame}
use unknown.Interfaces.{MerklePath, tree_depth}
use unknown.Tree.{
  CommitmentTree, empty_roots, empty_from, next_level, node_hash, siblings_from, sibling_at, climb,
  path_root, witness, root, verify_path,
}
use unknown.Tree.Shape.{IsTree}
use unknown.Tree.Membership.{witness-verifies}
use unknown.Tree.Padding.{IsForgedPath, empty_leaf, path_sound}
use unknown.Interfaces.Encoding.{Is32}
use unknown.Examples.{toy, filled}

abbrev leaves : List Bytes
leaves = filled 1 ∷ filled 2 ∷ filled 3 ∷ []

abbrev small : CommitmentTree
small = record { leaves = leaves; empty = empty_roots; anchors = [] }

witness-verifies_example :
    (path : MerklePath) × (witness small 2 ≡ some path)
    × (path.position ≡ 2)
    × (length path.siblings ≡ tree_depth)
    × (verify_path (filled 3) path (root small) ≡ true)
witness-verifies_example = witness-verifies small 2 (omega arith) (omega arith)

small-IsTree : IsTree small
small-IsTree = record { leaves = (refl, (refl, (refl, tt))); empty = refl }

abbrev path : MerklePath
path = record { position = 2; siblings = siblings_from tree_depth 0 empty_roots leaves 2 }

pub All-Is32 : (xs : List Bytes) → all (λ x. length x == 32) xs ≡ true → All Is32 xs
All-Is32 [] h = tt
All-Is32 (x ∷ xs) h =
    let (here, rest) = and→both (length x == 32) (all (λ x. length x == 32) xs) h in
    ((==_iff (length x) 32).0 here, All-Is32 xs rest)

path_sizes : (all (λ x. length x == 32) path.siblings ≡ true) × (length path.siblings ≡ tree_depth)
unfolding siblings_from sibling_at empty_roots empty_from next_level node_hash hash_parts frame
path_sizes = (refl, refl)

path_verifies : verify_path (filled 3) path (root small) ≡ true
unfolding siblings_from sibling_at empty_roots empty_from next_level node_hash hash_parts frame
    verify_path path_root root climb
path_verifies = refl

-- The same leaf by a path whose position has a bit above the 32 that count.
abbrev far_path : MerklePath
far_path = record path { position = 2 + 2 ^ 40 }

far_path_verifies : verify_path (filled 3) far_path (root small) ≡ true
unfolding siblings_from sibling_at empty_roots empty_from next_level node_hash hash_parts frame
    verify_path path_root root climb
far_path_verifies = refl

path_sound_example :
    (filled 3 ≡ get_or small.leaves (far_path.position % 2 ^ 32) empty_leaf)
    ⊎ IsForgedPath small (filled 3) far_path
path_sound_example =
    path_sound small (filled 3) far_path small-IsTree refl (All-Is32 path.siblings path_sizes.0)
      path_sizes.1 far_path_verifies
