-- ===== src/Tree/Shape.antt =====
-- What holds of every tree that the operations build: leaves and padding are 32 bytes each, and the
-- padding is the table of empty roots.
use unknown.Base.{ℕ, zero, suc, ◌≡◌, refl, ap, sym, List, [], ◌∷◌, length, All, All-append}
use unknown.Base.Bytes.{Bytes}
use unknown.Primitives.{Blake3, length-hash_parts, hash_parts, merkle_empty}
use unknown.Interfaces.{tree_depth}
use unknown.Interfaces.Encoding.{Is32}
use unknown.Tree.{
  CommitmentTree, node_hash, empty_from, empty_roots, new, append, from_raw_leaves, root, seal,
}

module _ ⦃b : Blake3⦄ where
  pub Is32-node_hash : (l r : Bytes) → Is32 (node_hash l r)
  unfolding node_hash
  Is32-node_hash l r = length-hash_parts _ (l ∷ r ∷ [])

  Is32-empty_from : (n : ℕ) (node : Bytes) → Is32 node → All Is32 (empty_from n node)
  unfolding empty_from
  Is32-empty_from zero node h = (h, tt)
  Is32-empty_from (suc n) node h =
      (h, Is32-empty_from n (node_hash node node) (Is32-node_hash node node))

  length-empty_from : (n : ℕ) (node : Bytes) → length (empty_from n node) ≡ suc n
  unfolding empty_from
  length-empty_from zero node = refl
  length-empty_from (suc n) node = ap suc (length-empty_from n (node_hash node node))

  pub Is32-empty_roots : All Is32 empty_roots
  unfolding empty_roots
  Is32-empty_roots =
      Is32-empty_from tree_depth (hash_parts merkle_empty []) (length-hash_parts merkle_empty [])

  pub length-empty_roots : length empty_roots ≡ 33
  unfolding empty_roots
  length-empty_roots = length-empty_from tree_depth (hash_parts merkle_empty [])

  pub record IsTree (t : CommitmentTree) : Type 0 where
    pub leaves : All Is32 t.leaves
    pub empty : t.empty ≡ empty_roots

  pub new-IsTree : IsTree new
  unfolding new
  new-IsTree = record { leaves = tt; empty = refl }

  pub append-IsTree :
      (t : CommitmentTree) (cm : Bytes) → IsTree t → Is32 cm → IsTree (append t cm).0
  unfolding append
  append-IsTree t cm h k = record {
    leaves = All-append Is32 t.leaves (cm ∷ []) h.leaves (k, tt);
    empty = h.empty;
  }

  pub seal-IsTree : (t : CommitmentTree) (height : ℕ) → IsTree t → IsTree (seal t height).0
  unfolding seal
  seal-IsTree t height h = record { leaves = h.leaves; empty = h.empty }

  pub from_raw_leaves-IsTree : (ls : List Bytes) → All Is32 ls → IsTree (from_raw_leaves ls)
  unfolding from_raw_leaves
  from_raw_leaves-IsTree ls h = record { leaves = h; empty = refl }

  pub root_of_parts :
      (t u : CommitmentTree) → t.leaves ≡ u.leaves → t.empty ≡ u.empty → root t ≡ root u
  unfolding root
  root_of_parts t u p q = λ i. root (record { leaves = p i; empty = q i; anchors = t.anchors })

  -- A tree rebuilt from the leaves of another has its root, whatever anchors the other had sealed.
  pub root-from_raw_leaves :
      (t : CommitmentTree) → IsTree t → root (from_raw_leaves t.leaves) ≡ root t
  unfolding from_raw_leaves
  root-from_raw_leaves t h = root_of_parts (from_raw_leaves t.leaves) t refl (sym h.empty)
