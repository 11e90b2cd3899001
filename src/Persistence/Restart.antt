-- ===== src/Persistence/Restart.antt =====
-- A ledger restored from a fresh store that another was persisted to.
use unknown.Base.{◌-◌, ◌≡◌, refl, sym, ap, ◌∙◌, arith, true, false, ok, ℕ, some, List, [], All, leb}
use mathlib.Core.List.{map}
use unknown.Base.Bytes.{Bytes}
use unknown.Primitives.{Blake3}
use unknown.Interfaces.{Nullifier, Anchor, anchor_window}
use unknown.Interfaces.Encoding.{Is32}
use unknown.Tree
use unknown.Tree.{CommitmentTree, anchor_eq, evict, seal, from_raw_leaves}
use unknown.Tree.Anchors.{anchor_eq_refl}
use unknown.Tree.Shape.{IsTree, root_of_parts, root-from_raw_leaves}
use unknown.Quota
use unknown.State.{Ledger, contains, insert_all, nullifier_seen, anchor_valid, current_anchor}
use unknown.Storage.{
  Redb, Store, height_key, supply_key, load_tree, load_leaves, load_nullifiers, meta, leaves_of,
  nullifiers_in,
}
use unknown.Storage.Tables.{Contents, leaves_set, spents_set}
use unknown.Storage.Working.{
  IsWorking, commit_checkpoint_lem, meta_lem, load_leaves_lem, load_nullifiers_lem,
}
use unknown.Persistence.{enumerate, persist, restore}
use unknown.Persistence.Tables.{
  leaves_set-enumerate, leaves_of-enumerate, spents_set-All, nullifiers_in-keys,
  contains-spents_set, contains-insert_all, or_nothing,
}

module _ ⦃b : Blake3⦄ where
  -- A ledger restored from another has its height, its supply, its difficulty, its leaves, its root
  -- and its spent nullifiers, accepts its current anchor, and has an empty registry.
  pub record IsRestored (l l' : Ledger) : Type 0 where
    pub height : l'.height ≡ l.height
    pub supply : l'.supply ≡ l.supply
    pub difficulty : l'.difficulty_bits ≡ l.difficulty_bits
    pub leaves : l'.tree.leaves ≡ l.tree.leaves
    pub root : Tree.root l'.tree ≡ Tree.root l.tree
    pub spent : (nf : Nullifier) → nullifier_seen l' nf ≡ nullifier_seen l nf
    pub anchored : anchor_valid l' (current_anchor l) ≡ true
    pub registry : l'.quota ≡ Quota.new

  -- The anchor that sealing puts into a tree without any is accepted.
  seal-anchored :
      (t : CommitmentTree) (height : ℕ) (a : Anchor)
      → t.anchors ≡ []
      → a ≡ record { height = height; root = Tree.root t }
      → Tree.anchor_valid (seal t height).0 a ≡ true
  unfolding Tree.anchor_valid Tree.root seal evict
  seal-anchored t height a none_before own =
      let kept : leb anchor_window (height - height) ≡ false =
        let nothing : height - height ≡ 0 = omega arith in rw nothing refl in
      rw (none_before, own, kept, anchor_eq_refl (record { height = height; root = Tree.root t }))
        refl

  module _ ⦃r : Redb⦄ where
    -- The database has no leaves and no nullifiers.
    abbrev pub IsEmpty : IsWorking → Store → Type 0
    IsEmpty works s = ((works.in_db s.db).leaves ≡ []) × ((works.in_db s.db).nullifiers ≡ [])

    -- On a database without failures, persisting a ledger to a store without leaves and nullifiers
    -- and restoring from it succeed, for a ledger whose leaves and nullifiers have 32 bytes. The
    -- restored ledger has its height, its supply, its difficulty, its leaves, the root of its tree,
    -- has seen the same nullifiers, accepts the ledger's current anchor, and has an empty registry of
    -- rate proofs.
    pub restore-persist :
        (works : IsWorking) (s : Store) (l : Ledger)
        → IsEmpty works s
        → IsTree l.tree
        → All Is32 l.nullifiers
        → (s' : Store) × (l' : Ledger) × (persist l s ≡ ok s')
          × (restore s' l.emission l.validators l.difficulty_bits ≡ ok l')
          × IsRestored l l'
    unfolding restore persist load_tree seal from_raw_leaves current_anchor
    restore-persist works s l fresh t n =
        let table : List (Bytes × ℕ) = spents_set l.nullifiers l.height [] in
        let ks : List Nullifier = map (λ (e : Bytes × ℕ). e.0) table in
        let leaves = enumerate 0 l.tree.leaves in
        let (s', saved, contents) =
          commit_checkpoint_lem works s l.height l.supply leaves l.nullifiers in
        let loaded : load_leaves s' ≡ ok l.tree.leaves =
          load_leaves_lem works s' (ap Contents.has_leaves contents)
          ∙ (ap (λ (c : Contents). leaves_of (map ok c.leaves)) contents
              ∙ (ap (λ old. leaves_of (map ok (leaves_set leaves old))) fresh.0
                  ∙ (ap (λ new. leaves_of (map ok new)) (leaves_set-enumerate 0 l.tree.leaves [] tt)
                      ∙ leaves_of-enumerate 0 l.tree.leaves t.leaves))) in
        let read : load_nullifiers s' ≡ ok ks =
          load_nullifiers_lem works s' (ap Contents.has_nullifiers contents)
          ∙ (ap (λ (c : Contents). nullifiers_in (map ok c.nullifiers)) contents
              ∙ (ap (λ old. nullifiers_in (map ok (spents_set l.nullifiers l.height old))) fresh.1
                  ∙ nullifiers_in-keys table
                      (spents_set-All Is32 l.nullifiers l.height [] n tt))) in
        let height : meta s' height_key ≡ ok (some l.height) =
          meta_lem works s' height_key (ap Contents.has_meta contents)
          ∙ ap (λ (c : Contents). ok c.meta_height) contents in
        let supply : meta s' supply_key ≡ ok (some l.supply) =
          meta_lem works s' supply_key (ap Contents.has_meta contents)
          ∙ ap (λ (c : Contents). ok c.meta_supply) contents in
        let raw : CommitmentTree = from_raw_leaves l.tree.leaves in
        let same_root : Tree.root raw ≡ Tree.root l.tree = root-from_raw_leaves l.tree t in
        (
          s',
          record {
            tree = (seal raw l.height).0;
            nullifiers = insert_all ks [];
            quota = Quota.new;
            height = l.height;
            supply = l.supply;
            emission = l.emission;
            validators = l.validators;
            difficulty_bits = l.difficulty_bits;
          },
          saved,
          rw (loaded, height, supply, read) refl,
          record {
            height = refl;
            supply = refl;
            difficulty = refl;
            leaves = refl;
            root = root_of_parts (seal raw l.height).0 raw refl refl ∙ same_root;
            spent = λ nf.
                contains-insert_all ks [] nf
                ∙ (or_nothing (contains ks nf)
                    ∙ (contains-spents_set l.nullifiers l.height [] nf
                        ∙ or_nothing (contains l.nullifiers nf)));
            anchored =
                seal-anchored raw l.height (current_anchor l) refl
                  (λ i. record { height = l.height; root = sym same_root i });
            registry = refl;
          },
        )
