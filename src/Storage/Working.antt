-- ===== src/Storage/Working.antt =====
-- A database without failures, as redb documents it, and what the storage operations do on it.
use unknown.Base.{ℕ, ◌≡◌, refl, ap, ◌∙◌, true, some, ok, List, [], ◌∷◌}
use mathlib.Core.List.{map}
use unknown.Base.Bytes.{Bytes}
use unknown.Storage.{
  MetaKey, height_key, supply_key, TableName, nullifiers_table, leaves_table, meta_table, Redb,
  Store, insert_leaves, insert_nullifiers, commit_checkpoint, meta, load_leaves, load_nullifiers,
  leaves_of, nullifiers_in,
}
use unknown.Storage.Tables.{
  Contents, leaf_set, spent_set, meta_set, meta_at, with_table, has_table, leaves_set, spents_set,
}

module _ ⦃r : Redb⦄ where
  -- No call fails, a transaction sees the committed contents and its own writes, a commit keeps
  -- them, and a read finds the entries in the order of their keys. A table that is not there cannot
  -- be opened to read.
  pub record IsWorking : Type 0 where
    pub in_db : r.Database → Contents
    pub in_write : r.WriteTransaction → Contents
    pub in_read : r.ReadTransaction → Contents
    pub begins :
        (d : r.Database)
        → (w : r.WriteTransaction) × (r.begin_write d ≡ ok w) × (in_write w ≡ in_db d)
    pub opens :
        (t : TableName) (w : r.WriteTransaction)
        → (w' : r.WriteTransaction) × (r.open_table t w ≡ ok w')
          × (in_write w' ≡ with_table t (in_write w))
    pub inserts_leaf :
        (w : r.WriteTransaction) (pos : ℕ) (cm : Bytes)
        → (w' : r.WriteTransaction) × (r.insert_leaf w pos cm ≡ ok w')
          × (in_write w' ≡ record (in_write w) { leaves = leaf_set pos cm (in_write w).leaves })
    pub inserts_nullifier :
        (w : r.WriteTransaction) (nf : Bytes) (height : ℕ)
        → (w' : r.WriteTransaction) × (r.insert_nullifier w nf height ≡ ok w')
          × (in_write w'
              ≡ record (in_write w) { nullifiers = spent_set nf height (in_write w).nullifiers })
    pub inserts_meta :
        (w : r.WriteTransaction) (key : MetaKey) (value : ℕ)
        → (w' : r.WriteTransaction) × (r.insert_meta w key value ≡ ok w')
          × (in_write w' ≡ meta_set key value (in_write w))
    pub commits :
        (w : r.WriteTransaction) → (d : r.Database) × (r.commit w ≡ ok d) × (in_db d ≡ in_write w)
    pub reads :
        (d : r.Database) → (t : r.ReadTransaction) × (r.begin_read d ≡ ok t) × (in_read t ≡ in_db d)
    pub opens_read :
        (n : TableName) (t : r.ReadTransaction)
        → has_table n (in_read t) ≡ true
        → (t' : r.ReadTransaction) × (r.open_read n t ≡ ok t') × (in_read t' ≡ in_read t)
    pub gets_meta :
        (t : r.ReadTransaction) (key : MetaKey) → r.get_meta t key ≡ ok (meta_at key (in_read t))
    pub iterates_leaves : (t : r.ReadTransaction) → r.iter_leaves t ≡ ok (map ok (in_read t).leaves)
    pub iterates_nullifiers :
        (t : r.ReadTransaction) → r.iter_nullifiers t ≡ ok (map ok (in_read t).nullifiers)

  module _ (works : IsWorking) where
    insert_leaves_lem :
        (ls : List (ℕ × Bytes)) (w : r.WriteTransaction)
        → (w' : r.WriteTransaction) × (insert_leaves ls w ≡ ok w')
          × (works.in_write w'
              ≡ record (works.in_write w) { leaves = leaves_set ls (works.in_write w).leaves })
    unfolding insert_leaves
    insert_leaves_lem [] w = (w, refl, refl)
    insert_leaves_lem ((pos, cm) ∷ ls) w =
        let (w1, e1, c1) = works.inserts_leaf w pos cm in
        let (w2, e2, c2) = insert_leaves_lem ls w1 in
        (w2, rw e1 e2, c2 ∙ ap (λ (c : Contents). record c { leaves = leaves_set ls c.leaves }) c1)

    insert_nullifiers_lem :
        (nfs : List Bytes) (height : ℕ) (w : r.WriteTransaction)
        → (w' : r.WriteTransaction) × (insert_nullifiers nfs height w ≡ ok w')
          × (works.in_write w' ≡ record (works.in_write w) {
            nullifiers = spents_set nfs height (works.in_write w).nullifiers;
          })
    unfolding insert_nullifiers
    insert_nullifiers_lem [] height w = (w, refl, refl)
    insert_nullifiers_lem (nf ∷ nfs) height w =
        let (w1, e1, c1) = works.inserts_nullifier w nf height in
        let (w2, e2, c2) = insert_nullifiers_lem nfs height w1 in
        (
          w2,
          rw e1 e2,
          c2
              ∙ ap (λ (c : Contents). record c { nullifiers = spents_set nfs height c.nullifiers })
                  c1,
        )

    -- What a checkpoint leaves in the tables of a database with these contents.
    abbrev pub checkpointed : Contents → ℕ → ℕ → List (ℕ × Bytes) → List Bytes → Contents
    checkpointed c height supply ls nfs = record {
      leaves = leaves_set ls c.leaves;
      nullifiers = spents_set nfs height c.nullifiers;
      meta_height = some height;
      meta_supply = some supply;
      has_leaves = true;
      has_nullifiers = true;
      has_meta = true;
    }

    pub commit_checkpoint_lem :
        (s : Store) (height supply : ℕ) (ls : List (ℕ × Bytes)) (nfs : List Bytes)
        → (s' : Store) × (commit_checkpoint s height supply ls nfs ≡ ok s')
          × (works.in_db s'.db ≡ checkpointed (works.in_db s.db) height supply ls nfs)
    unfolding commit_checkpoint
    commit_checkpoint_lem s height supply ls nfs =
        let (w0, e0, c0) = works.begins s.db in
        let (w1, e1, c1) = works.opens leaves_table w0 in
        let (w2, e2, c2) = insert_leaves_lem ls w1 in
        let (w3, e3, c3) = works.opens nullifiers_table w2 in
        let (w4, e4, c4) = insert_nullifiers_lem nfs height w3 in
        let (w5, e5, c5) = works.opens meta_table w4 in
        let (w6, e6, c6) = works.inserts_meta w5 height_key height in
        let (w7, e7, c7) = works.inserts_meta w6 supply_key supply in
        let (d, e8, c8) = works.commits w7 in
        (
          record { db = d },
          rw (e0, e1, e2, e3, e4, e5, e6, e7, e8) refl,
          rw (c8, c7, c6, c5, c4, c3, c2, c1, c0) refl,
        )

    pub meta_lem :
        (s : Store) (key : MetaKey)
        → (works.in_db s.db).has_meta ≡ true
        → meta s key ≡ ok (meta_at key (works.in_db s.db))
    unfolding meta
    meta_lem s key there =
        let (t, e, c) = works.reads s.db in
        let (t', e', c') = works.opens_read meta_table t (ap Contents.has_meta c ∙ there) in
        rw (e, e', works.gets_meta t' key, c', c) refl

    pub load_leaves_lem :
        (s : Store)
        → (works.in_db s.db).has_leaves ≡ true
        → load_leaves s ≡ leaves_of (map ok (works.in_db s.db).leaves)
    unfolding load_leaves
    load_leaves_lem s there =
        let (t, e, c) = works.reads s.db in
        let (t', e', c') = works.opens_read leaves_table t (ap Contents.has_leaves c ∙ there) in
        rw (e, e', works.iterates_leaves t', c', c) refl

    pub load_nullifiers_lem :
        (s : Store)
        → (works.in_db s.db).has_nullifiers ≡ true
        → load_nullifiers s ≡ nullifiers_in (map ok (works.in_db s.db).nullifiers)
    unfolding load_nullifiers
    load_nullifiers_lem s there =
        let (t, e, c) = works.reads s.db in
        let (t', e', c') =
          works.opens_read nullifiers_table t (ap Contents.has_nullifiers c ∙ there) in
        rw (e, e', works.iterates_nullifiers t', c', c) refl
