-- ===== src/Storage.antt =====
-- crates/storage/src/lib.rs: the durable tables. The database crate `redb` is a parameter: its types
-- and the calls that the code makes, each of which may fail. A call that writes gives the state of
-- the transaction after it, and `commit` that of the database; on an error the transaction is
-- dropped, and the store stays as it was. The table META is used at the keys "height" and "supply".
pub mod Tables
pub mod Working
use unknown.Base.{
  ℕ, Bool, true, false, String, Option, none, some, Result, ok, err, ◌>>=◌, List, [], ◌∷◌, length,
  ◌==◌, if◌then◌else◌,
}
use unknown.Base.Bytes.{Bytes}
use unknown.Primitives.{Blake3}
use unknown.Interfaces.{Commitment, Nullifier}
use unknown.Tree.{CommitmentTree, from_raw_leaves}

pub data StoreError : Type 0 where
  db : String → StoreError

pub data MetaKey : Type 0 where
  height_key supply_key : MetaKey

pub data TableName : Type 0 where
  nullifiers_table leaves_table meta_table : TableName

-- The crate `redb`: a database, its write transactions and its read transactions. An error is the
-- text that `to_string` gives of it.
pub record Redb : Type 1 where
  pub Database : Type 0
  pub WriteTransaction : Type 0
  pub ReadTransaction : Type 0
  pub create : String → Result Database String
  pub begin_write : Database → Result WriteTransaction String
  pub open_table : TableName → WriteTransaction → Result WriteTransaction String
  pub insert_leaf : WriteTransaction → ℕ → Bytes → Result WriteTransaction String
  pub insert_nullifier : WriteTransaction → Bytes → ℕ → Result WriteTransaction String
  pub insert_meta : WriteTransaction → MetaKey → ℕ → Result WriteTransaction String
  pub commit : WriteTransaction → Result Database String
  pub begin_read : Database → Result ReadTransaction String
  pub open_read : TableName → ReadTransaction → Result ReadTransaction String
  pub get_meta : ReadTransaction → MetaKey → Result (Option ℕ) String
  pub get_nullifier : ReadTransaction → Bytes → Result (Option ℕ) String
  pub count_nullifiers : ReadTransaction → Result ℕ String
  pub iter_leaves : ReadTransaction → Result (List (Result (ℕ × Bytes) String)) String
  pub iter_nullifiers : ReadTransaction → Result (List (Result (Bytes × ℕ) String)) String

-- `db_err!`
abbrev pub db_err : {A : Type 0} → Result A String → Result A StoreError
db_err (ok a) = ok a
db_err (err text) = err (db text)

-- `is_some`.
abbrev pub is_some : Option ℕ → Bool
is_some none = false
is_some (some height) = true

-- `try_into` an array of 32 bytes, with the message of its failure.
abbrev pub sized : String → Bytes → Result Bytes StoreError
sized message bytes = if length bytes == 32 then ok bytes else err (db message)

-- The loops over the items of a table.
unfoldable pub leaves_of : List (Result (ℕ × Bytes) String) → Result (List Bytes) StoreError
leaves_of [] = ok []
leaves_of (item ∷ items) = do
  entry ← db_err item
  bytes ← sized "bad leaf length" entry.1
  rest ← leaves_of items
  ok (bytes ∷ rest)

unfoldable pub nullifiers_in : List (Result (Bytes × ℕ) String) → Result (List Nullifier) StoreError
nullifiers_in [] = ok []
nullifiers_in (item ∷ items) = do
  entry ← db_err item
  bytes ← sized "bad nullifier length" entry.0
  rest ← nullifiers_in items
  ok (bytes ∷ rest)

module _ ⦃r : Redb⦄ where
  pub record Store : Type 0 where
    pub db : r.Database

  -- `Store::open`.
  unfoldable pub open_store : String → Result Store StoreError
  open_store path = do
    created ← db_err (r.create path)
    w ← db_err (r.begin_write created)
    w ← db_err (r.open_table nullifiers_table w)
    w ← db_err (r.open_table leaves_table w)
    w ← db_err (r.open_table meta_table w)
    committed ← db_err (r.commit w)
    ok (record { db = committed })

  -- The two loops of `commit_checkpoint`.
  unfoldable pub insert_leaves :
      List (ℕ × Commitment) → r.WriteTransaction → Result r.WriteTransaction StoreError
  insert_leaves [] w = ok w
  insert_leaves ((pos, cm) ∷ new_leaves) w =
      db_err (r.insert_leaf w pos cm) >>= insert_leaves new_leaves

  unfoldable pub insert_nullifiers :
      List Nullifier → ℕ → r.WriteTransaction → Result r.WriteTransaction StoreError
  insert_nullifiers [] height w = ok w
  insert_nullifiers (nf ∷ new_nullifiers) height w =
      db_err (r.insert_nullifier w nf height) >>= insert_nullifiers new_nullifiers height

  unfoldable pub commit_checkpoint :
      Store → ℕ → ℕ → List (ℕ × Commitment) → List Nullifier → Result Store StoreError
  unfolding insert_leaves insert_nullifiers
  commit_checkpoint s height supply new_leaves new_nullifiers = do
    w ← db_err (r.begin_write s.db)
    w ← db_err (r.open_table leaves_table w)
    w ← insert_leaves new_leaves w
    w ← db_err (r.open_table nullifiers_table w)
    w ← insert_nullifiers new_nullifiers height w
    w ← db_err (r.open_table meta_table w)
    w ← db_err (r.insert_meta w height_key height)
    w ← db_err (r.insert_meta w supply_key supply)
    committed ← db_err (r.commit w)
    ok (record { db = committed })

  unfoldable pub set_meta : Store → MetaKey → ℕ → Result Store StoreError
  set_meta s key value = do
    w ← db_err (r.begin_write s.db)
    w ← db_err (r.open_table meta_table w)
    w ← db_err (r.insert_meta w key value)
    committed ← db_err (r.commit w)
    ok (record { db = committed })

  unfoldable pub meta : Store → MetaKey → Result (Option ℕ) StoreError
  meta s key = do
    t ← db_err (r.begin_read s.db)
    t ← db_err (r.open_read meta_table t)
    db_err (r.get_meta t key)

  unfoldable pub contains_nullifier : Store → Nullifier → Result Bool StoreError
  contains_nullifier s nf = do
    t ← db_err (r.begin_read s.db)
    t ← db_err (r.open_read nullifiers_table t)
    found ← db_err (r.get_nullifier t nf)
    ok (is_some found)

  unfoldable pub nullifier_count : Store → Result ℕ StoreError
  nullifier_count s = do
    t ← db_err (r.begin_read s.db)
    t ← db_err (r.open_read nullifiers_table t)
    db_err (r.count_nullifiers t)

  unfoldable pub load_leaves : Store → Result (List Bytes) StoreError
  unfolding leaves_of
  load_leaves s = do
    t ← db_err (r.begin_read s.db)
    t ← db_err (r.open_read leaves_table t)
    items ← db_err (r.iter_leaves t)
    leaves_of items

  unfoldable pub load_nullifiers : Store → Result (List Nullifier) StoreError
  unfolding nullifiers_in
  load_nullifiers s = do
    t ← db_err (r.begin_read s.db)
    t ← db_err (r.open_read nullifiers_table t)
    items ← db_err (r.iter_nullifiers t)
    nullifiers_in items

  unfoldable pub load_tree : ⦃b : Blake3⦄ → Store → Result CommitmentTree StoreError
  unfolding load_leaves
  load_tree s = do leaves ← load_leaves s; ok (from_raw_leaves leaves)
