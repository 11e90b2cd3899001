-- ===== src/Examples/Restarts.antt =====
-- A ledger with two leaves, two nullifiers and a used slot, persisted and restored.
use mathlib.Core.List.{map}
use unknown.Base.Bytes.{Bytes, eq}
use unknown.Base.{
  List, ℕ, Option, some, Result, err, String, none, length, if◌then◌else◌, ◌≡◌, refl, true, false,
  ok, [], ◌∷◌, replicate,
}
use unknown.Interfaces.{proof_bucket}
use unknown.Tree.{empty_roots}
use unknown.Quota.{RateProof, find, message_x}
use unknown.Tx.{TxV1, pow, quota, binding_digest}
use unknown.Tx.Validation.{IsStatelessValid}
use unknown.State.{Ledger, nullifier_seen, current_anchor}
use unknown.State.Checkpoint.{apply_checkpoint}
use unknown.Storage.{Redb, Store, TableName}
use unknown.Storage.Tables.{Contents, with_table, has_table, leaf_set, spent_set, meta_set, meta_at}
use unknown.Storage.Working.{IsWorking}
use unknown.Persistence.{persist, restore}
use unknown.Persistence.Restart.{IsEmpty, IsRestored, restore-persist}
use unknown.Persistence.Divergence.{restart_splits}
use unknown.Examples.{toy, filled, trusting}
use unknown.Examples.Ledgers.{params, validators}

abbrev running : Ledger
running = record {
  tree = record { leaves = filled 4 ∷ filled 5 ∷ []; empty = empty_roots; anchors = [] };
  nullifiers = filled 9 ∷ filled 2 ∷ [];
  quota = record {
    seen = (record { epoch = 0; rate_nullifier = filled 3 }, record { x = 1; y = 1 }) ∷ [];
  };
  height = 7;
  supply = 5600;
  emission = params;
  validators = validators;
  difficulty_bits = 8;
}

-- A database that holds its tables in memory and never fails; a missing table is not read.
abbrev read_table : TableName → Contents → Result Contents String
read_table name c = if has_table name c then ok c else err "no such table"

abbrev height_at : Bytes → List (Bytes × ℕ) → Option ℕ
height_at nf [] = none
height_at nf ((x, height) ∷ table) =
    let rest = height_at nf table in if eq x nf then some height else rest

abbrev no_tables : Contents
no_tables = record {
  leaves = [];
  nullifiers = [];
  meta_height = none;
  meta_supply = none;
  has_leaves = false;
  has_nullifiers = false;
  has_meta = false;
}

instance abbrev in_memory : Redb
in_memory = record {
  Database = Contents;
  WriteTransaction = Contents;
  ReadTransaction = Contents;
  create = λ path. ok no_tables;
  begin_write = ok;
  open_table = λ name c. ok (with_table name c);
  insert_leaf = λ c pos cm. ok (record c { leaves = leaf_set pos cm c.leaves });
  insert_nullifier = λ c nf height. ok (record c { nullifiers = spent_set nf height c.nullifiers });
  insert_meta = λ c key value. ok (meta_set key value c);
  commit = ok;
  begin_read = ok;
  open_read = read_table;
  get_meta = λ c key. ok (meta_at key c);
  get_nullifier = λ c nf. ok (height_at nf c.nullifiers);
  count_nullifiers = λ c. ok (length c.nullifiers);
  iter_leaves = λ c. ok (map ok c.leaves);
  iter_nullifiers = λ c. ok (map ok c.nullifiers);
}

abbrev in_memory-IsWorking : IsWorking
in_memory-IsWorking = record {
  in_db = λ c. c;
  in_write = λ c. c;
  in_read = λ c. c;
  begins = λ c. (c, refl, refl);
  opens = λ name c. (with_table name c, refl, refl);
  inserts_leaf = λ c pos cm. (record c { leaves = leaf_set pos cm c.leaves }, refl, refl);
  inserts_nullifier =
      λ c nf height. (record c { nullifiers = spent_set nf height c.nullifiers }, refl, refl);
  inserts_meta = λ c key value. (meta_set key value c, refl, refl);
  commits = λ c. (c, refl, refl);
  reads = λ c. (c, refl, refl);
  opens_read = λ name c there. (c, rw there refl, refl);
  gets_meta = λ c key. refl;
  iterates_leaves = λ c. refl;
  iterates_nullifiers = λ c. refl;
}

abbrev empty_store : Store
empty_store = record { db = no_tables }

empty_store-IsEmpty : IsEmpty in_memory-IsWorking empty_store
empty_store-IsEmpty = (refl, refl)

restore-persist_example :
    (s' : Store) × (l' : Ledger) × (persist running empty_store ≡ ok s')
    × (restore s' params validators 8 ≡ ok l')
    × IsRestored running l'
restore-persist_example =
    restore-persist in_memory-IsWorking empty_store running empty_store-IsEmpty
      (record { leaves = (refl, (refl, tt)); empty = refl }) (refl, (refl, tt))

-- A transaction without an artifact of its own, and the same in the lane of rate proofs.
abbrev plain : TxV1
plain = record {
  anchor = current_anchor running;
  nullifiers = (filled 20, filled 21);
  commitments = (filled 10, filled 11);
  enc_outputs = (record { bytes = [] }, record { bytes = [] });
  antispam = pow (record { nonce = 0 });
  proof = replicate proof_bucket 0;
}

abbrev reuse : RateProof
reuse = record { epoch = 0; rate_nullifier = filled 3; x = message_x (binding_digest plain); y = 1 }

abbrev again : TxV1
again = record plain { antispam = quota reuse }

again-IsValid : IsStatelessValid again trusting 8
unfolding binding_digest
again-IsValid = record { proof_size = refl; ascending = refl; bound = refl; proven = refl }

restart_splits_example :
    (s' : Store) × (l' : Ledger) × (persist running empty_store ≡ ok s')
    × (restore s' params validators 8 ≡ ok l')
    × IsRestored running l'
    × (nullifier_seen (apply_checkpoint running (again ∷ []) trusting).0 (filled 20) ≡ false)
    × (nullifier_seen (apply_checkpoint l' (again ∷ []) trusting).0 (filled 20) ≡ true)
unfolding find
restart_splits_example =
    restart_splits in_memory-IsWorking empty_store running again trusting reuse
      (record { x = 1; y = 1 }) empty_store-IsEmpty
      (record { leaves = (refl, (refl, tt)); empty = refl }) (refl, (refl, tt)) refl refl refl refl
      again-IsValid refl refl
