-- ===== src/Persistence.antt =====
-- crates/state/src/lib.rs: `Ledger::persist` and `Ledger::restore`.
pub mod Tables
pub mod Restart
pub mod Divergence
use unknown.Base.{ℕ, ◌+◌, Option, none, some, Result, ok, ◌>>=◌, List, [], ◌∷◌}
use unknown.Base.Bytes.{Bytes}
use unknown.Primitives.{Blake3}
use unknown.Interfaces.{Commitment}
use unknown.Tree.{CommitmentTree, seal}
use unknown.Emission.{EmissionParams}
use unknown.Quota
use unknown.State.{Ledger, ValidatorInfo, insert_all}
use unknown.Storage.{
  Redb, Store, StoreError, commit_checkpoint, meta, height_key, supply_key, load_tree,
  load_nullifiers,
}

-- `leaves.iter().enumerate()`, from the position `pos` on.
abbrev pub enumerate : ℕ → List Bytes → List (ℕ × Commitment)
enumerate pos [] = []
enumerate pos (l ∷ ls) = (pos, l) ∷ enumerate (pos + 1) ls

unfoldable pub persist : ⦃r : Redb⦄ → Ledger → Store → Result Store StoreError
persist l store = commit_checkpoint store l.height l.supply (enumerate 0 l.tree.leaves) l.nullifiers

-- `unwrap_or(0)`.
abbrev pub or_zero : Option ℕ → ℕ
or_zero none = 0
or_zero (some n) = n

-- The set is filled by inserting what was loaded; the registry starts anew.
unfoldable pub restore :
    ⦃b : Blake3⦄
    → ⦃r : Redb⦄ → Store
    → EmissionParams
    → List ValidatorInfo
    → ℕ
    → Result Ledger StoreError
restore store emission validators difficulty_bits = do
  tree ← load_tree store
  saved_height ← meta store height_key
  saved_supply ← meta store supply_key
  nullifiers ← load_nullifiers store
  ok (record {
    tree = (seal tree (or_zero saved_height)).0;
    nullifiers = insert_all nullifiers [];
    quota = Quota.new;
    height = or_zero saved_height;
    supply = or_zero saved_supply;
    emission = emission;
    validators = validators;
    difficulty_bits = difficulty_bits;
  })
