-- ===== src/Storage/Tables.antt =====
-- What the documentation of redb says of its tables: ordered maps, in which `insert` replaces the
-- value of a key that is there. This describes the parameter, for the hypotheses on it.
use unknown.Base.{ℕ, Bool, true, Option, some, List, [], ◌∷◌, ltb, ◌==◌, if◌then◌else◌}
use unknown.Base.Bytes
use unknown.Base.Bytes.{Bytes}
use unknown.Storage.{
  MetaKey, height_key, supply_key, TableName, nullifiers_table, leaves_table, meta_table,
}

-- The entries of the tables in the order of their keys, and which tables there are.
pub record Contents : Type 0 where
  pub leaves : List (ℕ × Bytes)
  pub nullifiers : List (Bytes × ℕ)
  pub meta_height : Option ℕ
  pub meta_supply : Option ℕ
  pub has_leaves : Bool
  pub has_nullifiers : Bool
  pub has_meta : Bool

abbrev pub leaf_set : ℕ → Bytes → List (ℕ × Bytes) → List (ℕ × Bytes)
leaf_set pos cm [] = (pos, cm) ∷ []
leaf_set pos cm ((pos', cm') ∷ table) =
    let rest = leaf_set pos cm table in
    if ltb pos pos'
    then (pos, cm) ∷ (pos', cm') ∷ table
    else if pos == pos'
    then (pos, cm) ∷ table
    else (pos', cm') ∷ rest

abbrev pub spent_set : Bytes → ℕ → List (Bytes × ℕ) → List (Bytes × ℕ)
spent_set nf height [] = (nf, height) ∷ []
spent_set nf height ((nf', height') ∷ table) =
    let rest = spent_set nf height table in
    if Bytes.lt nf nf'
    then (nf, height) ∷ (nf', height') ∷ table
    else if Bytes.eq nf nf'
    then (nf, height) ∷ table
    else (nf', height') ∷ rest

abbrev pub meta_set : MetaKey → ℕ → Contents → Contents
meta_set height_key value c = record c { meta_height = some value }
meta_set supply_key value c = record c { meta_supply = some value }

abbrev pub meta_at : MetaKey → Contents → Option ℕ
meta_at height_key c = c.meta_height
meta_at supply_key c = c.meta_supply

-- Opening a table to write creates it.
abbrev pub with_table : TableName → Contents → Contents
with_table nullifiers_table c = record c { has_nullifiers = true }
with_table leaves_table c = record c { has_leaves = true }
with_table meta_table c = record c { has_meta = true }

abbrev pub has_table : TableName → Contents → Bool
has_table nullifiers_table c = c.has_nullifiers
has_table leaves_table c = c.has_leaves
has_table meta_table c = c.has_meta

-- Several insertions, one after the other.
abbrev pub leaves_set : List (ℕ × Bytes) → List (ℕ × Bytes) → List (ℕ × Bytes)
leaves_set [] table = table
leaves_set ((pos, cm) ∷ new) table = leaves_set new (leaf_set pos cm table)

abbrev pub spents_set : List Bytes → ℕ → List (Bytes × ℕ) → List (Bytes × ℕ)
spents_set [] height table = table
spents_set (nf ∷ new) height table = spents_set new height (spent_set nf height table)
