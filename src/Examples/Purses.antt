-- ===== src/Examples/Purses.antt =====
-- A wallet with two notes: a choice of both, and a transfer of one of them.
use unknown.Base.{
  ℕ, ◌≡◌, ◌≢◌, refl, arith, true, Option, some, none, Result, ok, err, List, [], ◌∷◌,
}
use unknown.Base.Bytes.{eq_refl}
use unknown.Primitives.{hash_parts, frame, derive_key}
use unknown.Interfaces.{Anchor, MerklePath, tree_depth}
use unknown.Keys.{SpendingKey, nk, addr_tag, ask, address}
use unknown.Notes.{Note, nullifier, dummy, commitment, rho_transfer}
use unknown.Pow
use unknown.Tree.{
  CommitmentTree, root, verify_path, path_root, climb, next_level, node_hash, empty_roots,
  empty_from, siblings_from, sibling_at,
}
use unknown.ProverDev.{
  canonicalize, insert_sorted, sort_inputs, public_inputs, check_input, check_inputs, check_output,
  check_outputs, check_spend_statement, prove,
}
use unknown.Encryption.{encrypt_note, seal_note}
use unknown.State.{Ledger, nullifier_seen, judge, start}
use unknown.Tx.{TxV1, binding_digest}
use unknown.Wallet.{
  Wallet, NoteRecord, insufficient_funds, too_many_inputs_needed, select_inputs, select_from,
  select_pair,
}
use unknown.Wallet.Transfer.{
  Failure, build_transfer, build_from, assemble, encrypt_both, complete, finish, output_note,
  dummies, with_paths,
}
use unknown.Wallet.Choice.{IsAnswer, select_inputs-IsAnswer}
use unknown.Wallet.Padding.{padding_nullifier, single-rejected}
use unknown.Examples.{toy, filled, trusting}
use unknown.Examples.Letters.{toy_ciphers, somewhere}
use unknown.Examples.Ledgers.{first, spend}

abbrev pub owner : SpendingKey
owner = record { sk = filled 8 }

abbrev pub note_of : ℕ → Note
note_of value = record {
  value = value;
  addr_tag = addr_tag owner;
  rho = filled 9;
  rseed = filled 8;
}

abbrev pub purse : Wallet
purse = record {
  sk = owner;
  unspent =
      record { note = note_of 100; position = 0 } ∷ record { note = note_of 50; position = 1 } ∷ [];
  seen_nullifiers = [];
}

abbrev both : List NoteRecord
both = record { note = note_of 100; position = 0 } ∷ record { note = note_of 50; position = 1 } ∷ []

chosen : select_inputs purse 120 ≡ ok both
unfolding select_inputs select_from select_pair
chosen = refl

select_inputs-IsAnswer_example : IsAnswer 120 purse.unspent (select_inputs purse 120)
select_inputs-IsAnswer_example = select_inputs-IsAnswer purse 120 (omega arith)

-- The three answers at work.
refuses_151 : select_inputs purse 151 ≡ err (insufficient_funds 150 151)
unfolding select_inputs
refuses_151 = refl

refuses_three :
    select_inputs (record purse { unspent = record { note = note_of 7; position = 2 } ∷ both }) 155
    ≡ err too_many_inputs_needed
unfolding select_inputs select_from select_pair
refuses_three = refl

abbrev pub tree : CommitmentTree
tree = record {
  leaves = commitment (note_of 100) ∷ commitment (note_of 50) ∷ [];
  empty = empty_roots;
  anchors = [];
}

abbrev pub anchor : Anchor
anchor = record { height = 0; root = root tree }

abbrev pub paths : ℕ → Option MerklePath
paths position = some (record {
  position = position;
  siblings = siblings_from tree_depth 0 tree.empty tree.leaves position;
})

abbrev pub value_or : TxV1 → Result TxV1 Failure → TxV1
value_or other (ok tx) = tx
value_or other (err e) = other

abbrev made : TxV1
made = value_or (spend 1 2) (build_transfer purse somewhere 30 anchor paths (filled 7))

pub one_chosen : select_inputs purse 30 ≡ ok (record { note = note_of 50; position = 1 } ∷ [])
unfolding select_inputs select_from select_pair
one_chosen = refl

built : build_transfer purse somewhere 30 anchor paths (filled 7) ≡ ok made
unfolding build_transfer build_from assemble encrypt_both complete finish output_note dummies
    with_paths select_inputs select_from select_pair encrypt_note seal_note address addr_tag ask
    Pow.solve Pow.solve_loop Pow.leading_zero_bits Pow.pow_hash prove check_spend_statement
    check_inputs check_input check_outputs check_output canonicalize sort_inputs insert_sorted
    public_inputs commitment nullifier dummy rho_transfer hash_parts frame root climb next_level
    node_hash empty_roots empty_from siblings_from sibling_at verify_path path_root nk derive_key
    binding_digest
built = refl

abbrev later : Ledger
later = record first { nullifiers = padding_nullifier owner ∷ [] }

padding_spent : nullifier_seen later (padding_nullifier owner) ≡ true
padding_spent = rw (eq_refl (padding_nullifier owner)) refl

single-rejected_example : judge later trusting 1 (start later) made ≢ (later.quota, none)
single-rejected_example =
    single-rejected purse somewhere 30 anchor paths (filled 7)
      (record { note = note_of 50; position = 1 }) {tx = made} later trusting 1 (start later)
      later.quota one_chosen built padding_spent
