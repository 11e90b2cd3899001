-- ===== src/Examples/Payments.antt =====
-- A payment of 30 from the wallet with two notes to another wallet, at a node with one ledger.
use unknown.Base.{◌≡◌, ◌≢◌, refl, ap, arith, true, false, some, ok, [], ◌∷◌, get_elem?, length}
use mathlib.Core.List.{map}
use unknown.Base.Bytes.{eq, eq_refl}
use unknown.Primitives.{hash_parts, frame, derive_key}
use unknown.Keys.{nk, addr_tag, ask, address}
use unknown.Notes.{nullifier, dummy, commitment, rho_transfer}
use unknown.Pow
use unknown.Interfaces
use unknown.Emission.{
  emission_at, decay_factor, reward_descriptor, distribute, floor_shares, hand_out,
}
use unknown.Quota
use unknown.Tree
use unknown.Tree.{
  root, verify_path, path_root, climb, next_level, node_hash, empty_roots, empty_from,
  siblings_from, sibling_at,
}
use unknown.ProverDev.{
  dev_verifier, dev_verify, dev_tag, canonicalize, insert_sorted, sort_inputs, public_inputs,
  check_input, check_inputs, check_output, check_outputs, check_spend_statement, prove,
}
use unknown.Encryption.{encrypt_note, seal_note}
use unknown.State.{Ledger, conflict, judge, judge_lane, stage_all}
use unknown.State.Checkpoint.{mint, reward_note, apply_checkpoint}
use unknown.State.Accepted.{accepted_by}
use unknown.Tx.{TxV1, binding_digest, validate_stateless, check_antispam, to_public_inputs}
use unknown.Wallet.{Wallet, select_inputs, select_from, select_pair, observe_nullifiers}
use unknown.Wallet.Transfer.{
  build_transfer, build_from, assemble, encrypt_both, complete, finish, output_note, dummies,
  with_paths,
}
use unknown.Wallet.Progress.{IsSpendable}
use unknown.Wallet.Payment.{build_transfer_total}
use unknown.Node.{Demo, checkpoint, all_nullifiers}
use unknown.Node.Delivery.{checkpoint-delivers, receive_all, delivered}
use unknown.Node.Payment.{Holds, payment-settles}
use unknown.Examples.{toy, filled}
use unknown.Examples.Letters.{toy_ciphers}
use unknown.Examples.Ledgers.{params, validators, spend}
use unknown.Examples.Purses.{owner, note_of, purse, tree, anchor, paths, value_or, one_chosen}

abbrev payee : Wallet
payee = record { sk = record { sk = filled 3 }; unspent = []; seen_nullifiers = [] }

abbrev paid : TxV1
paid = value_or (spend 1 2) (build_transfer purse (address payee.sk) 30 anchor paths (filled 7))

built : build_transfer purse (address payee.sk) 30 anchor paths (filled 7) ≡ ok paid
unfolding build_transfer build_from assemble encrypt_both complete finish output_note dummies
    with_paths select_inputs select_from select_pair encrypt_note seal_note address addr_tag ask
    Pow.solve Pow.solve_loop Pow.leading_zero_bits Pow.pow_hash prove check_spend_statement
    check_inputs check_input check_outputs check_output canonicalize sort_inputs insert_sorted
    public_inputs commitment nullifier dummy rho_transfer hash_parts frame root climb next_level
    node_hash empty_roots empty_from siblings_from sibling_at verify_path path_root nk derive_key
    binding_digest
built = refl

abbrev ledger : Ledger
ledger = record {
  tree = record tree { anchors = anchor ∷ [] };
  nullifiers = [];
  quota = Quota.new;
  height = 0;
  supply = 150;
  emission = params;
  validators = validators;
  difficulty_bits = 0;
}

anchored : Tree.anchor_valid ledger.tree anchor ≡ true
unfolding Tree.anchor_valid
anchored = rw (eq_refl (root tree)) refl

different : eq paid.nullifiers.0 paid.nullifiers.1 ≡ false
unfolding build_transfer build_from assemble encrypt_both complete finish output_note dummies
    with_paths select_inputs select_from select_pair encrypt_note seal_note address addr_tag ask
    Pow.solve Pow.solve_loop Pow.leading_zero_bits Pow.pow_hash prove check_spend_statement
    check_inputs check_input check_outputs check_output canonicalize sort_inputs insert_sorted
    public_inputs commitment nullifier dummy rho_transfer hash_parts frame root climb next_level
    node_hash empty_roots empty_from siblings_from sibling_at verify_path path_root nk derive_key
    binding_digest
different = refl

differ : paid.nullifiers.0 ≢ paid.nullifiers.1
differ e = cc (ap (eq paid.nullifiers.0) e, eq_refl paid.nullifiers.0, different)

abbrev demo : Demo
demo = record { ledger = ledger; genesis_supply = 150 }

room : length (apply_checkpoint ledger (paid ∷ []) dev_verifier).0.tree.leaves ≡ 5
unfolding apply_checkpoint stage_all judge judge_lane conflict mint reward_note Tree.append
    Tree.seal Tree.anchor_valid Tree.evict validate_stateless check_antispam dev_verifier dev_verify
    dev_tag to_public_inputs Interfaces.encode emission_at decay_factor reward_descriptor distribute
    floor_shares hand_out Pow.verify build_transfer build_from assemble encrypt_both complete finish
    output_note dummies with_paths select_inputs select_from select_pair encrypt_note seal_note
    address addr_tag ask Pow.solve Pow.solve_loop Pow.leading_zero_bits Pow.pow_hash prove
    check_spend_statement check_inputs check_input check_outputs check_output canonicalize
    sort_inputs insert_sorted public_inputs commitment nullifier dummy rho_transfer hash_parts frame
    root climb next_level node_hash empty_roots empty_from siblings_from sibling_at verify_path
    path_root nk derive_key binding_digest
room = refl

payment-settles_example :
    (payee' : Wallet) × (get_elem? (checkpoint demo (paid ∷ []) (purse ∷ payee ∷ [])).1 1
      ≡ some payee')
    × Holds (checkpoint demo (paid ∷ []) (purse ∷ payee ∷ [])).0.ledger payee' 30
payment-settles_example =
    payment-settles demo purse 30 anchor paths (filled 7)
      {selected = record { note = note_of 50; position = 1 } ∷ []} {tx = paid} (purse ∷ payee ∷ [])
      1 payee refl built one_chosen (omega arith) (omega arith) (omega arith) (omega arith) refl
      anchored differ refl refl (omega (arith, room))

checkpoint-delivers_example :
    (checkpoint demo (paid ∷ []) (purse ∷ payee ∷ [])).1
    ≡ map
        (λ (w : Wallet).
          receive_all
            (observe_nullifiers w (all_nullifiers (paid ∷ [])))
            (delivered (accepted_by ledger (paid ∷ []) dev_verifier))
            2)
        (purse ∷ payee ∷ [])
checkpoint-delivers_example = checkpoint-delivers demo (paid ∷ []) (purse ∷ payee ∷ [])

path_verifies :
    verify_path
      (commitment (note_of 50))
      (record { position = 1; siblings = siblings_from 32 0 tree.empty tree.leaves 1 })
      anchor.root
    ≡ true
unfolding verify_path path_root siblings_from sibling_at root climb next_level node_hash empty_roots
    empty_from commitment hash_parts frame addr_tag ask derive_key
path_verifies = refl

spendable : IsSpendable owner anchor paths (record { note = note_of 50; position = 1 })
spendable = record {
  in_range = omega arith;
  owned = refl;
  path = record { position = 1; siblings = siblings_from 32 0 tree.empty tree.leaves 1 };
  found = refl;
  member = path_verifies;
}

build_transfer_total_example :
    (tx : TxV1) × (build_transfer purse (address payee.sk) 30 anchor paths (filled 7) ≡ ok tx)
build_transfer_total_example =
    build_transfer_total purse payee.sk 30 anchor paths (filled 7)
      {selected = record { note = note_of 50; position = 1 } ∷ []} one_chosen (spendable, tt)
      (omega arith) (omega arith) (omega arith)
