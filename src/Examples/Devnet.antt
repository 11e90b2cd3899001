-- ===== src/Examples/Devnet.antt =====
-- The devnet's demo under the toy hash, with ciphers that tell recipients apart.
use unknown.Base.{
  ℕ, ◌-◌, ◌≡◌, refl, arith, true, some, none, ok, Option, [], ◌∷◌, ◌++◌, length, length-append,
  length-take, length-replicate, replicate, take, drop, take_append, drop_append, if◌then◌else◌,
}
use unknown.Base.Bytes.{Bytes, eq, eq_refl}
use unknown.Keys.{Ciphers, mlkem_pk_len, mlkem_ct_len}
use unknown.Primitives.{hash_parts, frame, derive_key}
use unknown.Keys.{
  nk, addr_tag, ask, address, from_seed, incoming_viewing_key, x25519_secret, kem_seed,
}
use unknown.Notes.{nullifier, dummy, commitment, rho_transfer, rho_mint}
use unknown.Pow
use unknown.Tree
use unknown.Emission.{
  emission_at, decay_factor, reward_descriptor, distribute, floor_shares, hand_out,
}
use unknown.ProverDev.{
  dev_verifier, dev_verify, dev_tag, canonicalize, insert_sorted, sort_inputs, public_inputs,
  check_input, check_inputs, check_output, check_outputs, check_spend_statement, prove,
}
use unknown.Interfaces
use unknown.Encryption.{
  encrypt_note, seal_note, try_decrypt, open_shared, open_text, open_plaintext, encode_plaintext,
  derive_aead,
}
use unknown.State.{allocate, genesis, conflict, judge, judge_lane, stage_all, current_anchor}
use unknown.State.Checkpoint.{mint, reward_note, apply_checkpoint, audit_supply, minted_from}
use unknown.Tx.{binding_digest, to_public_inputs, check_antispam, validate_stateless}
use unknown.Wallet.{
  new_wallet, try_receive, receive, retain, select_inputs, select_from, select_pair,
  observe_nullifiers,
}
use unknown.Wallet.Transfer.{
  build_transfer, build_from, assemble, encrypt_both, complete, finish, output_note, dummies,
  with_paths, derive_rseed,
}
use unknown.Node.{
  funded, builds, sealed, balances, final, anchor, alice_note, genesis_demo, deliver_output,
  deliver, checkpoint, checkpoint_with, first_transfer, second_transfer, run_funded, run_demo,
}
use unknown.Examples.{toy, filled}

-- Sixteen bytes of the key.
abbrev tag_of : Bytes → Bytes
tag_of key = take 16 (key ++ replicate 16 0)

length-tag_of : (key : Bytes) → length (tag_of key) ≡ 16
length-tag_of key =
    omega (arith, length-take 16 (key ++ replicate 16 0), length-append key (replicate 16 0))

abbrev open_with : Bytes → Bytes → Option Bytes
open_with key ct =
    if eq (drop (length ct - 16) ct) (tag_of key) then some (take (length ct - 16) ct) else none

open_with_seal : (key text : Bytes) → open_with key (text ++ tag_of key) ≡ some text
open_with_seal key text =
    let size : length text ≡ length (text ++ tag_of key) - 16 =
      omega (arith, length-append text (tag_of key), length-tag_of key) in
    rw
      (
        drop_append (length (text ++ tag_of key) - 16) text (tag_of key) size,
        take_append (length (text ++ tag_of key) - 16) text (tag_of key) size,
        eq_refl (tag_of key),
      )
      refl

-- A text sealed with a tag of its key, and constants for the keys and the shared secrets.
instance abbrev keyed_ciphers : Ciphers
keyed_ciphers = record {
  x25519_public = λ s. filled 1;
  diffie_hellman = λ s p. filled 2;
  encapsulation_key = λ seed. replicate mlkem_pk_len 3;
  encapsulate = λ pk m. some (replicate mlkem_ct_len 4, filled 5);
  decapsulate = λ seed ct. filled 5;
  aead_encrypt = λ key nonce text. text ++ tag_of key;
  aead_decrypt = λ key nonce ct. open_with key ct;
  hex_encode = λ bytes. bytes;
  hex_decode = λ bytes. some bytes;
  dh_agree = λ s t. refl;
  length-public = λ s. refl;
  length-key = λ seed. length-replicate {A = ℕ} mlkem_pk_len 3;
  kem_agree = λ seed m.
      (replicate mlkem_ct_len 4, filled 5, refl, refl, length-replicate {A = ℕ} mlkem_ct_len 4);
  aead_agree = λ key nonce text. open_with_seal key text;
  length-aead = λ key nonce text. omega (arith, length-append text (tag_of key), length-tag_of key);
  hex_agree = λ bytes. refl;
}

-- The demo runs to its end, with the balances that it expects.
run_demo_succeeds :
    run_demo
    ≡ ok (
        funded 1000000 1000000
        ∷ builds 250000
        ∷ sealed (record {
          height = 1;
          accepted = 1;
          rejected = 0;
          emission = 9995;
          supply = 1009995;
          audit = true;
        })
        ∷ balances 750000 250000 0
        ∷ builds 100000
        ∷ sealed (record {
          height = 2;
          accepted = 1;
          rejected = 0;
          emission = 9990;
          supply = 1019985;
          audit = true;
        })
        ∷ balances 750000 150000 100000
        ∷ final 1019985
        ∷ [])
unfolding run_demo anchor alice_note genesis_demo deliver_output deliver checkpoint checkpoint_with
    first_transfer second_transfer run_funded build_transfer build_from assemble encrypt_both
    complete finish new_wallet try_receive receive retain output_note dummies with_paths
    select_inputs select_from select_pair observe_nullifiers derive_rseed binding_digest
    to_public_inputs check_antispam validate_stateless allocate genesis conflict judge judge_lane
    stage_all mint reward_note apply_checkpoint current_anchor audit_supply minted_from encrypt_note
    seal_note try_decrypt open_shared open_text open_plaintext encode_plaintext derive_aead
    dev_verifier dev_verify dev_tag canonicalize insert_sorted sort_inputs public_inputs check_input
    check_inputs check_output check_outputs check_spend_statement prove emission_at decay_factor
    reward_descriptor distribute floor_shares hand_out nullifier dummy commitment rho_transfer
    rho_mint nk addr_tag ask address from_seed incoming_viewing_key x25519_secret kem_seed
    hash_parts frame derive_key Pow.solve Pow.solve_loop Pow.verify Pow.leading_zero_bits
    Pow.pow_hash Tree.new Tree.append Tree.root Tree.climb Tree.next_level Tree.node_hash
    Tree.empty_roots Tree.empty_from Tree.witness Tree.siblings_from Tree.sibling_at Tree.seal
    Tree.evict Tree.anchor_valid Tree.path_root Tree.verify_path Tree.len Interfaces.encode
run_demo_succeeds = refl
