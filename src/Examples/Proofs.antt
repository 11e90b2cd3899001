-- ===== src/Examples/Proofs.antt =====
-- A transfer of one coin and a dummy, proved and verified by the development prover.
use mathlib.Core.List.{Permᴰ}
use unknown.Base.{
  ap, All, get_or, ◌≢◌, ◌≡◌, ◌↔◌, ◌⊎◌, refl, arith, true, false, ok, [], ◌∷◌, ◌++◌, length,
  replicate,
}
use unknown.Base.Bytes.{Bytes}
use unknown.Primitives.{hash_parts, frame, dev_proof}
use unknown.Primitives.Binding.{Collides}
use unknown.Interfaces.{Anchor, SpendPublicInputs, tree_depth, encode}
use unknown.Interfaces.Encoding.{IsWellSized}
use unknown.Notes.{Note, commitment, nullifier, dummy, rho_transfer}
use unknown.Tree.{
  CommitmentTree, root, verify_path, path_root, climb, next_level, node_hash, empty_roots,
  empty_from, siblings_from, sibling_at,
}
use unknown.ProverDev.{
  InputWitness, SpendWitness, canonicalize, insert_sorted, sort_inputs, public_inputs, check_input,
  check_inputs, check_output, check_outputs, check_spend_statement, prove, dev_verify, dev_tag,
}
use unknown.ProverDev.Statement.{IsSpend, check_spend_statement_iff}
use unknown.ProverDev.Proving.{AreAscending, prove-verifies, dev_verify_binding, tag_verifies}
use unknown.ProverDev.Authority.{respend, Apart, AreNotes, respend-proves}
use unknown.ProverDev.Minting.{minting, free_mint}
use unknown.Examples.{toy, filled}

abbrev pub key : Bytes
key = filled 3

abbrev pub coin : Note
coin = record { value = 100; addr_tag = filled 4; rho = filled 9; rseed = filled 8 }

abbrev pub tree : CommitmentTree
tree = record { leaves = commitment coin ∷ []; empty = empty_roots; anchors = [] }

abbrev pub anchor : Anchor
anchor = record { height = 0; root = root tree }

abbrev pub real : InputWitness
real = record {
  note = coin;
  path = record { position = 0; siblings = siblings_from tree_depth 0 tree.empty tree.leaves 0 };
  is_dummy = false;
}

abbrev pub padding : InputWitness
padding = record {
  note = dummy (filled 208);
  path = record { position = 0; siblings = replicate tree_depth (filled 0) };
  is_dummy = true;
}

abbrev pub spend_of : Bytes → SpendWitness
spend_of first_nf = record {
  spender_nk = key;
  spender_addr_tag = filled 4;
  inputs = real ∷ padding ∷ [];
  outputs =
      record { value = 30; addr_tag = filled 6; rho = rho_transfer first_nf 0; rseed = filled 1 }
      ∷ record { value = 70; addr_tag = filled 4; rho = rho_transfer first_nf 1; rseed = filled 2 }
      ∷ [];
  mint_value = 0;
  binding_digest = filled 5;
}

abbrev pub transfer : SpendWitness
transfer = spend_of (nullifier coin key)

abbrev pub inputs_public : SpendPublicInputs
inputs_public = public_inputs (canonicalize transfer) anchor

abbrev proof : Bytes
proof = dev_tag inputs_public ++ replicate 160 0

check_spend_statement_iff_example :
    (check_spend_statement (canonicalize transfer) inputs_public ≡ ok tt)
    ↔ IsSpend (canonicalize transfer) inputs_public
check_spend_statement_iff_example = check_spend_statement_iff (canonicalize transfer) inputs_public

proved : prove transfer anchor ≡ ok (inputs_public, proof)
unfolding prove check_spend_statement check_inputs check_input check_outputs check_output
    canonicalize sort_inputs insert_sorted public_inputs commitment nullifier dummy rho_transfer
    hash_parts frame root climb next_level node_hash empty_roots empty_from siblings_from sibling_at
    verify_path path_root
proved = refl

prove-verifies_example :
    IsSpend (canonicalize transfer) inputs_public
    × (inputs_public ≡ public_inputs (canonicalize transfer) anchor)
    × AreAscending inputs_public.nullifiers
    × (dev_verify inputs_public proof ≡ ok tt)
prove-verifies_example = prove-verifies transfer anchor inputs_public proof proved

inputs_public-IsWellSized : IsWellSized inputs_public × (length (encode inputs_public) ≡ 210)
unfolding encode prove check_spend_statement canonicalize sort_inputs insert_sorted public_inputs
    commitment nullifier dummy rho_transfer hash_parts frame root climb next_level node_hash
    empty_roots empty_from
inputs_public-IsWellSized = (
  record {
    height = omega arith;
    root = refl;
    nullifiers = (refl, (refl, tt));
    few_nullifiers = omega arith;
    commitments = (refl, (refl, tt));
    few_commitments = omega arith;
    binding = refl;
    mint = omega arith;
  },
  refl,
)

dev_verify_binding_example :
    (inputs_public ≡ inputs_public)
    ⊎ Collides dev_proof (frame (encode inputs_public ∷ [])) (frame (encode inputs_public ∷ []))
dev_verify_binding_example =
    dev_verify_binding inputs_public inputs_public proof inputs_public-IsWellSized.0
      inputs_public-IsWellSized.0 (omega (arith, inputs_public-IsWellSized.1))
      (omega (arith, inputs_public-IsWellSized.1)) (tag_verifies inputs_public)
      (tag_verifies inputs_public)

satisfied : IsSpend (canonicalize transfer) inputs_public
satisfied = (prove-verifies transfer anchor inputs_public proof proved).0

other_key : filled 2 ≢ key
other_key e = omega (arith, ap (λ bytes. get_or bytes 0 0) e)

spent_notes : AreNotes (canonicalize transfer).inputs
unfolding canonicalize sort_inputs insert_sorted nullifier dummy hash_parts frame
spent_notes = (
  record { value = omega arith; addr_tag = refl; rho = refl; rseed = refl },
  (record { value = omega arith; addr_tag = refl; rho = refl; rseed = refl }, tt),
)

respend-proves_example :
    let w = canonicalize transfer in
    let w' = respend (filled 2) w in
    Permᴰ w.inputs w'.inputs
    × ((proof' : Bytes) × (prove w' inputs_public.anchor
          ≡ ok (public_inputs w' inputs_public.anchor, proof')))
    × Apart (filled 2) w.spender_nk w.inputs w.inputs
unfolding canonicalize
respend-proves_example =
    respend-proves (canonicalize transfer) inputs_public (filled 2) satisfied refl refl other_key
      spent_notes

free_mint_example :
    let w = minting key (filled 4) (filled 5) coin (record coin { value = 0 }) in
    let pi = record (public_inputs w anchor) { mint_value = 0 } in
    (check_spend_statement w pi ≡ ok tt)
    × (All (λ i. i.is_dummy ≡ true) w.inputs)
    × (pi.commitments ≡ commitment coin ∷ commitment (record coin { value = 0 }) ∷ [])
free_mint_example =
    free_mint coin (record coin { value = 0 }) key (filled 4) (filled 5) anchor (omega arith)
      (omega arith)
