-- ===== src/ProverDev.antt =====
-- crates/prover-dev/src/lib.rs: the spend statement, and the development prover and verifier.
pub mod Statement
pub mod Proving
pub mod Authority
pub mod Minting
use unknown.Base.{
  ℕ, ◌+◌, Bool, true, false, not, ◌&&◌, Result, ok, err, ◌>>=◌, ◌>>◌, fail_if, List, [], ◌∷◌, ◌++◌,
  length, take, drop, replicate, any, get_or, leb, ◌==◌, ◌||◌, if◌then◌else◌,
}
use mathlib.Core.List.{map}
use unknown.Base.Bytes
use unknown.Base.Bytes.{Bytes}
use unknown.Primitives.{Blake3, hash_parts, dev_proof}
use unknown.Interfaces.{
  Anchor, MerklePath, SpendPublicInputs, ProveError, unsatisfied, VerifyError, SpendVerifier,
  invalid, malformed, encode, tx_inputs, tx_outputs, max_money, proof_bucket,
}
use unknown.Notes.{Note, commitment, nullifier, rho_transfer}
use unknown.Tree.{verify_path}

pub record InputWitness : Type 0 where
  pub note : Note
  pub path : MerklePath
  pub is_dummy : Bool

pub record SpendWitness : Type 0 where
  pub spender_nk : Bytes
  pub spender_addr_tag : Bytes
  pub inputs : List InputWitness
  pub outputs : List Note
  pub mint_value : ℕ
  pub binding_digest : Bytes

module _ ⦃b : Blake3⦄ where
  -- `sort_by_key` is a stable sort: an input goes before the later ones with its key.
  unfoldable pub insert_sorted : Bytes → InputWitness → List InputWitness → List InputWitness
  insert_sorted nk i [] = i ∷ []
  insert_sorted nk i (j ∷ js) =
      if Bytes.lt (nullifier j.note nk) (nullifier i.note nk)
      then j ∷ insert_sorted nk i js
      else i ∷ j ∷ js

  unfoldable pub sort_inputs : Bytes → List InputWitness → List InputWitness
  sort_inputs nk [] = []
  sort_inputs nk (i ∷ is) = insert_sorted nk i (sort_inputs nk is)

  unfoldable pub canonicalize : SpendWitness → SpendWitness
  canonicalize w = record w { inputs = sort_inputs w.spender_nk w.inputs }

  unfoldable pub public_inputs : SpendWitness → Anchor → SpendPublicInputs
  public_inputs w anchor = record {
    anchor = anchor;
    nullifiers = map (λ (i : InputWitness). nullifier i.note w.spender_nk) w.inputs;
    commitments = map commitment w.outputs;
    binding_digest = w.binding_digest;
    mint_value = w.mint_value;
  }

  -- One round of the loop over the inputs.
  unfoldable pub check_input :
      SpendWitness → SpendPublicInputs → ℕ → InputWitness → Result (Unit {0}) ProveError
  check_input w pi i input = do
    fail_if (input.is_dummy && not (input.note.value == 0))
        (unsatisfied "C4: dummy note must have zero value")
    fail_if (leb max_money input.note.value) (unsatisfied "C6: input value out of range")
    fail_if
        (not input.is_dummy && not (verify_path (commitment input.note) input.path pi.anchor.root))
        (unsatisfied "C1: membership proof invalid")
    fail_if (not input.is_dummy && not (Bytes.eq input.note.addr_tag w.spender_addr_tag))
        (unsatisfied "C3: note not owned by spender")
    fail_if (not (Bytes.eq (nullifier input.note w.spender_nk) (get_or pi.nullifiers i [])))
        (unsatisfied "C2: nullifier derivation mismatch")

  unfoldable pub check_inputs :
      SpendWitness → SpendPublicInputs → ℕ → List InputWitness → ℕ → Result ℕ ProveError
  unfolding check_input
  check_inputs w pi i [] value_in = ok value_in
  check_inputs w pi i (input ∷ rest) value_in = do
    check_input w pi i input
    check_inputs w pi (i + 1) rest (value_in + input.note.value)

  -- One round of the loop over the outputs.
  unfoldable pub check_output :
      SpendWitness → SpendPublicInputs → ℕ → Note → Result (Unit {0}) ProveError
  check_output w pi i out = do
    fail_if (leb max_money out.value) (unsatisfied "C6: output value out of range")
    fail_if (not (Bytes.eq (commitment out) (get_or pi.commitments i [])))
        (unsatisfied "C5: output commitment mismatch")
    fail_if
        ((w.mint_value == 0) && not (Bytes.eq out.rho (rho_transfer (get_or pi.nullifiers 0 []) i)))
        (unsatisfied "C5: output rho derivation invalid")

  unfoldable pub check_outputs :
      SpendWitness → SpendPublicInputs → ℕ → List Note → ℕ → Result ℕ ProveError
  unfolding check_output
  check_outputs w pi i [] value_out = ok value_out
  check_outputs w pi i (out ∷ rest) value_out = do
    check_output w pi i out
    check_outputs w pi (i + 1) rest (value_out + out.value)

  unfoldable pub check_spend_statement :
      SpendWitness → SpendPublicInputs → Result (Unit {0}) ProveError
  unfolding check_inputs check_outputs
  check_spend_statement w pi = do
    fail_if (not (length w.inputs == tx_inputs) || not (length w.outputs == tx_outputs))
        (unsatisfied "C0: wrong input/output arity")
    fail_if (not (length pi.nullifiers == tx_inputs) || not (length pi.commitments == tx_outputs))
        (unsatisfied "C0: public input arity")
    fail_if (not (Bytes.eq pi.binding_digest w.binding_digest))
        (unsatisfied "C8: binding digest mismatch")
    value_in ← check_inputs w pi 0 w.inputs 0
    value_out ← check_outputs w pi 0 w.outputs 0
    fail_if (leb max_money w.mint_value) (unsatisfied "C6: mint value out of range")
    fail_if (not (value_in + w.mint_value == value_out)) (unsatisfied "C7: value imbalance")

  unfoldable pub dev_tag : SpendPublicInputs → Bytes
  dev_tag pi = hash_parts dev_proof (encode pi ∷ [])

  -- A tag has 32 bytes; `resize` fills the bucket with zeros.
  unfoldable pub prove : SpendWitness → Anchor → Result (SpendPublicInputs × Bytes) ProveError
  unfolding canonicalize public_inputs check_spend_statement
  prove w anchor =
      let sorted = canonicalize w in
      let pi = public_inputs sorted anchor in
      do check_spend_statement sorted pi; ok (pi, dev_tag pi ++ replicate 160 0)

  unfoldable pub dev_verify : SpendPublicInputs → Bytes → Result (Unit {0}) VerifyError
  dev_verify pi proof = do
    fail_if (not (length proof == proof_bucket)) malformed
    fail_if (any (λ x. not (x == 0)) (drop 32 proof)) malformed
    if Bytes.eq (take 32 proof) (dev_tag pi) then ok tt else err invalid

  unfoldable pub dev_verifier : SpendVerifier
  unfolding dev_verify
  dev_verifier = record { verify = dev_verify }
