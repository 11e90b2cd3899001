-- ===== src/Knockout/Shapes.antt =====
-- The errors of the spend statement as a whole, from those of its inputs, outputs and balance.
use unknown.Base.{
  ℕ, ◌+◌, ◌<◌, ◌≡◌, ◌⊎◌, inl, inr, ◌∙◌, refl, true, false, not, ok, err, ◌>>=◌, ◌>>◌, fail_if, [],
  ◌∷◌, length, get_or, leb, ◌==◌, ==_iff,
}
use unknown.Base.Bytes.{eq, eq_iff}
use unknown.Primitives.{Blake3}
use unknown.Interfaces.{
  SpendPublicInputs, ProveError, unsatisfied, tx_inputs, tx_outputs, max_money,
}
use unknown.Notes.{Note}
use unknown.ProverDev.{
  InputWitness, SpendWitness, check_input, check_inputs, check_output, check_outputs,
  check_spend_statement,
}
use unknown.ProverDev.Statement.{IsInput, check_input_iff}
use unknown.Knockout.Refusals.{IsPadded, in_range-leb}

module _ ⦃b : Blake3⦄ where
  -- What the check asks for before it looks at the inputs.
  pub record IsShaped (w : SpendWitness) (pi : SpendPublicInputs) : Type 0 where
    pub two_inputs : length w.inputs ≡ tx_inputs
    pub two_outputs : length w.outputs ≡ tx_outputs
    pub two_nullifiers : length pi.nullifiers ≡ tx_inputs
    pub two_commitments : length pi.commitments ≡ tx_outputs
    pub bound : pi.binding_digest ≡ w.binding_digest

  module _ (w : SpendWitness) (pi : SpendPublicInputs) (s : IsShaped w pi) where
    -- The part of the check that follows the arities and the digest.
    past_shape : check_spend_statement w pi ≡ (do
      value_in ← check_inputs w pi 0 w.inputs 0
      value_out ← check_outputs w pi 0 w.outputs 0
      fail_if (leb max_money w.mint_value) (unsatisfied "C6: mint value out of range")
      fail_if (not (value_in + w.mint_value == value_out)) (unsatisfied "C7: value imbalance"))
    unfolding check_spend_statement
    past_shape =
        rw
          (
            (==_iff (length w.inputs) tx_inputs).1 s.two_inputs,
            (==_iff (length w.outputs) tx_outputs).1 s.two_outputs,
            (==_iff (length pi.nullifiers) tx_inputs).1 s.two_nullifiers,
            (==_iff (length pi.commitments) tx_outputs).1 s.two_commitments,
            (eq_iff pi.binding_digest w.binding_digest).1 s.bound,
          )
          refl

    pub refused_at_inputs :
        {e : ProveError}
        → check_inputs w pi 0 w.inputs 0 ≡ err e
        → check_spend_statement w pi ≡ err e
    refused_at_inputs h = rw (past_shape, h) refl

    pub refused_at_outputs :
        (v : ℕ) {e : ProveError}
        → check_inputs w pi 0 w.inputs 0 ≡ ok v
        → check_outputs w pi 0 w.outputs 0 ≡ err e
        → check_spend_statement w pi ≡ err e
    refused_at_outputs v h k = rw (past_shape, h, k) refl

    pub refused_at_balance :
        (v v' : ℕ)
        → check_inputs w pi 0 w.inputs 0 ≡ ok v
        → check_outputs w pi 0 w.outputs 0 ≡ ok v'
        → w.mint_value < max_money
        → (v + w.mint_value == v') ≡ false
        → check_spend_statement w pi ≡ err (unsatisfied "C7: value imbalance")
    refused_at_balance v v' h k m n = rw (past_shape, h, k, in_range-leb w.mint_value m, n) refl

  -- A digest that is not the witness's.
  pub other_digest :
      (w : SpendWitness) (pi : SpendPublicInputs)
      → length w.inputs ≡ tx_inputs
      → length w.outputs ≡ tx_outputs
      → length pi.nullifiers ≡ tx_inputs
      → length pi.commitments ≡ tx_outputs
      → eq pi.binding_digest w.binding_digest ≡ false
      → check_spend_statement w pi ≡ err (unsatisfied "C8: binding digest mismatch")
  unfolding check_spend_statement
  other_digest w pi ins outs nfs cms n =
      rw
        (
          (==_iff (length w.inputs) tx_inputs).1 ins,
          (==_iff (length w.outputs) tx_outputs).1 outs,
          (==_iff (length pi.nullifiers) tx_inputs).1 nfs,
          (==_iff (length pi.commitments) tx_outputs).1 cms,
          n,
        )
        refl

  pub one_input :
      (w : SpendWitness) (pi : SpendPublicInputs)
      → length w.inputs ≡ 1
      → check_spend_statement w pi ≡ err (unsatisfied "C0: wrong input/output arity")
  unfolding check_spend_statement
  one_input w pi h = rw h refl

  -- The first input is refused, or the second after it.
  pub inputs_refused :
      (w : SpendWitness) (pi : SpendPublicInputs) (a c : InputWitness) {e : ProveError}
      → (check_input w pi 0 a ≡ err e) ⊎ (IsInput w pi 0 a × (check_input w pi 1 c ≡ err e))
      → check_inputs w pi 0 (a ∷ c ∷ []) 0 ≡ err e
  unfolding check_inputs
  inputs_refused w pi a c (inl first) = rw first refl
  inputs_refused w pi a c (inr (fine, second)) = rw ((check_input_iff w pi 0 a).1 fine, second) refl

  pub outputs_refused :
      (w : SpendWitness) (pi : SpendPublicInputs) (o o' : Note) {e : ProveError}
      → check_output w pi 0 o ≡ err e
      → check_outputs w pi 0 (o ∷ o' ∷ []) 0 ≡ err e
  unfolding check_outputs
  outputs_refused w pi o o' first = rw first refl

  -- An input is judged by the spender's key and tag, the root and its nullifier.
  pub IsInput-moved :
      (w w' : SpendWitness) (pi pi' : SpendPublicInputs) (i : ℕ) (input : InputWitness)
      → w.spender_nk ≡ w'.spender_nk
      → (input.is_dummy ≡ false → w.spender_addr_tag ≡ w'.spender_addr_tag)
      → (input.is_dummy ≡ false → pi.anchor.root ≡ pi'.anchor.root)
      → get_or pi.nullifiers i [] ≡ get_or pi'.nullifiers i []
      → IsInput w pi i input
      → IsInput w' pi' i input
  IsInput-moved w w' pi pi' i input k t r n h = record {
    dummy_empty = h.dummy_empty;
    in_range = h.in_range;
    member = λ d. rw (← r d) (h.member d);
    owned = λ d. h.owned d ∙ t d;
    derived = rw (← k, ← n) h.derived;
  }

  -- The real one of two inputs is refused, and the dummy is not.
  pub real_refused :
      (w : SpendWitness) (pi : SpendPublicInputs) (a c : InputWitness) {e : ProveError}
      → IsPadded a c
      → (a.is_dummy ≡ false → check_input w pi 0 a ≡ err e)
      → (a.is_dummy ≡ true → IsInput w pi 0 a)
      → (c.is_dummy ≡ false → check_input w pi 1 c ≡ err e)
      → check_inputs w pi 0 (a ∷ c ∷ []) 0 ≡ err e
  real_refused w pi a c (inl (real, pad)) first fine second =
      inputs_refused w pi a c (inl (first real))
  real_refused w pi a c (inr (pad, real)) first fine second =
      inputs_refused w pi a c (inr (fine pad, second real))
