-- ===== src/ProverDev/Statement.antt =====
-- What the spend statement accepts.
use unknown.Base.{
  ℕ, ◌+◌, ◌<◌, ◌≡◌, ◌↔◌, refl, arith, true, false, ok, >>=-eq-ok, guard_iff, fail_if_iff, not_iff,
  or_not_iff, and_not_iff, not_and_not_iff, List, [], ◌∷◌, length, get_or, AllFrom, ◌==◌, ==_iff,
  leb,
}
use unknown.Base.Bytes.{eq_iff}
use unknown.Primitives.{Blake3}
use unknown.Interfaces.{SpendPublicInputs, tx_inputs, tx_outputs, max_money}
use unknown.Notes.{Note, commitment, nullifier, rho_transfer}
use unknown.Tree.{verify_path}
use unknown.ProverDev.{
  InputWitness, SpendWitness, check_input, check_inputs, check_output, check_outputs,
  check_spend_statement,
}

-- The values of a list of inputs and of outputs.
abbrev pub total_in : List InputWitness → ℕ
total_in [] = 0
total_in (i ∷ is) = i.note.value + total_in is

abbrev pub total_out : List Note → ℕ
total_out [] = 0
total_out (o ∷ os) = o.value + total_out os

module _ ⦃b : Blake3⦄ where
  -- What is asked of the input at index `i`.
  pub record IsInput (w : SpendWitness) (pi : SpendPublicInputs) (i : ℕ) (input : InputWitness)
      : Type 0 where
    pub dummy_empty : input.is_dummy ≡ true → input.note.value ≡ 0
    pub in_range : input.note.value < max_money
    pub member :
        input.is_dummy ≡ false
        → verify_path (commitment input.note) input.path pi.anchor.root ≡ true
    pub owned : input.is_dummy ≡ false → input.note.addr_tag ≡ w.spender_addr_tag
    pub derived : nullifier input.note w.spender_nk ≡ get_or pi.nullifiers i []

  -- What is asked of the output at index `i`.
  pub record IsOutput (w : SpendWitness) (pi : SpendPublicInputs) (i : ℕ) (out : Note)
      : Type 0 where
    pub in_range : out.value < max_money
    pub committed : commitment out ≡ get_or pi.commitments i []
    pub rho_bound : w.mint_value ≡ 0 → out.rho ≡ rho_transfer (get_or pi.nullifiers 0 []) i

  -- The spend statement.
  pub record IsSpend (w : SpendWitness) (pi : SpendPublicInputs) : Type 0 where
    pub two_inputs : length w.inputs ≡ tx_inputs
    pub two_outputs : length w.outputs ≡ tx_outputs
    pub two_nullifiers : length pi.nullifiers ≡ tx_inputs
    pub two_commitments : length pi.commitments ≡ tx_outputs
    pub bound : pi.binding_digest ≡ w.binding_digest
    pub inputs : AllFrom (IsInput w pi) 0 w.inputs
    pub outputs : AllFrom (IsOutput w pi) 0 w.outputs
    pub mint_in_range : w.mint_value < max_money
    pub balance : total_in w.inputs + w.mint_value ≡ total_out w.outputs

  module _ (w : SpendWitness) (pi : SpendPublicInputs) where
    in_range_iff : (v : ℕ) → (leb max_money v ≡ false) ↔ (v < max_money)
    in_range_iff v = ground arith

    pub check_input_iff :
        (i : ℕ) (input : InputWitness) → (check_input w pi i input ≡ ok tt) ↔ IsInput w pi i input
    unfolding check_input
    check_input_iff i input = (
      (λ e.
          let s1 = (guard_iff _ _ _ tt).0 e in
          let s2 = (guard_iff _ _ _ tt).0 s1.1 in
          let s3 = (guard_iff _ _ _ tt).0 s2.1 in
          let s4 = (guard_iff _ _ _ tt).0 s3.1 in
          record {
            dummy_empty = λ d.
                (==_iff input.note.value 0).0
                  ((and_not_iff input.is_dummy (input.note.value == 0)).0 s1.0 d);
            in_range = (in_range_iff input.note.value).0 s2.0;
            member = (not_and_not_iff input.is_dummy _).0 s3.0;
            owned = λ d.
                (eq_iff input.note.addr_tag w.spender_addr_tag).0
                  ((not_and_not_iff input.is_dummy _).0 s4.0 d);
            derived =
                (eq_iff (nullifier input.note w.spender_nk) (get_or pi.nullifiers i [])).0
                  ((not_iff _).0 ((fail_if_iff _ _).0 s4.1));
          }),
      (λ h. (guard_iff _ _ _ tt).1 (
        (and_not_iff input.is_dummy _).1 (λ d. (==_iff input.note.value 0).1 (h.dummy_empty d)),
        (guard_iff _ _ _ tt).1 (
          (in_range_iff input.note.value).1 h.in_range,
          (guard_iff _ _ _ tt).1 (
            (not_and_not_iff input.is_dummy _).1 h.member,
            (guard_iff _ _ _ tt).1 (
              (not_and_not_iff input.is_dummy _).1
                  (λ d. (eq_iff input.note.addr_tag w.spender_addr_tag).1 (h.owned d)),
              (fail_if_iff _ _).1
                  ((not_iff _).1 ((eq_iff (nullifier input.note w.spender_nk) _).1 h.derived)),
            ),
          ),
        ),
      )),
    )

    pub check_inputs_iff :
        (i : ℕ) (inputs : List InputWitness) (value_in v : ℕ)
        → (check_inputs w pi i inputs value_in ≡ ok v)
          ↔ (AllFrom (IsInput w pi) i inputs × (value_in + total_in inputs ≡ v))
    unfolding check_inputs
    check_inputs_iff i [] value_in v = (
      (λ e. (tt, let same : value_in ≡ v = cc (e) in omega arith)),
      λ h. let same : value_in ≡ v = omega (arith, h.1) in rw same,
    )
    check_inputs_iff i (input ∷ rest) value_in v = (
      (λ e.
          let (u, first, k) = >>=-eq-ok (check_input w pi i input) _ e in
          let more = (check_inputs_iff (i + 1) rest (value_in + input.note.value) v).0 k in
          (((check_input_iff i input).0 first, more.0), omega (arith, more.1))),
      (λ h. rw ((check_input_iff i input).1 h.0.0) (
          (check_inputs_iff (i + 1) rest (value_in + input.note.value) v).1
            (h.0.1, omega (arith, h.1)))),
    )

    pub check_output_iff :
        (i : ℕ) (out : Note) → (check_output w pi i out ≡ ok tt) ↔ IsOutput w pi i out
    unfolding check_output
    check_output_iff i out = (
      (λ e.
          let s1 = (guard_iff _ _ _ tt).0 e in
          let s2 = (guard_iff _ _ _ tt).0 s1.1 in
          record {
            in_range = (in_range_iff out.value).0 s1.0;
            committed = (eq_iff (commitment out) _).0 ((not_iff _).0 s2.0);
            rho_bound = λ z. (eq_iff out.rho _).0 (
                (and_not_iff (w.mint_value == 0) _).0 ((fail_if_iff _ _).0 s2.1)
                  ((==_iff w.mint_value 0).1 z));
          }),
      (λ h. (guard_iff _ _ _ tt).1 (
        (in_range_iff out.value).1 h.in_range,
        (guard_iff _ _ _ tt).1 (
          (not_iff _).1 ((eq_iff (commitment out) _).1 h.committed),
          (fail_if_iff _ _).1 (
              (and_not_iff (w.mint_value == 0) _).1
                (λ z. (eq_iff out.rho _).1 (h.rho_bound ((==_iff w.mint_value 0).0 z)))),
        ),
      )),
    )

    pub check_outputs_iff :
        (i : ℕ) (outputs : List Note) (value_out v : ℕ)
        → (check_outputs w pi i outputs value_out ≡ ok v)
          ↔ (AllFrom (IsOutput w pi) i outputs × (value_out + total_out outputs ≡ v))
    unfolding check_outputs
    check_outputs_iff i [] value_out v = (
      (λ e. (tt, let same : value_out ≡ v = cc e in omega arith)),
      (λ h. let same : value_out ≡ v = omega (arith, h.1) in rw same),
    )
    check_outputs_iff i (out ∷ rest) value_out v = (
      (λ e.
          let (u, first, k) = >>=-eq-ok (check_output w pi i out) _ e in
          let more = (check_outputs_iff (i + 1) rest (value_out + out.value) v).0 k in
          (((check_output_iff i out).0 first, more.0), omega (arith, more.1))),
      (λ h. rw ((check_output_iff i out).1 h.0.0) (
          (check_outputs_iff (i + 1) rest (value_out + out.value) v).1
            (h.0.1, omega (arith, h.1)))),
    )

  statement_sound :
      (w : SpendWitness) (pi : SpendPublicInputs)
      → check_spend_statement w pi ≡ ok tt
      → IsSpend w pi
  unfolding check_spend_statement
  statement_sound w pi e =
      let s1 = (guard_iff _ _ _ tt).0 e in
      let s2 = (guard_iff _ _ _ tt).0 s1.1 in
      let s3 = (guard_iff _ _ _ tt).0 s2.1 in
      let (value_in, f4, s4) = >>=-eq-ok (check_inputs w pi 0 w.inputs 0) _ s3.1 in
      let (value_out, f5, s5) = >>=-eq-ok (check_outputs w pi 0 w.outputs 0) _ s4 in
      let s6 = (guard_iff _ _ _ tt).0 s5 in
      let ins = (check_inputs_iff w pi 0 w.inputs 0 value_in).0 f4 in
      let outs = (check_outputs_iff w pi 0 w.outputs 0 value_out).0 f5 in
      let arity = (or_not_iff _ _).0 s1.0 in
      let arity' = (or_not_iff _ _).0 s2.0 in
      record {
        two_inputs = (==_iff (length w.inputs) tx_inputs).0 arity.0;
        two_outputs = (==_iff (length w.outputs) tx_outputs).0 arity.1;
        two_nullifiers = (==_iff (length pi.nullifiers) tx_inputs).0 arity'.0;
        two_commitments = (==_iff (length pi.commitments) tx_outputs).0 arity'.1;
        bound = (eq_iff pi.binding_digest w.binding_digest).0 ((not_iff _).0 s3.0);
        inputs = ins.0;
        outputs = outs.0;
        mint_in_range = (in_range_iff w pi w.mint_value).0 s6.0;
        balance =
            let sums =
              (==_iff (value_in + w.mint_value) value_out).0
                ((not_iff _).0 ((fail_if_iff _ _).0 s6.1)) in
            omega (arith, sums, ins.1, outs.1);
      }

  statement_complete :
      (w : SpendWitness) (pi : SpendPublicInputs)
      → IsSpend w pi
      → check_spend_statement w pi ≡ ok tt
  unfolding check_spend_statement
  statement_complete w pi h =
      let total : total_in w.inputs + w.mint_value == total_out w.outputs ≡ true =
        (==_iff _ _).1 h.balance in
      rw
        (
          (==_iff (length w.inputs) tx_inputs).1 h.two_inputs,
          (==_iff (length w.outputs) tx_outputs).1 h.two_outputs,
          (==_iff (length pi.nullifiers) tx_inputs).1 h.two_nullifiers,
          (==_iff (length pi.commitments) tx_outputs).1 h.two_commitments,
          (eq_iff pi.binding_digest w.binding_digest).1 h.bound,
          (check_inputs_iff w pi 0 w.inputs 0 (total_in w.inputs)).1 (h.inputs, omega arith),
          (check_outputs_iff w pi 0 w.outputs 0 (total_out w.outputs)).1 (h.outputs, omega arith),
          (in_range_iff w pi w.mint_value).1 h.mint_in_range,
          total,
        )
        refl

  -- The check succeeds exactly on the witnesses of the spend statement: two inputs and two outputs
  -- with values below 2^62, each real input in the tree under the anchor's root and owned by the
  -- spender, each nullifier and commitment derived from its note, the rho of a transfer's outputs
  -- bound to the first nullifier, the binding digest the public one, and the values of the inputs
  -- with the mint value equal to the values of the outputs.
  pub check_spend_statement_iff :
      (w : SpendWitness) (pi : SpendPublicInputs)
      → (check_spend_statement w pi ≡ ok tt) ↔ IsSpend w pi
  check_spend_statement_iff w pi = (statement_sound w pi, statement_complete w pi)
