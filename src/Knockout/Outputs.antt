-- ===== src/Knockout/Outputs.antt =====
-- The mutations of the outputs, of the balance, of the digest and of the arity.
use unknown.Base.{==-ne, ◌+◌, ◌<◌, ◌≡◌, ◌≢◌, refl, sym, arith, true, none, All, [], ◌∷◌, length}
use unknown.Base.Bytes.{Bytes, IsByte, eq-ne}
use unknown.Base.Words.{add_u64}
use unknown.Primitives.{Blake3}
use unknown.Interfaces.{Anchor, SpendPublicInputs, max_money}
use unknown.Notes.{Note, commitment, nullifier, rho_transfer}
use unknown.ProverDev.{InputWitness, SpendWitness, public_inputs}
use unknown.ProverDev.Statement.{
  IsOutput, IsSpend, check_spend_statement_iff, total_in, total_out, check_outputs_iff,
}
use unknown.Knockout.{bytes_of, flip_first, expect_reject, baseline_check}
use unknown.Knockout.Mutations.{
  output_value_out_of_range, mismatched_output_commitment, bad_output_rho_derivation,
  value_imbalance, binding_digest_mismatch, input_arity_mismatch,
}
use unknown.Knockout.Flips.{eq-flip_first, eq-flip_first_left}
use unknown.Knockout.Refusals.{excessive_output, other_commitment, unbound_rho}
use unknown.Knockout.Shapes.{
  outputs_refused, other_digest, one_input, refused_at_balance, refused_at_outputs,
}
use unknown.Knockout.Transfers.{transfer, caught, shaped, spent, commitment_full, IsByte-commitment}

module _ ⦃b : Blake3⦄ (spender_nk tag digest : Bytes) (a c : InputWitness) (o o' : Note)
    (anchor : Anchor) where
  abbrev pub w : SpendWitness
  w = transfer spender_nk tag digest a c o o'

  abbrev pub pi : SpendPublicInputs
  unfolding public_inputs
  pi = public_inputs w anchor

  module _ (good : IsSpend w pi) where
    pub commitment_tampered :
        mismatched_output_commitment (w, pi, anchor)
        ≡ caught "C5: mismatched output commitment" "C5" "C5: output commitment mismatch"
    unfolding mismatched_output_commitment expect_reject public_inputs
    commitment_tampered =
        let cm = commitment o in
        let pi' : SpendPublicInputs = record pi {
          commitments = flip_first cm ∷ commitment o' ∷ [];
        } in
        rw
          (refused_at_outputs w pi' (shaped spender_nk digest tag a c o o' pi' refl refl refl) _
            (spent spender_nk tag digest a c o o' anchor good o o' pi' refl refl refl)
            (outputs_refused w pi' o o' (
              other_commitment w pi' 0 o good.outputs.0.in_range
                (eq-flip_first cm (commitment_full o) (IsByte-commitment o)))))
          refl

    pub output_excessive :
        output_value_out_of_range (w, pi, anchor)
        ≡ caught "C6: output value out of range" "C6" "C6: output value out of range"
    unfolding output_value_out_of_range expect_reject public_inputs
    output_excessive =
        let n : Note = record o { value = max_money } in
        let w' = transfer spender_nk tag digest a c n o' in
        let pi' = public_inputs w' anchor in
        rw
          (refused_at_outputs w' pi' (shaped spender_nk digest tag a c n o' pi' refl refl refl) _
            (spent spender_nk tag digest a c o o' anchor good n o' pi' refl refl refl)
            (outputs_refused w' pi' n o' (excessive_output w' pi' 0 n (omega arith))))
          refl

    pub rho_replaced :
        rho_transfer (nullifier a.note spender_nk) 0 ≢ bytes_of 0x42
        → bad_output_rho_derivation (w, pi, anchor)
          ≡ caught "C5: bad output rho derivation" "C5" "C5: output rho derivation invalid"
    unfolding bad_output_rho_derivation expect_reject public_inputs
    rho_replaced other =
        let n : Note = record o { rho = bytes_of 0x42 } in
        let w' = transfer spender_nk tag digest a c n o' in
        let pi' = public_inputs w' anchor in
        rw
          (refused_at_outputs w' pi' (shaped spender_nk digest tag a c n o' pi' refl refl refl) _
            (spent spender_nk tag digest a c o o' anchor good n o' pi' refl refl refl)
            (outputs_refused w' pi' n o' (
              unbound_rho w' pi' 0 n good.outputs.0.in_range refl refl
                (eq-ne (bytes_of 0x42) _ (λ e. other (sym e))))))
          refl

    pub value_raised :
        o.value + 1 < max_money
        → value_imbalance (w, pi, anchor)
          ≡ caught "C7: value imbalance (inflation)" "C7" "C7: value imbalance"
    unfolding value_imbalance expect_reject public_inputs
    value_raised small =
        let n : Note = record o { value = add_u64 o.value 1 } in
        let w' = transfer spender_nk tag digest a c n o' in
        let pi' = public_inputs w' anchor in
        let raised : add_u64 o.value 1 ≡ o.value + 1 = omega arith in
        let first : IsOutput w' pi' 0 n = record {
          in_range = omega (arith, raised);
          committed = refl;
          rho_bound = good.outputs.0.rho_bound;
        } in
        let second : IsOutput w' pi' 1 o' = record {
          in_range = good.outputs.1.0.in_range;
          committed = refl;
          rho_bound = good.outputs.1.0.rho_bound;
        } in
        rw
          (refused_at_balance w' pi' (shaped spender_nk digest tag a c n o' pi' refl refl refl)
            (total_in (a ∷ c ∷ [])) (total_out (n ∷ o' ∷ []))
            (spent spender_nk tag digest a c o o' anchor good n o' pi' refl refl refl)
            ((check_outputs_iff w' pi' 0 (n ∷ o' ∷ []) 0 _).1 ((first, (second, tt)), omega arith))
            (omega arith) (==-ne _ _ (λ e. absurd (omega (arith, raised, e, good.balance)))))
          refl

    pub digest_tampered :
        0 < length digest
        → All IsByte digest
        → binding_digest_mismatch (w, pi, anchor)
          ≡ caught "C8: binding digest mismatch" "C8" "C8: binding digest mismatch"
    unfolding binding_digest_mismatch expect_reject public_inputs
    digest_tampered full bytes =
        rw
          (other_digest w (record pi { binding_digest = flip_first digest }) refl refl refl refl
            (eq-flip_first_left digest full bytes))
          refl

    pub input_dropped :
        input_arity_mismatch (w, pi, anchor)
        ≡ caught "C0: input arity mismatch" "C0" "C0: wrong input/output arity"
    unfolding input_arity_mismatch expect_reject
    input_dropped = rw (one_input (record w { inputs = a ∷ [] }) pi refl) refl

    pub spend_accepted : baseline_check (w, pi, anchor) ≡ record {
      mutation = "baseline (must be valid)";
      expected_constraint = "none";
      passed = true;
      fired = none;
    }
    unfolding baseline_check
    spend_accepted = rw ((check_spend_statement_iff w pi).1 good) refl
