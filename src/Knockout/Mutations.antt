-- ===== src/Knockout/Mutations.antt =====
-- crates/knockout/src/lib.rs: the twelve mutations of a valid spend, and the run of the battery.
use unknown.Base.{ℕ, Bool, not, String, Option, some, List, [], ◌∷◌, take, all}
use unknown.Base.Words.{add_u64}
use unknown.Primitives.{Blake3}
use unknown.Interfaces.{max_money}
use unknown.Keys.{from_seed, addr_tag}
use unknown.Notes.{Note}
use unknown.ProverDev.{InputWitness, SpendWitness, public_inputs}
use unknown.Knockout.{
  Knockout, bytes_of, first_index, modify, flip_first, Spend, ◌>>=◌, baseline, expect_reject,
  baseline_check,
}

module _ ⦃b : Blake3⦄ where
  -- The mutations of one input: the first that passes the test is changed.
  unfoldable pub change_input :
      (InputWitness → Bool) → (InputWitness → InputWitness) → SpendWitness → Option SpendWitness
  change_input test change w = do
    idx ← first_index test w.inputs
    some (record w { inputs = modify idx change w.inputs })

  abbrev pub is_real : InputWitness → Bool
  is_real i = not i.is_dummy

  abbrev pub set_value : ℕ → InputWitness → InputWitness
  set_value value i = record i { note = record i.note { value = value } }

  abbrev pub corrupt_path : InputWitness → InputWitness
  corrupt_path i = record i {
    path = record i.path { siblings = modify 0 flip_first i.path.siblings };
  }

  unfoldable pub corrupted_membership_path : Spend → Option Knockout
  unfolding change_input
  corrupted_membership_path (w, pi, anchor) = do
    w' ← change_input is_real corrupt_path w
    some (expect_reject "C1: corrupted membership path" "C1" w' pi)

  unfoldable pub forged_anchor_root : Spend → Knockout
  forged_anchor_root (w, pi, anchor) =
      expect_reject "C1: forged anchor root" "C1" w
        (record pi { anchor = record pi.anchor { root = bytes_of 0xAB } })

  unfoldable pub tampered_nullifier : Spend → Knockout
  tampered_nullifier (w, pi, anchor) =
      expect_reject "C2: tampered nullifier" "C2" w
        (record pi { nullifiers = modify 0 flip_first pi.nullifiers })

  unfoldable pub wrong_owner_tag : Spend → Knockout
  wrong_owner_tag (w, pi, anchor) =
      expect_reject "C3: wrong owner tag" "C3"
        (record w { spender_addr_tag = addr_tag (from_seed (bytes_of 99)) }) pi

  unfoldable pub dummy_with_value : Spend → Option Knockout
  unfolding change_input
  dummy_with_value (w, pi, anchor) = do
    w' ← change_input (λ i. i.is_dummy) (set_value 1000) w
    some (expect_reject "C4: dummy with value" "C4" w' (public_inputs w' anchor))

  unfoldable pub input_value_out_of_range : Spend → Option Knockout
  unfolding change_input
  input_value_out_of_range (w, pi, anchor) = do
    w' ← change_input is_real (set_value max_money) w
    some (expect_reject "C6: input value out of range" "C6" w' (public_inputs w' anchor))

  -- The mutations of the first output, with the public inputs of the mutated witness.
  unfoldable pub change_output : String → String → (Note → Note) → Spend → Knockout
  change_output mutation expected change (w, pi, anchor) =
      let w' = record w { outputs = modify 0 change w.outputs } in
      expect_reject mutation expected w' (public_inputs w' anchor)

  unfoldable pub output_value_out_of_range : Spend → Knockout
  unfolding change_output
  output_value_out_of_range =
      change_output "C6: output value out of range" "C6" (λ n. record n { value = max_money })

  unfoldable pub mismatched_output_commitment : Spend → Knockout
  mismatched_output_commitment (w, pi, anchor) =
      expect_reject "C5: mismatched output commitment" "C5" w
        (record pi { commitments = modify 0 flip_first pi.commitments })

  unfoldable pub bad_output_rho_derivation : Spend → Knockout
  unfolding change_output
  bad_output_rho_derivation =
      change_output "C5: bad output rho derivation" "C5" (λ n. record n { rho = bytes_of 0x42 })

  unfoldable pub value_imbalance : Spend → Knockout
  unfolding change_output
  value_imbalance =
      change_output "C7: value imbalance (inflation)" "C7"
        (λ n. record n { value = add_u64 n.value 1 })

  unfoldable pub binding_digest_mismatch : Spend → Knockout
  binding_digest_mismatch (w, pi, anchor) =
      expect_reject "C8: binding digest mismatch" "C8" w
        (record pi { binding_digest = flip_first pi.binding_digest })

  unfoldable pub input_arity_mismatch : Spend → Knockout
  input_arity_mismatch (w, pi, anchor) =
      expect_reject "C0: input arity mismatch" "C0" (record w { inputs = take 1 w.inputs }) pi

  -- The entries of the battery for one valid spend, in their order.
  unfoldable pub battery : Spend → Option (List Knockout)
  battery s = do
    path ← corrupted_membership_path s
    smuggled ← dummy_with_value s
    excessive ← input_value_out_of_range s
    some (
        baseline_check s
        ∷ path
        ∷ forged_anchor_root s
        ∷ tampered_nullifier s
        ∷ wrong_owner_tag s
        ∷ smuggled
        ∷ excessive
        ∷ output_value_out_of_range s
        ∷ mismatched_output_commitment s
        ∷ bad_output_rho_derivation s
        ∷ value_imbalance s
        ∷ binding_digest_mismatch s
        ∷ input_arity_mismatch s
        ∷ [])

  -- `baseline()` has no effects, so that each entry starts from the same spend.
  unfoldable pub run_knockouts : Option (List Knockout)
  unfolding battery
  run_knockouts = do s ← baseline; battery s

  unfoldable pub all_caught : Option Bool
  unfolding run_knockouts
  all_caught = do results ← run_knockouts; some (all (λ (k : Knockout). k.passed) results)
