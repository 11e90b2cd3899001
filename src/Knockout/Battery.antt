-- ===== src/Knockout/Battery.antt =====
-- The whole battery, on every transfer of one real input and one dummy.
use unknown.Base.{◌+◌, ◌<◌, ◌≡◌, ◌≢◌, refl, some, true, false, none, List, [], ◌∷◌, length, All}
use unknown.Base.Bytes.{Bytes, IsByte}
use unknown.Primitives.{Blake3}
use unknown.Interfaces.{Anchor, max_money}
use unknown.Keys.{from_seed, addr_tag}
use unknown.Notes.{Note, commitment, nullifier, rho_transfer}
use unknown.Tree.{verify_path}
use unknown.ProverDev.{InputWitness, public_inputs}
use unknown.ProverDev.Statement.{IsSpend}
use unknown.Knockout.{Knockout, bytes_of}
use unknown.Knockout.Mutations.{corrupt_path, battery}
use unknown.Knockout.Refusals.{IsPadded}
use unknown.Knockout.Transfers.{transfer, caught}
use unknown.Knockout.Inputs.{
  path_corrupted, root_forged, tag_replaced, value_smuggled, input_excessive, nullifier_tampered,
}
use unknown.Knockout.Outputs.{
  commitment_tampered, output_excessive, rho_replaced, value_raised, digest_tampered, input_dropped,
  spend_accepted,
}

-- The report of a run in which the valid spend passes and each mutation is caught by its own
-- constraint.
abbrev pub all_rejected : List Knockout
all_rejected =
    record {
      mutation = "baseline (must be valid)";
      expected_constraint = "none";
      passed = true;
      fired = none;
    }
    ∷ caught "C1: corrupted membership path" "C1" "C1: membership proof invalid"
    ∷ caught "C1: forged anchor root" "C1" "C1: membership proof invalid"
    ∷ caught "C2: tampered nullifier" "C2" "C2: nullifier derivation mismatch"
    ∷ caught "C3: wrong owner tag" "C3" "C3: note not owned by spender"
    ∷ caught "C4: dummy with value" "C4" "C4: dummy note must have zero value"
    ∷ caught "C6: input value out of range" "C6" "C6: input value out of range"
    ∷ caught "C6: output value out of range" "C6" "C6: output value out of range"
    ∷ caught "C5: mismatched output commitment" "C5" "C5: output commitment mismatch"
    ∷ caught "C5: bad output rho derivation" "C5" "C5: output rho derivation invalid"
    ∷ caught "C7: value imbalance (inflation)" "C7" "C7: value imbalance"
    ∷ caught "C8: binding digest mismatch" "C8" "C8: binding digest mismatch"
    ∷ caught "C0: input arity mismatch" "C0" "C0: wrong input/output arity"
    ∷ []

module _ ⦃b : Blake3⦄ where
  -- On the valid transfer of a real and a dummy input, in either order, the battery reports that the
  -- unchanged spend passes and that each of the twelve mutations is rejected with the error of the
  -- constraint that it violates. The conditions: one more than the first output's value is below
  -- 2^62, the digest is a non-empty byte string, the real input's changed path does not verify, and
  -- the forged root, the foreign owner tag and the false rho are not the values that they replace.
  pub battery_lem :
      (spender_nk tag digest : Bytes) (a c : InputWitness) (o o' : Note) (anchor : Anchor)
      → let w = transfer spender_nk tag digest a c o o' in
        IsSpend w (public_inputs w anchor)
        → IsPadded a c
        → o.value + 1 < max_money
        → 0 < length digest
        → All IsByte digest
        → (a.is_dummy ≡ false
            → verify_path (commitment a.note) (corrupt_path a).path anchor.root ≡ false)
        → (c.is_dummy ≡ false
            → verify_path (commitment c.note) (corrupt_path c).path anchor.root ≡ false)
        → anchor.root ≢ bytes_of 0xAB
        → tag ≢ addr_tag (from_seed (bytes_of 99))
        → rho_transfer (nullifier a.note spender_nk) 0 ≢ bytes_of 0x42
        → battery (w, public_inputs w anchor, anchor) ≡ some all_rejected
  unfolding battery public_inputs
  battery_lem k t d a c o o' anchor good padded small full bytes bad_a bad_c root tag rho =
      rw
        (
          path_corrupted k t d a c o o' anchor good padded bad_a bad_c,
          root_forged k t d a c o o' anchor good padded root,
          nullifier_tampered k t d a c o o' anchor good,
          tag_replaced k t d a c o o' anchor good padded tag,
          value_smuggled k t d a c o o' anchor good padded,
          input_excessive k t d a c o o' anchor good padded,
          output_excessive k t d a c o o' anchor good,
          commitment_tampered k t d a c o o' anchor good,
          rho_replaced k t d a c o o' anchor good rho,
          value_raised k t d a c o o' anchor good small,
          digest_tampered k t d a c o o' anchor good full bytes,
          input_dropped k t d a c o o' anchor good,
          spend_accepted k t d a c o o' anchor good,
        )
        refl
