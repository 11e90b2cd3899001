-- ===== src/Knockout/Refusals.antt =====
-- The spend statement on a witness with one violated constraint: which error the check gives.
use unknown.Base.{
  ℕ, ◌<◌, ◌≤◌, ◌≡◌, ◌⊎◌, refl, arith, true, false, err, and_not_iff, not_and_not_iff, [], get_or,
  leb, le→leb, ◌==◌, ==_iff,
}
use unknown.Base.Bytes.{eq, eq_iff}
use unknown.Primitives.{Blake3}
use unknown.Interfaces.{SpendPublicInputs, unsatisfied, max_money}
use unknown.Notes.{Note, commitment, nullifier, rho_transfer}
use unknown.Tree.{verify_path}
use unknown.ProverDev.{InputWitness, SpendWitness, check_input, check_output}
use unknown.ProverDev.Statement.{IsInput}

-- One of the inputs is real, and the other a dummy.
abbrev pub IsPadded : InputWitness → InputWitness → Type 0
IsPadded a c =
    ((a.is_dummy ≡ false) × (c.is_dummy ≡ true)) ⊎ ((a.is_dummy ≡ true) × (c.is_dummy ≡ false))

pub in_range-leb : (v : ℕ) → v < max_money → leb max_money v ≡ false
in_range-leb v h = ground arith

module _ ⦃b : Blake3⦄ where
  module _ (w : SpendWitness) (pi : SpendPublicInputs) (i : ℕ) (input : InputWitness) where
    pub valued_dummy :
        input.is_dummy ≡ true
        → (input.note.value == 0) ≡ false
        → check_input w pi i input ≡ err (unsatisfied "C4: dummy note must have zero value")
    unfolding check_input
    valued_dummy d v = rw (d, v) refl

    pub excessive_input :
        input.is_dummy ≡ false
        → max_money ≤ input.note.value
        → check_input w pi i input ≡ err (unsatisfied "C6: input value out of range")
    unfolding check_input
    excessive_input d h = rw (d, le→leb max_money input.note.value h) refl

    pub missing_note :
        input.is_dummy ≡ false
        → input.note.value < max_money
        → verify_path (commitment input.note) input.path pi.anchor.root ≡ false
        → check_input w pi i input ≡ err (unsatisfied "C1: membership proof invalid")
    unfolding check_input
    missing_note d h m = rw (d, in_range-leb input.note.value h, m) refl

    pub foreign_note :
        input.is_dummy ≡ false
        → input.note.value < max_money
        → verify_path (commitment input.note) input.path pi.anchor.root ≡ true
        → eq input.note.addr_tag w.spender_addr_tag ≡ false
        → check_input w pi i input ≡ err (unsatisfied "C3: note not owned by spender")
    unfolding check_input
    foreign_note d h m t = rw (d, in_range-leb input.note.value h, m, t) refl

    -- An input that satisfies the rest of its constraints under the nullifiers of `pi'`.
    pub other_nullifier :
        (pi' : SpendPublicInputs)
        → IsInput w pi' i input
        → pi.anchor.root ≡ pi'.anchor.root
        → eq (nullifier input.note w.spender_nk) (get_or pi.nullifiers i []) ≡ false
        → check_input w pi i input ≡ err (unsatisfied "C2: nullifier derivation mismatch")
    unfolding check_input
    other_nullifier pi' h r n =
        rw
          (
            (and_not_iff input.is_dummy (input.note.value == 0)).1
                (λ d. (==_iff input.note.value 0).1 (h.dummy_empty d)),
            in_range-leb input.note.value h.in_range,
            r,
            (not_and_not_iff input.is_dummy
                  (verify_path (commitment input.note) input.path pi'.anchor.root)).1
                h.member,
            (not_and_not_iff input.is_dummy (eq input.note.addr_tag w.spender_addr_tag)).1
                (λ d. (eq_iff input.note.addr_tag w.spender_addr_tag).1 (h.owned d)),
            n,
          )
          refl

  module _ (w : SpendWitness) (pi : SpendPublicInputs) (i : ℕ) (out : Note) where
    pub excessive_output :
        max_money ≤ out.value
        → check_output w pi i out ≡ err (unsatisfied "C6: output value out of range")
    unfolding check_output
    excessive_output h = rw (le→leb max_money out.value h) refl

    pub other_commitment :
        out.value < max_money
        → eq (commitment out) (get_or pi.commitments i []) ≡ false
        → check_output w pi i out ≡ err (unsatisfied "C5: output commitment mismatch")
    unfolding check_output
    other_commitment h c = rw (in_range-leb out.value h, c) refl

    pub unbound_rho :
        out.value < max_money
        → commitment out ≡ get_or pi.commitments i []
        → w.mint_value ≡ 0
        → eq out.rho (rho_transfer (get_or pi.nullifiers 0 []) i) ≡ false
        → check_output w pi i out ≡ err (unsatisfied "C5: output rho derivation invalid")
    unfolding check_output
    unbound_rho h c z r =
        rw
          (
            in_range-leb out.value h,
            (eq_iff (commitment out) (get_or pi.commitments i [])).1 c,
            (==_iff w.mint_value 0).1 z,
            r,
          )
          refl
