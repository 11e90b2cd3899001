-- ===== src/Knockout/Inputs.antt =====
-- The mutations of the inputs, of the anchor and of the nullifiers.
use unknown.Base.{◌≡◌, inl, inr, ◌≢◌, refl, sym, ◌∙◌, arith, true, false, some, [], ◌∷◌}
use unknown.Base.Bytes.{Bytes, eq→≡, eq-ne}
use unknown.Primitives.{Blake3}
use unknown.Interfaces.{Anchor, SpendPublicInputs, max_money}
use unknown.Keys.{from_seed, addr_tag}
use unknown.Notes.{Note, commitment, nullifier}
use unknown.Tree.{verify_path, path_root}
use unknown.ProverDev.{InputWitness, SpendWitness, public_inputs}
use unknown.ProverDev.Statement.{IsSpend}
use unknown.Knockout.{bytes_of, flip_first, expect_reject}
use unknown.Knockout.Mutations.{
  set_value, corrupt_path, change_input, corrupted_membership_path, forged_anchor_root,
  tampered_nullifier, wrong_owner_tag, dummy_with_value, input_value_out_of_range,
}
use unknown.Knockout.Flips.{eq-flip_first}
use unknown.Knockout.Refusals.{
  valued_dummy, excessive_input, missing_note, foreign_note, other_nullifier, IsPadded,
}
use unknown.Knockout.Shapes.{real_refused, IsInput-moved, refused_at_inputs, inputs_refused}
use unknown.Knockout.Transfers.{transfer, caught, shaped, nullifier_full, IsByte-nullifier}

module _ ⦃b : Blake3⦄ (spender_nk tag digest : Bytes) (a c : InputWitness) (o o' : Note)
    (anchor : Anchor) where
  abbrev pub w : SpendWitness
  w = transfer spender_nk tag digest a c o o'

  abbrev pub pi : SpendPublicInputs
  unfolding public_inputs
  pi = public_inputs w anchor

  module _ (good : IsSpend w pi) where
    pub path_corrupted :
        IsPadded a c
        → (a.is_dummy ≡ false
            → verify_path (commitment a.note) (corrupt_path a).path anchor.root ≡ false)
        → (c.is_dummy ≡ false
            → verify_path (commitment c.note) (corrupt_path c).path anchor.root ≡ false)
        → corrupted_membership_path (w, pi, anchor)
          ≡ some (caught "C1: corrupted membership path" "C1" "C1: membership proof invalid")
    unfolding corrupted_membership_path change_input expect_reject public_inputs
    path_corrupted (inl (real, pad)) bad _ =
        let a' = corrupt_path a in
        let w' = transfer spender_nk tag digest a' c o o' in
        rw
          (
            real,
            refused_at_inputs w' pi (shaped spender_nk digest tag a' c o o' pi refl refl refl) (
                inputs_refused w' pi a' c
                  (inl (missing_note w' pi 0 a' real good.inputs.0.in_range (bad real)))),
          )
          refl
    path_corrupted (inr (pad, real)) _ bad =
        let c' = corrupt_path c in
        let w' = transfer spender_nk tag digest a c' o o' in
        rw
          (
            pad,
            real,
            refused_at_inputs w' pi (shaped spender_nk digest tag a c' o o' pi refl refl refl) (
                inputs_refused w' pi a c' (
                  inr (
                    IsInput-moved w w' pi pi 0 a refl (λ d. refl) (λ d. refl) refl good.inputs.0,
                    missing_note w' pi 1 c' real good.inputs.1.0.in_range (bad real),
                  ))),
          )
          refl

    pub elsewhere :
        (i : InputWitness)
        → anchor.root ≢ bytes_of 0xAB
        → verify_path (commitment i.note) i.path anchor.root ≡ true
        → verify_path (commitment i.note) i.path (bytes_of 0xAB) ≡ false
    unfolding verify_path
    elsewhere i other h =
        eq-ne (path_root (commitment i.note) i.path.position i.path.siblings) (bytes_of 0xAB)
          (λ e. other (sym (eq→≡ _ _ h) ∙ e))

    abbrev pub forged : SpendPublicInputs
    forged = record pi { anchor = record anchor { root = bytes_of 0xAB } }

    pub root_forged :
        IsPadded a c
        → anchor.root ≢ bytes_of 0xAB
        → forged_anchor_root (w, pi, anchor)
          ≡ caught "C1: forged anchor root" "C1" "C1: membership proof invalid"
    unfolding forged_anchor_root expect_reject public_inputs
    root_forged padded other =
        rw
          (refused_at_inputs w forged (shaped spender_nk digest tag a c o o' forged refl refl refl)
            (real_refused w forged a c padded
              (λ real.
                missing_note w forged 0 a real good.inputs.0.in_range
                  (elsewhere a other (good.inputs.0.member real)))
              (λ pad.
                IsInput-moved w w pi forged 0 a refl (λ d. refl) (λ d. absurd (cc)) refl
                  good.inputs.0)
              (λ real.
                missing_note w forged 1 c real good.inputs.1.0.in_range
                  (elsewhere c other (good.inputs.1.0.member real)))))
          refl

    pub tag_replaced :
        IsPadded a c
        → tag ≢ addr_tag (from_seed (bytes_of 99))
        → wrong_owner_tag (w, pi, anchor)
          ≡ caught "C3: wrong owner tag" "C3" "C3: note not owned by spender"
    unfolding wrong_owner_tag expect_reject public_inputs
    tag_replaced padded other =
        let tag' = addr_tag (from_seed (bytes_of 99)) in
        let w' = transfer spender_nk tag' digest a c o o' in
        rw
          (refused_at_inputs w' pi (shaped spender_nk digest tag' a c o o' pi refl refl refl) (
            real_refused w' pi a c padded
              (λ real.
                foreign_note w' pi 0 a real good.inputs.0.in_range (good.inputs.0.member real)
                  (eq-ne a.note.addr_tag tag' (λ e. other (sym (good.inputs.0.owned real) ∙ e))))
              (λ pad.
                IsInput-moved w w' pi pi 0 a refl (λ d. absurd (cc)) (λ d. refl) refl good.inputs.0)
              (λ real.
                foreign_note w' pi 1 c real good.inputs.1.0.in_range (good.inputs.1.0.member real) (
                  eq-ne c.note.addr_tag tag' (λ e. other (sym (good.inputs.1.0.owned real) ∙ e))))))
          refl

    pub value_smuggled :
        IsPadded a c
        → dummy_with_value (w, pi, anchor)
          ≡ some (caught "C4: dummy with value" "C4" "C4: dummy note must have zero value")
    unfolding dummy_with_value change_input expect_reject public_inputs
    value_smuggled (inl (real, pad)) =
        let c' = set_value 1000 c in
        let w' = transfer spender_nk tag digest a c' o o' in
        let pi' = public_inputs w' anchor in
        rw
          (
            real,
            pad,
            refused_at_inputs w' pi' (shaped spender_nk digest tag a c' o o' pi' refl refl refl) (
                inputs_refused w' pi' a c' (
                  inr (
                    IsInput-moved w w' pi pi' 0 a refl (λ d. refl) (λ d. refl) refl good.inputs.0,
                    valued_dummy w' pi' 1 c' pad refl,
                  ))),
          )
          refl
    value_smuggled (inr (pad, real)) =
        let a' = set_value 1000 a in
        let w' = transfer spender_nk tag digest a' c o o' in
        let pi' = public_inputs w' anchor in
        rw
          (
            pad,
            refused_at_inputs w' pi' (shaped spender_nk digest tag a' c o o' pi' refl refl refl)
                (inputs_refused w' pi' a' c (inl (valued_dummy w' pi' 0 a' pad refl))),
          )
          refl

    pub input_excessive :
        IsPadded a c
        → input_value_out_of_range (w, pi, anchor)
          ≡ some (caught "C6: input value out of range" "C6" "C6: input value out of range")
    unfolding input_value_out_of_range change_input expect_reject public_inputs
    input_excessive (inl (real, pad)) =
        let a' = set_value max_money a in
        let w' = transfer spender_nk tag digest a' c o o' in
        let pi' = public_inputs w' anchor in
        rw
          (
            real,
            refused_at_inputs w' pi' (shaped spender_nk digest tag a' c o o' pi' refl refl refl)
                (inputs_refused w' pi' a' c (inl (excessive_input w' pi' 0 a' real (omega arith)))),
          )
          refl
    input_excessive (inr (pad, real)) =
        let c' = set_value max_money c in
        let w' = transfer spender_nk tag digest a c' o o' in
        let pi' = public_inputs w' anchor in
        rw
          (
            pad,
            real,
            refused_at_inputs w' pi' (shaped spender_nk digest tag a c' o o' pi' refl refl refl) (
                inputs_refused w' pi' a c' (
                  inr (
                    IsInput-moved w w' pi pi' 0 a refl (λ d. refl) (λ d. refl) refl good.inputs.0,
                    excessive_input w' pi' 1 c' real (omega arith),
                  ))),
          )
          refl

    pub nullifier_tampered :
        tampered_nullifier (w, pi, anchor)
        ≡ caught "C2: tampered nullifier" "C2" "C2: nullifier derivation mismatch"
    unfolding tampered_nullifier expect_reject public_inputs
    nullifier_tampered =
        let nf = nullifier a.note spender_nk in
        let pi' : SpendPublicInputs = record pi {
          nullifiers = flip_first nf ∷ nullifier c.note spender_nk ∷ [];
        } in
        rw
          (refused_at_inputs w pi' (shaped spender_nk digest tag a c o o' pi' refl refl refl) (
            inputs_refused w pi' a c (
              inl (
                other_nullifier w pi' 0 a pi good.inputs.0 refl (
                  eq-flip_first nf (nullifier_full spender_nk a.note)
                    (IsByte-nullifier spender_nk a.note))))))
          refl
