-- ===== src/ProverDev/Authority.antt =====
-- What the spend statement does not ask: that the nullifier key belongs to the owner of the notes.
use unknown.Base.{
  ℕ, ◌+◌, ◌<◌, ◌≡◌, ◌≢◌, inl, inr, refl, arith, Bool-cases, ok, List, [], ◌∷◌, ◌++◌, replicate,
  length, All, AllFrom,
}
use mathlib.Core.List.{Permᴰ}
use unknown.Base.Bytes.{lt_asym, Bytes, lt}
use unknown.Primitives.{Blake3, frame, nullifier_context}
use unknown.Primitives.Binding.{Collides}
use unknown.Interfaces.{SpendPublicInputs, Anchor, tx_inputs, tx_outputs, max_money}
use unknown.Interfaces.Encoding.{Is32}
use unknown.Notes.Binding.{IsNote, nullifier_parts, nullifier_binding}
use unknown.Notes.{Note, nullifier, rho_transfer}
use unknown.ProverDev.{
  InputWitness, SpendWitness, insert_sorted, sort_inputs, canonicalize, public_inputs, prove,
  dev_tag,
}
use unknown.ProverDev.Statement.{IsInput, IsOutput, IsSpend, total_in, total_out}
use unknown.ProverDev.Proving.{prove_complete, sort_inputs-Perm}

module _ ⦃b : Blake3⦄ where
  -- The outputs with the rho that the first nullifier gives, from the index `i` on.
  abbrev rebind : Bytes → ℕ → List Note → List Note
  rebind nf i [] = []
  rebind nf i (o ∷ os) = record o { rho = rho_transfer nf i } ∷ rebind nf (i + 1) os

  abbrev first_nullifier : Bytes → List InputWitness → Bytes
  first_nullifier nk [] = []
  first_nullifier nk (i ∷ is) = nullifier i.note nk

  -- A witness whose inputs are spent with another nullifier key, for the same values and owners.
  abbrev with_inputs : Bytes → SpendWitness → List InputWitness → List Note → SpendWitness
  with_inputs nk w inputs outputs = record w {
    spender_nk = nk;
    inputs = inputs;
    outputs = rebind (first_nullifier nk inputs) 0 outputs;
  }

  abbrev pub respend : Bytes → SpendWitness → SpendWitness
  respend nk w = with_inputs nk w (sort_inputs nk w.inputs) w.outputs

  module _ (nk : Bytes) (w : SpendWitness) (pi : SpendPublicInputs) where
    -- Two inputs that satisfy the statement in any places satisfy it with another key in these.
    respent_two :
        (i j : ℕ) (x y : InputWitness) (o p : Note)
        → IsInput w pi i x
        → IsInput w pi j y
        → IsOutput w pi 0 o
        → IsOutput w pi 1 p
        → w.mint_value < max_money
        → x.note.value + y.note.value + w.mint_value ≡ o.value + p.value
        → let w' = with_inputs nk w (x ∷ y ∷ []) (o ∷ p ∷ []) in
          IsSpend w' (public_inputs w' pi.anchor)
    unfolding public_inputs
    respent_two i j x y o p hx hy ho hp small sums = record {
      two_inputs = refl;
      two_outputs = refl;
      two_nullifiers = refl;
      two_commitments = refl;
      bound = refl;
      inputs = (
        record {
          dummy_empty = hx.dummy_empty;
          in_range = hx.in_range;
          member = hx.member;
          owned = hx.owned;
          derived = refl;
        },
        (
          record {
            dummy_empty = hy.dummy_empty;
            in_range = hy.in_range;
            member = hy.member;
            owned = hy.owned;
            derived = refl;
          },
          tt,
        ),
      );
      outputs = (
        record { in_range = ho.in_range; committed = refl; rho_bound = λ z. refl },
        (record { in_range = hp.in_range; committed = refl; rho_bound = λ z. refl }, tt),
      );
      mint_in_range = small;
      balance = omega (arith, sums);
    }

    respent_lists :
        (inputs : List InputWitness) (outputs : List Note)
        → length inputs ≡ tx_inputs
        → length outputs ≡ tx_outputs
        → AllFrom (IsInput w pi) 0 inputs
        → AllFrom (IsOutput w pi) 0 outputs
        → w.mint_value < max_money
        → total_in inputs + w.mint_value ≡ total_out outputs
        → let w' = with_inputs nk w (sort_inputs nk inputs) outputs in
          IsSpend w' (public_inputs w' pi.anchor) × (canonicalize w' ≡ w')
    unfolding sort_inputs insert_sorted canonicalize
    respent_lists (x ∷ y ∷ []) (o ∷ p ∷ []) n m hi ho small sums =
        elim (Bool-cases (lt (nullifier y.note nk) (nullifier x.note nk))) [
          | inl less ↦ rw less (
            respent_two 1 0 y x o p hi.1.0 hi.0 ho.0 ho.1.0 small (omega (arith, sums)),
            rw (lt_asym _ _ less) refl,
          )
          | inr above ↦ rw above (
            respent_two 0 1 x y o p hi.0 hi.1.0 ho.0 ho.1.0 small (omega (arith, sums)),
            rw above refl,
          )
        ]
    respent_lists [] outputs n m hi ho small sums = absurd (omega arith)
    respent_lists (x ∷ []) outputs n m hi ho small sums = absurd (omega arith)
    respent_lists (x ∷ y ∷ z ∷ is) outputs n m hi ho small sums = absurd (omega arith)
    respent_lists (x ∷ y ∷ []) [] n m hi ho small sums = absurd (omega arith)
    respent_lists (x ∷ y ∷ []) (o ∷ []) n m hi ho small sums = absurd (omega arith)
    respent_lists (x ∷ y ∷ []) (o ∷ p ∷ q ∷ os) n m hi ho small sums = absurd (omega arith)

  abbrev pub ClashAt : Bytes → Bytes → InputWitness → InputWitness → Type 0
  ClashAt nk nk' i j =
      nullifier i.note nk ≡ nullifier j.note nk'
      → Collides nullifier_context (frame (nullifier_parts nk i.note))
          (frame (nullifier_parts nk' j.note))

  -- A nullifier of `js` under the key `nk'` that is one of `is` under `nk` shows that what these two
  -- nullifiers hash, the keys included, are two inputs with one digest.
  abbrev pub Apart : Bytes → Bytes → List InputWitness → List InputWitness → Type 0
  Apart nk nk' is js = All (λ i. All (λ j. ClashAt nk nk' i j) js) is

  abbrev pub AreNotes : List InputWitness → Type 0
  AreNotes = All (λ i. IsNote i.note)

  module _ (nk nk' : Bytes) (h : Is32 nk) (h' : Is32 nk') (differ : nk ≢ nk') where
    one_key :
        (i : InputWitness) (js : List InputWitness)
        → IsNote i.note
        → AreNotes js
        → All (λ j. ClashAt nk nk' i j) js
    one_key i [] n ns = tt
    one_key i (j ∷ js) n ns = (
      (λ e. elim (nullifier_binding i.note j.note nk nk' n ns.0 h h' e) [
        | inl same ↦ absurd (differ same.0)
        | inr c ↦ c
      ]),
      one_key i js n ns.1,
    )

    keys-Apart : (is js : List InputWitness) → AreNotes is → AreNotes js → Apart nk nk' is js
    keys-Apart [] js n ns = tt
    keys-Apart (i ∷ is) js n ns = (one_key i js n.0 ns, keys-Apart is js n.1 ns)

  canonical-proves :
      (w : SpendWitness) (anchor : Anchor)
      → IsSpend w (public_inputs w anchor)
      → canonicalize w ≡ w
      → (proof : Bytes) × (prove w anchor ≡ ok (public_inputs w anchor, proof))
  canonical-proves w anchor h e = (
    dev_tag (public_inputs w anchor) ++ replicate 160 0,
    rw e at (prove_complete w anchor (rw e h)),
  )

  -- Every spend that satisfies the statement satisfies it with any nullifier key: the same inputs
  -- and output values under another key, with the outputs' rho bound to the new first nullifier, are
  -- a spend for which the prover answers under the same anchor. If the keys are two and all sizes
  -- are those of the types, a nullifier of the one spend is one of the other only where the two keys,
  -- each with the `rho` of its note, are two inputs of BLAKE3 with one digest: the nullifiers do
  -- not show that the notes are spent twice.
  pub respend-proves :
      (w : SpendWitness) (pi : SpendPublicInputs) (nk : Bytes)
      → IsSpend w pi
      → Is32 nk
      → Is32 w.spender_nk
      → nk ≢ w.spender_nk
      → AreNotes w.inputs
      → let w' = respend nk w in
        Permᴰ w.inputs w'.inputs
        × ((proof : Bytes) × (prove w' pi.anchor ≡ ok (public_inputs w' pi.anchor, proof)))
        × Apart nk w.spender_nk w.inputs w.inputs
  respend-proves w pi nk h sized sized' differ notes =
      let (spend, same) =
        respent_lists nk w pi w.inputs w.outputs h.two_inputs h.two_outputs h.inputs h.outputs
          h.mint_in_range h.balance in
      (
        sort_inputs-Perm nk w.inputs,
        canonical-proves (respend nk w) pi.anchor spend same,
        keys-Apart nk w.spender_nk sized sized' differ w.inputs w.inputs notes notes,
      )
