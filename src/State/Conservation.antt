-- ===== src/State/Conservation.antt =====
-- What the loop of a checkpoint does to the value of the notes, if the verifier is sound.
pub mod Round
pub mod Growth
pub mod Rewards
pub mod Checkpoint
pub mod Spendable
pub mod Issuance
use unknown.Base.{
  or→neither, ℕ, ◌+◌, ◌≡◌, ◌≢◌, ◌⊎◌, inl, inr, refl, sym, ap, ◌∙◌, arith, Bool, true, false, ◌||◌,
  Bool-cases, ok, List, [], ◌∷◌, ◌++◌, length, get_or, any, All, AllFrom,
}
use mathlib.Core.List.{map}
use unknown.Base.Bytes.{Bytes, eq, eq→≡, eq-ne}
use unknown.Primitives.{Blake3}
use unknown.Interfaces.{SpendPublicInputs, SpendVerifier, Anchor, Nullifier, Commitment}
use unknown.Notes.{Note, commitment}
use unknown.Tree
use unknown.Tree.{CommitmentTree, root, anchor_eq}
use unknown.ProverDev.{InputWitness, SpendWitness}
use unknown.ProverDev.Statement.{IsInput, IsOutput, IsSpend, total_in, total_out}
use unknown.State.Holdings.{IsOpening, IsPath, IsBehind, HasForged, worth_at}
use unknown.State.Spent.{IsSpent, spend_input}

pub total_out-append : (xs ys : List Note) → total_out (xs ++ ys) ≡ total_out xs + total_out ys
total_out-append [] ys = omega arith
total_out-append (x ∷ xs) ys = omega (arith, total_out-append xs ys)

module _ ⦃b : Blake3⦄ where
  -- The anchor's root is that of a tree that the notes are behind.
  abbrev pub IsRooted : List Note → Anchor → Type 0
  IsRooted notes a = (t : CommitmentTree) × IsBehind notes t × (a.root ≡ root t)

  pub any-IsRooted :
      (notes : List Note) (as' : List Anchor) (a : Anchor)
      → All (IsRooted notes) as'
      → any (λ x. anchor_eq x a) as' ≡ true
      → IsRooted notes a
  any-IsRooted notes [] a h e = absurd (cc e)
  any-IsRooted notes (x ∷ as') a h e = elim (Bool-cases (anchor_eq x a)) [
    | inl same ↦
        let (t, behind, r) = h.0 in
        let roots : x.root ≡ a.root = eq→≡ x.root a.root (ground arith) in
        (t, behind, sym roots ∙ r)
    | inr other ↦ any-IsRooted notes as' a h.1 (rw other at e)
  ]

  module _ (key_of : Bytes → Bytes) where
    -- A satisfied statement, with the two equations that it leaves out: the nullifier key is the
    -- owner's, and the minted value is the public one. The sizes are those of the types.
    pub record IsAuthorized (w : SpendWitness) (pi : SpendPublicInputs) : Type 0 where
      pub spend : IsSpend w pi
      pub own : w.spender_nk ≡ key_of w.spender_addr_tag
      pub minted : w.mint_value ≡ pi.mint_value
      pub inputs : All (λ i. IsOpening i.note × IsPath i.path) w.inputs
      pub outputs : All IsOpening w.outputs

    -- The verifier accepts a proof only for public inputs of an authorized spend.
    abbrev pub IsSoundVerifier : SpendVerifier → Type 0
    IsSoundVerifier verifier =
        (pi : SpendPublicInputs) (proof : Bytes)
        → verifier.verify pi proof ≡ ok tt
        → (w : SpendWitness) × IsAuthorized w pi

    module _ (notes : List Note) (w : SpendWitness) (pi : SpendPublicInputs)
        (auth : IsAuthorized w pi) (rooted : IsRooted notes pi.anchor) where
      abbrev pub then_seen : (Nullifier → Bool) → Nullifier → Bool
      then_seen seen x =
          eq (get_or pi.nullifiers 1 []) x || (eq (get_or pi.nullifiers 0 []) x || seen x)

      -- The two inputs are spent one after the other.
      pub spend_inputs :
          (inputs : List InputWitness) (seen : Nullifier → Bool) (ps : List ℕ)
          → length inputs ≡ 2
          → All (λ i. IsOpening i.note × IsPath i.path) inputs
          → AllFrom (IsInput w pi) 0 inputs
          → get_or pi.nullifiers 0 [] ≢ get_or pi.nullifiers 1 []
          → seen (get_or pi.nullifiers 0 []) ≡ false
          → seen (get_or pi.nullifiers 1 []) ≡ false
          → IsSpent key_of notes seen ps
          → ((ps' : List ℕ) × IsSpent key_of notes (then_seen seen) ps'
              × (worth_at notes ps' ≡ total_in inputs + worth_at notes ps))
            ⊎ HasForged notes inputs
      spend_inputs (x ∷ y ∷ []) seen ps n sizes h differ fresh0 fresh1 spent =
          let (t, behind, r) = rooted in
          let nf0 = get_or pi.nullifiers 0 [] in
          let nf1 = get_or pi.nullifiers 1 [] in
          elim (spend_input key_of notes t w pi 0 x seen ps behind r auth.own sizes.0.0 sizes.0.1
            h.0 fresh0 spent) [
              | inr forged ↦ inr (inl forged)
              | inl (ps0, spent0, worth0) ↦
                  elim (spend_input key_of notes t w pi 1 y (λ z. eq nf0 z || seen z) ps0 behind r
                    auth.own sizes.1.0.0 sizes.1.0.1 h.1.0 (rw (eq-ne nf0 nf1 differ) fresh1)
                    spent0) [
                      | inr forged ↦ inr (inr (inl forged))
                      | inl (ps1, spent1, worth1) ↦ inl (ps1, spent1, omega (arith, worth0, worth1))
                    ]
            ]
      spend_inputs [] seen ps n sizes h differ fresh0 fresh1 spent = absurd (omega arith)
      spend_inputs (x ∷ []) seen ps n sizes h differ fresh0 fresh1 spent = absurd (omega arith)
      spend_inputs (x ∷ y ∷ z ∷ is) seen ps n sizes h differ fresh0 fresh1 spent =
          absurd (omega arith)

      -- The outputs are behind the public commitments.
      pub outputs_behind :
          (outputs : List Note) (cm0 cm1 : Commitment)
          → length outputs ≡ 2
          → AllFrom (IsOutput w pi) 0 outputs
          → pi.commitments ≡ cm0 ∷ cm1 ∷ []
          → map commitment outputs ≡ cm0 ∷ cm1 ∷ []
      outputs_behind (o ∷ p ∷ []) cm0 cm1 n h e =
          let first : commitment o ≡ cm0 = h.0.committed ∙ ap (λ cs. get_or cs 0 []) e in
          let second : commitment p ≡ cm1 = h.1.0.committed ∙ ap (λ cs. get_or cs 1 []) e in
          λ i. first i ∷ second i ∷ []
      outputs_behind [] cm0 cm1 n h e = absurd (omega arith)
      outputs_behind (o ∷ []) cm0 cm1 n h e = absurd (omega arith)
      outputs_behind (o ∷ p ∷ q ∷ os) cm0 cm1 n h e = absurd (omega arith)
