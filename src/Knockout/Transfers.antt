-- ===== src/Knockout/Transfers.antt =====
-- A transfer of one real input and one dummy, and what its inputs and outputs keep under a change of
-- the others.
use unknown.Base.{◌<◌, ◌≡◌, refl, arith, ok, err, All, [], ◌∷◌, get_or, length, String}
use unknown.Base.Bytes.{Bytes, IsByte}
use unknown.Primitives.{Blake3, length-hash_parts, IsByte-hash_parts}
use unknown.Interfaces.{Anchor, SpendPublicInputs, unsatisfied}
use unknown.Notes.{Note, commitment, nullifier}
use unknown.ProverDev.{InputWitness, SpendWitness, public_inputs, check_inputs}
use unknown.ProverDev.Statement.{IsSpend, check_inputs_iff, total_in}
use unknown.Knockout.{Knockout, outcome}
use unknown.Knockout.Shapes.{IsShaped, IsInput-moved}

-- A transfer of two inputs and two outputs.
abbrev pub transfer :
    (spender_nk tag digest : Bytes) (a c : InputWitness) (o o' : Note) → SpendWitness
transfer spender_nk tag digest a c o o' = record {
  spender_nk = spender_nk;
  spender_addr_tag = tag;
  inputs = a ∷ c ∷ [];
  outputs = o ∷ o' ∷ [];
  mint_value = 0;
  binding_digest = digest;
}

-- A rejected mutation, and the constraint that fired.
abbrev pub caught : String → String → String → Knockout
caught mutation expected constraint = outcome mutation expected (err (unsatisfied constraint))

module _ ⦃b : Blake3⦄ where
  pub nullifier_full : (spender_nk : Bytes) (n : Note) → 0 < length (nullifier n spender_nk)
  unfolding nullifier
  nullifier_full spender_nk n = rw (length-hash_parts _ _) (omega arith)

  pub IsByte-nullifier : (spender_nk : Bytes) (n : Note) → All IsByte (nullifier n spender_nk)
  unfolding nullifier
  IsByte-nullifier spender_nk n = IsByte-hash_parts _ _

  pub commitment_full : (n : Note) → 0 < length (commitment n)
  unfolding commitment
  commitment_full n = rw (length-hash_parts _ _) (omega arith)

  pub IsByte-commitment : (n : Note) → All IsByte (commitment n)
  unfolding commitment
  IsByte-commitment n = IsByte-hash_parts _ _

  pub shaped :
      (spender_nk digest tag' : Bytes) (a' c' : InputWitness) (n n' : Note)
      (pi' : SpendPublicInputs)
      → length pi'.nullifiers ≡ 2
      → length pi'.commitments ≡ 2
      → pi'.binding_digest ≡ digest
      → IsShaped (transfer spender_nk tag' digest a' c' n n') pi'
  shaped spender_nk digest tag' a' c' n n' pi' nfs cms d = record {
    two_inputs = refl;
    two_outputs = refl;
    two_nullifiers = nfs;
    two_commitments = cms;
    bound = d;
  }

module _ ⦃b : Blake3⦄ (spender_nk tag digest : Bytes) (a c : InputWitness) (o o' : Note)
    (anchor : Anchor) where
  abbrev pub w : SpendWitness
  w = transfer spender_nk tag digest a c o o'

  abbrev pub pi : SpendPublicInputs
  unfolding public_inputs
  pi = public_inputs w anchor

  module _ (good : IsSpend w pi) where
    -- Other outputs leave the inputs valid.
    pub spent :
        (n n' : Note) (pi' : SpendPublicInputs)
        → anchor.root ≡ pi'.anchor.root
        → nullifier a.note spender_nk ≡ get_or pi'.nullifiers 0 []
        → nullifier c.note spender_nk ≡ get_or pi'.nullifiers 1 []
        → check_inputs (transfer spender_nk tag digest a c n n') pi' 0 (a ∷ c ∷ []) 0
          ≡ ok (total_in (a ∷ c ∷ []))
    unfolding public_inputs
    spent n n' pi' r first second =
        let w' = transfer spender_nk tag digest a c n n' in
        (check_inputs_iff w' pi' 0 (a ∷ c ∷ []) 0 _).1 (
          (
            IsInput-moved w w' pi pi' 0 a refl (λ d. refl) (λ d. r) first good.inputs.0,
            (IsInput-moved w w' pi pi' 1 c refl (λ d. refl) (λ d. r) second good.inputs.1.0, tt),
          ),
          omega arith,
        )
