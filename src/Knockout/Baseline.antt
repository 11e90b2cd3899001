-- ===== src/Knockout/Baseline.antt =====
-- The spend that the battery starts from.
use unknown.Base.{
  ℕ, ◌+◌, ◌≡◌, ◌⊎◌, inl, inr, refl, sym, arith, some, true, false, Bool-cases, List, [], ◌∷◌,
  get_or, All, drop,
}
use unknown.Base.Bytes.{Bytes, lt}
use unknown.Primitives.{Blake3, length-hash_parts}
use unknown.Interfaces.{Anchor, MerklePath, SpendPublicInputs, tree_depth}
use unknown.Interfaces.Encoding.{Is32}
use unknown.Keys.{SpendingKey, from_seed, nk, addr_tag}
use unknown.Notes.{Note, commitment, nullifier, dummy, rho_transfer}
use unknown.Tree.{
  CommitmentTree, new, append, seal, root, witness, siblings_from, sibling_at, verify_path,
}
use unknown.Tree.Membership.{witness-verifies}
use unknown.Tree.Shape.{IsTree, new-IsTree, append-IsTree, seal-IsTree}
use unknown.Tree.Soundness.{Is32-witness}
use unknown.ProverDev.{
  InputWitness, SpendWitness, canonicalize, sort_inputs, insert_sorted, public_inputs,
}
use unknown.ProverDev.Statement.{IsSpend, IsInput}
use unknown.Wallet.Transfer.{empty_path}
use unknown.Knockout.{bytes_of, input_note, baseline_tree, baseline_of}
use unknown.Knockout.Transfers.{transfer}

module _ ⦃b : Blake3⦄ where
  abbrev pub sk : SpendingKey
  sk = from_seed (bytes_of 1)

  abbrev pub real_input : MerklePath → InputWitness
  real_input path = record { note = input_note sk; path = path; is_dummy = false }

  abbrev pub padding : InputWitness
  padding = record { note = dummy (bytes_of 5); path = empty_path; is_dummy = true }

  abbrev pub paid : Bytes → Note
  paid first_nf = record {
    value = 70;
    addr_tag = addr_tag (from_seed (bytes_of 2));
    rho = rho_transfer first_nf 0;
    rseed = bytes_of 1;
  }

  abbrev pub change : Bytes → Note
  change first_nf = record {
    value = 30;
    addr_tag = addr_tag sk;
    rho = rho_transfer first_nf 1;
    rseed = bytes_of 2;
  }

  abbrev pub first_of : InputWitness → Bytes
  first_of a = nullifier a.note (nk sk)

  abbrev pub valid : InputWitness → InputWitness → SpendWitness
  valid a c =
      transfer (nk sk) (addr_tag sk) (bytes_of 3) a c (paid (first_of a)) (change (first_of a))

  -- The sort puts the two inputs in one of the two orders, and the outputs follow the first.
  pub baseline_of-orders :
      (anchor : Anchor) (path : MerklePath)
      → let a = real_input path in
        (baseline_of sk (input_note sk) anchor path
          ≡ (valid a padding, public_inputs (valid a padding) anchor, anchor))
        ⊎ (baseline_of sk (input_note sk) anchor path
            ≡ (valid padding a, public_inputs (valid padding a) anchor, anchor))
  unfolding baseline_of canonicalize sort_inputs insert_sorted input_note
  baseline_of-orders anchor path =
      elim (Bool-cases (lt (first_of padding) (first_of (real_input path)))) [
        | inl swapped ↦ inr (rw swapped refl)
        | inr kept ↦ inl (rw kept refl)
      ]

  pub real_fine :
      (w : SpendWitness) (pi : SpendPublicInputs) (i : ℕ) (path : MerklePath)
      → w.spender_nk ≡ nk sk
      → w.spender_addr_tag ≡ addr_tag sk
      → verify_path (commitment (input_note sk)) path pi.anchor.root ≡ true
      → first_of (real_input path) ≡ get_or pi.nullifiers i []
      → IsInput w pi i (real_input path)
  unfolding input_note
  real_fine w pi i path k t m n = record {
    dummy_empty = λ d. absurd (cc);
    in_range = omega arith;
    member = λ d. m;
    owned = λ d. sym t;
    derived = rw k n;
  }

  pub padding_fine :
      (w : SpendWitness) (pi : SpendPublicInputs) (i : ℕ)
      → w.spender_nk ≡ nk sk
      → first_of padding ≡ get_or pi.nullifiers i []
      → IsInput w pi i padding
  unfolding dummy
  padding_fine w pi i k n = record {
    dummy_empty = λ d. refl;
    in_range = omega arith;
    member = λ d. absurd (cc);
    owned = λ d. absurd (cc);
    derived = rw k n;
  }

  pub valid-IsSpend :
      (a c : InputWitness) (anchor : Anchor)
      → let w = valid a c in
        let pi = public_inputs w anchor in
        IsInput w pi 0 a → IsInput w pi 1 c → a.note.value + c.note.value ≡ 100 → IsSpend w pi
  unfolding public_inputs
  valid-IsSpend a c anchor fine_a fine_c sum = record {
    two_inputs = refl;
    two_outputs = refl;
    two_nullifiers = refl;
    two_commitments = refl;
    bound = refl;
    inputs = (fine_a, (fine_c, tt));
    outputs = (
      record { in_range = omega arith; committed = refl; rho_bound = λ z. refl },
      (record { in_range = omega arith; committed = refl; rho_bound = λ z. refl }, tt),
    );
    mint_in_range = omega arith;
    balance = omega (arith, sum);
  }

  -- The note of the other leaf.
  abbrev pub other : Note
  other = dummy (bytes_of 7)

  -- The path of the spent note: it verifies, and its first sibling is the other leaf.
  abbrev pub sealed : CommitmentTree
  sealed = (seal (baseline_tree (input_note sk)) 0).0

  abbrev pub sealed_root : Bytes
  sealed_root = root (baseline_tree (input_note sk))

  pub Is32-commitment : (n : Note) → Is32 (commitment n)
  unfolding commitment
  Is32-commitment n = length-hash_parts _ _

  sealed-IsTree : IsTree sealed
  unfolding baseline_tree
  sealed-IsTree = seal-IsTree (baseline_tree (input_note sk)) 0 (
      append-IsTree (append new (commitment (input_note sk))).0 (commitment other)
        (append-IsTree new (commitment (input_note sk)) new-IsTree
          (Is32-commitment (input_note sk)))
        (Is32-commitment other))

  pub spent_path :
      (path : MerklePath) × (rest : List Bytes) × (witness sealed 0 ≡ some path)
      × (path.position ≡ 0)
      × (path.siblings ≡ commitment other ∷ rest)
      × All Is32 rest
      × (verify_path (commitment (input_note sk)) path sealed_root ≡ true)
  unfolding seal baseline_tree append new witness siblings_from sibling_at root
  spent_path =
      let (path, found, place, depth, fine) =
        witness-verifies sealed 0 (omega arith) (omega arith) in
      let siblings = siblings_from tree_depth 0 sealed.empty sealed.leaves 0 in
      let honest : MerklePath = record { position = 0; siblings = siblings } in
      let same : honest ≡ path = cc found in
      (
        honest,
        drop 1 siblings,
        refl,
        refl,
        refl,
        (Is32-witness sealed 0 honest sealed-IsTree refl).1,
        rw same fine,
      )
