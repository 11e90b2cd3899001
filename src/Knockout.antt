-- ===== src/Knockout.antt =====
-- crates/knockout/src/lib.rs: the battery of mutations of a valid spend, each of which violates one
-- constraint of the spend statement. `none` stands for the panic of `unwrap`.
pub mod Mutations
pub mod Refusals
pub mod Shapes
pub mod Flips
pub mod Transfers
pub mod Inputs
pub mod Outputs
pub mod Paths
pub mod Battery
pub mod Baseline
pub mod Run
use Prim.Native.Nat.{bit_xor}
use Prim.Native.String.{◌++◌}
use unknown.Primitives.{Blake3}
use unknown.Base.{
  ℕ, zero, suc, Bool, true, false, not, String, Option, none, some, Result, ok, err, is_ok, List,
  [], ◌∷◌, get_or, replicate, if◌then◌else◌,
}
use unknown.Base.Bytes.{Bytes}
use unknown.Interfaces.{Anchor, MerklePath, SpendPublicInputs, ProveError, unsatisfied}
use unknown.Keys.{SpendingKey, from_seed, nk, addr_tag}
use unknown.Notes.{Note, commitment, dummy, rho_transfer}
use unknown.Tree.{CommitmentTree, new, append, seal, witness}
use unknown.ProverDev.{
  InputWitness, SpendWitness, canonicalize, public_inputs, check_spend_statement,
}
use unknown.Wallet.Transfer.{empty_path, nullifiers_of}

pub record Knockout : Type 0 where
  pub mutation : String
  pub expected_constraint : String
  pub passed : Bool
  pub fired : Option String

-- An array of 32 equal bytes.
abbrev pub bytes_of : ℕ → Bytes
bytes_of = replicate 32

-- `position`: the index of the first element that passes the test.
abbrev pub first_index : {A : Type 0} → (A → Bool) → List A → Option ℕ
first_index test [] = none
first_index test (x ∷ xs) =
    if test x then some 0 else elim (first_index test xs) [ none ↦ none | some i ↦ some (suc i) ]

-- An assignment at an index; the battery uses indices in range only.
abbrev pub modify : {A : Type 0} → ℕ → (A → A) → List A → List A
modify i change [] = []
modify zero change (x ∷ xs) = change x ∷ xs
modify (suc i) change (x ∷ xs) = x ∷ modify i change xs

-- `bytes[0] ^= 0xFF`.
abbrev pub flip_first : Bytes → Bytes
flip_first [] = []
flip_first (x ∷ xs) = bit_xor x 0xFF ∷ xs

-- The text of an error.
abbrev pub display : ProveError → String
display (unsatisfied reason) = "witness does not satisfy the spend statement: " ++ reason

abbrev pub outcome : String → String → Result (Unit {0}) ProveError → Knockout
outcome mutation expected (ok done) = record {
  mutation = mutation;
  expected_constraint = expected;
  passed = false;
  fired = none;
}
outcome mutation expected (err e) = record {
  mutation = mutation;
  expected_constraint = expected;
  passed = true;
  fired = some (display e);
}

-- What the battery mutates: a witness, its public inputs and their anchor.
abbrev pub Spend : Type 0
Spend = SpendWitness × SpendPublicInputs × Anchor

-- `unwrap`: the rest of the run for the value.
infixl 5 ◌>>=◌
abbrev pub ◌>>=◌ : {A B : Type 0} → Option A → (A → Option B) → Option B
none >>= next = none
some value >>= next = next value

module _ ⦃b : Blake3⦄ where
  unfoldable pub input_note : SpendingKey → Note
  input_note sk = record {
    value = 100;
    addr_tag = addr_tag sk;
    rho = bytes_of 9;
    rseed = bytes_of 8;
  }

  unfoldable pub baseline_tree : Note → CommitmentTree
  baseline_tree input =
      (append (append new (commitment input)).0 (commitment (dummy (bytes_of 7)))).0

  unfoldable pub baseline_inputs : Note → MerklePath → List InputWitness
  baseline_inputs input path =
      record { note = input; path = path; is_dummy = false }
      ∷ record { note = dummy (bytes_of 5); path = empty_path; is_dummy = true }
      ∷ []

  -- The two outputs, bound to the first nullifier.
  unfoldable pub baseline_outputs : SpendingKey → Bytes → List Note
  baseline_outputs sk first_nf =
      record {
        value = 70;
        addr_tag = addr_tag (from_seed (bytes_of 2));
        rho = rho_transfer first_nf 0;
        rseed = bytes_of 1;
      }
      ∷ record {
        value = 30;
        addr_tag = addr_tag sk;
        rho = rho_transfer first_nf 1;
        rseed = bytes_of 2;
      }
      ∷ []

  -- The canonical witness with its public inputs, once the path is there.
  unfoldable pub baseline_of : SpendingKey → Note → Anchor → MerklePath → Spend
  unfolding baseline_inputs baseline_outputs
  baseline_of sk input anchor path =
      let inputs = baseline_inputs input path in
      let w = canonicalize (record {
        spender_nk = nk sk;
        spender_addr_tag = addr_tag sk;
        inputs = inputs;
        outputs = baseline_outputs sk (get_or (nullifiers_of sk inputs) 0 []);
        mint_value = 0;
        binding_digest = bytes_of 3;
      }) in
      (w, public_inputs w anchor, anchor)

  unfoldable pub baseline : Option Spend
  unfolding input_note baseline_tree baseline_of
  baseline =
      let sk = from_seed (bytes_of 1) in
      let pos = (append new (commitment (input_note sk))).1 in
      let (tree, anchor) = seal (baseline_tree (input_note sk)) 0 in
      do path ← witness tree pos; some (baseline_of sk (input_note sk) anchor path)

  unfoldable pub expect_reject : String → String → SpendWitness → SpendPublicInputs → Knockout
  expect_reject mutation expected w pi = outcome mutation expected (check_spend_statement w pi)

  unfoldable pub baseline_check : Spend → Knockout
  baseline_check (w, pi, anchor) = record {
    mutation = "baseline (must be valid)";
    expected_constraint = "none";
    passed = is_ok (check_spend_statement w pi);
    fired =
        if is_ok (check_spend_statement w pi) then none else some "baseline unexpectedly rejected";
  }
