-- ===== src/Examples/Backing.antt =====
-- A ledger with one coin at genesis, a verifier that knows the witness of one spend of it, and the
-- checkpoint that settles the spend.
use unknown.Base.{
  ◌+◌, ◌%◌, ◌^◌, ◌≤◌, ◌≡◌, ◌⊎◌, refl, arith, Bool, true, ◌&&◌, Bool-cases, inl, inr, Result, ok,
  err, is_ok, List, [], ◌∷◌, length, replicate, All, all, get_or, if◌then◌else◌, ◌==◌, ==_iff,
  and→both,
}
use mathlib.Core.List.{map}
use unknown.Base.Bytes.{Bytes}
use unknown.Primitives.{hash_parts, frame}
use unknown.Interfaces.{
  MerklePath, SpendPublicInputs, SpendVerifier, invalid, proof_bucket, tree_depth,
}
use unknown.Notes.{Note, commitment, nullifier, dummy, rho_transfer}
use unknown.Pow
use unknown.Tree
use unknown.Emission.{
  emission_at, decay_factor, reward_descriptor, distribute, floor_shares, hand_out,
}
use unknown.ProverDev.{
  SpendWitness, canonicalize, insert_sorted, sort_inputs, public_inputs, check_input, check_inputs,
  check_output, check_outputs, check_spend_statement,
}
use unknown.ProverDev.Statement.{check_spend_statement_iff}
use unknown.Tx.{TxV1, pow, binding_digest, to_public_inputs, check_antispam, validate_stateless}
use unknown.State.{
  Ledger, genesis, allocate, judge, judge_lane, conflict, stage_all, nullifier_seen,
}
use unknown.State.Checkpoint.{mint, reward_note, apply_checkpoint}
use unknown.State.Spending.{Steps}
use unknown.State.Holdings.{IsOpening, IsPath}
use unknown.State.Conservation.{IsSoundVerifier}
use unknown.State.Conservation.Spendable.{spendable}
use unknown.State.Conservation.Issuance.{IsForgedRun, allocation, emitted, no_inflation}
use unknown.Examples.{toy}
use unknown.Examples.Trees.{All-Is32}
use unknown.Examples.Ledgers.{params, validators, has_weight}
use unknown.Examples.Proofs.{key, coin, transfer, inputs_public, anchor}

abbrev tx : TxV1
tx = record {
  anchor = anchor;
  nullifiers = (get_or inputs_public.nullifiers 0 [], get_or inputs_public.nullifiers 1 []);
  commitments = (get_or inputs_public.commitments 0 [], get_or inputs_public.commitments 1 []);
  enc_outputs = (record { bytes = [] }, record { bytes = [] });
  antispam = pow (record { nonce = 0 });
  proof = replicate proof_bucket 0;
}

-- The witness of the transfer, for the digest of the transaction.
abbrev known : SpendWitness
known = record (canonicalize transfer) { binding_digest = binding_digest tx }

abbrev knows : SpendPublicInputs → Bool
knows pi = is_ok (check_spend_statement known pi) && known.mint_value == pi.mint_value

abbrev knowing : SpendVerifier
knowing = record { verify = λ pi proof. if knows pi then ok tt else err invalid }

abbrev one_key : Bytes → Bytes
one_key tag = key

abbrev first : Ledger
first = genesis params validators 0 (map allocation (coin ∷ []))

abbrev second : Ledger
second = (apply_checkpoint first (tx ∷ []) knowing).0

accepts : (apply_checkpoint first (tx ∷ []) knowing).1.accepted ≡ 1
unfolding apply_checkpoint stage_all judge judge_lane conflict mint reward_note Tree.append
    Tree.seal Tree.anchor_valid Tree.evict Tree.new validate_stateless check_antispam
    to_public_inputs emission_at decay_factor reward_descriptor distribute floor_shares hand_out
    Pow.verify Pow.leading_zero_bits Pow.pow_hash genesis allocate check_spend_statement
    check_inputs check_input check_outputs check_output canonicalize sort_inputs insert_sorted
    public_inputs commitment nullifier dummy rho_transfer hash_parts frame Tree.root Tree.climb
    Tree.next_level Tree.node_hash Tree.empty_roots Tree.empty_from Tree.siblings_from
    Tree.sibling_at Tree.verify_path Tree.path_root binding_digest
accepts = refl

sized-IsPath :
    (path : MerklePath)
    → all (λ x. length x == 32) path.siblings ≡ true
    → length path.siblings ≡ tree_depth
    → IsPath path
sized-IsPath path h n = record { siblings = All-Is32 path.siblings h; depth = n }

known_inputs : All (λ i. IsOpening i.note × IsPath i.path) known.inputs
unfolding canonicalize sort_inputs insert_sorted nullifier dummy commitment hash_parts frame
    Tree.next_level Tree.node_hash Tree.empty_roots Tree.empty_from Tree.siblings_from
    Tree.sibling_at
known_inputs = (
  (
    record { value = omega arith; addr_tag = omega arith; rho = omega arith; rseed = omega arith },
    sized-IsPath _ refl refl,
  ),
  (
    (
      record {
        value = omega arith;
        addr_tag = omega arith;
        rho = omega arith;
        rseed = omega arith;
      },
      sized-IsPath _ refl refl,
    ),
    tt,
  ),
)

known_outputs : All IsOpening known.outputs
unfolding canonicalize rho_transfer hash_parts
known_outputs = (
  record { value = omega arith; addr_tag = omega arith; rho = omega arith; rseed = omega arith },
  (
    record { value = omega arith; addr_tag = omega arith; rho = omega arith; rseed = omega arith },
    tt,
  ),
)

known_key : known.spender_nk ≡ key
unfolding canonicalize
known_key = refl

is_ok_only : {E : Type 0} (r : Result (Unit {0}) E) → is_ok r ≡ true → r ≡ ok tt
is_ok_only (ok u) e = refl
is_ok_only (err x) e = cc

knowing-IsSoundVerifier : IsSoundVerifier one_key knowing
knowing-IsSoundVerifier pi proof e = elim (Bool-cases (knows pi)) [
  | inr other ↦ absurd (cc (rw other at e))
  | inl found ↦
      let (satisfied, minted) = and→both (is_ok (check_spend_statement known pi)) _ found in
      (
        known,
        record {
          spend =
              (check_spend_statement_iff known pi).0
                (is_ok_only (check_spend_statement known pi) satisfied);
          own = known_key;
          minted = (==_iff known.mint_value pi.mint_value).0 minted;
          inputs = known_inputs;
          outputs = known_outputs;
        },
      )
]

no_inflation_example :
    ((notes : List Note) × (map commitment notes ≡ second.tree.leaves)
      × (spendable one_key (nullifier_seen second) notes ≤ 100 + emitted params second.height)
      × (second.supply ≡ (100 + emitted params second.height) % 2 ^ 64))
    ⊎ IsForgedRun one_key {l = first}
        (Steps.later Steps.here (tx ∷ []) knowing)
        (knowing-IsSoundVerifier, tt)
no_inflation_example =
    no_inflation one_key params validators 0 (coin ∷ []) second has_weight (omega arith, tt)
      (
        record {
          value = omega arith;
          addr_tag = omega arith;
          rho = omega arith;
          rseed = omega arith;
        },
        tt,
      )
      (Steps.later Steps.here (tx ∷ []) knowing) (knowing-IsSoundVerifier, tt)
