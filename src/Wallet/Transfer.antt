-- ===== src/Wallet/Transfer.antt =====
-- crates/wallet/src/lib.rs: the building of a transfer. Where the code stops with a panic, the
-- failure is `stop`.
use Prim.Native.Nat.{bit_xor}
use unknown.Base.{
  ℕ, zero, suc, ◌+◌, ◌-◌, ◌%◌, ◌^◌, true, false, Option, none, some, Result, ok, err, ◌>>=◌, List,
  [], ◌∷◌, ◌++◌, length, get_or, replicate, if◌then◌else◌,
}
use mathlib.Core.List.{map}
use unknown.Base.Bytes
use unknown.Base.Bytes.{Bytes}
use unknown.Primitives.{Blake3, hash_parts}
use unknown.Interfaces.{
  Anchor, MerklePath, Nullifier, ProveError, unsatisfied, tx_inputs, tree_depth, proof_bucket,
}
use unknown.Notes.{Note, memo_len, nullifier, dummy, commitment, rho_transfer}
use unknown.Keys.{Ciphers, SpendingKey, PaymentAddress, nk, addr_tag, address}
use unknown.Encryption.{EncryptedOutput, encrypt_note}
use unknown.Pow
use unknown.Pow.{PowSolution}
use unknown.ProverDev.{InputWitness, SpendWitness, prove}
use unknown.Tx.{TxV1, pow, binding_digest}
use unknown.Wallet.{
  Wallet, WalletError, NoteRecord, missing_witness, prove_failed, sum_from, select_inputs,
}

-- A refusal of the wallet, or a panic of the code.
pub data Failure : Type 0 where
  refuse : WalletError → Failure
  stop : Failure

abbrev pub refused : {A : Type 0} → Result A WalletError → Result A Failure
refused (err e) = err (refuse e)
refused (ok a) = ok a

-- `map_err(|Unsatisfied(s)| WalletError::Prove(s))`.
abbrev pub proved : {A : Type 0} → Result A ProveError → Result A Failure
proved (err (unsatisfied reason)) = err (refuse (prove_failed reason))
proved (ok a) = ok a

-- `expect`.
abbrev pub expect : {A : Type 0} → Option A → Result A Failure
expect none = err stop
expect (some a) = ok a

-- `ok_or(WalletError::MissingWitness(position))`.
abbrev pub or_missing : ℕ → Option MerklePath → Result MerklePath Failure
or_missing position none = err (refuse (missing_witness position))
or_missing position (some path) = ok path

unfoldable pub with_paths :
    (ℕ → Option MerklePath) → List NoteRecord → Result (List InputWitness) Failure
with_paths witness_for [] = ok []
with_paths witness_for (r ∷ rs) = do
  path ← or_missing r.position (witness_for r.position)
  rest ← with_paths witness_for rs
  ok (record { note = r.note; path = path; is_dummy = false } ∷ rest)

abbrev pub empty_path : MerklePath
empty_path = record { position = 0; siblings = replicate tree_depth (replicate 32 0) }

-- `sort_by_key(|nf| nf.0)`.
abbrev pub insert_nullifier : Nullifier → List Nullifier → List Nullifier
insert_nullifier nf [] = nf ∷ []
insert_nullifier nf (x ∷ xs) = if Bytes.lt x nf then x ∷ insert_nullifier nf xs else nf ∷ x ∷ xs

abbrev pub sort_nullifiers : List Nullifier → List Nullifier
sort_nullifiers [] = []
sort_nullifiers (nf ∷ nfs) = insert_nullifier nf (sort_nullifiers nfs)

module _ ⦃b : Blake3⦄ where
  -- The padding loop, `n` rounds from the counter `ctr` on.
  unfoldable pub dummies : ℕ → ℕ → List InputWitness
  dummies zero ctr = []
  dummies (suc n) ctr =
      record { note = dummy (replicate 32 (bit_xor 0xD0 ctr)); path = empty_path; is_dummy = true }
      ∷ dummies n (ctr + 1)

  unfoldable pub derive_rseed : Bytes → ℕ → Bytes
  derive_rseed seed idx = hash_parts "unknown.v0.wallet.rseed" (seed ∷ (idx ∷ []) ∷ [])

  -- The proof of the transfer and the puzzle, at the difficulty 0.
  unfoldable pub finish : SpendWitness → TxV1 → Result TxV1 Failure
  finish witness partial = do
    (pi, proof) ← proved (prove witness partial.anchor)
    sol ← expect (Pow.solve (binding_digest partial) 0)
    ok (record partial { antispam = pow sol; proof = proof })

  -- An output note, its rho bound to the first nullifier.
  unfoldable pub output_note : Nullifier → Bytes → ℕ → Bytes → ℕ → Note
  unfolding derive_rseed
  output_note first_nf tag value rng_seed idx = record {
    value = value;
    addr_tag = tag;
    rho = rho_transfer first_nf idx;
    rseed = derive_rseed rng_seed idx;
  }

  -- The transaction without its proof, bound, proved and solved.
  unfoldable pub complete :
      SpendingKey
      → Anchor
      → List InputWitness
      → List Nullifier
      → Note
      → Note
      → EncryptedOutput
      → EncryptedOutput
      → Result TxV1 Failure
  unfolding finish
  complete sk anchor inputs nfs out_recipient out_change enc0 enc1 =
      let partial : TxV1 = record {
        anchor = anchor;
        nullifiers = (get_or nfs 0 [], get_or nfs 1 []);
        commitments = (commitment out_recipient, commitment out_change);
        enc_outputs = (enc0, enc1);
        antispam = pow (record { nonce = 0 });
        proof = replicate proof_bucket 0;
      } in
      finish
        (record {
          spender_nk = nk sk;
          spender_addr_tag = addr_tag sk;
          inputs = inputs;
          outputs = out_recipient ∷ out_change ∷ [];
          mint_value = 0;
          binding_digest = binding_digest partial;
        })
        partial

  -- The nullifiers of the inputs in ascending order.
  abbrev pub nullifiers_of : SpendingKey → List InputWitness → List Nullifier
  nullifiers_of sk inputs =
      sort_nullifiers (map (λ (i : InputWitness). nullifier i.note (nk sk)) inputs)

  module _ ⦃c : Ciphers⦄ where
    -- Encrypting both outputs, the change to the wallet's own address.
    unfoldable pub encrypt_both :
        SpendingKey
        → PaymentAddress
        → Anchor
        → Bytes
        → List InputWitness
        → List Nullifier
        → Note
        → Note
        → Result TxV1 Failure
    unfolding complete derive_rseed
    encrypt_both sk recipient anchor rng_seed inputs nfs out_recipient out_change = do
      enc0 ←
          expect
            (encrypt_note out_recipient recipient (replicate memo_len 0) (derive_rseed rng_seed 10))
      enc1 ←
          expect
            (encrypt_note out_change (address sk) (replicate memo_len 0) (derive_rseed rng_seed 11))
      complete sk anchor inputs nfs out_recipient out_change enc0 enc1

    -- The transfer from its padded inputs on.
    unfoldable pub assemble :
        Wallet → PaymentAddress → ℕ → ℕ → Anchor → Bytes → List InputWitness → Result TxV1 Failure
    unfolding encrypt_both output_note
    assemble w recipient amount change anchor rng_seed inputs =
        let nfs = nullifiers_of w.sk inputs in
        let first_nf = get_or nfs 0 [] in
        encrypt_both w.sk recipient anchor rng_seed inputs nfs
          (output_note first_nf recipient.addr_tag amount rng_seed 0)
          (output_note first_nf (addr_tag w.sk) change rng_seed 1)

    -- The transfer from the chosen notes on: their paths, and the padding.
    unfoldable pub build_from :
        Wallet
        → PaymentAddress
        → ℕ
        → Anchor
        → (ℕ → Option MerklePath)
        → Bytes
        → List NoteRecord
        → Result TxV1 Failure
    unfolding assemble with_paths dummies
    build_from w recipient amount anchor witness_for rng_seed selected = do
      inputs ← with_paths witness_for selected
      assemble w recipient amount ((sum_from 0 selected + 2 ^ 64 - amount) % 2 ^ 64) anchor rng_seed
          (inputs ++ dummies (tx_inputs - length inputs) 0)

    unfoldable pub build_transfer :
        Wallet → PaymentAddress → ℕ → Anchor → (ℕ → Option MerklePath) → Bytes → Result TxV1 Failure
    unfolding build_from
    build_transfer w recipient amount anchor witness_for rng_seed = do
      selected ← refused (select_inputs w amount)
      build_from w recipient amount anchor witness_for rng_seed selected
