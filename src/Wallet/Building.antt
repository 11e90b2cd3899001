-- ===== src/Wallet/Building.antt =====
-- The steps of a transfer that the wallet has built, and what its parts satisfy.
use unknown.Base.{
  ℕ, ◌+◌, ◌-◌, ◌%◌, ◌^◌, ◌≡◌, Result, ok, err, Option, none, some, >>=-eq-ok, List, [], ◌++◌,
  get_or, length, replicate,
}
use unknown.Base.Bytes.{Bytes}
use unknown.Primitives.{Blake3}
use unknown.Interfaces.{Anchor, MerklePath, Nullifier, ProveError, unsatisfied, tx_inputs}
use unknown.Encryption.{EncryptedOutput, encrypt_note}
use unknown.Notes.{Note, memo_len}
use unknown.Keys.{Ciphers, PaymentAddress, address, addr_tag}
use unknown.ProverDev.{InputWitness}
use unknown.Tx.{TxV1}
use unknown.Wallet.{Wallet, WalletError, NoteRecord, select_inputs, sum_from}
use unknown.Wallet.Transfer.{
  refused, proved, expect, with_paths, dummies, nullifiers_of, complete, encrypt_both, derive_rseed,
  output_note, assemble, build_from, build_transfer,
}

pub expect-eq-ok : {A : Type 0} (o : Option A) {a : A} → expect o ≡ ok a → o ≡ some a
expect-eq-ok none e = cc
expect-eq-ok (some a) e = cc

refused-eq-ok : {A : Type 0} (r : Result A WalletError) {a : A} → refused r ≡ ok a → r ≡ ok a
refused-eq-ok (err x) e = cc
refused-eq-ok (ok a) e = cc

pub proved-eq-ok : {A : Type 0} (r : Result A ProveError) {a : A} → proved r ≡ ok a → r ≡ ok a
proved-eq-ok (err (unsatisfied x)) e = cc
proved-eq-ok (ok a) e = cc

module _ ⦃b : Blake3⦄ ⦃c : Ciphers⦄ (w : Wallet) (recipient : PaymentAddress) (amount : ℕ)
    (anchor : Anchor) (witness_for : ℕ → Option MerklePath) (seed : Bytes) where
  abbrev pub change_of : List NoteRecord → ℕ
  change_of selected = (sum_from 0 selected + 2 ^ 64 - amount) % 2 ^ 64

  abbrev pub padded : List InputWitness → List InputWitness
  padded inputs = inputs ++ dummies (tx_inputs - length inputs) 0

  abbrev pub first_nullifier : List InputWitness → Nullifier
  first_nullifier inputs = get_or (nullifiers_of w.sk (padded inputs)) 0 []

  abbrev pub paid_note : List InputWitness → Note
  paid_note inputs = output_note (first_nullifier inputs) recipient.addr_tag amount seed 0

  abbrev pub change_note : List NoteRecord → List InputWitness → Note
  change_note selected inputs =
      output_note (first_nullifier inputs) (addr_tag w.sk) (change_of selected) seed 1

  -- The steps that led to a built transfer.
  pub record IsBuilt (tx : TxV1) : Type 0 where
    pub selected : List NoteRecord
    pub inputs : List InputWitness
    pub enc0 : EncryptedOutput
    pub enc1 : EncryptedOutput
    pub chosen : select_inputs w amount ≡ ok selected
    pub found : with_paths witness_for selected ≡ ok inputs
    pub sealed :
        encrypt_note (paid_note inputs) recipient (replicate memo_len 0) (derive_rseed seed 10)
        ≡ some enc0
    pub kept :
        encrypt_note
          (change_note selected inputs)
          (address w.sk)
          (replicate memo_len 0)
          (derive_rseed seed 11)
        ≡ some enc1
    pub completed :
        complete w.sk anchor
          (padded inputs)
          (nullifiers_of w.sk (padded inputs))
          (paid_note inputs)
          (change_note selected inputs)
          enc0
          enc1
        ≡ ok tx

  encrypt_both-steps :
      (inputs : List InputWitness) (nfs : List Nullifier) (n m : Note) {tx : TxV1}
      → encrypt_both w.sk recipient anchor seed inputs nfs n m ≡ ok tx
      → (enc0 : EncryptedOutput) × (enc1 : EncryptedOutput) × (encrypt_note n recipient
            (replicate memo_len 0)
            (derive_rseed seed 10)
          ≡ some enc0)
        × (encrypt_note m (address w.sk) (replicate memo_len 0) (derive_rseed seed 11) ≡ some enc1)
        × (complete w.sk anchor inputs nfs n m enc0 enc1 ≡ ok tx)
  unfolding encrypt_both
  encrypt_both-steps inputs nfs n m e =
      let first = encrypt_note n recipient (replicate memo_len 0) (derive_rseed seed 10) in
      let second = encrypt_note m (address w.sk) (replicate memo_len 0) (derive_rseed seed 11) in
      let (enc0, f1, k1) = >>=-eq-ok (expect first) _ e in
      let (enc1, f2, k2) = >>=-eq-ok (expect second) _ k1 in
      (enc0, enc1, expect-eq-ok first f1, expect-eq-ok second f2, k2)

  build_from-IsBuilt :
      (selected : List NoteRecord) {tx : TxV1}
      → select_inputs w amount ≡ ok selected
      → build_from w recipient amount anchor witness_for seed selected ≡ ok tx
      → IsBuilt tx
  unfolding build_from assemble
  build_from-IsBuilt selected chosen e =
      let (inputs, found, k) = >>=-eq-ok (with_paths witness_for selected) _ e in
      let (enc0, enc1, sealed, kept, completed) =
        encrypt_both-steps (padded inputs) (nullifiers_of w.sk (padded inputs)) (paid_note inputs)
          (change_note selected inputs) k in
      record {
        selected = selected;
        inputs = inputs;
        enc0 = enc0;
        enc1 = enc1;
        chosen = chosen;
        found = found;
        sealed = sealed;
        kept = kept;
        completed = completed;
      }

  pub build_transfer-IsBuilt :
      {tx : TxV1} → build_transfer w recipient amount anchor witness_for seed ≡ ok tx → IsBuilt tx
  unfolding build_transfer
  build_transfer-IsBuilt e =
      let (selected, chosen, k) = >>=-eq-ok (refused (select_inputs w amount)) _ e in
      build_from-IsBuilt selected (refused-eq-ok (select_inputs w amount) chosen) k
