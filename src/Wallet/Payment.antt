-- ===== src/Wallet/Payment.antt =====
-- When the wallet can build a transfer, and what its recipient makes of it.
use unknown.Base.{
  ℕ, ◌+◌, ◌-◌, ◌<◌, ◌≤◌, ◌≡◌, refl, ap, ◌∙◌, arith, Option, some, ok, List, [], ◌++◌, get_or,
  length, length-append, length-replicate, All, All-append, replicate,
}
use mathlib.Core.List.{map}
use unknown.Base.Bytes.{Bytes}
use unknown.Base.Words.{IsU64}
use unknown.Primitives.{Blake3, length-hash_parts}
use unknown.Interfaces.{Anchor, MerklePath, Nullifier, tx_inputs, max_money}
use unknown.Interfaces.Encoding.{Is32}
use unknown.Keys.{Ciphers, SpendingKey, address, nk, addr_tag}
use unknown.Notes.{Note, memo_len, nullifier, rho_transfer}
use unknown.Notes.Binding.{IsNote}
use unknown.Encryption.{EncryptedOutput}
use unknown.Encryption.Delivery.{try_decrypt-encrypt_note}
use unknown.Pow
use unknown.Pow.Solve.{solve-verifies}
use unknown.ProverDev.{InputWitness, canonicalize, sort_inputs, public_inputs, dev_tag}
use unknown.ProverDev.Statement.{IsSpend, total_in}
use unknown.ProverDev.Proving.{prove_complete}
use unknown.Tx.{TxV1, pow}
use unknown.Wallet.{Wallet, NoteRecord, select_inputs, sum_from}
use unknown.Wallet.Transfer.{
  dummies, nullifiers_of, derive_rseed, output_note, finish, complete, encrypt_both, assemble,
  build_from, build_transfer,
}
use unknown.Wallet.Selection.{worth, sum_from_lem, select_inputs-covers}
use unknown.Wallet.Building.{padded, change_of}
use unknown.Wallet.Completion.{unproved, witness_of, map-sort}
use unknown.Wallet.Progress.{
  IsSpendable, IsReady, with_paths_total, dummies-IsReady, total_in-append, sort-keeps,
  spend_of-IsSpend,
}

module _ ⦃b : Blake3⦄ where
  -- With no difficulty the first nonce solves the puzzle.
  solved : (digest : Bytes) → (s : Pow.PowSolution) × (Pow.solve digest 0 ≡ some s)
  unfolding Pow.verify
  solved digest =
      let (s, found, fits, least, first) = solve-verifies digest 0 0 (omega arith) (ground arith) in
      (s, found)

  complete_total :
      (sk : SpendingKey) (anchor : Anchor) (inputs : List InputWitness) (o o' : Note)
      (enc0 enc1 : EncryptedOutput)
      → let w = witness_of sk anchor inputs o o' enc0 enc1 in
        IsSpend (canonicalize w) (public_inputs (canonicalize w) anchor)
        → (tx : TxV1) × (complete sk anchor inputs (nullifiers_of sk inputs) o o' enc0 enc1 ≡ ok tx)
  unfolding complete finish
  complete_total sk anchor inputs o o' enc0 enc1 spend =
      let w = witness_of sk anchor inputs o o' enc0 enc1 in
      let (s, found) = solved w.binding_digest in
      let pi = public_inputs (canonicalize w) anchor in
      (
        record (unproved anchor (nullifiers_of sk inputs) o o' enc0 enc1) {
          antispam = pow s;
          proof = dev_tag pi ++ replicate 160 0;
        },
        rw (prove_complete w anchor spend, found) refl,
      )

  -- The notes of a transfer have the sizes that Rust's types give them.
  pub Is32-addr_tag : (k : SpendingKey) → Is32 (addr_tag k)
  unfolding addr_tag
  Is32-addr_tag k = length-hash_parts _ _

  pub output_note-IsNote :
      (first_nf tag seed : Bytes) (value idx : ℕ)
      → Is32 tag
      → value < max_money
      → IsNote (output_note first_nf tag value seed idx)
  unfolding output_note rho_transfer derive_rseed
  output_note-IsNote first_nf tag seed value idx h small = record {
    value = omega (arith, small);
    addr_tag = h;
    rho = length-hash_parts _ _;
    rseed = length-hash_parts _ _;
  }

  module _ ⦃c : Ciphers⦄ (w : Wallet) (k : SpendingKey) (amount : ℕ) (anchor : Anchor)
      (witness_for : ℕ → Option MerklePath) (seed : Bytes) where
    pub own :
        (first_nf tag : Bytes) (value idx : ℕ)
        → (output_note first_nf tag value seed idx).addr_tag ≡ tag
    unfolding output_note
    own first_nf tag value idx = refl

    -- The statement of a transfer whose inputs are worth the amount and the change.
    transfer_proved :
        (inputs : List InputWitness) (change : ℕ) (first_nf : Nullifier)
        (enc0 enc1 : EncryptedOutput)
        → length inputs ≡ 2
        → All (IsReady w.sk anchor) inputs
        → total_in inputs ≡ amount + change
        → amount < max_money
        → change < max_money
        → get_or (nullifiers_of w.sk inputs) 0 [] ≡ first_nf
        → let o = output_note first_nf (addr_tag k) amount seed 0 in
          let o' = output_note first_nf (addr_tag w.sk) change seed 1 in
          let spend = witness_of w.sk anchor inputs o o' enc0 enc1 in
          IsSpend (canonicalize spend) (public_inputs (canonicalize spend) anchor)
    unfolding canonicalize output_note
    transfer_proved inputs change first_nf enc0 enc1 two ready total small small' first =
        let (ready', total', size') = sort-keeps w.sk anchor inputs ready in
        let o = output_note first_nf (addr_tag k) amount seed 0 in
        let o' = output_note first_nf (addr_tag w.sk) change seed 1 in
        let spend = witness_of w.sk anchor inputs o o' enc0 enc1 in
        let head : get_or
              (map (λ (i : InputWitness). nullifier i.note (nk w.sk))
                (sort_inputs (nk w.sk) inputs))
              0 []
            ≡ first_nf =
          ap (λ (l : List Nullifier). get_or l 0 []) (map-sort w.sk inputs) ∙ first in
        spend_of-IsSpend w.sk anchor (sort_inputs (nk w.sk) inputs) o o' spend.binding_digest
          (omega (arith, size', two)) ready' (omega (arith, total', total)) small small'
          (rw head refl) (rw head refl)

    -- The change is what the chosen notes are worth beyond the amount.
    pub change_of_lem :
        (selected : List NoteRecord)
        → amount ≤ worth selected
        → worth selected < amount + max_money
        → amount < max_money
        → (amount + change_of w (address k) amount anchor witness_for seed selected
            ≡ worth selected)
          × (change_of w (address k) amount anchor witness_for seed selected < max_money)
    change_of_lem selected covers bounded small =
        let exact : sum_from 0 selected ≡ worth selected =
          omega (arith, sum_from_lem 0 selected (omega (arith, bounded, small))) in
        (omega (arith, exact), omega (arith, exact))

    padded-IsReady :
        (inputs : List InputWitness)
        → length inputs ≤ 2
        → All (IsReady w.sk anchor) inputs
        → let all = padded w (address k) amount anchor witness_for seed inputs in
          All (IsReady w.sk anchor) all × (total_in all ≡ total_in inputs) × (length all ≡ 2)
    padded-IsReady inputs short ready =
        let rest = tx_inputs - length inputs in
        let (fine, none_, size) = dummies-IsReady w.sk anchor rest 0 in
        (
          All-append (IsReady w.sk anchor) inputs (dummies rest 0) ready fine,
          omega (arith, total_in-append w.sk anchor inputs (dummies rest 0), none_),
          omega (arith, length-append inputs (dummies rest 0), size),
        )

    -- The wallet builds a transfer to an address that a key has derived, if the choice of inputs
    -- answers, the chosen notes are its own, have values below 2^62, and have paths that verify
    -- under the anchor, the wallet's worth is a u64, and the amount and the change are below 2^62.
    pub build_transfer_total :
        {selected : List NoteRecord}
        → select_inputs w amount ≡ ok selected
        → All (IsSpendable w.sk anchor witness_for) selected
        → IsU64 (worth w.unspent)
        → amount < max_money
        → worth selected < amount + max_money
        → (tx : TxV1) × (build_transfer w (address k) amount anchor witness_for seed ≡ ok tx)
    unfolding build_transfer build_from assemble encrypt_both address
    build_transfer_total {selected} chosen spendable u small bounded =
        let (covers, few) = select_inputs-covers w amount u chosen in
        let (inputs, found, ready, total, size) =
          with_paths_total w.sk anchor witness_for selected spendable in
        let all = padded w (address k) amount anchor witness_for seed inputs in
        let (fine, sum, two) = padded-IsReady inputs (omega (arith, size, few)) ready in
        let change = change_of w (address k) amount anchor witness_for seed selected in
        let (exact, fits) = change_of_lem selected covers bounded small in
        let first_nf = get_or (nullifiers_of w.sk all) 0 [] in
        let o = output_note first_nf (addr_tag k) amount seed 0 in
        let o' = output_note first_nf (addr_tag w.sk) change seed 1 in
        let memo : Bytes = replicate memo_len 0 in
        let (enc0, sealed, l0, d0) =
          try_decrypt-encrypt_note k o memo (derive_rseed seed 10)
            (output_note-IsNote first_nf (addr_tag k) seed amount 0 (Is32-addr_tag k) small)
            (own first_nf (addr_tag k) amount 0) (length-replicate {A = ℕ} memo_len 0) in
        let (enc1, kept, l1, d1) =
          try_decrypt-encrypt_note w.sk o' memo (derive_rseed seed 11)
            (output_note-IsNote first_nf (addr_tag w.sk) seed change 1 (Is32-addr_tag w.sk) fits)
            (own first_nf (addr_tag w.sk) change 1) (length-replicate {A = ℕ} memo_len 0) in
        let (tx, done) = complete_total w.sk anchor all o o' enc0 enc1 (
          transfer_proved all change first_nf enc0 enc1 two fine (omega (arith, sum, total, exact))
            small fits refl) in
        (tx, rw (chosen, found, sealed, kept) done)
