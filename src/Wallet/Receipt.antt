-- ===== src/Wallet/Receipt.antt =====
-- What the outputs of a built transfer hold for their recipients.
use unknown.Base.{
  ℕ, ◌+◌, ◌-◌, ◌<◌, ◌≡◌, refl, ap, arith, Option, some, ok, List, replicate, length-replicate,
}
use unknown.Base.Bytes.{Bytes}
use unknown.Base.Words.{IsU64}
use unknown.Primitives.{Blake3}
use unknown.Interfaces.{Anchor, MerklePath, max_money}
use unknown.Keys.{Ciphers, SpendingKey, address, addr_tag, incoming_viewing_key}
use unknown.Notes.{Note, memo_len, commitment}
use unknown.Notes.Binding.{IsNote}
use unknown.Encryption.{EncryptedOutput, encrypt_note, try_decrypt}
use unknown.Encryption.Delivery.{try_decrypt-encrypt_note}
use unknown.Tx.{TxV1}
use unknown.Wallet.{Wallet, NoteRecord, select_inputs}
use unknown.Wallet.Transfer.{derive_rseed, output_note, build_transfer}
use unknown.Wallet.Selection.{worth, select_inputs-covers}
use unknown.Wallet.Building.{change_of, build_transfer-IsBuilt}
use unknown.Wallet.Completion.{complete-IsCompleted}
use unknown.Wallet.Payment.{Is32-addr_tag, output_note-IsNote, change_of_lem}

module _ ⦃b : Blake3⦄ ⦃c : Ciphers⦄ where
  -- An output that was encrypted for a key is decrypted by it.
  opened :
      (k : SpendingKey) (n : Note) (seed : Bytes) {enc : EncryptedOutput}
      → IsNote n
      → n.addr_tag ≡ addr_tag k
      → encrypt_note n (address k) (replicate memo_len 0) seed ≡ some enc
      → try_decrypt enc (incoming_viewing_key k) ≡ some n
  opened k n seed {enc} h tag e =
      let memo : Bytes = replicate memo_len 0 in
      let (out, made, size, decrypts) =
        try_decrypt-encrypt_note k n memo seed h tag (length-replicate {A = ℕ} memo_len 0) in
      let same : out ≡ enc = cc (made, e) in rw (← same) decrypts

  -- An output of a transaction that is a note of a value for a key.
  abbrev pub Pays : SpendingKey → EncryptedOutput → Bytes → ℕ → Type 0
  Pays k enc cm value =
      (n : Note) × (try_decrypt enc (incoming_viewing_key k) ≡ some n)
      × (commitment n ≡ cm)
      × (n.value ≡ value)
      × (n.addr_tag ≡ addr_tag k)

  output-Pays :
      (k : SpendingKey) (first_nf seed rand : Bytes) (value idx : ℕ) {enc : EncryptedOutput}
      → value < max_money
      → encrypt_note
          (output_note first_nf (addr_tag k) value seed idx)
          (address k)
          (replicate memo_len 0)
          rand
        ≡ some enc
      → Pays k enc (commitment (output_note first_nf (addr_tag k) value seed idx)) value
  unfolding output_note
  output-Pays k first_nf seed rand value idx small e =
      let n = output_note first_nf (addr_tag k) value seed idx in
      (
        n,
        opened k n rand
            (output_note-IsNote first_nf (addr_tag k) seed value idx (Is32-addr_tag k) small) refl
            e,
        refl,
        refl,
        refl,
      )

  -- A transfer that a wallet has built to the address of a key pays the amount to that key and the
  -- worth of the chosen notes less the amount to the wallet's own key: each output decrypts, under
  -- the viewing key, to a note of that value for the key's tag whose commitment is the one that the
  -- transaction publishes. The conditions: the wallet's worth is a u64, and the amount and the
  -- change are below 2^62.
  pub built-delivered :
      (w : Wallet) (k : SpendingKey) (amount : ℕ) (anchor : Anchor)
      (witness_for : ℕ → Option MerklePath) (seed : Bytes) {selected : List NoteRecord} {tx : TxV1}
      → build_transfer w (address k) amount anchor witness_for seed ≡ ok tx
      → select_inputs w amount ≡ ok selected
      → IsU64 (worth w.unspent)
      → amount < max_money
      → worth selected < amount + max_money
      → Pays k tx.enc_outputs.0 tx.commitments.0 amount
        × Pays w.sk tx.enc_outputs.1 tx.commitments.1 (worth selected - amount)
  unfolding address
  built-delivered w k amount anchor witness_for seed {selected} {tx} e chosen u small bounded =
      let built = build_transfer-IsBuilt w (address k) amount anchor witness_for seed e in
      let done = complete-IsCompleted w.sk anchor _ _ _ built.enc0 built.enc1 built.completed in
      let same : selected ≡ built.selected = cc (chosen, built.chosen) in
      let sums : worth selected ≡ worth built.selected = ap worth same in
      let (covers, few) = select_inputs-covers w amount u built.chosen in
      let change = change_of w (address k) amount anchor witness_for seed built.selected in
      let (exact, fits) =
        change_of_lem w k amount anchor witness_for seed built.selected covers
          (omega (arith, bounded, sums)) small in
      let paid = output-Pays k _ seed (derive_rseed seed 10) amount 0 small built.sealed in
      let (n, opens, bound, value, tag) =
        output-Pays w.sk _ seed (derive_rseed seed 11) change 1 fits built.kept in
      let rest : n.value ≡ worth selected - amount = omega (arith, value, exact, covers, sums) in
      rw (← done.same) ((paid, (n, opens, bound, rest, tag)))
