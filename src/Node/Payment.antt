-- ===== src/Node/Payment.antt =====
-- A payment from the wallet that builds it to the wallet that receives it.
use unknown.Base.{
  ℕ, zero, suc, ◌+◌, ◌<◌, ◌≤◌, ◌≡◌, ◌≢◌, refl, sym, ap, ◌∙◌, arith, true, false, Option, none, some,
  ok, List, [], ◌∷◌, ◌++◌, length, get_or, get_elem?, get_or-append_left, get_or-append_right,
  length-append, ◌^◌,
}
use mathlib.Core.List.{map, Memᴰ}
use unknown.Base.Bytes.{Bytes}
use unknown.Base.Words.{IsU64}
use unknown.Primitives.{Blake3}
use unknown.Interfaces.{Anchor, MerklePath, Commitment, max_money}
use unknown.Keys.{Ciphers, SpendingKey, address, addr_tag}
use unknown.Notes.{Note, commitment}
use unknown.Encryption.{EncryptedOutput}
use unknown.ProverDev.{dev_verifier}
use unknown.Tree
use unknown.Tx.{TxV1}
use unknown.State.{Ledger, start, conflict, nullifier_seen, judge, current_anchor, tree_witness}
use unknown.State.Checkpoint.{apply_checkpoint}
use unknown.State.Accepted.{accepted_by, outputs_of}
use unknown.State.Outputs.{added, apply_checkpoint-leaves, added, reward_commitments}
use unknown.Wallet.{Wallet, NoteRecord, select_inputs, observe_nullifiers}
use unknown.Wallet.Transfer.{build_transfer}
use unknown.Tree.Membership.{witness-verifies}
use unknown.Wallet.Progress.{IsSpendable}
use unknown.Wallet.Selection.{worth}
use unknown.Wallet.Acceptance.{built-accepted}
use unknown.Wallet.Receipt.{Pays, built-delivered}
use unknown.Node.{Demo, all_nullifiers, checkpoint}
use unknown.Node.Delivery.{receive_all, delivered, checkpoint-delivers}
use unknown.Node.Settlement.{receive_all_adds, receive_all-sk}

get-map :
    {A B : Type 0} (f : A → B) (xs : List A) (i : ℕ) {x : A}
    → get_elem? xs i ≡ some x
    → get_elem? (map f xs) i ≡ some (f x)
get-map f [] i e = cc
get-map f (y ∷ ys) zero e = cc e
get-map f (y ∷ ys) (suc i) e = get-map f ys i e

module _ ⦃b : Blake3⦄ where
  -- A wallet has a note of a value that it can spend under the ledger's current anchor.
  abbrev pub Holds : Ledger → Wallet → ℕ → Type 0
  Holds l w value =
      (r : NoteRecord) × Memᴰ r w.unspent
      × (r.note.value ≡ value)
      × IsSpendable w.sk (current_anchor l) (tree_witness l) r

  -- A note whose commitment stands in the tree is spendable by its owner.
  leaf-IsSpendable :
      (l : Ledger) (k : SpendingKey) (n : Note) (position : ℕ)
      → length l.tree.leaves ≤ 2 ^ 32
      → position < length l.tree.leaves
      → get_or l.tree.leaves position [] ≡ commitment n
      → n.value < max_money
      → n.addr_tag ≡ addr_tag k
      → IsSpendable k (current_anchor l) (tree_witness l) (record { note = n; position = position })
  unfolding current_anchor
  leaf-IsSpendable l k n position room inside leaf small own =
      let (path, found, place, depth, good) = witness-verifies l.tree position room inside in
      record { in_range = small; owned = own; path = path; found = found; member = rw leaf at good }

  module _ ⦃c : Ciphers⦄ where
    abbrev rewards : Ledger → List TxV1 → List Commitment
    rewards l txs =
        reward_commitments (l.height + 1) l.validators
          (apply_checkpoint l txs dev_verifier).1.rewards.shares

    output_leaf :
        (l : Ledger) (txs : List TxV1) (j : ℕ)
        → j < length (outputs_of (accepted_by l txs dev_verifier))
        → get_or (apply_checkpoint l txs dev_verifier).0.tree.leaves (length l.tree.leaves + j) []
          ≡ get_or (outputs_of (accepted_by l txs dev_verifier)) j []
    output_leaf l txs j h =
        let outputs = outputs_of (accepted_by l txs dev_verifier) in
        let rest = rewards l txs in
        ap (λ ls. get_or ls (length l.tree.leaves + j) [])
          (apply_checkpoint-leaves l txs dev_verifier)
        ∙ (get_or-append_right l.tree.leaves (outputs ++ rest) j []
            ∙ get_or-append_left outputs rest j [] h)

    checkpoint-ledger :
        (d : Demo) (txs : List TxV1) (wallets : List Wallet)
        → (checkpoint d txs wallets).0.ledger ≡ (apply_checkpoint d.ledger txs dev_verifier).0
    unfolding checkpoint
    checkpoint-ledger d txs wallets = refl

    -- Output `j` of the accepted ones, paid to a key, in the wallet of that key.
    accepted-received :
        (d : Demo) (txs : List TxV1) (wallets : List Wallet) (i j : ℕ) (payee : Wallet)
        (out : EncryptedOutput) (cm : Commitment) (value : ℕ)
        → get_elem? wallets i ≡ some payee
        → get_elem? (delivered (accepted_by d.ledger txs dev_verifier)) j ≡ some out
        → j < length (outputs_of (accepted_by d.ledger txs dev_verifier))
        → get_or (outputs_of (accepted_by d.ledger txs dev_verifier)) j [] ≡ cm
        → Pays payee.sk out cm value
        → 0 < value
        → value < max_money
        → length (apply_checkpoint d.ledger txs dev_verifier).0.tree.leaves ≤ 2 ^ 32
        → (payee' : Wallet) × (get_elem? (checkpoint d txs wallets).1 i ≡ some payee')
          × Holds (checkpoint d txs wallets).0.ledger payee' value
    unfolding observe_nullifiers
    accepted-received d txs wallets i j payee out cm value there sent inside at_ pays positive small
          room =
        let l = d.ledger in
        let l' = (apply_checkpoint l txs dev_verifier).0 in
        let base = length l.tree.leaves in
        let observed = observe_nullifiers payee (all_nullifiers txs) in
        let accepted = accepted_by l txs dev_verifier in
        let (n, opens, bound, worth, tag) = pays in
        let payee' = receive_all observed (delivered accepted) base in
        let key : payee'.sk ≡ payee.sk = receive_all-sk observed (delivered accepted) base in
        (
          payee',
          rw (checkpoint-delivers d txs wallets) (get-map _ wallets i there),
          (
            record { note = n; position = base + j },
            receive_all_adds observed (delivered accepted) base j out n sent opens
                (omega (arith, worth, positive)),
            worth,
            rw (checkpoint-ledger d txs wallets) (
                leaf-IsSpendable l' payee'.sk n (base + j) room
                  (omega (
                    arith,
                    inside,
                    ap length (apply_checkpoint-leaves l txs dev_verifier),
                    length-append l.tree.leaves (added l txs dev_verifier),
                    length-append (outputs_of accepted) (rewards l txs),
                  ))
                  (output_leaf l txs j inside ∙ (at_ ∙ sym bound)) (omega (arith, worth, small))
                  (rw key tag)),
          ),
        )

    alone :
        (l : Ledger) (tx : TxV1)
        → judge l dev_verifier (l.height + 1) (start l) tx ≡ (l.quota, none)
        → accepted_by l (tx ∷ []) dev_verifier ≡ tx ∷ []
    alone l tx e = rw e refl

    -- A transfer that a wallet has built to the address of a key, alone in a checkpoint of the node,
    -- pays: afterwards the wallet with that key holds a note of the amount, for its own tag, that has
    -- a path in the ledger's tree which verifies under the ledger's current anchor, so that it can be
    -- spent in its turn. The conditions: the choice of inputs answers, the builder's worth is a u64,
    -- the amount is positive, it and the change are below 2^62, the ledger asks for no proof of work,
    -- the anchor is valid in it, the transfer's nullifiers differ and are unspent, and the tree keeps
    -- to its 2^32 leaves.
    pub payment-settles :
        (d : Demo) (w : Wallet) (amount : ℕ) (a : Anchor) (witness_for : ℕ → Option MerklePath)
        (seed : Bytes) {selected : List NoteRecord} {tx : TxV1} (wallets : List Wallet) (i : ℕ)
        (payee : Wallet)
        → get_elem? wallets i ≡ some payee
        → build_transfer w (address payee.sk) amount a witness_for seed ≡ ok tx
        → select_inputs w amount ≡ ok selected
        → IsU64 (worth w.unspent)
        → 0 < amount
        → amount < max_money
        → worth selected < amount + max_money
        → d.ledger.difficulty_bits ≡ 0
        → Tree.anchor_valid d.ledger.tree a ≡ true
        → tx.nullifiers.0 ≢ tx.nullifiers.1
        → nullifier_seen d.ledger tx.nullifiers.0 ≡ false
        → nullifier_seen d.ledger tx.nullifiers.1 ≡ false
        → length (apply_checkpoint d.ledger (tx ∷ []) dev_verifier).0.tree.leaves ≤ 2 ^ 32
        → (payee' : Wallet) × (get_elem? (checkpoint d (tx ∷ []) wallets).1 i ≡ some payee')
          × Holds (checkpoint d (tx ∷ []) wallets).0.ledger payee' amount
    unfolding conflict
    payment-settles d w amount a witness_for seed {tx} wallets i payee there e chosen u positive
          small bounded easy valid differ fresh fresh' room =
        let l = d.ledger in
        let judged =
          built-accepted w (address payee.sk) amount a witness_for seed l (l.height + 1) (start l) e
            easy valid differ (rw (fresh, fresh') refl) in
        let only = alone l tx judged in
        let paid =
          (built-delivered w payee.sk amount a witness_for seed e chosen u small bounded).0 in
        accepted-received d (tx ∷ []) wallets i 0 payee tx.enc_outputs.0 tx.commitments.0 amount
          there (rw only refl) (rw only (omega arith)) (rw only refl) paid positive small room
