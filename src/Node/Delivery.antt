-- ===== src/Node/Delivery.antt =====
-- What the wallets receive at a checkpoint.
use unknown.Base.{
  ℕ, zero, suc, ◌+◌, ◌≡◌, refl, sym, ap, ◌∙◌, arith, List, [], ◌∷◌, length, length-map, get_or,
}
use mathlib.Core.List.{map, map-map, map-id}
use unknown.Primitives.{Blake3}
use unknown.Interfaces.{Commitment}
use unknown.Keys.{Ciphers}
use unknown.Encryption.{EncryptedOutput}
use unknown.ProverDev.{dev_verifier}
use unknown.Tree.{len}
use unknown.Tx.{TxV1}
use unknown.State.{Ledger, start}
use unknown.State.Checkpoint.{range, apply_checkpoint}
use unknown.State.Accepted.{accepted_by, outputs_of, stage_all-IsStagedFor}
use unknown.Wallet.{Wallet, observe_nullifiers, try_receive}
use unknown.Node.{Demo, was_rejected, all_nullifiers, accepted_of, no_outputs, deliver, checkpoint}
use unknown.Node.Rejections.{stage_all-rejected, picked}

-- The encrypted outputs of a list of pairs, in order.
abbrev pub flat : List (EncryptedOutput × EncryptedOutput) → List EncryptedOutput
flat [] = []
flat (outs ∷ rest) = outs.0 ∷ outs.1 ∷ flat rest

module _ ⦃b : Blake3⦄ ⦃c : Ciphers⦄ where
  -- A wallet that tries outputs at consecutive positions.
  abbrev pub receive_all : Wallet → List EncryptedOutput → ℕ → Wallet
  receive_all w [] position = w
  receive_all w (out ∷ outs) position =
      receive_all (try_receive w out position).0 outs (position + 1)

  -- The outputs that the indices pick, at the positions from `base` on.
  abbrev picks : List (EncryptedOutput × EncryptedOutput) → List ℕ → List EncryptedOutput
  picks enc_outputs is = flat (map (λ i. get_or enc_outputs i no_outputs) is)

  deliver-range :
      (enc_outputs : List (EncryptedOutput × EncryptedOutput)) (is : List ℕ) (wallets : List Wallet)
      (base n : ℕ)
      → n ≡ length is + length is
      → (deliver enc_outputs (wallets, range base n) is).0
        ≡ map (λ (w : Wallet). receive_all w (picks enc_outputs is) base) wallets
  unfolding deliver
  deliver-range enc_outputs [] wallets base n e = sym (map-id wallets)
  deliver-range enc_outputs (i ∷ is) wallets base (suc (suc n)) e =
      let outs = get_or enc_outputs i no_outputs in
      let first : Wallet → Wallet = λ w. (try_receive w outs.0 base).0 in
      let second : Wallet → Wallet = λ w. (try_receive w outs.1 (base + 1)).0 in
      let rest : Wallet → Wallet = λ w. receive_all w (picks enc_outputs is) (base + 1 + 1) in
      deliver-range enc_outputs is (map second (map first wallets)) (base + 1 + 1) n
        (omega (arith, e))
      ∙ (map-map rest second (map first wallets) ∙ map-map (λ w. rest (second w)) first wallets)
  deliver-range enc_outputs (i ∷ is) wallets base zero e = absurd (omega (arith, e))
  deliver-range enc_outputs (i ∷ is) wallets base (suc zero) e = absurd (omega (arith, e))

  length-outputs_of : (txs : List TxV1) → length (outputs_of txs) ≡ length txs + length txs
  length-outputs_of [] = refl
  length-outputs_of (tx ∷ txs) = omega (arith, length-outputs_of txs)

  -- The encrypted outputs of transactions, in order.
  abbrev pub delivered : List TxV1 → List EncryptedOutput
  delivered txs = flat (map TxV1.enc_outputs txs)

  -- The indices that the node finds, and the positions that it hands out for them.
  module _ (l : Ledger) (txs : List TxV1) where
    abbrev indices : List ℕ
    indices = accepted_of (apply_checkpoint l txs dev_verifier).1.rejected (range 0 (length txs))

    indices_pick :
        map (λ i. get_or (map TxV1.enc_outputs txs) i no_outputs) indices
        ≡ map TxV1.enc_outputs (accepted_by l txs dev_verifier)
    unfolding apply_checkpoint
    indices_pick =
        picked l dev_verifier (l.height + 1) (map TxV1.enc_outputs txs)
          (apply_checkpoint l txs dev_verifier).1.rejected (start l) 0 txs
          (λ j h.
            ap (λ r. was_rejected r j)
              (stage_all-rejected l dev_verifier (l.height + 1) (start l) 0 txs))
          (λ j. let e : 0 + j ≡ j = omega arith in rw e refl)

    length-indices : length indices ≡ length (accepted_by l txs dev_verifier)
    length-indices =
        sym (length-map indices (λ i. get_or (map TxV1.enc_outputs txs) i no_outputs))
        ∙ (ap length indices_pick ∙ length-map (accepted_by l txs dev_verifier) TxV1.enc_outputs)

    positions :
        (apply_checkpoint l txs dev_verifier).1.output_positions
        ≡ range (length l.tree.leaves) (length (outputs_of (accepted_by l txs dev_verifier)))
    unfolding apply_checkpoint len
    positions =
        ap (λ (cms : List Commitment). range (length l.tree.leaves) (length cms))
          (stage_all-IsStagedFor l dev_verifier (l.height + 1) (start l) 0 txs).commitments

  -- At a checkpoint every wallet drops the notes whose nullifiers a transaction reveals, a rejected
  -- one too, and then tries the encrypted outputs of exactly the accepted transactions, in order, at
  -- the consecutive positions from the size of the tree on.
  pub checkpoint-delivers :
      (d : Demo) (txs : List TxV1) (wallets : List Wallet)
      → (checkpoint d txs wallets).1
        ≡ map
            (λ (w : Wallet).
              receive_all
                (observe_nullifiers w (all_nullifiers txs))
                (delivered (accepted_by d.ledger txs dev_verifier))
                (length d.ledger.tree.leaves))
            wallets
  unfolding checkpoint
  checkpoint-delivers d txs wallets =
      let l = d.ledger in
      let observed = map (λ (w : Wallet). observe_nullifiers w (all_nullifiers txs)) wallets in
      let accepted = accepted_by l txs dev_verifier in
      let base = length l.tree.leaves in
      rw (positions l txs) (
        deliver-range (map TxV1.enc_outputs txs) (indices l txs) observed base
          (length (outputs_of accepted))
          (omega (arith, length-outputs_of accepted, length-indices l txs))
        ∙ (rw (indices_pick l txs) (
            map-map (λ (w : Wallet). receive_all w (delivered accepted) base)
              (λ (w : Wallet). observe_nullifiers w (all_nullifiers txs)) wallets)))
