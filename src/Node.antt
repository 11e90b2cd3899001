-- ===== src/Node.antt =====
-- crates/node/src/main.rs: the single-sequencer devnet. A line of the log is the values that it
-- shows; the wallets are a list.
pub mod Rejections
pub mod Delivery
pub mod Settlement
pub mod Payment
use unknown.Base.{
  ℕ, zero, suc, ◌+◌, ◌^◌, Bool, true, false, not, ◌||◌, ◌==◌, Option, none, some, Result, ok, err,
  ◌>>=◌, ◌>>◌, fail_if, List, [], ◌∷◌, ◌++◌, length, get_or, any, replicate, if◌then◌else◌,
}
use mathlib.Core.List.{map}
use unknown.Base.Bytes.{Bytes}
use unknown.Primitives.{Blake3}
use unknown.Interfaces.{Anchor, Commitment, Nullifier}
use unknown.Notes.{Note, commitment, rho_mint, memo_len}
use unknown.Keys.{Ciphers, PaymentAddress, address}
use unknown.Encryption.{EncryptedOutput, encrypt_note}
use unknown.Emission.{EmissionParams}
use unknown.ProverDev.{dev_verifier}
use unknown.State.{
  Ledger, ValidatorInfo, RejectReason, CheckpointSummary, genesis, current_anchor, tree_witness,
}
use unknown.State.Checkpoint.{apply_checkpoint, audit_supply, range}
use unknown.Tx.{TxV1}
use unknown.Wallet.{Wallet, new_wallet, balance, observe_nullifiers, try_receive}
use unknown.Wallet.Transfer.{Failure, build_transfer}

abbrev pub genesis_fund : ℕ
genesis_fund = 1000000

pub record Demo : Type 0 where
  pub ledger : Ledger
  pub genesis_supply : ℕ

-- The values in the line of a checkpoint.
pub record CheckpointLine : Type 0 where
  pub height : ℕ
  pub accepted : ℕ
  pub rejected : ℕ
  pub emission : ℕ
  pub supply : ℕ
  pub audit : Bool

-- `txs.iter().flat_map(|t| t.nullifiers)`.
abbrev pub all_nullifiers : List TxV1 → List Nullifier
all_nullifiers [] = []
all_nullifiers (tx ∷ txs) = tx.nullifiers.0 ∷ tx.nullifiers.1 ∷ all_nullifiers txs

-- `summary.rejected.iter().any(|(ri, _)| ri == i)`.
abbrev pub was_rejected : List (ℕ × RejectReason) → ℕ → Bool
was_rejected rejected i = any (λ (entry : ℕ × RejectReason). entry.0 == i) rejected

-- The `filter` over the indices.
abbrev pub accepted_of : List (ℕ × RejectReason) → List ℕ → List ℕ
accepted_of rejected [] = []
accepted_of rejected (i ∷ is) =
    if not (was_rejected rejected i) then i ∷ accepted_of rejected is else accepted_of rejected is

-- The pair of outputs that an index out of range would give; the code would stop there.
abbrev pub no_outputs : EncryptedOutput × EncryptedOutput
no_outputs = (record { bytes = [] }, record { bytes = [] })

module _ ⦃b : Blake3⦄ ⦃c : Ciphers⦄ where
  -- One encrypted output: the next position, if there is one, and every wallet tries.
  unfoldable pub deliver_output : List Wallet × List ℕ → EncryptedOutput → List Wallet × List ℕ
  deliver_output (wallets, []) out = (wallets, [])
  deliver_output (wallets, position ∷ rest) out =
      (map (λ (w : Wallet). (try_receive w out position).0) wallets, rest)

  -- The loop over the accepted indices, with the iterator over the positions.
  unfoldable pub deliver :
      List (EncryptedOutput × EncryptedOutput)
      → List Wallet × List ℕ
      → List ℕ
      → List Wallet × List ℕ
  unfolding deliver_output
  deliver enc_outputs state [] = state
  deliver enc_outputs state (i ∷ is) =
      let outs = get_or enc_outputs i no_outputs in
      deliver enc_outputs (deliver_output (deliver_output state outs.0) outs.1) is

  unfoldable pub checkpoint : Demo → List TxV1 → List Wallet → Demo × List Wallet × CheckpointLine
  unfolding deliver
  checkpoint d txs wallets =
      let enc_outputs = map TxV1.enc_outputs txs in
      let (ledger, summary) = apply_checkpoint d.ledger txs dev_verifier in
      let all_nf = all_nullifiers txs in
      let observed = map (λ (w : Wallet). observe_nullifiers w all_nf) wallets in
      let accepted_indices = accepted_of summary.rejected (range 0 (length txs)) in
      let delivered = deliver enc_outputs (observed, summary.output_positions) accepted_indices in
      (
        record d { ledger = ledger },
        delivered.0,
        record {
          height = summary.height;
          accepted = summary.accepted;
          rejected = length summary.rejected;
          emission = summary.rewards.total;
          supply = summary.total_supply;
          audit = audit_supply ledger d.genesis_supply;
        },
      )

  unfoldable pub anchor : Demo → Anchor
  anchor d = current_anchor d.ledger

-- What `run_demo` logs.
pub data Line : Type 0 where
  funded : (value balance : ℕ) → Line
  builds : (value : ℕ) → Line
  sealed : CheckpointLine → Line
  balances : (alice bob carol : ℕ) → Line
  final : (supply : ℕ) → Line

-- Why `run_demo` gives up. A panic of `encrypt_note` on the genesis note is `stopped`, and one of the
-- wallet is a `Failure`.
pub data DemoError : Type 0 where
  stopped : DemoError
  genesis_note_lost : DemoError
  alice_build_transfer : Failure → DemoError
  bob_build_transfer : Failure → DemoError
  unexpected_after_cp1 : (alice bob : ℕ) → DemoError
  unexpected_after_cp2 : (bob carol : ℕ) → DemoError

-- `map_err`.
abbrev pub or_fail : {A E F : Type 0} → (E → F) → Result A E → Result A F
or_fail f (err e) = err (f e)
or_fail f (ok a) = ok a

-- A seed of 32 equal bytes.
abbrev pub seed_of : ℕ → Bytes
seed_of = replicate 32

-- The three wallets of the demo.
pub record Purses : Type 0 where
  pub alice : Wallet
  pub bob : Wallet
  pub carol : Wallet

abbrev pub purses_of : List Wallet → Purses → Purses
purses_of (alice ∷ bob ∷ carol ∷ []) p = record { alice = alice; bob = bob; carol = carol }
purses_of other p = p

abbrev pub balances_line : Purses → Line
balances_line p = balances (balance p.alice) (balance p.bob) (balance p.carol)

module _ ⦃b : Blake3⦄ ⦃c : Ciphers⦄ where
  unfoldable pub alice_note : PaymentAddress → Note
  alice_note address = record {
    value = genesis_fund;
    addr_tag = address.addr_tag;
    rho = rho_mint 0 0;
    rseed = rho_mint 0 200;
  }

  unfoldable pub genesis_demo : Commitment → Demo
  genesis_demo cm = record {
    ledger =
        genesis (record { e0 = 10000; e_tail = 100; half_life = 1000 })
          (record { weight = 1; addr_tag = seed_of 0xAB } ∷ []) 0 ((cm, genesis_fund) ∷ []);
    genesis_supply = genesis_fund;
  }

  unfoldable pub checkpoint_with : Demo → TxV1 → Purses → Demo × Purses × CheckpointLine
  unfolding checkpoint
  checkpoint_with demo tx p =
      let (demo', wallets, line) = checkpoint demo (tx ∷ []) (p.alice ∷ p.bob ∷ p.carol ∷ []) in
      (demo', purses_of wallets p, line)

  -- Bob → Carol: 100000.
  unfoldable pub second_transfer : Demo → Purses → Result (List Line) DemoError
  unfolding anchor checkpoint_with
  second_transfer demo p = do
    tx ← or_fail bob_build_transfer (
        build_transfer p.bob (address p.carol.sk) 100000 (anchor demo) (tree_witness demo.ledger)
          (seed_of 0x20))
    let (demo', p', line) = checkpoint_with demo tx p
    fail_if (not (balance p'.bob == 150000) || not (balance p'.carol == 100000))
        (unexpected_after_cp2 (balance p'.bob) (balance p'.carol))
    ok (builds 100000 ∷ sealed line ∷ balances_line p' ∷ final demo'.ledger.supply ∷ [])

  -- Alice → Bob: 250000, and what follows.
  unfoldable pub first_transfer : Demo → Purses → Result (List Line) DemoError
  unfolding anchor checkpoint_with second_transfer
  first_transfer demo p = do
    tx ← or_fail alice_build_transfer (
        build_transfer p.alice (address p.bob.sk) 250000 (anchor demo) (tree_witness demo.ledger)
          (seed_of 0x10))
    let (demo', p', line) = checkpoint_with demo tx p
    fail_if (not (balance p'.alice == 750000) || not (balance p'.bob == 250000))
        (unexpected_after_cp1 (balance p'.alice) (balance p'.bob))
    rest ← second_transfer demo' p'
    ok (builds 250000 ∷ sealed line ∷ balances_line p' ∷ rest)

  -- Alice's trial decryption of the genesis note, and the two transfers.
  unfoldable pub run_funded : Demo → Purses → Wallet × Bool → Result (List Line) DemoError
  unfolding first_transfer
  run_funded demo p (alice, false) = err genesis_note_lost
  run_funded demo p (alice, true) = do
    rest ← first_transfer demo (record p { alice = alice })
    ok (funded genesis_fund (balance alice) ∷ rest)

  abbrev pub fresh_purses : Purses
  fresh_purses = record {
    alice = new_wallet (seed_of 1);
    bob = new_wallet (seed_of 2);
    carol = new_wallet (seed_of 3);
  }

  unfoldable pub run_demo : Result (List Line) DemoError
  unfolding alice_note genesis_demo run_funded
  run_demo =
      let to = address fresh_purses.alice.sk in
      let note = alice_note to in
      elim (encrypt_note note to (replicate memo_len 0) (seed_of 0xE1)) [
        | none ↦ err stopped
        | some genesis_enc ↦
            run_funded (genesis_demo (commitment note)) fresh_purses
              (try_receive fresh_purses.alice genesis_enc 0)
      ]
