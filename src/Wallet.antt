-- ===== src/Wallet.antt =====
-- crates/wallet/src/lib.rs: the wallet's notes, their receipt and their spending, and the choice of
-- inputs.
pub mod Selection
pub mod Transfer
pub mod Pairs
pub mod Choice
pub mod Padding
pub mod Building
pub mod Completion
pub mod Acceptance
pub mod Progress
pub mod Payment
pub mod Receipt
use Prim.Native.Nat.{bit_xor}
use unknown.Base.{
  ℕ, zero, suc, ◌+◌, ◌-◌, ◌%◌, ◌^◌, Bool, true, false, not, String, Option, none, some, Result, ok,
  err, ◌>>=◌, List, [], ◌∷◌, ◌++◌, length, take, get_or, replicate, ltb, leb, if◌then◌else◌,
}
use mathlib.Core.List.{map}
use unknown.Base.Bytes
use unknown.Base.Bytes.{Bytes}
use unknown.Base.Words.{add_u64}
use unknown.Primitives.{Blake3, hash_parts}
use unknown.Interfaces.{
  Anchor, MerklePath, Nullifier, SpendPublicInputs, ProveError, unsatisfied, tx_inputs, tx_outputs,
  tree_depth, proof_bucket,
}
use unknown.Notes.{Note, memo_len, nullifier, dummy, commitment, rho_transfer}
use unknown.Keys.{
  Ciphers, SpendingKey, PaymentAddress, from_seed, nk, addr_tag, address, incoming_viewing_key,
}
use unknown.Encryption.{EncryptedOutput, encrypt_note, try_decrypt}
use unknown.Pow
use unknown.Pow.{PowSolution}
use unknown.ProverDev.{InputWitness, SpendWitness, prove}
use unknown.State.{contains, insert_all}
use unknown.Tx.{TxV1, AntiSpam, pow, binding_digest}

pub record NoteRecord : Type 0 where
  pub note : Note
  pub position : ℕ

pub data WalletError : Type 0 where
  insufficient_funds : (have need : ℕ) → WalletError
  too_many_inputs_needed : WalletError
  missing_witness : (position : ℕ) → WalletError
  prove_failed : (reason : String) → WalletError

pub record Wallet : Type 0 where
  pub sk : SpendingKey
  pub unspent : List NoteRecord
  pub seen_nullifiers : List Nullifier

abbrev pub value_of : NoteRecord → ℕ
value_of r = r.note.value

-- `iter().map(value).sum()` on `u64`, from the running total on.
abbrev pub sum_from : ℕ → List NoteRecord → ℕ
sum_from total [] = total
sum_from total (r ∷ rs) = sum_from (add_u64 total (value_of r)) rs

abbrev pub balance : Wallet → ℕ
balance w = sum_from 0 w.unspent

abbrev pub note_count : Wallet → ℕ
note_count w = length w.unspent

-- `filter(|r| r.note.value >= amount)`.
abbrev pub covering : ℕ → List NoteRecord → List NoteRecord
covering amount [] = []
covering amount (r ∷ rs) =
    if leb amount (value_of r) then r ∷ covering amount rs else covering amount rs

-- `min_by_key`: the first of the smallest.
abbrev pub smaller : NoteRecord → Option NoteRecord → Option NoteRecord
smaller r none = some r
smaller r (some s) = if leb (value_of r) (value_of s) then some r else some s

abbrev pub smallest : List NoteRecord → Option NoteRecord
smallest [] = none
smallest (r ∷ rs) = smaller r (smallest rs)

-- `sort_by_key(|r| Reverse(r.note.value))`, a stable sort.
abbrev pub insert_descending : NoteRecord → List NoteRecord → List NoteRecord
insert_descending r [] = r ∷ []
insert_descending r (s ∷ ss) =
    if ltb (value_of r) (value_of s) then s ∷ insert_descending r ss else r ∷ s ∷ ss

abbrev pub sort_descending : List NoteRecord → List NoteRecord
sort_descending [] = []
sort_descending (r ∷ rs) = insert_descending r (sort_descending rs)

-- The two largest notes, if they are enough.
unfoldable pub select_pair : ℕ → List NoteRecord → Result (List NoteRecord) WalletError
select_pair amount pair =
    if ltb (sum_from 0 pair) amount then err too_many_inputs_needed else ok pair

unfoldable pub select_from :
    ℕ → List NoteRecord → Option NoteRecord → Result (List NoteRecord) WalletError
unfolding select_pair
select_from amount unspent (some r) = ok (r ∷ [])
select_from amount unspent none = select_pair amount (take tx_inputs (sort_descending unspent))

unfoldable pub select_inputs : Wallet → ℕ → Result (List NoteRecord) WalletError
unfolding select_from
select_inputs w amount =
    if ltb (balance w) amount
    then err (insufficient_funds (balance w) amount)
    else select_from amount w.unspent (smallest (covering amount w.unspent))

-- `retain`: the notes whose nullifier is not in the set.
unfoldable pub retain : ⦃b : Blake3⦄ → Bytes → List Nullifier → List NoteRecord → List NoteRecord
retain nk seen [] = []
retain nk seen (r ∷ rs) =
    if not (contains seen (nullifier r.note nk)) then r ∷ retain nk seen rs else retain nk seen rs

module _ ⦃b : Blake3⦄ where
  unfoldable pub new_wallet : Bytes → Wallet
  new_wallet seed = record { sk = from_seed seed; unspent = []; seen_nullifiers = [] }

  unfoldable pub observe_nullifiers : Wallet → List Nullifier → Wallet
  unfolding retain
  observe_nullifiers w nullifiers =
      let seen = insert_all nullifiers w.seen_nullifiers in
      record w { seen_nullifiers = seen; unspent = retain (nk w.sk) seen w.unspent }

  module _ ⦃c : Ciphers⦄ where
    -- What `try_receive` does with the decrypted note.
    unfoldable pub receive : Wallet → ℕ → Option Note → Wallet × Bool
    receive w position none = (w, false)
    receive w position (some note) =
        if ltb 0 note.value
        then (
          record w { unspent = w.unspent ++ record { note = note; position = position } ∷ [] },
          true,
        )
        else (w, true)

    unfoldable pub try_receive : Wallet → EncryptedOutput → ℕ → Wallet × Bool
    unfolding receive
    try_receive w enc position = receive w position (try_decrypt enc (incoming_viewing_key w.sk))
