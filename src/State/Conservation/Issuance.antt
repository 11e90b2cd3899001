-- ===== src/State/Conservation/Issuance.antt =====
-- The value behind every ledger that checkpoints with sound verifiers lead to from a genesis.
use unknown.Base.{
  ℕ, zero, suc, ◌+◌, ◌%◌, ◌^◌, ◌≤◌, ◌<◌, ◌≡◌, ◌⊎◌, inl, inr, refl, sym, ap, ◌∙◌, arith, List, [],
  ◌∷◌, ◌++◌, All,
}
use mathlib.Core.List.{map, append_assoc, append-nil}
use unknown.Base.Bytes.{Bytes}
use unknown.Base.Words.{add_u64, IsU64}
use unknown.Primitives.{Blake3}
use unknown.Interfaces.{Commitment, SpendVerifier}
use unknown.Notes.{Note, commitment}
use unknown.Tree
use unknown.Tree.{CommitmentTree, append, seal, empty_roots}
use unknown.ProverDev.Statement.{total_out}
use unknown.Emission.{EmissionParams, emission_at, reward_descriptor, sum}
use unknown.Emission.Split.{paid, paid-distribute}
use unknown.Tx.{TxV1}
use unknown.State.{Ledger, ValidatorInfo, allocate, genesis, nullifier_seen}
use unknown.State.Checkpoint.{apply_checkpoint, minted_from}
use unknown.State.Spending.{Steps}
use unknown.State.Supply.{
  weights, Steps-weights, Steps-audit, audited, minted_from-next, emission_at-IsU64,
}
use unknown.State.Reachable.{genesis-IsSound}
use unknown.State.Holdings.{IsOpening}
use unknown.State.Conservation.{IsSoundVerifier}
use unknown.State.Conservation.Rewards.{AreShortTags}
use unknown.State.Conservation.Checkpoint.{
  IsBacked, seal-IsRooted, anchors-IsRooted, IsForgedCheckpoint, apply_checkpoint-IsBacked,
}
use unknown.State.Conservation.Spendable.{spendable, IsSpent-spendable}

-- The emission of the heights up to `n`, as a number without bound.
abbrev pub emitted : EmissionParams → ℕ → ℕ
emitted p zero = 0
emitted p (suc n) = emitted p n + emission_at p (n + 1)

minted_from-emitted : (p : EmissionParams) (n : ℕ) → minted_from p n 1 ≡ emitted p n % 2 ^ 64
unfolding minted_from
minted_from-emitted p zero = omega arith
minted_from-emitted p (suc n) =
    let next : suc n ≡ n + 1 = omega arith in
    ap (λ m. minted_from p m 1) next
    ∙ omega (arith, minted_from-next p n, minted_from-emitted p n, emission_at-IsU64 p (n + 1))

module _ ⦃b : Blake3⦄ where
  -- A genesis allocation for a note.
  abbrev pub allocation : Note → Commitment × ℕ
  allocation n = (commitment n, n.value)

  -- What the allocations do to a tree and a supply.
  record IsAllocated (notes : List Note) (t : CommitmentTree) (supply : ℕ) (r : CommitmentTree × ℕ)
      : Type 0 where
    leaves : r.0.leaves ≡ t.leaves ++ map commitment notes
    empty : r.0.empty ≡ t.empty
    anchors : r.0.anchors ≡ t.anchors
    total : r.1 ≡ (supply + total_out notes) % 2 ^ 64

  allocate-IsAllocated :
      (notes : List Note) (t : CommitmentTree) (supply : ℕ)
      → IsU64 supply
      → IsAllocated notes t supply (allocate t supply (map allocation notes))
  unfolding allocate append
  allocate-IsAllocated [] t supply u = record {
    leaves = sym (append-nil t.leaves);
    empty = refl;
    anchors = refl;
    total = omega (arith, u);
  }
  allocate-IsAllocated (n ∷ notes) t supply u =
      let more =
        allocate-IsAllocated notes (append t (commitment n)).0 (add_u64 supply n.value)
          (omega arith) in
      record {
        leaves = more.leaves ∙ append_assoc t.leaves (commitment n ∷ []) (map commitment notes);
        empty = more.empty;
        anchors = more.anchors;
        total = omega (arith, more.total);
      }

  Steps-schedule :
      {l l' : Ledger} → Steps l l' → (l'.emission ≡ l.emission) × (l'.validators ≡ l.validators)
  unfolding apply_checkpoint
  Steps-schedule Steps.here = (refl, refl)
  Steps-schedule (Steps.later s txs verifier) = Steps-schedule s

  -- Where some validator has weight, a checkpoint's rewards pay the emission of its height.
  rewards_paid :
      (l : Ledger) (txs : List TxV1) (verifier : SpendVerifier)
      → 0 < sum (weights l)
      → paid (apply_checkpoint l txs verifier).1.rewards.shares
        ≡ emission_at l.emission (l.height + 1)
  unfolding apply_checkpoint reward_descriptor
  rewards_paid l txs verifier pos =
      paid-distribute (emission_at l.emission (l.height + 1)) (weights l)
        (emission_at-IsU64 l.emission (l.height + 1)) pos

  emitted-next :
      (p : EmissionParams) (l : Ledger) (txs : List TxV1) (verifier : SpendVerifier)
      → emitted p (apply_checkpoint l txs verifier).0.height
        ≡ emitted p l.height + emission_at p (l.height + 1)
  unfolding apply_checkpoint
  emitted-next p l txs verifier =
      let next : l.height + 1 ≡ suc l.height = omega arith in ap (emitted p) next

  module _ (key_of : Bytes → Bytes) where
    -- The verifier of each checkpoint is sound.
    abbrev pub AreSound : {l l' : Ledger} → Steps l l' → Type 0
    AreSound Steps.here = Unit
    AreSound (Steps.later s txs verifier) = IsSoundVerifier key_of verifier × AreSound s

    -- A transaction of some checkpoint spends a forged note.
    abbrev pub IsForgedRun : {l l' : Ledger} (s : Steps l l') → AreSound s → Type 0
    IsForgedRun Steps.here sound = ⊥
    IsForgedRun (Steps.later {l' = m} s txs verifier) sound =
        IsForgedRun s sound.1 ⊎ IsForgedCheckpoint key_of m txs verifier sound.0

    Steps-IsBacked :
        {l l' : Ledger} (base : ℕ) (s : Steps l l') (sound : AreSound s)
        → AreShortTags l.validators
        → 0 < sum (weights l)
        → IsBacked key_of l (base + emitted l.emission l.height)
        → IsBacked key_of l' (base + emitted l.emission l'.height) ⊎ IsForgedRun s sound
    Steps-IsBacked base Steps.here sound short pos h = inl h
    Steps-IsBacked {l = l} base (Steps.later {l' = m} s txs verifier) sound short pos h =
        elim (Steps-IsBacked base s sound.1 short pos h) [
          | inr forged ↦ inr (inl forged)
          | inl backed ↦
              let same = Steps-schedule s in
              let pays =
                rewards_paid m txs verifier (rw (Steps-weights s) pos)
                ∙ ap (λ p. emission_at p (m.height + 1)) same.0 in
              let total : base
                    + emitted l.emission m.height
                    + paid (apply_checkpoint m txs verifier).1.rewards.shares
                  ≡ base + emitted l.emission (apply_checkpoint m txs verifier).0.height =
                omega (arith, pays, emitted-next l.emission m txs verifier) in
              elim (apply_checkpoint-IsBacked key_of m txs verifier
                (base + emitted l.emission m.height) sound.0 (rw same.1 short) backed) [
                  | inr forged ↦ inr (inr forged)
                  | inl after ↦ inl (rw total at after)
                ]
        ]

  module _ (key_of : Bytes → Bytes) (emission : EmissionParams) (validators : List ValidatorInfo)
      (difficulty : ℕ) (allocated : List Note) where
    abbrev pub first : Ledger
    first = genesis emission validators difficulty (map allocation allocated)

    genesis-supply : first.supply ≡ total_out allocated % 2 ^ 64
    unfolding genesis
    genesis-supply = omega (arith, (allocate-IsAllocated allocated Tree.new 0 (omega arith)).total)

    -- The allocations are behind the genesis ledger.
    genesis-IsBacked : All IsOpening allocated → IsBacked key_of first (total_out allocated)
    unfolding genesis seal Tree.new
    genesis-IsBacked openings =
        let t = (allocate Tree.new 0 (map allocation allocated)).0 in
        let h = allocate-IsAllocated allocated Tree.new 0 (omega arith) in
        record {
          notes = allocated;
          places = [];
          openings = openings;
          leaves = sym h.leaves;
          empty = h.empty;
          rooted =
              anchors-IsRooted allocated t 0 (rw h.anchors tt)
                (seal-IsRooted allocated t 0 openings (sym h.leaves) h.empty);
          once = tt;
          spent = record { inside = tt; apart = tt; revealed = tt };
          balance = omega arith;
        }

    -- No inflation: after any run of checkpoints from a genesis whose allocations are notes, there are
    -- notes behind all leaves of the tree, and those whose owner's nullifier is not revealed are worth
    -- no more than the allocations and the emission of the heights so far, of which the ledger's
    -- supply is the `u64`; otherwise a transaction of the run spends a forged note: in checking the
    -- witness that its proof stands for, BLAKE3 has one digest for an input that the witness's
    -- commitment or path hashes and for another that a commitment or a path of the notes behind the
    -- ledger's leaves hashes, or the witness's note has the commitment of no note. The conditions: each verifier accepts public inputs only of spends
    -- that satisfy the statement, whose nullifier key is that of the owner's tag and whose mint value
    -- is the public one, some validator has weight, and the sizes are those of the types.
    pub no_inflation :
        (l : Ledger)
        → 0 < sum (map ValidatorInfo.weight validators)
        → AreShortTags validators
        → All IsOpening allocated
        → (s : Steps first l) (sound : AreSound key_of s)
        → ((notes : List Note) × (map commitment notes ≡ l.tree.leaves)
            × (spendable key_of (nullifier_seen l) notes
                ≤ total_out allocated + emitted emission l.height)
            × (l.supply ≡ (total_out allocated + emitted emission l.height) % 2 ^ 64))
          ⊎ IsForgedRun key_of s sound
    unfolding genesis
    no_inflation l pos short openings s sound =
        elim (Steps-IsBacked key_of (total_out allocated) s sound short pos
          (rw (start_total) (genesis-IsBacked openings))) [
            | inr forged ↦ inr forged
            | inl h ↦ inl (
              h.notes,
              h.leaves,
              (let room = IsSpent-spendable key_of (nullifier_seen l) h.notes h.places h.spent in
                  omega (arith, room, h.balance)),
              supply,
            )
          ]
      where
        start_total :
            total_out allocated + emitted first.emission first.height ≡ total_out allocated
        start_total = omega arith

        supply : l.supply ≡ (total_out allocated + emitted emission l.height) % 2 ^ 64
        supply =
            let sound_supply =
              genesis-IsSound emission validators difficulty (map allocation allocated) in
            let audit =
              audited l first.supply (Steps-audit first l first.supply pos sound_supply.supply s) in
            let schedule = ap (λ p. minted_from p l.height 1) (Steps-schedule s).0 in
            omega (arith, audit, schedule, minted_from-emitted emission l.height, genesis-supply)
