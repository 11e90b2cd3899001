-- ===== src/State/Reachable.antt =====
-- The genesis ledger, and what holds of every ledger that checkpoints lead to from it.
use unknown.Base.{ℕ, ◌<◌, ◌≡◌, refl, arith, true, List, [], ◌∷◌, ==_iff}
use mathlib.Core.List.{map}
use unknown.Base.Words.{add_u64, IsU64}
use unknown.Primitives.{Blake3}
use unknown.Interfaces.{Commitment}
use unknown.Tree
use unknown.Tree.{CommitmentTree, append}
use unknown.Tree.Anchors.{IsSealedBy, seal-IsSealedBy}
use unknown.Emission.{EmissionParams, sum}
use unknown.State.{Ledger, ValidatorInfo, allocate, genesis}
use unknown.State.Checkpoint.{audit_supply, minted_from}
use unknown.State.Spending.{AreDistinct, apply_checkpoint-AreDistinct, Steps}
use unknown.State.Supply.{weights, Steps-audit}
use unknown.State.Anchors.{IsSealed, apply_checkpoint-IsSealed}

module _ ⦃b : Blake3⦄ where
  -- The invariant of a ledger that began with the supply `g`.
  pub record IsSound (l : Ledger) (g : ℕ) : Type 0 where
    pub spent_once : AreDistinct l.nullifiers
    pub sealed : IsSealed l
    pub supply : audit_supply l g ≡ true

  allocate-IsU64 :
      (t : CommitmentTree) (supply : ℕ) (notes : List (Commitment × ℕ))
      → IsU64 supply
      → IsU64 (allocate t supply notes).1
  unfolding allocate
  allocate-IsU64 t supply [] h = h
  allocate-IsU64 t supply ((cm, value) ∷ notes) h =
      allocate-IsU64 (append t cm).0 (add_u64 supply value) notes (omega arith)

  allocate-IsSealedBy :
      (t : CommitmentTree) (supply : ℕ) (notes : List (Commitment × ℕ))
      → IsSealedBy 0 t
      → IsSealedBy 0 (allocate t supply notes).0
  unfolding allocate append
  allocate-IsSealedBy t supply [] h = h
  allocate-IsSealedBy t supply ((cm, value) ∷ notes) h =
      allocate-IsSealedBy (append t cm).0 (add_u64 supply value) notes
        (record { ascending = h.ascending; bounded = h.bounded })

  module _ (emission : EmissionParams) (validators : List ValidatorInfo) (difficulty : ℕ)
      (notes : List (Commitment × ℕ)) where
    pub genesis-IsSound :
        IsSound
          (genesis emission validators difficulty notes)
          (genesis emission validators difficulty notes).supply
    unfolding genesis audit_supply minted_from Tree.new
    genesis-IsSound = record {
      spent_once = tt;
      sealed =
          seal-IsSealedBy (allocate Tree.new 0 notes).0 0 0 (omega arith)
            (allocate-IsSealedBy Tree.new 0 notes (record { ascending = tt; bounded = tt }));
      supply =
          let supply : ℕ = (allocate Tree.new 0 notes).1 in
          let small : IsU64 supply = allocate-IsU64 Tree.new 0 notes (omega arith) in
          (==_iff supply (add_u64 supply 0)).1 (omega (arith, small));
    }

    genesis-weights :
        weights (genesis emission validators difficulty notes) ≡ map ValidatorInfo.weight validators
    unfolding genesis
    genesis-weights = refl

  Steps-AreDistinct :
      {l l' : Ledger} → AreDistinct l.nullifiers → Steps l l' → AreDistinct l'.nullifiers
  Steps-AreDistinct h Steps.here = h
  Steps-AreDistinct h (Steps.later {l' = m} s txs verifier) =
      apply_checkpoint-AreDistinct m txs verifier (Steps-AreDistinct h s)

  Steps-IsSealed : {l l' : Ledger} → IsSealed l → Steps l l' → IsSealed l'
  Steps-IsSealed h Steps.here = h
  Steps-IsSealed h (Steps.later {l' = m} s txs verifier) =
      apply_checkpoint-IsSealed m txs verifier (Steps-IsSealed h s)

  -- From a genesis ledger, with validators of which one has weight, every run of checkpoints leads
  -- to a ledger whose spent nullifiers are pairwise different, whose sealed anchors are in order of
  -- height, and whose supply passes the audit for the genesis supply.
  pub reachable-IsSound :
      (emission : EmissionParams) (validators : List ValidatorInfo) (difficulty : ℕ)
      (notes : List (Commitment × ℕ)) (l : Ledger)
      → 0 < sum (map ValidatorInfo.weight validators)
      → Steps (genesis emission validators difficulty notes) l
      → IsSound l (genesis emission validators difficulty notes).supply
  reachable-IsSound emission validators difficulty notes l pos s =
      let first = genesis-IsSound emission validators difficulty notes in
      record {
        spent_once = Steps-AreDistinct first.spent_once s;
        sealed = Steps-IsSealed first.sealed s;
        supply =
            Steps-audit (genesis emission validators difficulty notes) l
              (genesis emission validators difficulty notes).supply
              (rw (genesis-weights emission validators difficulty notes) pos) first.supply s;
      }
