-- ===== src/State/Supply.antt =====
-- The audit of the supply over checkpoints.
use unknown.Base.{
  ==-ne, ℕ, zero, suc, ◌+◌, ◌<◌, ◌≡◌, ◌≢◌, refl, ap, ◌∙◌, arith, true, false, List, [], ◌∷◌, ◌==◌,
  ==_iff,
}
use mathlib.Core.List.{map}
use unknown.Base.Words.{add_u64, IsU64}
use unknown.Primitives.{Blake3}
use unknown.Interfaces.{SpendVerifier}
use unknown.Tree.{CommitmentTree, append}
use unknown.Notes.{commitment}
use unknown.Emission.{EmissionParams, emission_at, RewardShare, reward_descriptor, distribute, sum}
use unknown.Emission.Split.{paid, paid-distribute}
use unknown.Tx.{TxV1}
use unknown.State.{Ledger, ValidatorInfo, staging}
use unknown.State.Checkpoint.{
  mint, reward_note, apply_checkpoint, minted_from, audit_supply, append_all,
}
use unknown.State.Spending.{Steps}

-- The weights of the validators of a ledger.
abbrev pub weights : Ledger → List ℕ
weights l = map (λ (v : ValidatorInfo). v.weight) l.validators

pub emission_at-IsU64 : (p : EmissionParams) (h : ℕ) → IsU64 (emission_at p h)
unfolding emission_at
emission_at-IsU64 p h = omega arith

-- The last emission may be added last.
minted_from-last :
    (p : EmissionParams) (n from : ℕ)
    → minted_from p (suc n) from ≡ add_u64 (minted_from p n from) (emission_at p (from + n))
unfolding minted_from
minted_from-last p zero from = let same : from + 0 ≡ from = omega arith in rw same (omega arith)
minted_from-last p (suc n) from =
    let same : from + suc n ≡ from + 1 + n = omega arith in
    rw same (omega (arith, minted_from-last p n (from + 1)))

pub minted_from-next :
    (p : EmissionParams) (n : ℕ)
    → minted_from p (n + 1) 1 ≡ add_u64 (minted_from p n 1) (emission_at p (n + 1))
minted_from-next p n =
    let later : suc n ≡ n + 1 = omega arith in
    let order : 1 + n ≡ n + 1 = omega arith in rw (later, order) at (minted_from-last p n 1)

module _ ⦃b : Blake3⦄ where
  mint-supply :
      (h : ℕ) (vs : List ValidatorInfo) (t : CommitmentTree) (supply : ℕ)
      (shares : List RewardShare)
      → IsU64 supply
      → (mint h vs t supply shares).1 ≡ add_u64 supply (paid shares)
  unfolding mint
  mint-supply h vs t supply [] u = omega arith
  mint-supply h vs t supply (share ∷ shares) u = omega (
    arith,
    mint-supply h vs (append t (commitment (reward_note h vs share))).0
        (add_u64 supply share.amount) shares (omega arith),
  )

  -- A checkpoint raises the supply by what the descriptor's shares pay.
  checkpoint_paid :
      (l : Ledger) (txs : List TxV1) (verifier : SpendVerifier)
      → IsU64 l.supply
      → (apply_checkpoint l txs verifier).0.supply
        ≡ add_u64 l.supply (paid (distribute (emission_at l.emission (l.height + 1)) (weights l)))
  unfolding apply_checkpoint reward_descriptor
  checkpoint_paid l txs verifier u =
      mint-supply (l.height + 1) l.validators (append_all l.tree (staging l txs verifier).staged_cm)
        l.supply (distribute (emission_at l.emission (l.height + 1)) (weights l)) u

  -- A checkpoint raises the supply by exactly the emission of its height, whatever its
  -- transactions, if the supply is a u64 and some validator has weight; the sum is one of u64.
  pub apply_checkpoint-supply :
      (l : Ledger) (txs : List TxV1) (verifier : SpendVerifier)
      → IsU64 l.supply
      → 0 < sum (weights l)
      → (apply_checkpoint l txs verifier).0.supply
        ≡ add_u64 l.supply (emission_at l.emission (l.height + 1))
  apply_checkpoint-supply l txs verifier u pos =
      checkpoint_paid l txs verifier u
      ∙ ap (add_u64 l.supply) (
          paid-distribute (emission_at l.emission (l.height + 1)) (weights l)
            (emission_at-IsU64 l.emission (l.height + 1)) pos)

  pub audited :
      (l : Ledger) (g : ℕ)
      → audit_supply l g ≡ true
      → l.supply ≡ add_u64 g (minted_from l.emission l.height 1)
  unfolding audit_supply
  audited l g h = (==_iff l.supply (add_u64 g (minted_from l.emission l.height 1))).0 h

  -- A ledger that passes the audit passes it after any checkpoint, if some validator has weight.
  pub apply_checkpoint-audit :
      (l : Ledger) (txs : List TxV1) (verifier : SpendVerifier) (g : ℕ)
      → 0 < sum (weights l)
      → audit_supply l g ≡ true
      → audit_supply (apply_checkpoint l txs verifier).0 g ≡ true
  unfolding audit_supply apply_checkpoint
  apply_checkpoint-audit l txs verifier g pos h =
      let e = audited l g h in
      let last = minted_from-next l.emission l.height in
      let next = apply_checkpoint-supply l txs verifier (omega (arith, e)) pos in
      (==_iff (apply_checkpoint l txs verifier).0.supply
          (add_u64 g (minted_from l.emission (l.height + 1) 1))).1
        (omega (arith, e, last, next))

  pub Steps-weights : {l l' : Ledger} → Steps l l' → weights l' ≡ weights l
  unfolding apply_checkpoint
  Steps-weights Steps.here = refl
  Steps-weights (Steps.later s txs verifier) = Steps-weights s

  -- The audit holds after every run of checkpoints from a ledger that passes it.
  pub Steps-audit :
      (l l' : Ledger) (g : ℕ)
      → 0 < sum (weights l)
      → audit_supply l g ≡ true
      → Steps l l'
      → audit_supply l' g ≡ true
  Steps-audit l l' g pos h Steps.here = h
  Steps-audit l l' g pos h (Steps.later {l' = m} s txs verifier) =
      apply_checkpoint-audit m txs verifier g (rw (Steps-weights s) pos) (Steps-audit l m g pos h s)

  nothing_paid : (total : ℕ) (ws : List ℕ) → sum ws ≡ 0 → paid (distribute total ws) ≡ 0
  unfolding distribute
  nothing_paid total ws e = let none : sum ws == 0 ≡ true = (==_iff (sum ws) 0).1 e in rw none refl

  -- Without a validator of positive weight the emission of a height is counted but not paid: a
  -- ledger that passes the audit fails it after the next checkpoint of a positive emission.
  pub unpaid-audit :
      (l : Ledger) (txs : List TxV1) (verifier : SpendVerifier) (g : ℕ)
      → sum (weights l) ≡ 0
      → 0 < emission_at l.emission (l.height + 1)
      → audit_supply l g ≡ true
      → audit_supply (apply_checkpoint l txs verifier).0 g ≡ false
  unfolding audit_supply apply_checkpoint
  unpaid-audit l txs verifier g no_weight pos h =
      let e = audited l g h in
      let last = minted_from-next l.emission l.height in
      let next = checkpoint_paid l txs verifier (omega (arith, e)) in
      let zero_paid = nothing_paid (emission_at l.emission (l.height + 1)) (weights l) no_weight in
      let small = emission_at-IsU64 l.emission (l.height + 1) in
      let differ : (apply_checkpoint l txs verifier).0.supply
          ≢ add_u64 g (minted_from l.emission (l.height + 1) 1) =
        λ same. omega (arith, e, last, next, zero_paid, small, pos, same) in
      ==-ne _ _ differ
