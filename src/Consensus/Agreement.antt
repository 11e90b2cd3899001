-- ===== src/Consensus/Agreement.antt =====
-- The replicas of a cluster, compared with one ledger.
use unknown.Base.{◌<◌, ◌≡◌, refl, sym, ap, arith, true, some, List, [], ◌∷◌, length, all, All}
use mathlib.Core.List.{map, Permᴰ}
use mathlib.Core.Path.{subst}
use unknown.Base.Bytes.{eq_refl}
use unknown.Primitives.{Blake3}
use unknown.Interfaces.{SpendVerifier}
use unknown.Tree
use unknown.Tx.{TxV1}
use unknown.State.{Ledger, CheckpointSummary}
use unknown.State.Checkpoint.{apply_checkpoint}
use unknown.Consensus.{Cluster, RoundOutcome, commit_order, commit_round, agrees, outcome}
use unknown.Consensus.Order.{AreConsistent, commit_order-perm}

module _ ⦃b : Blake3⦄ where
  -- Every replica is the ledger `l`.
  abbrev pub IsAgreed : Cluster → Ledger → Type 0
  IsAgreed c l = All (λ r. r ≡ l) c.replicas

  agrees_refl : (s : CheckpointSummary) → agrees s s ≡ true
  agrees_refl s = ground (arith, eq_refl s.anchor.root)

  -- The ledger and the summary of a round.
  abbrev pub committed : Ledger → List TxV1 → SpendVerifier → Ledger × CheckpointSummary
  committed l submitted verifier = apply_checkpoint l (commit_order submitted) verifier

  -- The outcome of a round in which every replica has this summary.
  abbrev pub unanimous : CheckpointSummary → RoundOutcome
  unanimous s = record {
    height = s.height;
    root = s.anchor.root;
    accepted = s.accepted;
    rejected = s.rejected;
    total_supply = s.total_supply;
    agreed = true;
  }

  outcome_first :
      (first : CheckpointSummary) (rest : List CheckpointSummary)
      → all (agrees first) (first ∷ rest) ≡ true
      → outcome (first ∷ rest) ≡ some (unanimous first)
  outcome_first first rest e = ap (λ a. some (record (unanimous first) { agreed = a })) e

  all_same :
      (l : Ledger) (submitted : List TxV1) (verifier : SpendVerifier) (rs : List Ledger)
      → All (λ r. r ≡ l) rs
      → all (agrees (committed l submitted verifier).1) (
          map
            (λ (r : Ledger × CheckpointSummary). r.1)
            (map (λ r. committed r submitted verifier) rs))
        ≡ true
  all_same l submitted verifier [] h = refl
  all_same l submitted verifier (r ∷ rs) h =
      rw (h.0, agrees_refl (committed l submitted verifier).1)
        (all_same l submitted verifier rs h.1)

  next_same :
      (l : Ledger) (submitted : List TxV1) (verifier : SpendVerifier) (rs : List Ledger)
      → All (λ r. r ≡ l) rs
      → All
          (λ r. r ≡ (committed l submitted verifier).0)
          (map
            (λ (r : Ledger × CheckpointSummary). r.0)
            (map (λ r. committed r submitted verifier) rs))
  next_same l submitted verifier [] h = tt
  next_same l submitted verifier (r ∷ rs) h =
      (ap (λ r. (committed r submitted verifier).0) h.0, next_same l submitted verifier rs h.1)

  outcome_same :
      (l : Ledger) (submitted : List TxV1) (verifier : SpendVerifier) (rs : List Ledger)
      → 0 < length rs
      → All (λ r. r ≡ l) rs
      → outcome (
          map
            (λ (r : Ledger × CheckpointSummary). r.1)
            (map (λ r. committed r submitted verifier) rs))
        ≡ some (unanimous (committed l submitted verifier).1)
  outcome_same l submitted verifier [] pos h = elim pos [ ]
  outcome_same l submitted verifier (r ∷ rs) pos h =
      let rest =
        map (λ (r : Ledger × CheckpointSummary). r.1)
          (map (λ r. committed r submitted verifier) rs) in
      subst
        (λ (x : Ledger).
          outcome ((committed x submitted verifier).1 ∷ rest)
          ≡ some (unanimous (committed l submitted verifier).1))
        (sym h.0)
        (outcome_first (committed l submitted verifier).1 rest
          (all_same l submitted verifier (l ∷ rs) (refl, h.1)))

  -- A round of a cluster whose replicas are all one ledger leaves them all the ledger that the
  -- commit order's checkpoint leads to; with at least one replica the round reports that
  -- checkpoint's height, root, counts and supply, and that the replicas agreed.
  pub commit_round-agrees :
      (c : Cluster) (l : Ledger) (submitted : List TxV1) (verifier : SpendVerifier)
      → 0 < length c.replicas
      → IsAgreed c l
      → let (l', s) = apply_checkpoint l (commit_order submitted) verifier in
        let (c', result) = commit_round c submitted verifier in
        IsAgreed c' l' × (result ≡ some (unanimous s))
  unfolding commit_round
  commit_round-agrees c l submitted verifier pos h = (
    next_same l submitted verifier c.replicas h,
    outcome_same l submitted verifier c.replicas pos h,
  )

  -- The same transactions submitted in another order lead to the same cluster and outcome, if no
  -- two different transactions of them have one binding digest.
  pub commit_round-perm :
      (c : Cluster) (xs ys : List TxV1) (verifier : SpendVerifier)
      → Permᴰ xs ys
      → AreConsistent xs
      → commit_round c xs verifier ≡ commit_round c ys verifier
  unfolding commit_round
  commit_round-perm c xs ys verifier p h = rw (commit_order-perm xs ys p h) refl

  -- Rounds, each with its submissions and its verifier.
  abbrev pub commit_rounds : Cluster → List (List TxV1 × SpendVerifier) → Cluster
  commit_rounds c [] = c
  commit_rounds c ((submitted, verifier) ∷ rounds) =
      commit_rounds (commit_round c submitted verifier).0 rounds

  -- One ledger that takes, for each round, the checkpoint of the round's commit order.
  abbrev pub ledger_after : Ledger → List (List TxV1 × SpendVerifier) → Ledger
  ledger_after l [] = l
  ledger_after l ((submitted, verifier) ∷ rounds) =
      ledger_after (apply_checkpoint l (commit_order submitted) verifier).0 rounds
