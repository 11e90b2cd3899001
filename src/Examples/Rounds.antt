-- ===== src/Examples/Rounds.antt =====
-- Two transactions submitted in both orders, and a copy of one with another proof.
use unknown.Base.{◌≡◌, refl, true, false, List, [], ◌∷◌, replicate, All, any}
use mathlib.Core.List.{Permᴰ}
use unknown.Base.Bytes.{eq, eq_refl}
use unknown.Primitives.{hash_parts, frame}
use unknown.Interfaces.{SpendVerifier, proof_bucket}
use unknown.State.{genesis}
use unknown.Tree
use unknown.Tx.{TxV1, binding_digest}
use unknown.Consensus.{commit_order}
use unknown.Consensus.Order.{AreConsistent, AreAscending, commit_order-perm, commit_order-ascends}
use unknown.Consensus.First.{first_with, commit_order-first}
use unknown.Examples.{toy, trusting}
use unknown.Examples.Ledgers.{spend, txs}

abbrev copy : TxV1
copy = record (spend 1 2) { proof = replicate proof_bucket 9 }

-- The copy comes second, and is dropped.
commit_order-first_example :
    first_with (binding_digest copy) (commit_order (spend 1 2 ∷ copy ∷ spend 3 4 ∷ []))
    ≡ first_with (binding_digest copy) (spend 1 2 ∷ copy ∷ spend 3 4 ∷ [])
commit_order-first_example =
    commit_order-first (spend 1 2 ∷ copy ∷ spend 3 4 ∷ []) (binding_digest copy)

digests_differ :
    (eq (binding_digest (spend 1 2)) (binding_digest (spend 3 4)) ≡ false)
    × (eq (binding_digest (spend 3 4)) (binding_digest (spend 1 2)) ≡ false)
unfolding binding_digest hash_parts frame Tree.root genesis Tree.seal Tree.append Tree.new
    Tree.node_hash Tree.empty_roots
digests_differ = (refl, refl)

consistent : AreConsistent (spend 1 2 ∷ spend 3 4 ∷ [])
consistent = (
  (
    (λ e. refl),
    ((λ e. absurd (cc (rw e at digests_differ.0, eq_refl (binding_digest (spend 3 4))))), tt),
  ),
  (
    (
      (λ e. absurd (cc (rw e at digests_differ.1, eq_refl (binding_digest (spend 1 2))))),
      ((λ e. refl), tt),
    ),
    tt,
  ),
)

commit_order-perm_example :
    commit_order (spend 1 2 ∷ spend 3 4 ∷ []) ≡ commit_order (spend 3 4 ∷ spend 1 2 ∷ [])
commit_order-perm_example =
    commit_order-perm (spend 1 2 ∷ spend 3 4 ∷ []) (spend 3 4 ∷ spend 1 2 ∷ [])
      (Permᴰ.swap refl refl) consistent

commit_order-ascends_example :
    AreAscending (commit_order txs)
    × All
        (λ tx. any (λ tx'. eq (binding_digest tx') (binding_digest tx)) (commit_order txs) ≡ true)
        txs
commit_order-ascends_example = commit_order-ascends txs

abbrev rounds : List (List TxV1 × SpendVerifier)
rounds = (txs, trusting) ∷ (txs, trusting) ∷ []
