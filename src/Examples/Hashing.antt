-- ===== src/Examples/Hashing.antt =====
-- Notes, rate proofs and puzzles under the toy hash.
use unknown.Base.{
  ℕ, ◌<◌, ◌≤◌, ◌≡◌, ◌≢◌, refl, arith, true, false, ok, some, none, List, [], ◌∷◌, All,
}
use unknown.Base.Bytes.{Bytes}
use unknown.Primitives.{hash_parts, frame}
use unknown.Notes.{Note}
use unknown.Notes.Binding.{IsNote}
use unknown.Quota
use unknown.Quota.{
  QuotaNote, RateProof, QuotaRegistry, Admit, admitted, slash, signal, secret, message_x, slope,
  rate_nullifier, add, mul, sub, inv, find, slot_of, admit,
}
use unknown.Quota.Slashing.{admit-slash}
use unknown.Quota.Registry.{IsFree, AreDistinct, admitted_slots, admitted_once}
use unknown.Pow
use unknown.Pow.{PowSolution, solve}
use unknown.Pow.Solve.{solve-verifies}
use unknown.Examples.{toy, filled}

abbrev two_parts : List Bytes
two_parts = (1 ∷ 2 ∷ []) ∷ (3 ∷ []) ∷ []

abbrev coin : Note
coin = record { value = 100; addr_tag = filled 1; rho = filled 9; rseed = filled 8 }

coin-IsNote : IsNote coin
coin-IsNote = record { value = omega arith; addr_tag = refl; rho = refl; rseed = refl }

abbrev staker : QuotaNote
staker = record { stake = 5000; quota_key = filled 77 }

abbrev rate_proof : Bytes → RateProof
rate_proof m = record {
  epoch = 0;
  rate_nullifier = rate_nullifier staker 0 1;
  x = message_x m;
  y = add (secret staker) (mul (slope staker 0) (message_x m));
}

signals : (m : Bytes) → signal staker 0 1 m ≡ ok (rate_proof m)
unfolding signal Quota.quota
signals m = refl

differ : message_x (1 ∷ []) ≢ message_x (2 ∷ [])
unfolding message_x Quota.field_from Quota.reduce hash_parts frame
differ = λ e. omega (arith, e)

invertible :
    mul
      (sub (message_x (2 ∷ [])) (message_x (1 ∷ [])))
      (inv (sub (message_x (2 ∷ [])) (message_x (1 ∷ []))))
    ≡ 1
unfolding message_x Quota.field_from Quota.reduce hash_parts frame mul sub inv Quota.pow
    Quota.pow_loop
invertible = refl

nothing_seen : find (slot_of (rate_proof (1 ∷ []))) Quota.new.seen ≡ none
unfolding find
nothing_seen = refl

admit-slash_example :
    ((admit Quota.new (rate_proof (1 ∷ []))).1 ≡ admitted)
    × (admit (admit Quota.new (rate_proof (1 ∷ []))).0 (rate_proof (2 ∷ []))
        ≡ ((admit Quota.new (rate_proof (1 ∷ []))).0, slash (secret staker)))
admit-slash_example =
    admit-slash Quota.new staker 0 1 (1 ∷ []) (2 ∷ []) (signals (1 ∷ [])) (signals (2 ∷ []))
      nothing_seen differ invertible

abbrev proofs : List RateProof
proofs = rate_proof (1 ∷ []) ∷ rate_proof (2 ∷ []) ∷ []

admitted_once_example :
    All (IsFree Quota.new) (admitted_slots Quota.new proofs)
    × AreDistinct (admitted_slots Quota.new proofs)
admitted_once_example = admitted_once Quota.new proofs

abbrev easy : PowSolution
easy = record { nonce = 2 }

easy_verifies : Pow.verify (220 ∷ []) easy 5 ≡ true
unfolding Pow.verify Pow.leading_zero_bits Pow.pow_hash hash_parts frame
easy_verifies = refl

solve-verifies_example :
    (s : PowSolution) × (solve (220 ∷ []) 5 ≡ some s)
    × (Pow.verify (220 ∷ []) s 5 ≡ true)
    × (s.nonce ≤ 2)
    × ((m : ℕ) → m < s.nonce → Pow.verify (220 ∷ []) (record { nonce = m }) 5 ≡ false)
solve-verifies_example = solve-verifies (220 ∷ []) 5 2 (omega arith) easy_verifies
