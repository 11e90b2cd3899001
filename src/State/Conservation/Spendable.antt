-- ===== src/State/Conservation/Spendable.antt =====
-- The value that is left to spend: that of the notes whose owner's nullifier is not seen.
use unknown.Base.{
  ℕ, zero, suc, ◌+◌, ◌≤◌, ◌<◌, ◌≡◌, ◌≢◌, refl, ap, arith, Bool, true, List, [], ◌∷◌, length, All,
  if◌then◌else◌,
}
use unknown.Base.Bytes.{Bytes}
use unknown.Primitives.{Blake3}
use unknown.Interfaces.{Nullifier}
use unknown.Notes.{Note, nullifier}
use unknown.ProverDev.Statement.{total_out}
use unknown.State.Holdings.{note_at, worth_at}
use unknown.State.Spent.{IsSpent, own_nullifier}

-- The notes, with no value at one position.
abbrev emptied : List Note → ℕ → List Note
emptied [] p = []
emptied (n ∷ notes) zero = record n { value = 0 } ∷ notes
emptied (n ∷ notes) (suc p) = n ∷ emptied notes p

total_out-emptied :
    (notes : List Note) (p : ℕ)
    → p < length notes
    → total_out (emptied notes p) + (note_at notes p).value ≡ total_out notes
total_out-emptied [] p h = absurd (omega arith)
total_out-emptied (n ∷ notes) zero h = omega arith
total_out-emptied (n ∷ notes) (suc p) h = omega (arith, total_out-emptied notes p (omega arith))

length-emptied : (notes : List Note) (p : ℕ) → length (emptied notes p) ≡ length notes
length-emptied [] p = refl
length-emptied (n ∷ notes) zero = refl
length-emptied (n ∷ notes) (suc p) = ap suc (length-emptied notes p)

note_at-emptied :
    (notes : List Note) (p q : ℕ) → q ≢ p → note_at (emptied notes p) q ≡ note_at notes q
note_at-emptied [] p q ne = refl
note_at-emptied (n ∷ notes) zero zero ne = absurd (ne refl)
note_at-emptied (n ∷ notes) zero (suc q) ne = refl
note_at-emptied (n ∷ notes) (suc p) zero ne = refl
note_at-emptied (n ∷ notes) (suc p) (suc q) ne = note_at-emptied notes p q (λ e. ne (ap suc e))

worth_at-emptied :
    (notes : List Note) (p : ℕ) (ps : List ℕ)
    → All (λ q. q ≢ p) ps
    → worth_at (emptied notes p) ps ≡ worth_at notes ps
worth_at-emptied notes p [] h = refl
worth_at-emptied notes p (q ∷ ps) h =
    omega (arith, ap Note.value (note_at-emptied notes p q h.0), worth_at-emptied notes p ps h.1)

module _ ⦃b : Blake3⦄ (key_of : Bytes → Bytes) (seen : Nullifier → Bool) where
  abbrev pub spendable : List Note → ℕ
  spendable [] = 0
  spendable (n ∷ notes) = (if seen (own_nullifier key_of n) then 0 else n.value) + spendable notes

  spendable-emptied :
      (notes : List Note) (p : ℕ)
      → p < length notes
      → seen (own_nullifier key_of (note_at notes p)) ≡ true
      → spendable (emptied notes p) ≡ spendable notes
  unfolding nullifier
  spendable-emptied [] p h e = absurd (omega arith)
  spendable-emptied (n ∷ notes) zero h e = rw e refl
  spendable-emptied (n ∷ notes) (suc p) h e =
      omega (arith, spendable-emptied notes p (omega arith) e)

  still_inside :
      (notes : List Note) (p : ℕ) (ps : List ℕ)
      → All (λ q. q < length notes) ps
      → All (λ q. q < length (emptied notes p)) ps
  still_inside notes p [] h = tt
  still_inside notes p (q ∷ ps) h =
      (omega (arith, h.0, length-emptied notes p), still_inside notes p ps h.1)

  still_seen :
      (notes : List Note) (p : ℕ) (ps : List ℕ)
      → All (λ q. q ≢ p) ps
      → All (λ q. seen (own_nullifier key_of (note_at notes q)) ≡ true) ps
      → All (λ q. seen (own_nullifier key_of (note_at (emptied notes p) q)) ≡ true) ps
  still_seen notes p [] h k = tt
  still_seen notes p (q ∷ ps) h k =
      (rw (note_at-emptied notes p q h.0) k.0, still_seen notes p ps h.1 k.1)

  -- What is spent is not left to spend.
  pub IsSpent-spendable :
      (notes : List Note) (ps : List ℕ)
      → IsSpent key_of notes seen ps
      → worth_at notes ps + spendable notes ≤ total_out notes
  IsSpent-spendable notes [] h = spendable_le notes
    where
      spendable_le : (ns : List Note) → 0 + spendable ns ≤ total_out ns
      spendable_le [] = omega arith
      spendable_le (n ∷ ns) = ground (arith, spendable_le ns)
  IsSpent-spendable notes (p ∷ ps) h =
      let rest = emptied notes p in
      let less = IsSpent-spendable rest ps (record {
        inside = still_inside notes p ps h.inside.1;
        apart = h.apart.1;
        revealed = still_seen notes p ps h.apart.0 h.revealed.1;
      }) in
      omega (
        arith,
        less,
        total_out-emptied notes p h.inside.0,
        spendable-emptied notes p h.inside.0 h.revealed.0,
        worth_at-emptied notes p ps h.apart.0,
      )
