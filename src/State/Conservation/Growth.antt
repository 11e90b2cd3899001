-- ===== src/State/Conservation/Growth.antt =====
-- Notes that are added later leave in place what is known of the earlier ones.
use unknown.Base.{
  ℕ, ◌+◌, ◌<◌, ◌≡◌, refl, sym, ap, ◌∙◌, arith, Bool, true, List, [], ◌∷◌, ◌++◌, length,
  length-append, get_or-append_left, All, All-append,
}
use mathlib.Core.List.{map, map-append, append_assoc}
use unknown.Base.Bytes.{Bytes}
use unknown.Primitives.{Blake3}
use unknown.Interfaces.{Anchor, Nullifier}
use unknown.Notes.{Note, commitment}
use unknown.Tree.{CommitmentTree}
use unknown.State.Holdings.{IsOpening, IsBehind, note_at, no_note, worth_at}
use unknown.State.Spent.{IsSpent, own_nullifier}
use unknown.State.Conservation.{IsRooted}

pub worth_at-append :
    (notes more : List Note) (ps : List ℕ)
    → All (λ p. p < length notes) ps
    → worth_at (notes ++ more) ps ≡ worth_at notes ps
worth_at-append notes more [] h = refl
worth_at-append notes more (p ∷ ps) h =
    rw (get_or-append_left notes more p no_note h.0)
      (ap (λ v. (note_at notes p).value + v) (worth_at-append notes more ps h.1))

All-longer :
    (notes more : List Note) (ps : List ℕ)
    → All (λ p. p < length notes) ps
    → All (λ p. p < length (notes ++ more)) ps
All-longer notes more [] h = tt
All-longer notes more (p ∷ ps) h =
    (omega (arith, h.0, length-append notes more), All-longer notes more ps h.1)

module _ ⦃b : Blake3⦄ where
  pub IsBehind-append :
      (notes more : List Note) (t : CommitmentTree)
      → All IsOpening more
      → IsBehind notes t
      → IsBehind (notes ++ more) t
  IsBehind-append notes more t hm h = record {
    openings = All-append IsOpening notes more h.openings hm;
    tree = h.tree;
    later = h.later ++ map commitment more;
    leaves =
        sym (append_assoc t.leaves h.later (map commitment more))
        ∙ (ap (λ ls. ls ++ map commitment more) h.leaves ∙ sym (map-append commitment notes more));
  }

  pub All-IsRooted-append :
      (notes more : List Note) (as' : List Anchor)
      → All IsOpening more
      → All (IsRooted notes) as'
      → All (IsRooted (notes ++ more)) as'
  All-IsRooted-append notes more [] hm h = tt
  All-IsRooted-append notes more (a ∷ as') hm h =
      let (t, behind, root) = h.0 in
      ((t, IsBehind-append notes more t hm behind, root), All-IsRooted-append notes more as' hm h.1)

  module _ (key_of : Bytes → Bytes) (notes more : List Note) (seen : Nullifier → Bool) where
    All-revealed :
        (ps : List ℕ)
        → All (λ p. p < length notes) ps
        → All (λ p. seen (own_nullifier key_of (note_at notes p)) ≡ true) ps
        → All (λ p. seen (own_nullifier key_of (note_at (notes ++ more) p)) ≡ true) ps
    All-revealed [] h k = tt
    All-revealed (p ∷ ps) h k =
        (rw (get_or-append_left notes more p no_note h.0) k.0, All-revealed ps h.1 k.1)

    pub IsSpent-append :
        (ps : List ℕ) → IsSpent key_of notes seen ps → IsSpent key_of (notes ++ more) seen ps
    IsSpent-append ps h = record {
      inside = All-longer notes more ps h.inside;
      apart = h.apart;
      revealed = All-revealed ps h.inside h.revealed;
    }
