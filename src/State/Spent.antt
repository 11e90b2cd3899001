-- ===== src/State/Spent.antt =====
-- Which of the notes behind a tree a set of nullifiers has spent.
use unknown.Base.{
  or_right, ℕ, ◌+◌, ◌<◌, ◌≡◌, ◌≢◌, ◌⊎◌, inl, inr, refl, sym, ap, ◌∙◌, arith, Bool, true, false,
  ◌||◌, Bool-cases, List, [], ◌∷◌, length, get_or, All,
}
use unknown.Base.Bytes.{Bytes, eq, eq_refl}
use unknown.Primitives.{Blake3}
use unknown.Interfaces.{SpendPublicInputs, Nullifier}
use unknown.Notes.{Note, nullifier}
use unknown.Tree.{CommitmentTree, root}
use unknown.ProverDev.{InputWitness, SpendWitness}
use unknown.ProverDev.Statement.{IsInput}
use unknown.State.Holdings.{IsOpening, IsPath, IsBehind, IsForged, note_at, worth_at, located}

abbrev pub AreApart : List ℕ → Type 0
AreApart [] = Unit
AreApart (p ∷ ps) = All (λ q. q ≢ p) ps × AreApart ps

module _ ⦃b : Blake3⦄ where
  module _ (key_of : Bytes → Bytes) where
    -- The nullifier of a note under its owner's key.
    abbrev pub own_nullifier : Note → Nullifier
    own_nullifier n = nullifier n (key_of n.addr_tag)

    -- Different notes, at the positions `ps`, whose owners' nullifiers are among those seen.
    pub record IsSpent (notes : List Note) (seen : Nullifier → Bool) (ps : List ℕ) : Type 0 where
      pub inside : All (λ p. p < length notes) ps
      pub apart : AreApart ps
      pub revealed : All (λ p. seen (own_nullifier (note_at notes p)) ≡ true) ps

    All-weaken :
        (f : ℕ → Nullifier) (seen seen' : Nullifier → Bool) (ps : List ℕ)
        → ((nf : Nullifier) → seen nf ≡ true → seen' nf ≡ true)
        → All (λ p. seen (f p) ≡ true) ps
        → All (λ p. seen' (f p) ≡ true) ps
    All-weaken f seen seen' [] more h = tt
    All-weaken f seen seen' (p ∷ ps) more h = (more (f p) h.0, All-weaken f seen seen' ps more h.1)

    pub IsSpent-weaken :
        (notes : List Note) (seen seen' : Nullifier → Bool) (ps : List ℕ)
        → ((nf : Nullifier) → seen nf ≡ true → seen' nf ≡ true)
        → IsSpent notes seen ps
        → IsSpent notes seen' ps
    IsSpent-weaken notes seen seen' ps more h = record {
      inside = h.inside;
      apart = h.apart;
      revealed = All-weaken (λ p. own_nullifier (note_at notes p)) seen seen' ps more h.revealed;
    }

    other_places :
        (f : ℕ → Nullifier) (seen : Nullifier → Bool) (p : ℕ) (ps : List ℕ)
        → seen (f p) ≡ false
        → All (λ q. seen (f q) ≡ true) ps
        → All (λ q. q ≢ p) ps
    other_places f seen p [] e h = tt
    other_places f seen p (q ∷ ps) e h =
        ((λ same. cc (ap (λ k. seen (f k)) same, h.0, e)), other_places f seen p ps e h.1)

    -- One more note is spent, if its nullifier was not seen.
    IsSpent-more :
        (notes : List Note) (seen : Nullifier → Bool) (ps : List ℕ) (p : ℕ)
        → p < length notes
        → seen (own_nullifier (note_at notes p)) ≡ false
        → IsSpent notes seen ps
        → IsSpent notes (λ x. eq (own_nullifier (note_at notes p)) x || seen x) (p ∷ ps)
    IsSpent-more notes seen ps p lt e h =
        let f = λ (q : ℕ). own_nullifier (note_at notes q) in
        record {
          inside = (lt, h.inside);
          apart = (other_places f seen p ps e h.revealed, h.apart);
          revealed = (
            rw (eq_refl (f p)) refl,
            All-weaken f seen (λ x. eq (f p) x || seen x) ps (λ nf s. or_right (eq (f p) nf) _ s)
                h.revealed,
          );
        }

    -- An input of a satisfied statement spends its value of the notes behind the tree of the anchor,
    -- if its nullifier was not seen.
    pub spend_input :
        (notes : List Note) (t : CommitmentTree) (w : SpendWitness) (pi : SpendPublicInputs) (i : ℕ)
        (input : InputWitness) (seen : Nullifier → Bool) (ps : List ℕ)
        → IsBehind notes t
        → pi.anchor.root ≡ root t
        → w.spender_nk ≡ key_of w.spender_addr_tag
        → IsOpening input.note
        → IsPath input.path
        → IsInput w pi i input
        → seen (get_or pi.nullifiers i []) ≡ false
        → IsSpent notes seen ps
        → ((ps' : List ℕ) × IsSpent notes (λ x. eq (get_or pi.nullifiers i []) x || seen x) ps'
            × (worth_at notes ps' ≡ input.note.value + worth_at notes ps))
          ⊎ IsForged notes input.note input.path
    spend_input notes t w pi i input seen ps behind anchored own opening path h fresh spent =
        elim (Bool-cases input.is_dummy) [
          | inl dummy ↦ inl (
            ps,
            IsSpent-weaken notes seen _ ps (λ nf s. or_right (eq _ nf) _ s) spent,
            omega (arith, h.dummy_empty dummy),
          )
          | inr real ↦
              elim (located notes t input.note input.path behind opening path
                (rw anchored at (h.member real))) [
                  | inr forged ↦ inr forged
                  | inl (p, lt, same) ↦
                      let nf : get_or pi.nullifiers i [] ≡ own_nullifier (note_at notes p) =
                        sym h.derived
                        ∙ (ap (nullifier input.note) (own ∙ ap key_of (sym (h.owned real)))
                            ∙ ap own_nullifier (sym same)) in
                      inl (
                        p ∷ ps,
                        rw nf (IsSpent-more notes seen ps p lt (rw nf at fresh) spent),
                        rw same refl,
                      )
                ]
        ]
