-- ===== src/Tree/Anchors.antt =====
-- The window of sealed anchors, and what `seal` adds to it and evicts.
use unknown.Base.{
  ℕ, ◌-◌, ◌≤◌, ◌<◌, ◌≡◌, refl, ap, ◌∙◌, Bool, true, ◌&&◌, ◌||◌, List, [], ◌∷◌, ◌++◌, arith, leb,
  leb-false→lt, ltb, any, All, All-append, Bool-cases, inl, inr,
}
use unknown.Base.Bytes.{eq_refl}
use unknown.Primitives.{Blake3}
use unknown.Interfaces.{Anchor, anchor_window}
use unknown.Tree.{CommitmentTree, anchor_eq, evict, seal, anchor_valid, root}

pub anchor_eq_refl : (a : Anchor) → anchor_eq a a ≡ true
anchor_eq_refl a = ground (arith, eq_refl a.root)

-- Heights never fall from the front of the deque to its back.
abbrev pub IsAscending : List Anchor → Type 0
IsAscending [] = Unit
IsAscending (a ∷ as') = All (λ later. a.height ≤ later.height) as' × IsAscending as'

abbrev held : List Anchor → Anchor → Bool
held as' a = any (λ x. anchor_eq x a) as'

anchor_eq-height : (x a : Anchor) → anchor_eq x a ≡ true → x.height ≡ a.height
anchor_eq-height x a h = ground arith

recent_front :
    (height low : ℕ) (as' : List Anchor) (a : Anchor)
    → height - low < anchor_window
    → All (λ later. low ≤ later.height) as'
    → held as' a ≡ true
    → height - a.height < anchor_window
recent_front height low [] a lt h k = cc
recent_front height low (x ∷ as') a lt h k = elim (Bool-cases (anchor_eq x a)) [
  | inl same ↦ omega (arith, anchor_eq-height x a same, h.0)
  | inr other ↦ recent_front height low as' a lt h.1 (rw other at k)
]

-- In ascending order, eviction keeps what is inside the window and drops the rest.
held-evict :
    (height : ℕ) (as' : List Anchor) (a : Anchor)
    → IsAscending as'
    → held (evict height as') a ≡ held as' a && ltb (height - a.height) anchor_window
unfolding evict
held-evict height [] a h = refl
held-evict height (x ∷ as') a h = elim (Bool-cases (leb anchor_window (height - x.height))) [
  | inl old ↦ ground (arith, held-evict height as' a h.1, anchor_eq-height x a)
  | inr fresh ↦ rw fresh (
      all_recent (held (x ∷ as') a) (
        recent_front height x.height (x ∷ as') a
          (leb-false→lt anchor_window (height - x.height) fresh) (omega arith, h.0)))
]
  where
    all_recent :
        (found : Bool)
        → (found ≡ true → height - a.height < anchor_window)
        → found ≡ found && ltb (height - a.height) anchor_window
    all_recent found k = ground (arith, k)

pub IsAscending-append :
    (as' : List Anchor) (a : Anchor)
    → IsAscending as'
    → All (λ x. x.height ≤ a.height) as'
    → IsAscending (as' ++ a ∷ [])
IsAscending-append [] a h k = (tt, tt)
IsAscending-append (x ∷ as') a h k = (
  All-append (λ later. x.height ≤ later.height) as' (a ∷ []) h.0 (k.0, tt),
  IsAscending-append as' a h.1 k.1,
)

IsAscending-evict :
    (height : ℕ) (as' : List Anchor) → IsAscending as' → IsAscending (evict height as')
unfolding evict
IsAscending-evict height [] h = tt
IsAscending-evict height (x ∷ as') h = elim (Bool-cases (leb anchor_window (height - x.height))) [
  | inl old ↦ rw old (IsAscending-evict height as' h.1)
  | inr fresh ↦ rw fresh h
]

pub All-evict :
    (P : Anchor → Type 0) (height : ℕ) (as' : List Anchor) → All P as' → All P (evict height as')
unfolding evict
All-evict P height [] h = tt
All-evict P height (x ∷ as') h = elim (Bool-cases (leb anchor_window (height - x.height))) [
  | inl old ↦ rw old (All-evict P height as' h.1)
  | inr fresh ↦ rw fresh h
]

held-append :
    (as' : List Anchor) (x a : Anchor) → held (as' ++ x ∷ []) a ≡ held as' a || anchor_eq x a
held-append [] x a = ground arith
held-append (y ∷ as') x a = ground (arith, held-append as' x a)

-- The sealed heights are ascending and none lies above `height`.
pub record IsSealedBy (height : ℕ) (t : CommitmentTree) : Type 0 where
  pub ascending : IsAscending t.anchors
  pub bounded : All (λ a. a.height ≤ height) t.anchors

All-le_trans :
    (h h' : ℕ) (as' : List Anchor)
    → h ≤ h'
    → All (λ a. a.height ≤ h) as'
    → All (λ a. a.height ≤ h') as'
All-le_trans h h' [] le k = tt
All-le_trans h h' (a ∷ as') le k = (omega (arith, k.0), All-le_trans h h' as' le k.1)

module _ ⦃b : Blake3⦄ where
  pub seal-IsSealedBy :
      (t : CommitmentTree) (h height : ℕ)
      → h ≤ height
      → IsSealedBy h t
      → IsSealedBy height (seal t height).0
  unfolding seal
  seal-IsSealedBy t h height le s =
      let new : Anchor = record { height = height; root = root t } in
      let bounded = All-le_trans h height t.anchors le s.bounded in
      record {
        ascending =
            IsAscending-evict height (t.anchors ++ new ∷ [])
              (IsAscending-append t.anchors new s.ascending bounded);
        bounded =
            All-evict (λ a. a.height ≤ height) height (t.anchors ++ new ∷ [])
              (All-append (λ a. a.height ≤ height) t.anchors (new ∷ []) bounded (omega arith, tt));
      }

  -- After sealing at a height that is not below the sealed ones, an anchor is valid exactly when it
  -- is the one just sealed, or was valid before and lies within the window of 1024 heights.
  pub anchor_valid-seal :
      (t : CommitmentTree) (h height : ℕ) (a : Anchor)
      → IsSealedBy h t
      → h ≤ height
      → anchor_valid (seal t height).0 a
        ≡ (anchor_valid t a || anchor_eq (seal t height).1 a)
          && ltb (height - a.height) anchor_window
  unfolding seal anchor_valid
  anchor_valid-seal t h height a s le =
      let new : Anchor = record { height = height; root = root t } in
      held-evict height (t.anchors ++ new ∷ []) a (
        IsAscending-append t.anchors new s.ascending (All-le_trans h height t.anchors le s.bounded))
      ∙ ap (λ found. found && ltb (height - a.height) anchor_window) (held-append t.anchors new a)
