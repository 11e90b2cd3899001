-- ===== src/Wallet/Choice.antt =====
-- The choice of inputs against every choice of at most two notes.
use unknown.Base.{
  ℕ, ◌+◌, ◌≤◌, ◌<◌, ◌≡◌, ◌≢◌, ◌↔◌, inl, inr, refl, arith, Bool-cases, Option, none, some, Result,
  ok, err, List, [], ◌∷◌, length, take, ltb, leb, ltb→lt, ltb-false→le, leb→le, leb-false→lt, All,
}
use mathlib.Core.Path.{subst}
use unknown.Base.Words.{IsU64}
use unknown.Wallet.{
  NoteRecord, Wallet, WalletError, insufficient_funds, too_many_inputs_needed, missing_witness,
  prove_failed, value_of, sum_from, balance, covering, smaller, smallest, sort_descending,
  select_pair, select_from, select_inputs,
}
use unknown.Wallet.Selection.{
  worth, sum_from_lem, worth-sort, worth-take_le, length-take_le, smallest-covers,
}
use unknown.Wallet.Pairs.{Misses, two_largest-Misses}

module _ (amount : ℕ) where
  abbrev Small : NoteRecord → Type 0
  Small r = value_of r < amount

  -- The smallest note that covers the amount, if there is one.
  smallest-none_iff : (rs : List NoteRecord) → (smallest (covering amount rs) ≡ none) ↔ All Small rs
  smallest-none_iff [] = ((λ e. tt), (λ h. refl))
  smallest-none_iff (r ∷ rs) = elim (Bool-cases (leb amount (value_of r))) [
    | inr small ↦
        let ih = smallest-none_iff rs in
        let less = leb-false→lt amount (value_of r) small in
        rw small (((λ e. (less, ih.0 e)), (λ h. ih.1 h.1)))
    | inl enough ↦
        let le = leb→le amount (value_of r) enough in
        rw enough (
          (
            (λ e. absurd (is_some r (smallest (covering amount rs)) e)),
            (λ h. absurd (omega (arith, le, h))),
          ))
  ]
    where
      is_some : (r : NoteRecord) (o : Option NoteRecord) → smaller r o ≢ none
      is_some r none e = cc e
      is_some r (some s) e = elim (Bool-cases (leb (value_of r) (value_of s))) [
        | inl first ↦ cc (rw first at e)
        | inr second ↦ cc (rw second at e)
      ]

  -- A note is not smaller, if it covers the amount.
  abbrev NotBelow : ℕ → List NoteRecord → Type 0
  NotBelow v = All (λ s. amount ≤ value_of s → v ≤ value_of s)

  NotBelow-Small : (v : ℕ) (rs : List NoteRecord) → All Small rs → NotBelow v rs
  NotBelow-Small v [] h = tt
  NotBelow-Small v (r ∷ rs) h = ((λ k. absurd (omega (arith, k, h))), NotBelow-Small v rs h.1)

  NotBelow-weaken : (v u : ℕ) (rs : List NoteRecord) → v ≤ u → NotBelow u rs → NotBelow v rs
  NotBelow-weaken v u [] h k = tt
  NotBelow-weaken v u (r ∷ rs) h k =
      ((λ c. let le = k.0 c in omega (arith, h, le)), NotBelow-weaken v u rs h k.1)

  smallest-NotBelow :
      (rs : List NoteRecord) (r : NoteRecord)
      → smallest (covering amount rs) ≡ some r
      → NotBelow (value_of r) rs
  smallest-NotBelow [] r e = tt
  smallest-NotBelow (s ∷ rs) r e = elim (Bool-cases (leb amount (value_of s))) [
    | inr small ↦
        let less = leb-false→lt amount (value_of s) small in
        ((λ c. absurd (omega (arith, c, less))), smallest-NotBelow rs r (rw small at e))
    | inl enough ↦
        choice (smallest (covering amount rs)) (smallest-none_iff rs).0 (smallest-NotBelow rs)
          (rw enough at e)
  ]
    where
      choice :
          (o : Option NoteRecord)
          → (o ≡ none → All Small rs)
          → ((t : NoteRecord) → o ≡ some t → NotBelow (value_of t) rs)
          → smaller s o ≡ some r
          → NotBelow (value_of r) (s ∷ rs)
      choice none small least h =
          let same : s ≡ r = cc h in
          subst (λ t. NotBelow (value_of t) (s ∷ rs)) same
            ((λ c. omega arith), NotBelow-Small (value_of s) rs (small refl))
      choice (some t) small least h = elim (Bool-cases (leb (value_of s) (value_of t))) [
        | inl first ↦
            let same : s ≡ r = cc (rw first at h) in
            let le = leb→le (value_of s) (value_of t) first in
            subst (λ v. NotBelow (value_of v) (s ∷ rs)) same
              ((λ c. omega arith), NotBelow-weaken (value_of s) (value_of t) rs le (least t refl))
        | inr second ↦
            let same : t ≡ r = cc (rw second at h) in
            let less = leb-false→lt (value_of s) (value_of t) second in
            subst (λ v. NotBelow (value_of v) (s ∷ rs)) same
              ((λ c. omega (arith, less)), least t refl)
      ]

-- What the choice answers, for a wallet whose worth is a `u64`.
pub record IsBestChoice (amount : ℕ) (rs chosen : List NoteRecord) : Type 0 where
  pub covers : amount ≤ worth chosen
  pub few : length chosen ≤ 2
  pub least : All (λ s. amount ≤ value_of s → (length chosen ≡ 1) × (worth chosen ≤ value_of s)) rs

IsBestChoice-single :
    (amount : ℕ) (rs : List NoteRecord) (r : NoteRecord)
    → smallest (covering amount rs) ≡ some r
    → amount ≤ value_of r
    → IsBestChoice amount rs (r ∷ [])
IsBestChoice-single amount rs r found covers = record {
  covers = omega (arith, covers);
  few = omega arith;
  least = single rs (smallest-NotBelow amount rs r found);
}
  where
    single :
        (ss : List NoteRecord)
        → All (λ s. amount ≤ value_of s → value_of r ≤ value_of s) ss
        → All (λ s. amount ≤ value_of s → (length (r ∷ []) ≡ 1) × (worth (r ∷ []) ≤ value_of s)) ss
    single [] h = tt
    single (s ∷ ss) h = ((λ k. let le = h.0 k in (refl, omega (arith, le))), single ss h.1)

IsBestChoice-pair :
    (amount : ℕ) (rs chosen : List NoteRecord)
    → All (λ s. value_of s < amount) rs
    → amount ≤ worth chosen
    → length chosen ≤ 2
    → IsBestChoice amount rs chosen
IsBestChoice-pair amount rs chosen small covers few = record {
  covers = covers;
  few = few;
  least = vacuous rs small;
}
  where
    vacuous :
        (ss : List NoteRecord)
        → All (λ s. value_of s < amount) ss
        → All (λ s. amount ≤ value_of s → (length chosen ≡ 1) × (worth chosen ≤ value_of s)) ss
    vacuous [] h = tt
    vacuous (s ∷ ss) h = ((λ k. absurd (omega (arith, k, h))), vacuous ss h.1)

-- The three answers, and what each means for the notes.
abbrev pub IsAnswer : ℕ → List NoteRecord → Result (List NoteRecord) WalletError → Type 0
IsAnswer amount rs (ok chosen) = IsBestChoice amount rs chosen
IsAnswer amount rs (err (insufficient_funds have need)) =
    (have ≡ worth rs) × (need ≡ amount) × (worth rs < amount)
IsAnswer amount rs (err too_many_inputs_needed) = (amount ≤ worth rs) × Misses amount rs
IsAnswer amount rs (err (missing_witness position)) = ⊥
IsAnswer amount rs (err (prove_failed reason)) = ⊥

module _ (w : Wallet) (amount : ℕ) (u : IsU64 (worth w.unspent)) where
  from_pair :
      All (λ s. value_of s < amount) w.unspent
      → amount ≤ worth w.unspent
      → IsAnswer amount w.unspent (select_pair amount (take 2 (sort_descending w.unspent)))
  unfolding select_pair
  from_pair small rich =
      let pair = take 2 (sort_descending w.unspent) in
      let exact : sum_from 0 pair ≡ 0 + worth pair =
        sum_from_lem 0 pair
          (omega (arith, worth-take_le 2 (sort_descending w.unspent), worth-sort w.unspent, u)) in
      elim (Bool-cases (ltb (sum_from 0 pair) amount)) [
        | inl less ↦ rw less (
            (
              rich,
              (two_largest-Misses amount w.unspent).1
                  (omega (arith, exact, ltb→lt (sum_from 0 pair) amount less)),
            ))
        | inr enough ↦ rw enough (
            IsBestChoice-pair amount w.unspent pair small
              (omega (arith, exact, ltb-false→le (sum_from 0 pair) amount enough))
              (length-take_le 2 (sort_descending w.unspent)))
      ]

  from_first :
      (o : Option NoteRecord)
      → smallest (covering amount w.unspent) ≡ o
      → amount ≤ worth w.unspent
      → IsAnswer amount w.unspent (select_from amount w.unspent o)
  unfolding select_from
  from_first (some r) found rich =
      IsBestChoice-single amount w.unspent r found (smallest-covers amount w.unspent r found)
  from_first none found rich = from_pair ((smallest-none_iff amount w.unspent).0 found) rich

  -- Each answer of the choice of inputs means what it says, for a wallet whose worth is a u64: the
  -- refusal for lack of funds, that the notes are worth less than the amount; the refusal for too
  -- many inputs, that they are worth it, but that no one or two of them are; and a choice, that it
  -- is worth the amount, has at most two notes, and is a single note of the smallest value that
  -- covers the amount where some note covers it.
  pub select_inputs-IsAnswer : IsAnswer amount w.unspent (select_inputs w amount)
  unfolding select_inputs
  select_inputs-IsAnswer =
      let exact : balance w ≡ 0 + worth w.unspent = sum_from_lem 0 w.unspent (omega (arith, u)) in
      elim (Bool-cases (ltb (balance w) amount)) [
        | inl poor ↦
            rw poor
              ((omega (arith, exact), refl, omega (arith, exact, ltb→lt (balance w) amount poor)))
        | inr rich ↦ rw rich (
            from_first (smallest (covering amount w.unspent)) refl
              (omega (arith, exact, ltb-false→le (balance w) amount rich)))
      ]
