-- ===== src/Consensus/First.antt =====
-- Which of several transactions with one binding digest is committed.
use unknown.Base.{
  ◌≡◌, refl, ap, ◌∙◌, sym, true, false, Bool-cases, inl, inr, Option, none, some, List, [], ◌∷◌,
  All, if◌then◌else◌,
}
use unknown.Base.Bytes.{Bytes, eq, lt, eq→≡, lt_irrefl}
use unknown.Primitives.{Blake3}
use unknown.Tx.{TxV1, binding_digest}
use unknown.Consensus.{or_insert, gather, commit_order}
use unknown.Consensus.Entries.{Entry, AreOrdered, All-above, or_insert-AreOrdered}
use unknown.Consensus.Order.{IsKeyed, gather-IsKeyed, txs_of}

abbrev or_else : Option TxV1 → Option TxV1 → Option TxV1
or_else none other = other
or_else (some tx) other = some tx

or_else_assoc : (o p q : Option TxV1) → or_else (or_else o p) q ≡ or_else o (or_else p q)
or_else_assoc none p q = refl
or_else_assoc (some tx) p q = refl

or_else-none : (o : Option TxV1) → or_else o none ≡ o
or_else-none none = refl
or_else-none (some tx) = refl

-- The transaction of the first entry with this key.
abbrev entry_at : Bytes → List Entry → Option TxV1
entry_at x [] = none
entry_at x ((k, t) ∷ seen) = let rest = entry_at x seen in if eq k x then some t else rest

-- The transaction, if its key is this one.
abbrev alone : Bytes → Bytes → TxV1 → Option TxV1
alone x key tx = if eq key x then some tx else none

entry_at-above :
    (key : Bytes) (seen : List Entry)
    → All (λ (e : Entry). lt key e.0 ≡ true) seen
    → entry_at key seen ≡ none
entry_at-above key [] h = refl
entry_at-above key ((k, t) ∷ seen) h = elim (Bool-cases (eq k key)) [
  | inl same ↦ absurd (cc (rw (eq→≡ k key same, lt_irrefl key) at h.0))
  | inr other ↦ rw other (entry_at-above key seen h.1)
]

entry_at-below :
    (x key : Bytes) (tx : TxV1) (seen : List Entry)
    → All (λ (e : Entry). lt key e.0 ≡ true) seen
    → (if eq key x then some tx else entry_at x seen) ≡ or_else (entry_at x seen) (alone x key tx)
entry_at-below x key tx seen h = elim (Bool-cases (eq key x)) [
  | inl same ↦
      let none_there : entry_at x seen ≡ none =
        rw (← eq→≡ key x same) (entry_at-above key seen h) in
      rw (same, none_there) refl
  | inr other ↦ rw other (sym (or_else-none (entry_at x seen)))
]

-- An entry is added for a key that has none.
entry_at-or_insert :
    (x key : Bytes) (tx : TxV1) (seen : List Entry)
    → AreOrdered seen
    → entry_at x (or_insert key tx seen) ≡ or_else (entry_at x seen) (alone x key tx)
unfolding or_insert
entry_at-or_insert x key tx [] h = refl
entry_at-or_insert x key tx ((k, t) ∷ seen) h = elim (Bool-cases (lt key k)) [
  | inl below ↦
      rw below (entry_at-below x key tx ((k, t) ∷ seen) (below, All-above key k seen below h.0))
  | inr not_below ↦ elim (Bool-cases (eq key k)) [
    | inl same ↦
        rw (not_below, same)
          (elim (Bool-cases (eq k x)) [
            | inl here ↦ rw here refl
            | inr there ↦
                let apart : eq key x ≡ false = rw (eq→≡ key k same) there in
                rw (there, apart) (sym (or_else-none (entry_at x seen)))
          ])
    | inr above ↦
        rw (not_below, above)
          (elim (Bool-cases (eq k x)) [
            | inl here ↦ rw here refl
            | inr there ↦ rw there (entry_at-or_insert x key tx seen h.1)
          ])
  ]
]

module _ ⦃b : Blake3⦄ where
  -- The first of the transactions with this binding digest.
  abbrev pub first_with : Bytes → List TxV1 → Option TxV1
  first_with digest [] = none
  first_with digest (tx ∷ txs) =
      let rest = first_with digest txs in if eq (binding_digest tx) digest then some tx else rest

  first_with-step :
      (digest : Bytes) (tx : TxV1) (txs : List TxV1)
      → first_with digest (tx ∷ txs)
        ≡ or_else (alone digest (binding_digest tx) tx) (first_with digest txs)
  first_with-step digest tx txs = elim (Bool-cases (eq (binding_digest tx) digest)) [
    | inl same ↦ rw same refl
    | inr other ↦ rw other refl
  ]

  entry_at-gather :
      (digest : Bytes) (txs : List TxV1) (seen : List Entry)
      → AreOrdered seen
      → entry_at digest (gather txs seen) ≡ or_else (entry_at digest seen) (first_with digest txs)
  unfolding gather
  entry_at-gather digest [] seen h = sym (or_else-none (entry_at digest seen))
  entry_at-gather digest (tx ∷ txs) seen h =
      let key : Bytes = binding_digest tx in
      entry_at-gather digest txs (or_insert key tx seen) (or_insert-AreOrdered key tx seen h)
      ∙ (ap (λ o. or_else o (first_with digest txs)) (entry_at-or_insert digest key tx seen h)
          ∙ (or_else_assoc (entry_at digest seen) (alone digest key tx) (first_with digest txs)
              ∙ ap (or_else (entry_at digest seen)) (sym (first_with-step digest tx txs))))

  first_with-txs_of :
      (digest : Bytes) (seen : List Entry)
      → IsKeyed seen
      → first_with digest (txs_of seen) ≡ entry_at digest seen
  first_with-txs_of digest [] h = refl
  first_with-txs_of digest ((k, t) ∷ seen) h = rw (← h.0, first_with-txs_of digest seen h.1) refl

  -- For every digest, the first committed transaction that has it is the first submitted one that
  -- has it, and none is committed where none is submitted: of several transactions with one digest
  -- the first submitted is committed, with its own proof and anti-spam artifact.
  pub commit_order-first :
      (submitted : List TxV1) (digest : Bytes)
      → first_with digest (commit_order submitted) ≡ first_with digest submitted
  unfolding commit_order
  commit_order-first submitted digest =
      first_with-txs_of digest (gather submitted []) (gather-IsKeyed submitted [] tt)
      ∙ entry_at-gather digest submitted [] tt
