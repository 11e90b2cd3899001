-- ===== src/Wallet/Selection.antt =====
-- The choice of inputs, and what it is worth.
use unknown.Base.{
  ℕ, zero, suc, ◌+◌, ◌^◌, ◌≤◌, ◌<◌, ◌≡◌, inl, inr, refl, arith, Bool-cases, Option, none, some, ok,
  List, [], ◌∷◌, length, take, ltb, leb, ltb-false→le, leb→le,
}
use unknown.Base.Words.{add_u64, IsU64}
use unknown.Wallet.{
  NoteRecord, Wallet, value_of, sum_from, balance, covering, smaller, smallest, insert_descending,
  sort_descending, select_pair, select_from, select_inputs,
}

-- The values of notes, added without a wrap.
abbrev pub worth : List NoteRecord → ℕ
worth [] = 0
worth (r ∷ rs) = value_of r + worth rs

pub sum_from_lem :
    (total : ℕ) (rs : List NoteRecord)
    → total + worth rs < 2 ^ 64
    → sum_from total rs ≡ total + worth rs
sum_from_lem total [] h = omega arith
sum_from_lem total (r ∷ rs) h =
    let exact : add_u64 total (value_of r) ≡ total + value_of r = omega arith in
    omega (arith, exact, sum_from_lem (add_u64 total (value_of r)) rs (omega (arith, exact)))

worth-insert :
    (r : NoteRecord) (ss : List NoteRecord) → worth (insert_descending r ss) ≡ value_of r + worth ss
worth-insert r [] = refl
worth-insert r (s ∷ ss) = elim (Bool-cases (ltb (value_of r) (value_of s))) [
  | inl below ↦ rw below (omega (arith, worth-insert r ss))
  | inr above ↦ rw above refl
]

pub worth-sort : (rs : List NoteRecord) → worth (sort_descending rs) ≡ worth rs
worth-sort [] = refl
worth-sort (r ∷ rs) = omega (arith, worth-insert r (sort_descending rs), worth-sort rs)

pub worth-take_le : (n : ℕ) (rs : List NoteRecord) → worth (take n rs) ≤ worth rs
worth-take_le zero rs = omega arith
worth-take_le (suc n) [] = omega arith
worth-take_le (suc n) (r ∷ rs) = omega (arith, worth-take_le n rs)

pub length-take_le : (n : ℕ) (rs : List NoteRecord) → length (take n rs) ≤ n
length-take_le zero rs = omega arith
length-take_le (suc n) [] = omega arith
length-take_le (suc n) (r ∷ rs) = omega (arith, length-take_le n rs)

-- What the first selection finds is a note of the wallet that covers the amount.
pub smallest-covers :
    (amount : ℕ) (rs : List NoteRecord) (r : NoteRecord)
    → smallest (covering amount rs) ≡ some r
    → amount ≤ value_of r
smallest-covers amount [] r e = cc
smallest-covers amount (s ∷ rs) r e = elim (Bool-cases (leb amount (value_of s))) [
  | inr small ↦ smallest-covers amount rs r (rw small at e)
  | inl enough ↦
      choice (smallest (covering amount rs)) (smallest-covers amount rs)
        (leb→le amount (value_of s) enough) (rw enough at e)
]
  where
    choice :
        (o : Option NoteRecord)
        → ((t : NoteRecord) → o ≡ some t → amount ≤ value_of t)
        → amount ≤ value_of s
        → smaller s o ≡ some r
        → amount ≤ value_of r
    choice none k h e = let same : s ≡ r = cc e in rw (← same) h
    choice (some t) k h e = elim (Bool-cases (leb (value_of s) (value_of t))) [
      | inl first ↦ let same : s ≡ r = cc (rw first at e) in rw (← same) h
      | inr second ↦ let same : t ≡ r = cc (rw second at e) in rw (← same) (k t refl)
    ]

-- The notes that are chosen, one or two, are worth the amount, if the worth of the wallet is a u64.
pub select_inputs-covers :
    (w : Wallet) (amount : ℕ) {chosen : List NoteRecord}
    → IsU64 (worth w.unspent)
    → select_inputs w amount ≡ ok chosen
    → (amount ≤ worth chosen) × (length chosen ≤ 2)
unfolding select_inputs select_from select_pair
select_inputs-covers w amount {chosen} u e = elim (Bool-cases (ltb (balance w) amount)) [
  | inl poor ↦ absurd (cc (rw poor at e))
  | inr rich ↦ by_first (smallest (covering amount w.unspent)) refl (rw rich at e)
]
  where
    by_first :
        (o : Option NoteRecord)
        → smallest (covering amount w.unspent) ≡ o
        → select_from amount w.unspent o ≡ ok chosen
        → (amount ≤ worth chosen) × (length chosen ≤ 2)
    by_first (some r) f e =
        let same : r ∷ [] ≡ chosen = cc e in
        let covers : amount ≤ value_of r = smallest-covers amount w.unspent r f in
        rw (← same) ((omega (arith, covers), omega arith))
    by_first none f e =
        elim (Bool-cases (ltb (sum_from 0 (take 2 (sort_descending w.unspent))) amount)) [
          | inl less ↦ absurd (cc (rw less at e))
          | inr enough ↦
              let sorted = sort_descending w.unspent in
              let same : take 2 sorted ≡ chosen = cc (rw enough at e) in
              let fits : 0 + worth (take 2 sorted) < 2 ^ 64 =
                omega (arith, worth-take_le 2 sorted, worth-sort w.unspent, u) in
              rw (← same) (
                (
                  omega (
                    arith,
                    sum_from_lem 0 (take 2 sorted) fits,
                    ltb-false→le (sum_from 0 (take 2 sorted)) amount enough,
                  ),
                  length-take_le 2 sorted,
                ))
        ]
