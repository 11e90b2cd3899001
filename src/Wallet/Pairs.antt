-- ===== src/Wallet/Pairs.antt =====
-- The two largest notes against every pair of notes.
use unknown.Base.{
  ℕ, ◌+◌, ◌≤◌, ◌<◌, ◌↔◌, inl, inr, arith, Bool-cases, List, [], ◌∷◌, take, ltb, ltb→lt,
  ltb-false→le, All,
}
use unknown.Wallet.{NoteRecord, value_of, insert_descending, sort_descending}
use unknown.Wallet.Selection.{worth}

-- Every two elements, the first before the second.
abbrev pub AllPairs : {A : Type 0} → (A → A → Type 0) → List A → Type 0
AllPairs P [] = Unit
AllPairs P (x ∷ xs) = All (P x) xs × AllPairs P xs

-- No choice of at most two of the notes is worth the amount.
abbrev pub Misses : ℕ → List NoteRecord → Type 0
Misses amount rs =
    (0 < amount)
    × All (λ r. value_of r < amount) rs
    × AllPairs (λ r s. value_of r + value_of s < amount) rs

module _ (amount : ℕ) where
  abbrev Small : NoteRecord → Type 0
  Small r = value_of r < amount

  abbrev SmallPair : NoteRecord → NoteRecord → Type 0
  SmallPair r s = value_of r + value_of s < amount

  All-insert_iff :
      (P : NoteRecord → Type 0) (r : NoteRecord) (ss : List NoteRecord)
      → All P (insert_descending r ss) ↔ (P r × All P ss)
  All-insert_iff P r [] = ((λ h. (h.0, tt)), (λ h. (h.0, tt)))
  All-insert_iff P r (s ∷ ss) = elim (Bool-cases (ltb (value_of r) (value_of s))) [
    | inl below ↦
        let ih = All-insert_iff P r ss in
        rw below (
          (
            (λ h. let rest = ih.0 h.1 in (rest.0, (h.0, rest.1))),
            (λ h. (h.1.0, ih.1 (h.0, h.1.1))),
          ))
    | inr above ↦ rw above (((λ h. h), (λ h. h)))
  ]

  All-swap :
      (s : NoteRecord) (rs : List NoteRecord) → All (SmallPair s) rs → All (λ r. SmallPair r s) rs
  All-swap s [] h = tt
  All-swap s (r ∷ rs) h = (omega (arith, h), All-swap s rs h.1)

  AllPairs-insert_iff :
      (r : NoteRecord) (ss : List NoteRecord)
      → AllPairs SmallPair (insert_descending r ss) ↔ (All (SmallPair r) ss × AllPairs SmallPair ss)
  AllPairs-insert_iff r [] = ((λ h. (tt, tt)), (λ h. (tt, tt)))
  AllPairs-insert_iff r (s ∷ ss) = elim (Bool-cases (ltb (value_of r) (value_of s))) [
    | inr above ↦ rw above (((λ h. h), (λ h. h)))
    | inl below ↦
        let ih = AllPairs-insert_iff r ss in
        let front = All-insert_iff (SmallPair s) r ss in
        rw below (
          (
            (λ h.
                let rest = ih.0 h.1 in
                let first = front.0 h.0 in ((omega (arith, first), rest.0), (first.1, rest.1))),
            (λ h. (front.1 (omega (arith, h), h.1.0), ih.1 (h.0.1, h.1.1))),
          ))
  ]

  All-sort_iff :
      (P : NoteRecord → Type 0) (rs : List NoteRecord) → All P (sort_descending rs) ↔ All P rs
  All-sort_iff P [] = ((λ h. h), (λ h. h))
  All-sort_iff P (r ∷ rs) =
      let ih = All-sort_iff P rs in
      let front = All-insert_iff P r (sort_descending rs) in
      ((λ h. let k = front.0 h in (k.0, ih.0 k.1)), (λ h. front.1 (h.0, ih.1 h.1)))

  AllPairs-sort_iff :
      (rs : List NoteRecord) → AllPairs SmallPair (sort_descending rs) ↔ AllPairs SmallPair rs
  AllPairs-sort_iff [] = ((λ h. h), (λ h. h))
  AllPairs-sort_iff (r ∷ rs) =
      let ih = AllPairs-sort_iff rs in
      let pairs = AllPairs-insert_iff r (sort_descending rs) in
      let others = All-sort_iff (SmallPair r) rs in
      (
        (λ h. let k = pairs.0 h in (others.0 k.0, ih.0 k.1)),
        (λ h. pairs.1 (others.1 h.0, ih.1 h.1)),
      )

  -- No note is followed by a larger one.
  abbrev AreDescending : List NoteRecord → Type 0
  AreDescending [] = Unit
  AreDescending (r ∷ rs) = All (λ s. value_of s ≤ value_of r) rs × AreDescending rs

  All-weaken :
      (a b : ℕ) (rs : List NoteRecord)
      → a ≤ b
      → All (λ s. value_of s ≤ a) rs
      → All (λ s. value_of s ≤ b) rs
  All-weaken a b [] h k = tt
  All-weaken a b (r ∷ rs) h k = (omega (arith, h, k), All-weaken a b rs h k.1)

  insert-AreDescending :
      (r : NoteRecord) (ss : List NoteRecord)
      → AreDescending ss
      → AreDescending (insert_descending r ss)
  insert-AreDescending r [] h = (tt, tt)
  insert-AreDescending r (s ∷ ss) h = elim (Bool-cases (ltb (value_of r) (value_of s))) [
    | inl below ↦
        let less = ltb→lt (value_of r) (value_of s) below in
        rw below (
          (
            (All-insert_iff (λ t. value_of t ≤ value_of s) r ss).1 (omega (arith, less), h.0),
            insert-AreDescending r ss h.1,
          ))
    | inr above ↦
        let le = ltb-false→le (value_of r) (value_of s) above in
        rw above (((le, All-weaken (value_of s) (value_of r) ss le h.0), h))
  ]

  sort-AreDescending : (rs : List NoteRecord) → AreDescending (sort_descending rs)
  sort-AreDescending [] = tt
  sort-AreDescending (r ∷ rs) = insert-AreDescending r (sort_descending rs) (sort-AreDescending rs)

  Small-below :
      (a : ℕ) (rs : List NoteRecord) → a < amount → All (λ s. value_of s ≤ a) rs → All Small rs
  Small-below a [] h k = tt
  Small-below a (r ∷ rs) h k = (omega (arith, h, k), Small-below a rs h k.1)

  SmallPair-below :
      (a b : ℕ) (r : NoteRecord) (rs : List NoteRecord)
      → a + b < amount
      → value_of r ≤ a
      → All (λ s. value_of s ≤ b) rs
      → All (SmallPair r) rs
  SmallPair-below a b r [] h k l = tt
  SmallPair-below a b r (s ∷ rs) h k l = (omega (arith, h, k, l), SmallPair-below a b r rs h k l.1)

  AllPairs-below :
      (a b : ℕ) (rs : List NoteRecord)
      → a + b < amount
      → All (λ s. value_of s ≤ a) rs
      → All (λ s. value_of s ≤ b) rs
      → AllPairs SmallPair rs
  AllPairs-below a b [] h k l = tt
  AllPairs-below a b (r ∷ rs) h k l =
      (SmallPair-below a b r rs h k.0 l.1, AllPairs-below a b rs h k.1 l.1)

  -- The two largest notes stand for all pairs.
  two_largest_iff :
      (ds : List NoteRecord)
      → AreDescending ds
      → ((0 < amount) × All Small ds × AllPairs SmallPair ds) ↔ (worth (take 2 ds) < amount)
  two_largest_iff [] h = ((λ k. k.0), (λ k. (k, tt, tt)))
  two_largest_iff (a ∷ []) h =
      ((λ k. omega (arith, k.1)), (λ k. (omega (arith, k), (omega (arith, k), tt), (tt, tt))))
  two_largest_iff (a ∷ c ∷ ds) h = (
    (λ k. omega (arith, k.2)),
    (λ k.
        let small : value_of a + value_of c < amount = omega (arith, k) in
        let rest = All-weaken (value_of c) (value_of a) ds h.0.0 h.1.0 in
        (
          omega (arith, k),
          (
            omega (arith, small),
            Small-below (value_of a) (c ∷ ds) (omega (arith, small)) (h.0.0, rest),
          ),
          (
            SmallPair-below (value_of a) (value_of c) a (c ∷ ds) small (omega arith)
                (omega arith, h.1.0),
            AllPairs-below (value_of a) (value_of c) (c ∷ ds) small (h.0.0, rest)
                (omega arith, h.1.0),
          ),
        )),
  )

  pub two_largest-Misses :
      (rs : List NoteRecord) → Misses amount rs ↔ (worth (take 2 (sort_descending rs)) < amount)
  two_largest-Misses rs =
      let largest = two_largest_iff (sort_descending rs) (sort-AreDescending rs) in
      let ones = All-sort_iff Small rs in
      let twos = AllPairs-sort_iff rs in
      (
        (λ h. largest.0 (h.0, ones.1 h.1, twos.1 h.2)),
        (λ h. let k = largest.1 h in (k.0, ones.0 k.1, twos.0 k.2)),
      )
