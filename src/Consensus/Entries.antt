-- ===== src/Consensus/Entries.antt =====
-- The entries of the ordered map, and insertions into it.
use unknown.Base.{
  or_right, ◌≡◌, inl, inr, refl, sym, ap, arith, Bool, true, false, ◌||◌, Bool-cases, List, [], ◌∷◌,
  any, All,
}
use unknown.Base.Bytes.{lt_asym, Bytes, lt, lt_trans, lt_irrefl, lt_total, eq, eq→≡, eq_refl}
use unknown.Tx.{TxV1}
use unknown.Consensus.{or_insert}

abbrev pub Entry : Type 0
Entry = Bytes × TxV1

eq_sym_false : (x y : Bytes) → eq x y ≡ false → eq y x ≡ false
eq_sym_false x y e = elim (Bool-cases (eq y x)) [
  | inl same ↦ absurd (cc (rw (eq→≡ y x same, eq_refl x) at e))
  | inr other ↦ other
]

lt-eq-false : (x y : Bytes) → lt x y ≡ true → eq x y ≡ false
lt-eq-false x y h = elim (Bool-cases (eq x y)) [
  | inl same ↦ absurd (cc (rw (eq→≡ x y same, lt_irrefl y) at h))
  | inr other ↦ other
]

-- Two keys in order may be inserted in either order.
or_insert-swap_lt :
    (k1 k2 : Bytes) (t1 t2 : TxV1) (seen : List Entry)
    → lt k1 k2 ≡ true
    → or_insert k1 t1 (or_insert k2 t2 seen) ≡ or_insert k2 t2 (or_insert k1 t1 seen)
unfolding or_insert
or_insert-swap_lt k1 k2 t1 t2 [] h =
    rw (h, lt_asym k1 k2 h, eq_sym_false k1 k2 (lt-eq-false k1 k2 h)) refl
or_insert-swap_lt k1 k2 t1 t2 ((k, t) ∷ seen) h =
    let back = lt_asym k1 k2 h in
    let other = eq_sym_false k1 k2 (lt-eq-false k1 k2 h) in
    elim (Bool-cases (lt k2 k)) [
      | inl below ↦ rw (below, lt_trans k1 k2 k h below, h, back, other, below) refl
      | inr not_below ↦ elim (Bool-cases (eq k2 k)) [
        | inl same ↦
            let first : lt k1 k ≡ true = rw (eq→≡ k2 k same) at h in
            rw (not_below, same, first, back, other, not_below, same) refl
        | inr above ↦ elim (Bool-cases (lt k1 k)) [
          | inl first ↦ rw (not_below, above, first, back, other, not_below, above) refl
          | inr not_first ↦ elim (Bool-cases (eq k1 k)) [
            | inl same ↦ rw (not_below, above, not_first, same, not_below, above) refl
            | inr last ↦
                rw (not_below, above, not_first, last, not_below, above)
                  (ap (◌∷◌ (k, t)) (or_insert-swap_lt k1 k2 t1 t2 seen h))
          ]
        ]
      ]
    ]

pub or_insert-swap :
    (k1 k2 : Bytes) (t1 t2 : TxV1) (seen : List Entry)
    → (k1 ≡ k2 → t1 ≡ t2)
    → or_insert k1 t1 (or_insert k2 t2 seen) ≡ or_insert k2 t2 (or_insert k1 t1 seen)
or_insert-swap k1 k2 t1 t2 seen same = elim (Bool-cases (lt k1 k2)) [
  | inl up ↦ or_insert-swap_lt k1 k2 t1 t2 seen up
  | inr up_fails ↦ elim (Bool-cases (lt k2 k1)) [
    | inl down ↦ sym (or_insert-swap_lt k2 k1 t2 t1 seen down)
    | inr neither ↦
        let keys : k1 ≡ k2 = lt_total k1 k2 up_fails neither in
        let txs : t1 ≡ t2 = same keys in rw (keys, txs) refl
  ]
]

pub All-or_insert :
    (P : Entry → Type 0) (key : Bytes) (tx : TxV1) (seen : List Entry)
    → P (key, tx)
    → All P seen
    → All P (or_insert key tx seen)
unfolding or_insert
All-or_insert P key tx [] h hs = (h, tt)
All-or_insert P key tx ((k, t) ∷ seen) h hs = elim (Bool-cases (lt key k)) [
  | inl below ↦ rw below ((h, hs))
  | inr not_below ↦ elim (Bool-cases (eq key k)) [
    | inl same ↦ rw (not_below, same) hs
    | inr above ↦ rw (not_below, above) ((hs.0, All-or_insert P key tx seen h hs.1))
  ]
]

-- The keys ascend strictly.
abbrev pub AreOrdered : List Entry → Type 0
AreOrdered [] = Unit
AreOrdered ((k, t) ∷ seen) = All (λ (e : Entry). lt k e.0 ≡ true) seen × AreOrdered seen

pub All-above :
    (key k : Bytes) (seen : List Entry)
    → lt key k ≡ true
    → All (λ (e : Entry). lt k e.0 ≡ true) seen
    → All (λ (e : Entry). lt key e.0 ≡ true) seen
All-above key k [] h hs = tt
All-above key k (e ∷ seen) h hs = (lt_trans key k e.0 h hs.0, All-above key k seen h hs.1)

pub or_insert-AreOrdered :
    (key : Bytes) (tx : TxV1) (seen : List Entry)
    → AreOrdered seen
    → AreOrdered (or_insert key tx seen)
unfolding or_insert
or_insert-AreOrdered key tx [] h = (tt, tt)
or_insert-AreOrdered key tx ((k, t) ∷ seen) h = elim (Bool-cases (lt key k)) [
  | inl below ↦ rw below (((below, All-above key k seen below h.0), h))
  | inr not_below ↦ elim (Bool-cases (eq key k)) [
    | inl same ↦ rw (not_below, same) h
    | inr above ↦
        rw (not_below, above)
          ((
            All-or_insert (λ e. lt k e.0 ≡ true) key tx seen (greater not_below above) h.0,
            or_insert-AreOrdered key tx seen h.1,
          ))
  ]
]
  where
    greater : lt key k ≡ false → eq key k ≡ false → lt k key ≡ true
    greater up_fails other = elim (Bool-cases (lt k key)) [
      | inl up ↦ up
      | inr down ↦ absurd (cc (rw (lt_total key k up_fails down, eq_refl k) at other))
    ]

-- Whether a key has an entry.
abbrev pub has : List Entry → Bytes → Bool
has seen key = any (λ (e : Entry). eq e.0 key) seen

pub or_insert-has :
    (key : Bytes) (tx : TxV1) (seen : List Entry) → has (or_insert key tx seen) key ≡ true
unfolding or_insert
or_insert-has key tx [] = rw (eq_refl key) refl
or_insert-has key tx ((k, t) ∷ seen) = elim (Bool-cases (lt key k)) [
  | inl below ↦ rw (below, eq_refl key) refl
  | inr not_below ↦ elim (Bool-cases (eq key k)) [
    | inl same ↦
        rw (not_below, same)
          (let e : eq k key ≡ true = rw (eq→≡ key k same) (eq_refl k) in rw e refl)
    | inr above ↦ rw (not_below, above) (or_right (eq k key) _ (or_insert-has key tx seen))
  ]
]

pub or_insert-keeps :
    (key : Bytes) (tx : TxV1) (seen : List Entry) (x : Bytes)
    → has seen x ≡ true
    → has (or_insert key tx seen) x ≡ true
unfolding or_insert
or_insert-keeps key tx [] x h = cc
or_insert-keeps key tx ((k, t) ∷ seen) x h = elim (Bool-cases (lt key k)) [
  | inl below ↦ rw below (or_right (eq key x) (has ((k, t) ∷ seen) x) h)
  | inr not_below ↦ elim (Bool-cases (eq key k)) [
    | inl same ↦ rw (not_below, same) h
    | inr above ↦
        rw (not_below, above)
          (or_step (eq k x) (has seen x) (has (or_insert key tx seen) x)
            (or_insert-keeps key tx seen x) h)
  ]
]
  where
    or_step : (s t u : Bool) → (t ≡ true → u ≡ true) → (s || t) ≡ true → (s || u) ≡ true
    or_step s t u f e = ground (arith, f, e)
