-- ===== src/Persistence/Tables.antt =====
-- What the tables of a store hold after a ledger has been written to them.
use unknown.Base.{
  ℕ, ◌+◌, ◌<◌, ◌≡◌, inl, inr, refl, sym, ap, ◌∙◌, arith, Bool, true, false, ◌||◌, Bool-cases, ok,
  List, [], ◌∷◌, ◌++◌, length, All, All-append, ltb, ◌==◌, ==_iff, or_assoc,
}
use mathlib.Core.List.{map, append_assoc, append-nil}
use unknown.Base.Bytes.{Bytes, eq, lt, eq→≡}
use unknown.Interfaces.{Nullifier}
use unknown.Interfaces.Encoding.{Is32}
use unknown.State.{contains, insert_all}
use unknown.Storage.{leaves_of, nullifiers_in}
use unknown.Storage.Tables.{leaf_set, spent_set, leaves_set, spents_set}
use unknown.Persistence.{enumerate}

not_below : (p q : ℕ) → q < p → (ltb p q ≡ false) × (p == q ≡ false)
not_below p q h = (ground arith, ground arith)

-- A key above all others goes to the end.
leaf_set-last :
    (pos : ℕ) (cm : Bytes) (table : List (ℕ × Bytes))
    → All (λ (e : ℕ × Bytes). e.0 < pos) table
    → leaf_set pos cm table ≡ table ++ (pos, cm) ∷ []
leaf_set-last pos cm [] h = refl
leaf_set-last pos cm ((p, c) ∷ table) h =
    rw ((not_below pos p h.0).0, (not_below pos p h.0).1)
      (ap (◌∷◌ (p, c)) (leaf_set-last pos cm table h.1))

all_below_next :
    (pos : ℕ) (table : List (ℕ × Bytes))
    → All (λ (e : ℕ × Bytes). e.0 < pos) table
    → All (λ (e : ℕ × Bytes). e.0 < pos + 1) table
all_below_next pos [] h = tt
all_below_next pos (e ∷ table) h = (omega (arith, h.0), all_below_next pos table h.1)

pub leaves_set-enumerate :
    (pos : ℕ) (ls : List Bytes) (table : List (ℕ × Bytes))
    → All (λ (e : ℕ × Bytes). e.0 < pos) table
    → leaves_set (enumerate pos ls) table ≡ table ++ enumerate pos ls
leaves_set-enumerate pos [] table h = sym (append-nil table)
leaves_set-enumerate pos (l ∷ ls) table h =
    ap (leaves_set (enumerate (pos + 1) ls)) (leaf_set-last pos l table h)
    ∙ (leaves_set-enumerate (pos + 1) ls (table ++ (pos, l) ∷ []) (
          All-append (λ (e : ℕ × Bytes). e.0 < pos + 1) table ((pos, l) ∷ [])
            (all_below_next pos table h) (omega arith, tt))
        ∙ append_assoc table ((pos, l) ∷ []) (enumerate (pos + 1) ls))

pub leaves_of-enumerate :
    (pos : ℕ) (ls : List Bytes) → All Is32 ls → leaves_of (map ok (enumerate pos ls)) ≡ ok ls
unfolding leaves_of
leaves_of-enumerate pos [] h = refl
leaves_of-enumerate pos (l ∷ ls) h =
    rw ((==_iff (length l) 32).1 h.0, leaves_of-enumerate (pos + 1) ls h.1) refl

spent_set-All :
    (P : Bytes → Type 0) (nf : Bytes) (height : ℕ) (table : List (Bytes × ℕ))
    → P nf
    → All P (map (λ (e : Bytes × ℕ). e.0) table)
    → All P (map (λ (e : Bytes × ℕ). e.0) (spent_set nf height table))
spent_set-All P nf height [] h hs = (h, tt)
spent_set-All P nf height ((x, g) ∷ table) h hs = elim (Bool-cases (lt nf x)) [
  | inl below ↦ rw below ((h, hs))
  | inr not_less ↦ elim (Bool-cases (eq nf x)) [
    | inl same ↦ rw (not_less, same) ((h, hs.1))
    | inr above ↦ rw (not_less, above) ((hs.0, spent_set-All P nf height table h hs.1))
  ]
]

pub spents_set-All :
    (P : Bytes → Type 0) (nfs : List Nullifier) (height : ℕ) (table : List (Bytes × ℕ))
    → All P nfs
    → All P (map (λ (e : Bytes × ℕ). e.0) table)
    → All P (map (λ (e : Bytes × ℕ). e.0) (spents_set nfs height table))
spents_set-All P [] height table h hs = hs
spents_set-All P (nf ∷ nfs) height table h hs =
    spents_set-All P nfs height (spent_set nf height table) h.1
      (spent_set-All P nf height table h.0 hs)

pub nullifiers_in-keys :
    (table : List (Bytes × ℕ))
    → All Is32 (map (λ (e : Bytes × ℕ). e.0) table)
    → nullifiers_in (map ok table) ≡ ok (map (λ (e : Bytes × ℕ). e.0) table)
unfolding nullifiers_in
nullifiers_in-keys [] h = refl
nullifiers_in-keys ((nf, height) ∷ table) h =
    rw ((==_iff (length nf) 32).1 h.0, nullifiers_in-keys table h.1) refl

or_swap : (r s t : Bool) → (r || (s || t)) ≡ (s || (r || t))
or_swap true true t = refl
or_swap true false t = refl
or_swap false s t = refl

or_again : (s t : Bool) → (s || t) ≡ (s || (s || t))
or_again true t = refl
or_again false t = refl

contains-spent_set :
    (nf : Bytes) (height : ℕ) (table : List (Bytes × ℕ)) (x : Nullifier)
    → contains (map (λ (e : Bytes × ℕ). e.0) (spent_set nf height table)) x
      ≡ (eq nf x || contains (map (λ (e : Bytes × ℕ). e.0) table) x)
contains-spent_set nf height [] x = refl
contains-spent_set nf height ((y, g) ∷ table) x = elim (Bool-cases (lt nf y)) [
  | inl below ↦ rw below refl
  | inr not_less ↦ elim (Bool-cases (eq nf y)) [
    | inl same ↦
        rw (not_less, same)
          (rw (← eq→≡ nf y same)
            (or_again (eq nf x) (contains (map (λ (e : Bytes × ℕ). e.0) table) x)))
    | inr above ↦
        rw (not_less, above)
          (ap (λ s. eq y x || s) (contains-spent_set nf height table x)
            ∙ or_swap (eq y x) (eq nf x) (contains (map (λ (e : Bytes × ℕ). e.0) table) x))
  ]
]

pub contains-spents_set :
    (nfs : List Nullifier) (height : ℕ) (table : List (Bytes × ℕ)) (x : Nullifier)
    → contains (map (λ (e : Bytes × ℕ). e.0) (spents_set nfs height table)) x
      ≡ (contains nfs x || contains (map (λ (e : Bytes × ℕ). e.0) table) x)
contains-spents_set [] height table x = refl
contains-spents_set (nf ∷ nfs) height table x =
    contains-spents_set nfs height (spent_set nf height table) x
    ∙ (ap (λ s. contains nfs x || s) (contains-spent_set nf height table x)
        ∙ (or_swap (contains nfs x) (eq nf x) (contains (map (λ (e : Bytes × ℕ). e.0) table) x)
            ∙ or_assoc (eq nf x) (contains nfs x)
                (contains (map (λ (e : Bytes × ℕ). e.0) table) x)))

pub contains-insert_all :
    (nfs set : List Nullifier) (x : Nullifier)
    → contains (insert_all nfs set) x ≡ (contains nfs x || contains set x)
contains-insert_all [] set x = refl
contains-insert_all (nf ∷ nfs) set x =
    contains-insert_all nfs (nf ∷ set) x
    ∙ (or_swap (contains nfs x) (eq nf x) (contains set x)
        ∙ or_assoc (eq nf x) (contains nfs x) (contains set x))

pub or_nothing : (s : Bool) → (s || false) ≡ s
or_nothing true = refl
or_nothing false = refl
