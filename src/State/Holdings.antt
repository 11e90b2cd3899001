-- ===== src/State/Holdings.antt =====
-- The notes behind the leaves of a tree, and the note that a verified path leads to.
use unknown.Base.{
  ℕ, zero, suc, ◌+◌, ◌%◌, ◌^◌, ◌≤◌, ◌<◌, ◌≡◌, ◌⊎◌, inl, inr, refl, sym, ap, ◌∙◌, arith, true,
  Bool-cases, List, [], ◌∷◌, ◌++◌, length, length-append, length-map, get_or, get_or-append_left,
  All, All-get_or, ltb, ltb→lt,
}
use mathlib.Core.List.{map}
use unknown.Base.Bytes.{Bytes, le_bytes}
use unknown.Base.Words.{IsU64, u64_bytes-injective}
use unknown.Primitives.{Blake3, frame, note_commitment, length-hash_parts}
use unknown.Primitives.Binding.{Collides, hash_parts_binding}
use unknown.Interfaces.{MerklePath, tree_depth}
use unknown.Interfaces.Encoding.{Is32}
use unknown.Notes.{Note, commitment}
use unknown.Notes.Binding.{note_parts}
use unknown.Tree.{CommitmentTree, root, verify_path}
use unknown.Tree.Shape.{IsTree}
use unknown.Tree.Padding.{empty_leaf, IsForgedPath, path_sound}
use unknown.ProverDev.{InputWitness}

-- A note whose value is a `u64` and whose parts have lengths that a `u64` holds.
pub record IsOpening (n : Note) : Type 0 where
  pub value : IsU64 n.value
  pub addr_tag : IsU64 (length n.addr_tag)
  pub rho : IsU64 (length n.rho)
  pub rseed : IsU64 (length n.rseed)

-- A path of the size that the types guarantee.
pub record IsPath (path : MerklePath) : Type 0 where
  pub siblings : All Is32 path.siblings
  pub depth : length path.siblings ≡ tree_depth

abbrev pub no_note : Note
no_note = record { value = 0; addr_tag = []; rho = []; rseed = [] }

abbrev pub note_at : List Note → ℕ → Note
note_at notes p = get_or notes p no_note

-- The value of the notes at a list of positions.
abbrev pub worth_at : List Note → List ℕ → ℕ
worth_at notes [] = 0
worth_at notes (p ∷ ps) = (note_at notes p).value + worth_at notes ps

get_or-map :
    (f : Note → Bytes) (notes : List Note) (p : ℕ) (d : Note) (e : Bytes)
    → p < length notes
    → get_or (map f notes) p e ≡ f (get_or notes p d)
get_or-map f [] p d e h = absurd (omega arith)
get_or-map f (n ∷ notes) zero d e h = refl
get_or-map f (n ∷ notes) (suc p) d e h = get_or-map f notes p d e (omega arith)

get_or-default :
    (xs : List Bytes) (p : ℕ) (d e : Bytes) → p < length xs → get_or xs p d ≡ get_or xs p e
get_or-default [] p d e h = absurd (omega arith)
get_or-default (x ∷ xs) zero d e h = refl
get_or-default (x ∷ xs) (suc p) d e h = get_or-default xs p d e (omega arith)

get_or-past : (xs : List Bytes) (p : ℕ) (d : Bytes) → length xs ≤ p → get_or xs p d ≡ d
get_or-past [] p d h = refl
get_or-past (x ∷ xs) zero d h = absurd (omega arith)
get_or-past (x ∷ xs) (suc p) d h = get_or-past xs p d (omega arith)

module _ ⦃b : Blake3⦄ where
  opening_binding :
      (n m : Note)
      → IsOpening n
      → IsOpening m
      → commitment n ≡ commitment m
      → (n ≡ m) ⊎ Collides note_commitment (frame (note_parts n)) (frame (note_parts m))
  unfolding commitment
  opening_binding n m hn hm e =
      elim (hash_parts_binding _ (le_bytes 8 n.value ∷ n.addr_tag ∷ n.rho ∷ n.rseed ∷ [])
        (le_bytes 8 m.value ∷ m.addr_tag ∷ m.rho ∷ m.rseed ∷ [])
        (omega arith, (hn.addr_tag, (hn.rho, (hn.rseed, tt))))
        (omega arith, (hm.addr_tag, (hm.rho, (hm.rseed, tt)))) e) [
          | inl same ↦
              let values = u64_bytes-injective n.value m.value hn.value hm.value (cc same) in
              let tags : n.addr_tag ≡ m.addr_tag = cc same in
              let rhos : n.rho ≡ m.rho = cc same in
              let seeds : n.rseed ≡ m.rseed = cc same in inl (cc (values, tags, rhos, seeds))
          | inr c ↦ inr c
        ]

  -- The notes of which the first leaves of a tree, and more, are the commitments.
  pub record IsBehind (notes : List Note) (t : CommitmentTree) : Type 0 where
    pub openings : All IsOpening notes
    pub tree : IsTree t
    pub later : List Bytes
    pub leaves : t.leaves ++ later ≡ map commitment notes

  -- The note with this path is not one of the notes, though the path verifies: at some level of the
  -- path, in a tree of the first of the notes, or in the commitment of one of the notes, other bytes
  -- are hashed to the same digest, or the note's commitment is the leaf that stands for no note.
  pub data IsForged (notes : List Note) (n : Note) (path : MerklePath) : Type 0 where
    on_path :
        (t : CommitmentTree)
        → IsBehind notes t
        → IsForgedPath t (commitment n) path
        → IsForged notes n path
    in_commitment :
        (p : ℕ)
        → p < length notes
        → Collides note_commitment (frame (note_parts n)) (frame (note_parts (note_at notes p)))
        → IsForged notes n path
    as_empty : commitment n ≡ empty_leaf → IsForged notes n path

  -- One of the inputs spends a forged note.
  abbrev pub HasForged : List Note → List InputWitness → Type 0
  HasForged notes [] = ⊥
  HasForged notes (i ∷ is) = IsForged notes i.note i.path ⊎ HasForged notes is

  -- A note with a path that verifies is one of the notes behind the tree, or it is forged.
  pub located :
      (notes : List Note) (t : CommitmentTree) (n : Note) (path : MerklePath)
      → IsBehind notes t
      → IsOpening n
      → IsPath path
      → verify_path (commitment n) path (root t) ≡ true
      → ((p : ℕ) × (p < length notes) × (note_at notes p ≡ n)) ⊎ IsForged notes n path
  unfolding commitment
  located notes t n path h hn hp good =
      let p : ℕ = path.position % 2 ^ 32 in
      let count = ap length h.leaves ∙ length-map notes commitment in
      let split = length-append t.leaves h.later in
      elim (path_sound t (commitment n) path h.tree (length-hash_parts _ _) hp.siblings hp.depth
        good) [
          | inr c ↦ inr (IsForged.on_path t h c)
          | inl stands ↦ elim (Bool-cases (ltb p (length t.leaves))) [
            | inr past ↦
                inr (IsForged.as_empty (stands ∙ get_or-past t.leaves p empty_leaf (ground arith)))
            | inl inside ↦
                let lt : p < length t.leaves = ltb→lt p (length t.leaves) inside in
                let lt' : p < length notes = omega (arith, lt, count, split) in
                let leaf : commitment n ≡ commitment (note_at notes p) =
                  stands
                  ∙ (get_or-default t.leaves p empty_leaf [] lt
                      ∙ (sym (get_or-append_left t.leaves h.later p [] lt)
                          ∙ (ap (λ ls. get_or ls p []) h.leaves
                              ∙ get_or-map commitment notes p no_note [] lt'))) in
                elim (opening_binding n (note_at notes p) hn
                  (All-get_or IsOpening notes p no_note h.openings lt') leaf) [
                    | inl same ↦ inl (p, lt', sym same)
                    | inr c ↦ inr (IsForged.in_commitment p lt' c)
                  ]
          ]
        ]
