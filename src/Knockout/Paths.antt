-- ===== src/Knockout/Paths.antt =====
-- An authentication path with a complemented byte in its first sibling.
use unknown.Base.{ℕ, ◌/◌, ◌<◌, ◌≡◌, inl, inr, ◌∙◌, ap, refl, List, ◌∷◌, length, All}
use unknown.Base.Bytes.{Bytes, IsByte, eq, eq_refl}
use unknown.Primitives.{Blake3}
use unknown.Interfaces.Encoding.{Is32}
use unknown.Tree.{path_root}
use unknown.Tree.Levels.{parent}
use unknown.Tree.Soundness.{PathsCollide, parent_binding, path_root_binding, Is32-parent}
use unknown.Knockout.{flip_first}
use unknown.Knockout.Flips.{eq-flip_first, length-flip_first}

module _ ⦃b : Blake3⦄ where
  -- The changed path leads elsewhere, or collides with the path at some level.
  pub path_root-flip :
      (leaf s : Bytes) (rest : List Bytes) (idx : ℕ)
      → Is32 leaf
      → Is32 s
      → 0 < length s
      → All IsByte s
      → All Is32 rest
      → path_root leaf idx (flip_first s ∷ rest) ≡ path_root leaf idx (s ∷ rest)
      → PathsCollide leaf leaf idx (flip_first s ∷ rest) (s ∷ rest)
  unfolding path_root
  path_root-flip leaf s rest idx hl hs full bytes hr e =
      let s' = flip_first s in
      let hs' : Is32 s' = length-flip_first s ∙ hs in
      elim (path_root_binding (parent leaf s' idx) (parent leaf s idx) (idx / 2) rest rest
        (Is32-parent leaf s' idx) (Is32-parent leaf s idx) hr hr refl e) [
          | inl same ↦ elim (parent_binding leaf leaf s' s idx hl hs' hl hs same) [
            | inl both ↦ absurd (cc (eq-flip_first s full bytes, ap (eq s) both.1, eq_refl s))
            | inr c ↦ inl c
          ]
          | inr c ↦ inr c
        ]
