-- ===== src/Tree/Levels.antt =====
-- One step up the tree: the parent of a node is the hash of the node and its sibling, in the order
-- that the lowest bit of the index says.
use Prim.Native.Nat.{bit_and, bit_xor}
use unknown.Base.{
  ℕ, zero, suc, ◌+◌, ◌-◌, ◌*◌, ◌/◌, ◌%◌, ◌<◌, ◌≡◌, refl, List, [], ◌∷◌, arith, length, get_or, ltb,
  ◌==◌, if◌then◌else◌,
}
use unknown.Base.Bytes.{Bytes}
use unknown.Base.Bits.{bit_and-one, bit_xor-one}
use unknown.Primitives.{Blake3}
use unknown.Tree.{next_level, node_hash, sibling_at}

pub length-next_level :
    (node : Bytes → Bytes → Bytes) (pad : Bytes) (level : List Bytes)
    → length (next_level node pad level) ≡ (length level + 1) / 2
unfolding next_level
length-next_level node pad [] = omega arith
length-next_level node pad (l ∷ []) = omega arith
length-next_level node pad (l ∷ r ∷ rest) = omega (arith, length-next_level node pad rest)

-- The partner of node `i` with the padding, by the parity of `i`.
abbrev partner : Bytes → List Bytes → ℕ → Bytes
partner pad level zero = get_or level 1 pad
partner pad level (suc zero) = get_or level 0 pad
partner pad [] (suc (suc i)) = pad
partner pad (l ∷ []) (suc (suc i)) = pad
partner pad (l ∷ r ∷ rest) (suc (suc i)) = partner pad rest i

get_or_default :
    (level : List Bytes) (i : ℕ) (pad : Bytes)
    → (if ltb i (length level) then get_or level i [] else pad) ≡ get_or level i pad
get_or_default [] i pad = ground arith
get_or_default (x ∷ level) zero pad = ground arith
get_or_default (x ∷ level) (suc i) pad = ground (arith, get_or_default level i pad)

abbrev flip_low : ℕ → ℕ
flip_low i = i / 2 * 2 + (1 - i % 2)

partner-get_or :
    (pad : Bytes) (level : List Bytes) (i : ℕ) → get_or level (flip_low i) pad ≡ partner pad level i
partner-get_or pad level zero = refl
partner-get_or pad level (suc zero) = refl
partner-get_or pad [] (suc (suc i)) = refl
partner-get_or pad (l ∷ []) (suc (suc i)) =
    let e : flip_low (suc (suc i)) ≡ suc (suc (flip_low i)) = omega arith in rw e refl
partner-get_or pad (l ∷ r ∷ rest) (suc (suc i)) =
    let e : flip_low (suc (suc i)) ≡ suc (suc (flip_low i)) = omega arith in
    rw e (partner-get_or pad rest i)

module _ ⦃b : Blake3⦄ where
  sibling_at-partner :
      (pad : Bytes) (level : List Bytes) (i : ℕ) → sibling_at pad level i ≡ partner pad level i
  unfolding sibling_at
  sibling_at-partner pad level i =
      rw (get_or_default level (bit_xor i 1) pad) (rw (bit_xor-one i) (partner-get_or pad level i))

  -- `path_root`'s step.
  abbrev pub parent : Bytes → Bytes → ℕ → Bytes
  parent cur sib idx = if bit_and idx 1 == 0 then node_hash cur sib else node_hash sib cur

  abbrev parent_by : Bytes → Bytes → ℕ → Bytes
  parent_by cur sib zero = node_hash cur sib
  parent_by cur sib (suc zero) = node_hash sib cur
  parent_by cur sib (suc (suc i)) = parent_by cur sib i

  parent-parent_by : (cur sib : Bytes) (i : ℕ) → parent cur sib i ≡ parent_by cur sib i
  parent-parent_by cur sib zero = refl
  parent-parent_by cur sib (suc zero) = refl
  parent-parent_by cur sib (suc (suc i)) =
      let e : bit_and (suc (suc i)) 1 ≡ bit_and i 1 =
        omega (arith, bit_and-one (suc (suc i)), bit_and-one i) in
      rw e (parent-parent_by cur sib i)

  next_level-parent_by :
      (pad : Bytes) (level : List Bytes) (i : ℕ)
      → i < length level
      → get_or (next_level node_hash pad level) (i / 2) []
        ≡ parent_by (get_or level i []) (partner pad level i) i
  unfolding next_level
  next_level-parent_by pad [] i h = absurd (omega arith)
  next_level-parent_by pad (l ∷ []) zero h = refl
  next_level-parent_by pad (l ∷ []) (suc i) h = absurd (omega arith)
  next_level-parent_by pad (l ∷ r ∷ rest) zero h = refl
  next_level-parent_by pad (l ∷ r ∷ rest) (suc zero) h = refl
  next_level-parent_by pad (l ∷ r ∷ rest) (suc (suc i)) h =
      let e : suc (suc i) / 2 ≡ suc (i / 2) = omega arith in
      rw e (next_level-parent_by pad rest i (omega arith))

  pub get-next_level :
      (pad : Bytes) (level : List Bytes) (i : ℕ)
      → i < length level
      → get_or (next_level node_hash pad level) (i / 2) []
        ≡ parent (get_or level i []) (sibling_at pad level i) i
  get-next_level pad level i h = rw (sibling_at-partner pad level i) (
      rw (parent-parent_by (get_or level i []) (partner pad level i) i)
        (next_level-parent_by pad level i h))

  -- The levels with their padding: beyond its end a level holds the root of the empty subtree.
  parent_by-same : (x : Bytes) (i : ℕ) → node_hash x x ≡ parent_by x x i
  parent_by-same x zero = refl
  parent_by-same x (suc zero) = refl
  parent_by-same x (suc (suc i)) = parent_by-same x i

  padded-parent_by :
      (pad : Bytes) (level : List Bytes) (i : ℕ)
      → get_or (next_level node_hash pad level) (i / 2) (node_hash pad pad)
        ≡ parent_by (get_or level i pad) (partner pad level i) i
  unfolding next_level
  padded-parent_by pad [] zero = refl
  padded-parent_by pad [] (suc zero) = refl
  padded-parent_by pad [] (suc (suc i)) = parent_by-same pad i
  padded-parent_by pad (l ∷ []) zero = refl
  padded-parent_by pad (l ∷ []) (suc zero) = refl
  padded-parent_by pad (l ∷ []) (suc (suc i)) =
      let e : suc (suc i) / 2 ≡ suc (i / 2) = omega arith in rw e (parent_by-same pad i)
  padded-parent_by pad (l ∷ r ∷ rest) zero = refl
  padded-parent_by pad (l ∷ r ∷ rest) (suc zero) = refl
  padded-parent_by pad (l ∷ r ∷ rest) (suc (suc i)) =
      let e : suc (suc i) / 2 ≡ suc (i / 2) = omega arith in rw e (padded-parent_by pad rest i)

  pub get-next_level_padded :
      (pad : Bytes) (level : List Bytes) (i : ℕ)
      → get_or (next_level node_hash pad level) (i / 2) (node_hash pad pad)
        ≡ parent (get_or level i pad) (sibling_at pad level i) i
  get-next_level_padded pad level i = rw (sibling_at-partner pad level i) (
      rw (parent-parent_by (get_or level i pad) (partner pad level i) i)
        (padded-parent_by pad level i))
