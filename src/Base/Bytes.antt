-- ===== src/Base/Bytes.antt =====
-- Byte strings as lists of numbers: Rust's `[u8; n]`, `Vec<u8>` and `&[u8]`, with the equality
-- and the lexicographic order that Rust derives for them, and `to_le_bytes` of the integers.
use Prim.Native.Nat.{ℕ, zero, suc, ◌+◌, ◌*◌, ◌/◌, ◌%◌, ◌^◌, ◌<◌}
use mathlib.Core.Path.{◌≡◌, refl, ap}
use mathlib.Core.Logic.{◌↔◌, ◌≢◌, inl, inr}
use mathlib.Core.Bool.{Bool, true, false, ◌&&◌, ◌||◌}
use mathlib.Core.List.{List, [], ◌∷◌}
use native.Mathlib.Nat.{pow-suc}
use native.Mathlib.Omega.{arith}
use unknown.Base.Tests.{ltb, ◌==◌, Bool-cases}
use unknown.Base.Lists.{length, All}

abbrev pub Bytes : Type 0
Bytes = List ℕ

abbrev pub IsByte : ℕ → Type 0
IsByte b = b < 256

abbrev pub eq : Bytes → Bytes → Bool
eq [] [] = true
eq [] (b ∷ bs) = false
eq (a ∷ as') [] = false
eq (a ∷ as') (b ∷ bs) = a == b && eq as' bs

abbrev pub lt : Bytes → Bytes → Bool
lt [] [] = false
lt [] (b ∷ bs) = true
lt (a ∷ as') [] = false
lt (a ∷ as') (b ∷ bs) = ltb a b || (a == b && lt as' bs)

pub eq→≡ : (a b : Bytes) → eq a b ≡ true → a ≡ b
eq→≡ [] [] h = refl
eq→≡ [] (b ∷ bs) h = cc
eq→≡ (a ∷ as') [] h = cc
eq→≡ (a ∷ as') (b ∷ bs) h = ground (arith, eq→≡ as' bs)

pub eq_refl : (a : Bytes) → eq a a ≡ true
eq_refl [] = refl
eq_refl (a ∷ as') = ground (arith, eq_refl as')

pub eq_iff : (a b : Bytes) → (eq a b ≡ true) ↔ (a ≡ b)
eq_iff a b = (eq→≡ a b, λ e. rw e (eq_refl b))

pub eq-ne : (a b : Bytes) → a ≢ b → eq a b ≡ false
eq-ne a b differ = elim (Bool-cases (eq a b)) [
  | inl same ↦ absurd (differ (eq→≡ a b same))
  | inr other ↦ other
]

pub lt_irrefl : (a : Bytes) → lt a a ≡ false
lt_irrefl [] = refl
lt_irrefl (a ∷ as') = ground (arith, lt_irrefl as')

pub lt_trans : (a b c : Bytes) → lt a b ≡ true → lt b c ≡ true → lt a c ≡ true
lt_trans [] [] c h k = cc
lt_trans [] (b ∷ bs) [] h k = cc
lt_trans [] (b ∷ bs) (c ∷ cs) h k = refl
lt_trans (a ∷ as') [] c h k = cc
lt_trans (a ∷ as') (b ∷ bs) [] h k = cc
lt_trans (a ∷ as') (b ∷ bs) (c ∷ cs) h k = ground (arith, lt_trans as' bs cs)

pub lt_asym : (x y : Bytes) → lt x y ≡ true → lt y x ≡ false
lt_asym [] (y ∷ ys) h = refl
lt_asym [] [] h = cc
lt_asym (x ∷ xs) [] h = cc
lt_asym (x ∷ xs) (y ∷ ys) h = ground (arith, lt_asym xs ys)

pub lt_total : (a b : Bytes) → lt a b ≡ false → lt b a ≡ false → a ≡ b
lt_total [] [] h k = refl
lt_total [] (b ∷ bs) h k = cc
lt_total (a ∷ as') [] h k = cc
lt_total (a ∷ as') (b ∷ bs) h k = ground (arith, lt_total as' bs)

-- The `n` bytes of `v`, the lowest first.
abbrev pub le_bytes : ℕ → ℕ → Bytes
le_bytes zero v = []
le_bytes (suc n) v = v % 256 ∷ le_bytes n (v / 256)

abbrev pub from_le_bytes : Bytes → ℕ
from_le_bytes [] = 0
from_le_bytes (b ∷ bs) = b + 256 * from_le_bytes bs

pub length-le_bytes : (n v : ℕ) → length (le_bytes n v) ≡ n
length-le_bytes zero v = refl
length-le_bytes (suc n) v = ap suc (length-le_bytes n (v / 256))

pub IsByte-le_bytes : (n v : ℕ) → All IsByte (le_bytes n v)
IsByte-le_bytes zero v = tt
IsByte-le_bytes (suc n) v = (omega arith, IsByte-le_bytes n (v / 256))

pub from_le_bytes-le_bytes : (n v : ℕ) → v < 256 ^ n → from_le_bytes (le_bytes n v) ≡ v
from_le_bytes-le_bytes zero v h = omega arith
from_le_bytes-le_bytes (suc n) v h =
    omega (arith, pow-suc 256 n, from_le_bytes-le_bytes n (v / 256) (omega (arith, pow-suc 256 n)))

-- The number that bytes spell is below the power of their count.
pub from_le_bytes_lt : (bs : Bytes) → All IsByte bs → from_le_bytes bs < 256 ^ length bs
from_le_bytes_lt [] h = omega arith
from_le_bytes_lt (x ∷ bs) h = omega (arith, h, pow-suc 256 (length bs), from_le_bytes_lt bs h.1)

pub le_bytes-from_le_bytes :
    (bs : Bytes) → All IsByte bs → le_bytes (length bs) (from_le_bytes bs) ≡ bs
le_bytes-from_le_bytes [] h = refl
le_bytes-from_le_bytes (b ∷ bs) h =
    let tail : ℕ = from_le_bytes bs in
    let quotient : (b + 256 * tail) / 256 ≡ tail = omega arith in
    let digit : (b + 256 * tail) % 256 ≡ b = omega arith in
    rw (digit, quotient) (ap (◌∷◌ b) (le_bytes-from_le_bytes bs h.1))

pub le_bytes_of :
    (n : ℕ) (bs : Bytes) → length bs ≡ n → All IsByte bs → le_bytes n (from_le_bytes bs) ≡ bs
le_bytes_of n bs e h = rw (← e) (le_bytes-from_le_bytes bs h)
