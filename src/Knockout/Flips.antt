-- ===== src/Knockout/Flips.antt =====
-- A byte string with its first byte complemented.
use Prim.Native.Nat.{bit_xor}
use unknown.Base.{
  ℕ, zero, suc, ◌<◌, ◌≡◌, refl, arith, Bool, true, false, not, ◌&&◌, [], ◌∷◌, length, All, ◌==◌,
  ltb, ltb→lt, and→both,
}
use unknown.Base.Bytes.{Bytes, IsByte, eq}
use unknown.Knockout.{flip_first}

-- A test of every number below a bound.
all_below : ℕ → (ℕ → Bool) → Bool
all_below zero test = true
all_below (suc n) test = test n && all_below n test

all_below_sound :
    (n : ℕ) (test : ℕ → Bool) (x : ℕ) → all_below n test ≡ true → x < n → test x ≡ true
unfolding all_below
all_below_sound zero test x h lt = absurd (omega arith)
all_below_sound (suc n) test x h lt = ground (arith, all_below_sound n test x)

abbrev complement_differs : ℕ → Bool
complement_differs x = not (x == bit_xor x 0xFF) && ltb (bit_xor x 0xFF) 256

complement_table : all_below 256 complement_differs ≡ true
unfolding all_below
complement_table = refl

complement : (x : ℕ) → IsByte x → ((x == bit_xor x 0xFF) ≡ false) × (bit_xor x 0xFF < 256)
complement x h =
    let (differs, byte) =
      and→both (not (x == bit_xor x 0xFF)) (ltb (bit_xor x 0xFF) 256)
        (all_below_sound 256 complement_differs x complement_table h) in
    (not-true (x == bit_xor x 0xFF) differs, ltb→lt (bit_xor x 0xFF) 256 byte)
  where
    not-true : (t : Bool) → not t ≡ true → t ≡ false
    not-true true e = cc
    not-true false e = refl

pub eq-flip_first : (bs : Bytes) → 0 < length bs → All IsByte bs → eq bs (flip_first bs) ≡ false
eq-flip_first [] h k = absurd (omega arith)
eq-flip_first (x ∷ xs) h k = rw ((complement x k.0).0) refl

pub eq-flip_first_left :
    (bs : Bytes) → 0 < length bs → All IsByte bs → eq (flip_first bs) bs ≡ false
eq-flip_first_left [] h k = absurd (omega arith)
eq-flip_first_left (x ∷ xs) h k =
    let differs : (bit_xor x 0xFF == x) ≡ false = ground (arith, (complement x k.0).0) in
    rw differs refl

pub length-flip_first : (bs : Bytes) → length (flip_first bs) ≡ length bs
length-flip_first [] = refl
length-flip_first (x ∷ xs) = refl
