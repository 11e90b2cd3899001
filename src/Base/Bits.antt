-- ===== src/Base/Bits.antt =====
-- The lowest bit of a word at variables: `x & 1` and `x ^ 1`.
use Prim.Native.Nat.{
  ℕ, zero, suc, ◌+◌, ◌-◌, ◌*◌, ◌/◌, ◌%◌, ◌≤◌, min, bit_and, bit_xor, digits, differ,
  bit_and-bitwise, bit_xor-bitwise,
}
use mathlib.Core.Path.{◌≡◌, refl}
use native.Mathlib.Omega.{arith}

-- With a zero second number the digits come back.
xor_zero_fuel : (n a : ℕ) → a ≤ n → digits (λ b. b) differ n a 0 ≡ a
xor_zero_fuel zero zero h = refl
xor_zero_fuel (suc n) zero h = refl
xor_zero_fuel zero (suc a) h = absurd (omega arith)
xor_zero_fuel (suc n) (suc a) h =
    let ih = xor_zero_fuel n (suc a / 2) (omega arith) in
    let low : differ (suc a % 2) 0 ≡ suc a % 2 = differ-zero (suc a % 2) in omega (arith, ih, low)
  where
    differ-zero : (x : ℕ) → differ x 0 ≡ x
    differ-zero zero = refl
    differ-zero (suc x) = refl

and_zero_fuel : (n a : ℕ) → a ≤ n → digits (λ b. 0) min n a 0 ≡ 0
and_zero_fuel zero zero h = refl
and_zero_fuel (suc n) zero h = refl
and_zero_fuel zero (suc a) h = absurd (omega arith)
and_zero_fuel (suc n) (suc a) h = omega (arith, and_zero_fuel n (suc a / 2) (omega arith))

pub bit_and-one : (a : ℕ) → bit_and a 1 ≡ a % 2
bit_and-one zero = refl
bit_and-one (suc a) =
    omega (arith, bit_and-bitwise (suc a) 1, and_zero_fuel a (suc a / 2) (omega arith))

differ-one : (x : ℕ) → x ≤ 1 → differ x 1 ≡ 1 - x
differ-one zero h = refl
differ-one (suc zero) h = refl
differ-one (suc (suc x)) h = absurd (omega arith)

pub bit_xor-one : (a : ℕ) → bit_xor a 1 ≡ a / 2 * 2 + (1 - a % 2)
bit_xor-one zero = refl
bit_xor-one (suc a) = omega (
  arith,
  bit_xor-bitwise (suc a) 1,
  xor_zero_fuel a (suc a / 2) (omega arith),
  differ-one (suc a % 2) (omega arith),
)
