-- ===== src/Quota/Field.antt =====
-- `mod field`: arithmetic modulo the Mersenne prime 2^61 - 1 on `u64`, through `u128`.
use Prim.Native.Nat.{bit_and}
use unknown.Base.{ℕ, zero, suc, ◌+◌, ◌-◌, ◌*◌, ◌/◌, ◌%◌, ◌^◌, true, false, ◌==◌, if◌then◌else◌}

abbrev pub p : ℕ
p = 2 ^ 61 - 1

unfoldable pub reduce : ℕ → ℕ
reduce x = x % p

unfoldable pub add : ℕ → ℕ → ℕ
add a b = (a + b) % p

-- The difference is taken in `u128`, where it wraps if `b` exceeds `a + P`.
unfoldable pub sub : ℕ → ℕ → ℕ
sub a b = (a + p + 2 ^ 128 - b) % 2 ^ 128 % p

unfoldable pub mul : ℕ → ℕ → ℕ
unfolding reduce
mul a b = reduce (a * b)

-- The `while exp > 0` of `pow`: an exponent of 64 bits is halved 64 times at most.
unfoldable pub pow_loop : ℕ → ℕ → ℕ → ℕ → ℕ
pow_loop zero acc base exp = acc
pow_loop (suc fuel) acc base exp = elim (exp == 0) [
  | true ↦ acc
  | false ↦
      pow_loop fuel (if bit_and exp 1 == 1 then mul acc base else acc) (mul base base) (exp / 2)
]

unfoldable pub pow : ℕ → ℕ → ℕ
unfolding pow_loop mul
pow base exp = pow_loop 64 1 (base % p) exp

unfoldable pub inv : ℕ → ℕ
unfolding pow
inv a = pow a (p - 2)
