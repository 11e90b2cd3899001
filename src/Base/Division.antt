-- ===== src/Base/Division.antt =====
-- Monotonicity of division, which the tactics do not have at a variable divisor.
use Prim.Native.Nat.{ℕ, zero, suc, ◌+◌, ◌*◌, ◌/◌, ◌≤◌, ◌<◌}
use native.Mathlib.Nat.{div-lt_iff_lt-mul, lt-mul-div-succ, div-zero, mul_comm}
use native.Mathlib.Omega.{arith}

pub div_mono : (k a b : ℕ) → a ≤ b → a / k ≤ b / k
div_mono zero a b h = omega (arith, div-zero a, div-zero b)
div_mono (suc k) a b h =
    let above : b < suc k * (b / suc k + 1) = lt-mul-div-succ b (omega arith) in
    let below : a < (b / suc k + 1) * suc k =
      omega (arith, above, mul_comm (suc k) (b / suc k + 1)) in
    let q : a / suc k < b / suc k + 1 =
      (div-lt_iff_lt-mul {k = suc k} {x = a} {y = b / suc k + 1} (omega arith)).1 below in
    omega (arith, q)
