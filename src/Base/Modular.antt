-- ===== src/Base/Modular.antt =====
-- Multiplication and remainders.
use Prim.Native.Nat.{ℕ, ◌+◌, ◌*◌, ◌/◌, ◌%◌}
use mathlib.Core.Path.{◌≡◌, ap, sym, ◌∙◌}
use native.Mathlib.Nat.{div-add-mod, mul-add-mod_self_left, mul_comm, mul_assoc}
use native.Mathlib.Omega.{arith}

pub mod-mul-mod : (n a b : ℕ) → a % n * b % n ≡ a * b % n
mod-mul-mod n a b =
    let parts : a * b ≡ n * (a / n * b) + a % n * b =
      omega (arith, ap (λ (t : ℕ). t * b) (div-add-mod a n), mul_assoc n (a / n) b) in
    sym (ap (λ (t : ℕ). t % n) parts ∙ mul-add-mod_self_left n (a / n * b) (a % n * b))

pub mul-mod-mod : (n a b : ℕ) → a * (b % n) % n ≡ a * b % n
mul-mod-mod n a b =
    ap (λ (t : ℕ). t % n) (mul_comm a (b % n))
    ∙ (mod-mul-mod n b a ∙ ap (λ (t : ℕ). t % n) (mul_comm b a))
