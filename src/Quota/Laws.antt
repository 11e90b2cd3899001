-- ===== src/Quota/Laws.antt =====
-- The laws of the field that the recovery of a secret uses.
use native.Mathlib.Nat.{mul_assoc}
use unknown.Base.{ℕ, ◌+◌, ◌-◌, ◌*◌, ◌%◌, ◌<◌, ◌≡◌, ap, sym, ◌∙◌, arith}
use unknown.Base.Modular.{mod-mul-mod, mul-mod-mod}
use unknown.Quota.{p, add, sub, mul}

pub mul_assoc_lem : (a b c : ℕ) → mul (mul a b) c ≡ mul a (mul b c)
unfolding mul
mul_assoc_lem a b c =
    mod-mul-mod p (a * b) c
    ∙ (ap (λ (t : ℕ). t % p) (mul_assoc a b c) ∙ sym (mul-mod-mod p a (b * c)))

pub mul-one : (a : ℕ) → a < p → mul a 1 ≡ a
unfolding mul
mul-one a h = omega arith

-- Subtraction of two reduced numbers wraps nowhere.
pub sub_lem : (a b : ℕ) → a < p → b < p → sub a b ≡ (a + p - b) % p
unfolding sub
sub_lem a b ha hb = omega arith

pub sub-add : (a b : ℕ) → a < p → b < p → sub (add a b) b ≡ a
unfolding add
sub-add a b ha hb = rw (sub_lem ((a + b) % p) b (omega arith) hb) (omega arith)

pub reduced_mul : (a b : ℕ) → mul a b < p
unfolding mul
reduced_mul a b = omega arith

pub reduced_add : (a b : ℕ) → add a b < p
unfolding add
reduced_add a b = omega arith

-- Two points of a line of slope `m` differ by `m` times the difference of their places.
pub sub-line :
    (s m x x' : ℕ) → x < p → x' < p → sub (add s (mul m x)) (add s (mul m x')) ≡ mul m (sub x x')
sub-line s m x x' hx hx' =
    rw
      (
        sub_lem (add s (mul m x)) (add s (mul m x')) (reduced_add s (mul m x))
            (reduced_add s (mul m x')),
        sub_lem x x' hx hx',
      )
      (unfold add mul in line s m x x' hx')
  where
    line :
        (s m x x' : ℕ)
        → x' < p
        → ((s + m * x % p) % p + p - (s + m * x' % p) % p) % p ≡ m * ((x + p - x') % p) % p
    line s m x x' h =
        let spread : m * (x + p - x') + m * x' ≡ m * x + m * p =
          times (x + p - x') x' x p (omega arith) in
        rw (mul-mod-mod p m (x + p - x')) (omega (arith, spread))
      where
        times : (a b c d : ℕ) → a + b ≡ c + d → m * a + m * b ≡ m * c + m * d
        times a b c d e = omega (arith, ap (λ (t : ℕ). m * t) e)
