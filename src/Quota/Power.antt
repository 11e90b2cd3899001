-- ===== src/Quota/Power.antt =====
-- `pow` and exponentiation modulo P.
use native.Mathlib.Nat.{pow-suc, mul_assoc, mul_comm, pow-zero}
use Prim.Native.Nat.{bit_and}
use unknown.Base.{
  ℕ, zero, suc, ◌+◌, ◌-◌, ◌*◌, ◌/◌, ◌%◌, ◌^◌, ◌<◌, ◌≡◌, ap, sym, ◌∙◌, arith, ◌==◌, Bool-cases, inl,
  inr,
}
use unknown.Base.Modular.{mod-mul-mod, mul-mod-mod}
use unknown.Base.Bits.{bit_and-one}
use unknown.Quota.{p, reduce, mul, pow_loop, pow, inv}

square_pow : (b n : ℕ) → (b * b) ^ n ≡ b ^ (n + n)
square_pow b zero = pow-zero (b * b) ∙ sym (pow-zero b)
square_pow b (suc n) =
    let e : suc n + suc n ≡ suc (suc (n + n)) = omega arith in
    rw e
      (grind (arith, pow-suc (b * b) n, pow-suc b (suc (n + n)), pow-suc b (n + n), square_pow b n))

pow-mod : (b n : ℕ) → (b % p) ^ n % p ≡ b ^ n % p
pow-mod b zero = ap (λ (t : ℕ). t % p) (pow-zero (b % p) ∙ sym (pow-zero b))
pow-mod b (suc n) =
    ap (λ (t : ℕ). t % p) (pow-suc (b % p) n)
    ∙ (mul-mod-mod p ((b % p) ^ n) b
        ∙ (sym (mod-mul-mod p ((b % p) ^ n) b)
            ∙ (ap (λ (t : ℕ). t * b % p) (pow-mod b n)
                ∙ (mod-mul-mod p (b ^ n) b ∙ ap (λ (t : ℕ). t % p) (sym (pow-suc b n))))))

-- A factor may be reduced before it is raised.
times_pow-mod : (x b n : ℕ) → x * (b % p) ^ n % p ≡ x * b ^ n % p
times_pow-mod x b n =
    sym (mul-mod-mod p x ((b % p) ^ n))
    ∙ (ap (λ (t : ℕ). x * t % p) (pow-mod b n) ∙ mul-mod-mod p x (b ^ n))

even_step :
    (acc base half : ℕ) → acc * (base * base % p) ^ half % p ≡ acc * base ^ (half + half) % p
even_step acc base half =
    times_pow-mod acc (base * base) half ∙ ap (λ (t : ℕ). acc * t % p) (square_pow base half)

odd_step :
    (acc base half : ℕ)
    → (acc * base % p) * (base * base % p) ^ half % p ≡ acc * base ^ suc (half + half) % p
odd_step acc base half =
    even_step (acc * base % p) base half
    ∙ (mod-mul-mod p (acc * base) (base ^ (half + half))
        ∙ ap (λ (t : ℕ). t % p)
            (mul_assoc acc base (base ^ (half + half))
              ∙ ap (λ (t : ℕ). acc * t)
                  (mul_comm base (base ^ (half + half)) ∙ sym (pow-suc base (half + half)))))

done : (acc base exp : ℕ) → acc < p → exp ≡ 0 → acc ≡ acc * base ^ exp % p
done acc base exp small e = sym (
    ap (λ (n : ℕ). acc * base ^ n % p) e
    ∙ (ap (λ (t : ℕ). acc * t % p) (pow-zero base) ∙ times_one acc small))
  where
    times_one : (a : ℕ) → a < p → a * 1 % p ≡ a
    times_one a h = omega arith

-- Enough fuel for the exponent gives the power.
pub pow_loop_lem :
    (fuel acc base exp : ℕ)
    → acc < p
    → exp < 2 ^ fuel
    → pow_loop fuel acc base exp ≡ acc * base ^ exp % p
unfolding pow_loop mul reduce
pow_loop_lem zero acc base exp small enough = done acc base exp small (omega arith)
pow_loop_lem (suc fuel) acc base exp small enough = elim (Bool-cases (exp == 0)) [
  | inl ended ↦ rw (ended, pow_loop) (done acc base exp small (ground arith))
  | inr more ↦
      rw (more, pow_loop)
        (elim (Bool-cases (bit_and exp 1 == 1)) [
          | inl odd ↦
              let shape : exp ≡ suc (exp / 2 + exp / 2) = ground (arith, bit_and-one exp) in
              rw odd (
                pow_loop_lem fuel (acc * base % p) (base * base % p) (exp / 2) (omega arith) halved
                ∙ (odd_step acc base (exp / 2) ∙ ap (λ (n : ℕ). acc * base ^ n % p) (sym shape)))
          | inr even ↦
              let shape : exp ≡ exp / 2 + exp / 2 = ground (arith, bit_and-one exp) in
              rw even (
                pow_loop_lem fuel acc (base * base % p) (exp / 2) small halved
                ∙ (even_step acc base (exp / 2) ∙ ap (λ (n : ℕ). acc * base ^ n % p) (sym shape)))
        ])
]
  where
    halved : exp / 2 < 2 ^ fuel
    halved = omega (arith, pow-suc 2 fuel)

-- For an exponent of 64 bits, `pow` is the power modulo P: its 64 rounds are enough.
pub pow_lem : (base exp : ℕ) → exp < 2 ^ 64 → pow base exp ≡ base ^ exp % p
unfolding pow
pow_lem base exp h =
    pow_loop_lem 64 1 (base % p) exp (omega arith) h
    ∙ (times_pow-mod 1 base exp ∙ one_times (base ^ exp))
  where
    one_times : (t : ℕ) → 1 * t % p ≡ t % p
    one_times t = omega arith

-- `inv` is the power P - 2.
pub inv_lem : (a : ℕ) → inv a ≡ a ^ (p - 2) % p
unfolding inv
inv_lem a = pow_lem a (p - 2) (omega arith)
