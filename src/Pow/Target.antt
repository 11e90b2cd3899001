-- ===== src/Pow/Target.antt =====
-- The difficulty as a numeric target: a hash read as a number, its first byte the highest.
use native.Mathlib.Nat.{pow-suc, pow-le-pow_right, mul-le-mul_right, mul-le-mul_left, mul_left_comm}
use unknown.Base.Powers.{pow-add, pow-pos}
use unknown.Base.{
  ℕ, zero, suc, ◌+◌, ◌-◌, ◌*◌, ◌^◌, ◌≤◌, ◌<◌, ◌≡◌, ◌↔◌, ap, ◌∙◌, arith, [], ◌∷◌, length, All, leb,
  ◌==◌, Bool-cases, inl, inr, tests, leb→le, leb-false→lt,
}
use unknown.Base.Bytes.{Bytes, IsByte}
use unknown.Pow.{leading_zeros, leading_zero_bits}

-- The number that the bits spell.
abbrev pub big_endian : Bytes → ℕ
big_endian [] = 0
big_endian (byte ∷ rest) = byte * 256 ^ length rest + big_endian rest

big_endian-lt : (bs : Bytes) → All IsByte bs → big_endian bs < 256 ^ length bs
big_endian-lt [] h = omega arith
big_endian-lt (byte ∷ rest) h =
    let room : (byte + 1) * 256 ^ length rest ≤ 256 * 256 ^ length rest = grind arith in
    omega (arith, room, pow-suc 256 (length rest), big_endian-lt rest h.1)

leading_zeros-le : (byte : ℕ) → 0 < byte → leading_zeros byte ≤ 7
unfolding leading_zeros
leading_zeros-le byte pos = ground arith

-- A byte with `d` leading zeros fits 2^-d of the range, and one with fewer does not reach into it.
zeros_fit : (byte d : ℕ) → 0 < byte → byte < 256 → d ≤ leading_zeros byte → (byte + 1) * 2 ^ d ≤ 256
unfolding leading_zeros
zeros_fit byte zero pos small h = omega arith
zeros_fit byte (suc zero) pos small h = ground arith
zeros_fit byte (suc (suc zero)) pos small h = ground arith
zeros_fit byte (suc (suc (suc zero))) pos small h = ground arith
zeros_fit byte (suc (suc (suc (suc zero)))) pos small h = ground arith
zeros_fit byte (suc (suc (suc (suc (suc zero))))) pos small h = ground arith
zeros_fit byte (suc (suc (suc (suc (suc (suc zero)))))) pos small h = ground arith
zeros_fit byte (suc (suc (suc (suc (suc (suc (suc zero))))))) pos small h = ground arith
zeros_fit byte (suc (suc (suc (suc (suc (suc (suc (suc d)))))))) pos small h =
    absurd (omega (arith, leading_zeros-le byte pos))

zeros_lack : (byte d : ℕ) → 0 < byte → leading_zeros byte < d → 256 ≤ byte * 2 ^ d
unfolding leading_zeros
zeros_lack byte zero pos h = absurd (omega arith)
zeros_lack byte (suc zero) pos h = ground arith
zeros_lack byte (suc (suc zero)) pos h = ground arith
zeros_lack byte (suc (suc (suc zero))) pos h = ground arith
zeros_lack byte (suc (suc (suc (suc zero)))) pos h = ground arith
zeros_lack byte (suc (suc (suc (suc (suc zero))))) pos h = ground arith
zeros_lack byte (suc (suc (suc (suc (suc (suc zero)))))) pos h = ground arith
zeros_lack byte (suc (suc (suc (suc (suc (suc (suc zero))))))) pos h = ground arith
zeros_lack byte (suc (suc (suc (suc (suc (suc (suc (suc d)))))))) pos h =
    let high : 2 ^ 8 ≤ 2 ^ (suc (suc (suc (suc (suc (suc (suc (suc d)))))))) =
      pow-le-pow_right {n = 2} (omega arith) {i = 8} (omega arith) in
    let once : 2 ^ (suc (suc (suc (suc (suc (suc (suc (suc d))))))))
        ≤ byte * 2 ^ (suc (suc (suc (suc (suc (suc (suc (suc d)))))))) =
      at_least byte _ pos in
    omega (arith, high, once)
  where
    at_least : (b t : ℕ) → 0 < b → t ≤ b * t
    at_least (suc b) t h = omega arith
    at_least zero t h = absurd (omega arith)

below_target :
    (byte n r d : ℕ) → r < n → (byte + 1) * d ≤ 256 → 0 < d → (byte * n + r) * d < 256 * n
below_target byte n r d hr h pos =
    let whole : (byte * n + r) * d + d ≤ (byte + 1) * n * d =
      omega (arith, mul-le-mul_right {m = byte * n + r + 1} {n = (byte + 1) * n} d (omega arith)) in
    let scaled : (byte + 1) * n * d ≤ 256 * n =
      omega (arith, mul-le-mul_right {m = (byte + 1) * d} {n = 256} n h) in
    omega (arith, whole, scaled)

above_target : (byte n r d : ℕ) → 256 ≤ byte * d → 256 * n ≤ (byte * n + r) * d
above_target byte n r d h = omega (arith, mul-le-mul_right {m = 256} {n = byte * d} n h)

-- A zero byte in front: eight bits more, and the rest decides.
zero_head :
    (r n count len d : ℕ)
    → r < n
    → ((e : ℕ) → e ≤ 8 * len → (e ≤ count) ↔ (r * 2 ^ e < n))
    → d ≤ 8 * suc len
    → (d ≤ 8 + count) ↔ ((0 * n + r) * 2 ^ d < n * 256)
zero_head r n count len d lt ih room = elim (Bool-cases (leb d 8)) [
  | inl few ↦
      let small : 2 ^ d ≤ 2 ^ 8 =
        pow-le-pow_right {n = 2} (omega arith) {i = d} {j = 8} (omega tests) in
      let bound : r * 2 ^ d ≤ r * 256 = mul-le-mul_left r small in
      ((λ _. omega (arith, bound)), (λ _. omega tests))
  | inr many ↦
      let shape : d ≡ 8 + (d - 8) = omega tests in
      let power : 2 ^ d ≡ 256 * 2 ^ (d - 8) = ap (λ (t : ℕ). 2 ^ t) shape ∙ pow-add 8 (d - 8) in
      let scaled : r * 2 ^ d ≡ 256 * (r * 2 ^ (d - 8)) =
        rw power (mul_left_comm r 256 (2 ^ (d - 8))) in
      let rest = ih (d - 8) (omega arith) in
      (
        (λ le. let below = rest.0 (omega arith) in omega (arith, scaled, below)),
        (λ lt'. let enough = rest.1 (omega (arith, scaled)) in omega (arith, shape, enough)),
      )
]

-- Any other byte in front decides.
other_head :
    (byte r n d : ℕ)
    → r < n
    → 0 < byte
    → byte < 256
    → (d ≤ leading_zeros byte) ↔ ((byte * n + r) * 2 ^ d < n * 256)
other_head byte r n d lt pos small = elim (Bool-cases (leb d (leading_zeros byte))) [
  | inl fits ↦
      let below =
        below_target byte n r (2 ^ d) lt
          (zeros_fit byte d pos small (leb→le d (leading_zeros byte) fits)) (pow-pos d) in
      ((λ _. omega (arith, below)), (λ _. omega tests))
  | inr lacks ↦
      let above =
        above_target byte n r (2 ^ d)
          (zeros_lack byte d pos (leb-false→lt d (leading_zeros byte) lacks)) in
      ((λ le. absurd (omega tests)), (λ lt'. absurd (omega (arith, above))))
]

-- A hash meets a difficulty of `d` bits, `d` not above its length in bits, exactly if the number
-- that it spells, times 2^d, stays below the number of hashes.
pub leading_zero_bits_target :
    (bs : Bytes) (d : ℕ)
    → All IsByte bs
    → d ≤ 8 * length bs
    → (d ≤ leading_zero_bits bs) ↔ (big_endian bs * 2 ^ d < 256 ^ length bs)
unfolding leading_zero_bits
leading_zero_bits_target [] d h room = ((λ _. omega arith), (λ _. room))
leading_zero_bits_target (byte ∷ rest) d h room =
    let n : ℕ = 256 ^ length rest in
    let r : ℕ = big_endian rest in
    rw (pow-suc 256 (length rest)) (elim (Bool-cases (byte == 0)) [
      | inl none_set ↦
          let e : byte ≡ 0 = ground arith in
          rw (none_set, e)
            (zero_head r n (leading_zero_bits rest) (length rest) d (big_endian-lt rest h.1)
              (λ e. leading_zero_bits_target rest e h.1) room)
      | inr some_set ↦
          rw some_set (other_head byte r n d (big_endian-lt rest h.1) (ground arith) h.0)
    ])
