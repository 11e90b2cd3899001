-- ===== src/Pow.antt =====
-- crates/antispam-pow/src/lib.rs: the proof-of-work lane. The `loop` of `solve` takes fuel; 2^64
-- rounds try every nonce.
pub mod Target
pub mod Solve
use unknown.Base.{
  ℕ, zero, suc, ◌+◌, ◌%◌, ◌^◌, Bool, true, false, Option, none, some, List, [], ◌∷◌, ltb, leb, ◌==◌,
  if◌then◌else◌,
}
use unknown.Base.Bytes.{Bytes, le_bytes, from_le_bytes}
use unknown.Base.Words.{add_u64}
use unknown.Primitives.{Blake3, hash_parts, pow_context}

abbrev pub default_difficulty_bits : ℕ
default_difficulty_bits = 8

pub record PowSolution : Type 0 where
  pub nonce : ℕ

-- `PowSolution::to_bytes` and `PowSolution::from_bytes`.
abbrev pub to_bytes : PowSolution → Bytes
to_bytes s = le_bytes 8 s.nonce

abbrev pub from_bytes : Bytes → PowSolution
from_bytes b = record { nonce = from_le_bytes b }

-- `u8::leading_zeros` of a byte.
unfoldable pub leading_zeros : ℕ → ℕ
leading_zeros byte =
    if ltb byte 1
    then 8
    else if ltb byte 2
    then 7
    else if ltb byte 4
    then 6
    else if ltb byte 8
    then 5
    else if ltb byte 16
    then 4
    else if ltb byte 32
    then 3
    else if ltb byte 64
    then 2
    else if ltb byte 128
    then 1
    else 0

unfoldable pub leading_zero_bits : Bytes → ℕ
unfolding leading_zeros
leading_zero_bits [] = 0
leading_zero_bits (byte ∷ rest) =
    let more = 8 + leading_zero_bits rest in if byte == 0 then more else leading_zeros byte

module _ ⦃b : Blake3⦄ where
  unfoldable pub pow_hash : Bytes → ℕ → Bytes
  pow_hash challenge nonce = hash_parts pow_context (challenge ∷ le_bytes 8 nonce ∷ [])

  unfoldable pub verify : Bytes → PowSolution → ℕ → Bool
  verify challenge solution difficulty_bits =
      leb difficulty_bits (leading_zero_bits (pow_hash challenge solution.nonce))

  -- The loop from `nonce` on.
  unfoldable pub solve_loop : ℕ → Bytes → ℕ → ℕ → Option PowSolution
  solve_loop zero challenge difficulty_bits nonce = none
  solve_loop (suc fuel) challenge difficulty_bits nonce =
      elim (leb difficulty_bits (leading_zero_bits (pow_hash challenge nonce))) [
        | true ↦ some (record { nonce = nonce })
        | false ↦ solve_loop fuel challenge difficulty_bits (add_u64 nonce 1)
      ]

  unfoldable pub solve : Bytes → ℕ → Option PowSolution
  unfolding solve_loop
  solve challenge difficulty_bits = solve_loop (2 ^ 64) challenge difficulty_bits 0
