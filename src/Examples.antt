-- ===== src/Examples.antt =====
-- A toy hash in the place of BLAKE3, test data, and the theorems at work on it.
pub mod Arithmetic
pub mod Hashing
pub mod Trees
pub mod Wire
pub mod Proofs
pub mod Ledgers
pub mod Rounds
pub mod Letters
pub mod Purses
pub mod Restarts
pub mod Knockouts
pub mod Devnet
pub mod Payments
pub mod Backing
use unknown.Base.{ℕ, ◌+◌, ◌*◌, ◌%◌, ◌^◌, String, Result, ok, List, [], ◌∷◌, replicate}
use unknown.Base.Bytes.{Bytes, le_bytes, length-le_bytes, IsByte-le_bytes}
use unknown.Primitives.{Blake3}
use unknown.Interfaces.{SpendVerifier}

-- A checksum.
abbrev pub mix : ℕ → Bytes → ℕ
mix acc [] = acc
mix acc (x ∷ xs) = mix ((acc * 257 + x + 1) % 2 ^ 61) xs

-- 32 bytes from the checksum of the input.
instance abbrev pub toy : Blake3
toy = record {
  digest = λ context input. le_bytes 32 (mix 0 input);
  length-digest = λ context input. length-le_bytes 32 (mix 0 input);
  IsByte-digest = λ context input. IsByte-le_bytes 32 (mix 0 input);
}

abbrev pub filled : ℕ → Bytes
filled x = replicate 32 x

-- A verifier that accepts every proof.
abbrev pub trusting : SpendVerifier
trusting = record { verify = λ pi proof. ok tt }
