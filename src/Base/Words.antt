-- ===== src/Base/Words.antt =====
-- Machine words: a `u64` or `u128` is a number, and arithmetic wraps as a release build does.
use Prim.Native.Nat.{ℕ, ◌+◌, ◌%◌, ◌^◌, ◌<◌}
use mathlib.Core.Path.{◌≡◌, sym, ap, ◌∙◌, subst}
use unknown.Base.Lists.{length, All}
use unknown.Base.Bytes.{
  Bytes, IsByte, le_bytes, from_le_bytes, from_le_bytes_lt, from_le_bytes-le_bytes,
}

abbrev pub IsU64 : ℕ → Type 0
IsU64 v = v < 2 ^ 64

-- `a + b` on `u64`.
abbrev pub add_u64 : ℕ → ℕ → ℕ
add_u64 a b = (a + b) % 2 ^ 64

-- `u64::to_le_bytes` loses nothing.
pub u64_bytes-injective : (v w : ℕ) → IsU64 v → IsU64 w → le_bytes 8 v ≡ le_bytes 8 w → v ≡ w
u64_bytes-injective v w hv hw e =
    sym (from_le_bytes-le_bytes 8 v hv) ∙ (ap from_le_bytes e ∙ from_le_bytes-le_bytes 8 w hw)

-- Eight bytes spell a `u64`.
pub from_le_bytes-IsU64 : (bs : Bytes) → length bs ≡ 8 → All IsByte bs → IsU64 (from_le_bytes bs)
from_le_bytes-IsU64 bs n h =
    let bound : from_le_bytes bs < 256 ^ 8 =
      subst (λ k. from_le_bytes bs < 256 ^ k) n (from_le_bytes_lt bs h) in
    bound
