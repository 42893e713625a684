-- ===== src/Prelude/Bits.antt =====
-- The option byte of a message: a bit for each optional field.
use Prim.Native.Nat.{ℕ, bit_and, bit_or}
use mathlib.Core.Bool.{Bool, not}
use fdbus.Prelude.Tests.{◌==◌}

-- `!!(options & mask)`
unfoldable pub has_bit : ℕ → ℕ → Bool
has_bit mask options = not (bit_and options mask == 0)

-- `options |= mask`
unfoldable pub set_bit : ℕ → ℕ → ℕ
set_bit mask options = bit_or options mask
