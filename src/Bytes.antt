-- ===== src/Bytes.antt =====
-- Scalars as bytes: the memory layout of an integer object on a host of either byte order, and the
-- little-endian layout of the wire (public/fdbus/CFdbSimpleSerializer.h, fdbus/CFdbSimpleSerializer.cpp).
-- A signed integer stands for its two's complement bit pattern.
use mathlib.Core.List.{reverse-reverse}
use native.Mathlib.Nat.{pow-suc}
use fdbus.Prelude.{
  ℕ, zero, suc, ◌+◌, ◌*◌, ◌/◌, ◌%◌, ◌^◌, ◌<◌, ◌≡◌, refl, Bool, true, false, List, [], ◌∷◌, reverse,
  arith, length, length-reverse, if◌then◌else◌,
}

-- The `w` low bytes of a number, lowest first.
unfoldable pub bytes : ℕ → ℕ → List ℕ
bytes zero n = []
bytes (suc w) n = n % 256 ∷ bytes w (n / 256)

unfoldable pub from_bytes : List ℕ → ℕ
from_bytes [] = 0
from_bytes (b ∷ bs) = b + 256 * from_bytes bs

-- The bytes of an integer object in the memory of a host.
unfoldable pub object_bytes : Bool → ℕ → ℕ → List ℕ
unfolding bytes
object_bytes little w n = if little then bytes w n else reverse (bytes w n)

-- The integer that the bytes of an object stand for on a host.
unfoldable pub object_value : Bool → List ℕ → ℕ
unfolding from_bytes
object_value little bs = if little then from_bytes bs else from_bytes (reverse bs)

-- The copy loop of `addBasicType` and `retrieveBasicData`: in order, or from the last byte to the
-- first on a big-endian host.
unfoldable pub copy_basic : Bool → List ℕ → List ℕ
copy_basic little p_data = if little then p_data else reverse p_data

pub length-bytes : (w n : ℕ) → length (bytes w n) ≡ w
unfolding bytes
length-bytes zero n = refl
length-bytes (suc w) n = omega (arith, length-bytes w (n / 256))

pub from_bytes-bytes : (w n : ℕ) → n < 256 ^ w → from_bytes (bytes w n) ≡ n
unfolding bytes from_bytes
from_bytes-bytes zero n h = omega arith
from_bytes-bytes (suc w) n h =
    omega (arith, from_bytes-bytes w (n / 256) (omega (arith, pow-suc 256 w)))

pub length-object_bytes : (little : Bool) (w n : ℕ) → length (object_bytes little w n) ≡ w
unfolding object_bytes
length-object_bytes true w n = length-bytes w n
length-object_bytes false w n = omega (arith, length-reverse (bytes w n), length-bytes w n)

-- Whatever the byte order of the host, the copied bytes are the little-endian ones.
pub copy_basic-object_bytes :
    (little : Bool) (w n : ℕ) → copy_basic little (object_bytes little w n) ≡ bytes w n
unfolding copy_basic object_bytes
copy_basic-object_bytes true w n = refl
copy_basic-object_bytes false w n = reverse-reverse (bytes w n)

pub object_value-copy_basic :
    (little : Bool) (w n : ℕ)
    → n < 256 ^ w
    → object_value little (copy_basic little (bytes w n)) ≡ n
unfolding copy_basic object_value
object_value-copy_basic true w n h = from_bytes-bytes w n h
object_value-copy_basic false w n h = rw reverse-reverse (from_bytes-bytes w n h)
