-- ===== src/Serializer.antt =====
-- CFdbSimpleSerializer (public/fdbus/CFdbSimpleSerializer.h, fdbus/CFdbSimpleSerializer.cpp): the
-- growing output buffer. `none` is a write or read outside the memory that the code owns.
pub mod Growth
pub mod Puts
use fdbus.Prelude.{
  ℕ, zero, ◌+◌, ◌%◌, ◌^◌, Bool, true, false, Option, none, some, List, [], ◌∷◌, ◌++◌, length, take,
  ltb, leb, if◌then◌else◌,
}
use fdbus.Bytes.{object_bytes, copy_basic}

abbrev pub u32_mod : ℕ
u32_mod = 2 ^ 32

abbrev pub u16_mod : ℕ
u16_mod = 2 ^ 16

-- FDB_SCRATCH_CACHE_SIZE
abbrev pub scratch_cache_size : ℕ
scratch_cache_size = 2048

-- FDB_SER_BUFFER_BLOCK_SIZE
abbrev pub buffer_block_size : ℕ
buffer_block_size = 1024

-- `buffer` holds the bytes that have been stored in `mBuffer`, and `on_heap` says whether `mBuffer`
-- has left `mScratchCache`.
pub record Serializer : Type 0 where
  pub buffer : List ℕ
  pub on_heap : Bool
  pub total_size : ℕ
  pub pos : ℕ

unfoldable pub new : Serializer
new = record { buffer = []; on_heap = false; total_size = scratch_cache_size; pos = 0 }

unfoldable pub reset : Serializer → Serializer
reset s = record s {
  buffer = if s.on_heap then [] else s.buffer;
  on_heap = false;
  total_size = scratch_cache_size;
  pos = 0;
}

-- The bytes that `mBuffer` has room for.
unfoldable pub capacity : Serializer → ℕ
capacity s = if s.on_heap then s.total_size else scratch_cache_size

-- What `buffer()` and `bufferSize()` hand out.
unfoldable pub output : Serializer → List ℕ
output s = take s.pos s.buffer

unfoldable pub to_buffer : ℕ → Serializer → List ℕ
to_buffer size s = take (if ltb s.pos size then s.pos else size) s.buffer

unfoldable pub add_memory : ℕ → Serializer → Serializer
add_memory size s =
    let new_pos = (s.pos + size) % u32_mod in
    if s.on_heap
    then (if ltb s.total_size new_pos
        then record s {
          total_size =
              (s.total_size
                + (if ltb size buffer_block_size
                    then buffer_block_size
                    else size + buffer_block_size))
              % u32_mod;
        }
        else s)
    else if ltb scratch_cache_size new_pos
    then record s {
      on_heap = true;
      total_size = (s.total_size + size + buffer_block_size) % u32_mod;
      buffer = take s.pos s.buffer;
    }
    else s

-- `mBuffer[mPos + i] = ...` for each byte, and `mPos += size`.
unfoldable pub store : List ℕ → Serializer → Option Serializer
unfolding capacity
store bs s =
    if leb (s.pos + length bs) (capacity s)
    then some (record s { buffer = take s.pos s.buffer ++ bs; pos = (s.pos + length bs) % u32_mod })
    else none

abbrev pub Ser : Type 0
Ser = Serializer → Option Serializer

infixl 5 ◌>>◌
unfoldable pub ◌>>◌ : Ser → Ser → Ser
◌>>◌ m n s = elim (m s) [ none ↦ none | some t ↦ n t ]

-- An `operator<<` that adds nothing.
unfoldable pub skip : Ser
skip s = some s

-- `if (test) { serializer << ...; }`
unfoldable pub put_when : Bool → Ser → Ser
unfolding skip
put_when true m = m
put_when false m = skip

-- `p_data` must hold `size` bytes.
unfoldable pub add_raw_data : List ℕ → ℕ → Ser
unfolding add_memory store
add_raw_data p_data size s =
    if leb size (length p_data) then store (take size p_data) (add_memory size s) else none

unfoldable pub add_basic_type : Bool → List ℕ → ℕ → Ser
unfolding copy_basic add_memory store
add_basic_type little p_data size s =
    if leb size (length p_data)
    then store (copy_basic little (take size p_data)) (add_memory size s)
    else none

-- The functions below run on a host whose byte order `little` gives.
module _ (little : Bool) where
  unfoldable pub serialize_scalar : ℕ → ℕ → Ser
  unfolding object_bytes add_basic_type
  serialize_scalar w n = add_basic_type little (object_bytes little w n) w

  unfoldable pub put_bool : Bool → Ser
  unfolding serialize_scalar
  put_bool b = serialize_scalar 1 (if b then 1 else 0)

  -- `str_len` is a `uint16_t`, and so is `l`. The text ends in a NUL.
  unfoldable pub add_string : List ℕ → ℕ → Ser
  unfolding serialize_scalar add_raw_data ◌>>◌
  add_string string str_len =
      let l = (str_len + 1) % u16_mod in serialize_scalar 2 l >> add_raw_data (string ++ 0 ∷ []) l

  unfoldable pub put_string : List ℕ → Ser
  unfolding add_string
  put_string string = add_string string (length string % u16_mod)
