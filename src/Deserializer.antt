-- ===== src/Deserializer.antt =====
-- CFdbSimpleDeserializer (public/fdbus/CFdbSimpleSerializer.h, fdbus/CFdbSimpleSerializer.cpp).
-- `none` is a read outside the buffer. A position is that of a byte of the buffer or its end; the sums
-- that the code tests wrap around as `int32_t`. The size that the code is told is not negative.
pub mod Reading
pub mod Safety
use fdbus.Prelude.{
  ℕ, zero, suc, ◌+◌, ◌-◌, ◌%◌, ◌^◌, Bool, true, false, not, ◌&&◌, ◌||◌, Option, none, some, List,
  [], ◌∷◌, length, take, drop, ltb, leb, ◌==◌, if◌then◌else◌,
}
use fdbus.Bytes.{object_value, copy_basic}

-- `size` is what the code was told of the buffer, 0 for "unknown": the true one is `length buffer`.
pub record Deserializer : Type 0 where
  pub buffer : List ℕ
  pub size : ℕ
  pub pos : ℕ
  pub error : Bool

-- The constructor and `reset`; `none` is the null pointer.
unfoldable pub open_buffer : Option (List ℕ) → ℕ → Deserializer
open_buffer none size = record { buffer = []; size = size; pos = 0; error = true }
open_buffer (some buffer) size = record { buffer = buffer; size = size; pos = 0; error = false }

abbrev pub Des : Type 0 → Type 0
Des A = Deserializer → Option (A × Deserializer)

unfoldable pub pure : {A : Type 0} → A → Des A
pure a d = some (a, d)

infixl 5 ◌>>=◌
unfoldable pub ◌>>=◌ : {A B : Type 0} → Des A → (A → Des B) → Des B
◌>>=◌ m f d = elim (m d) [ none ↦ none | some (a, d') ↦ f a d' ]

-- `if (test) deserializer >> old;`
unfoldable pub when : {A : Type 0} → Bool → Des A → A → Des A
unfolding pure
when true m old = m
when false m old = pure old

unfoldable pub error : Des Bool
error d = some (d.error, d)

unfoldable pub set_error : Deserializer → Deserializer
set_error d = record d { error = true }

unfoldable pub advance : ℕ → Deserializer → Deserializer
advance n d = record d { pos = d.pos + n }

-- `mSize && ((mPos + size) > mSize)` in `int32_t`: a sum of 2 ^ 31 or more is negative, and passes.
unfoldable pub overruns : ℕ → Deserializer → Bool
overruns n d =
    let end = (d.pos + n) % 2 ^ 32 in not (d.size == 0) && (ltb end (2 ^ 31) && ltb d.size end)

-- The `n` bytes at the position, if the buffer has them.
unfoldable pub peek : ℕ → Deserializer → Option (List ℕ)
peek n d = if leb (d.pos + n) (length d.buffer) then some (take n (drop d.pos d.buffer)) else none

-- The text up to the first NUL.
unfoldable pub c_string : List ℕ → List ℕ
c_string [] = []
c_string (c ∷ cs) = let rest = c_string cs in if c == 0 then [] else c ∷ rest

unfoldable pub last_byte : List ℕ → ℕ
last_byte [] = 0
last_byte (b ∷ []) = b
last_byte (b ∷ c ∷ bs) = last_byte (c ∷ bs)

-- `data.assign` after the checks on a text of `len` bytes; `old` stays where one fails.
unfoldable pub retrieve_text : ℕ → List ℕ → Des (List ℕ)
unfolding overruns peek set_error c_string last_byte advance
retrieve_text len old d =
    if d.error || len == 0
    then some (old, d)
    else if overruns len d
    then some (old, set_error d)
    else elim (peek len d) [
      | none ↦ none
      | some bs ↦
          if last_byte bs == 0 then some (c_string bs, advance len d) else some (old, set_error d)
    ]

-- The `size_t` that `memcpy` makes of the bit pattern of an `int32_t`.
abbrev pub copied_size : ℕ → ℕ
copied_size size = if leb (2 ^ 31) size then size + (2 ^ 64 - 2 ^ 32) else size

-- `size` is the bit pattern of an `int32_t`. The answer is `none` where the code returns false.
unfoldable pub retrieve_raw_data : ℕ → Des (Option (List ℕ))
unfolding overruns peek advance
retrieve_raw_data size d =
    if overruns size d
    then some (none, d)
    else elim (peek (copied_size size) d) [ none ↦ none | some bs ↦ some (some bs, advance size d) ]

module _ (little : Bool) where
  unfoldable pub retrieve_basic_data : ℕ → Des ℕ
  unfolding peek copy_basic object_value advance
  retrieve_basic_data w d = elim (peek w d) [
    | none ↦ none
    | some bs ↦ some (object_value little (copy_basic little bs), advance w d)
  ]

  -- `deserializer >> data`, where `data` was `old`.
  unfoldable pub deserialize_scalar : ℕ → ℕ → Des ℕ
  unfolding retrieve_basic_data overruns set_error
  deserialize_scalar w old d =
      if d.error
      then some (old, d)
      else if overruns w d
      then some (old, set_error d)
      else retrieve_basic_data w d

  unfoldable pub get_bool : Des Bool
  unfolding deserialize_scalar ◌>>=◌ pure
  get_bool = do value ← deserialize_scalar 1 0; pure (not (value == 0))

  -- The length is an `fdb_string_len_t` of 16 bits.
  unfoldable pub get_string : List ℕ → Des (List ℕ)
  unfolding deserialize_scalar retrieve_text ◌>>=◌
  get_string old = do len ← deserialize_scalar 2 0; retrieve_text (len % 2 ^ 16) old
