-- ===== src/Parcelable/ByteArray.antt =====
-- CFdbByteArray<SIZE> and CFdbByteArrayExt (public/fdbus/CFdbSimpleSerializer.h). A size is the bit
-- pattern of an `int32_t`, and what is written has a size that is not negative.
pub mod Reading
use fdbus.Prelude.{
  ℕ, ◌^◌, ◌≤◌, ◌<◌, ◌≡◌, Bool, true, false, ◌||◌, Option, none, some, List, ◌++◌, arith, length,
  take, drop, leb, ◌==◌, replicate, length-take, leb-true, leb-false, Bool-cases, inl, inr, ◌∙◌,
  if◌then◌else◌,
}
use fdbus.Bytes.{bytes, length-bytes}
use fdbus.Serializer.{Ser, ◌>>◌, put_when, serialize_scalar, add_raw_data}
use fdbus.Serializer.Growth.{Appends, Appends->>}
use fdbus.Serializer.Puts.{serialize_scalar-Appends, add_raw_data-Appends}
use fdbus.Deserializer.{
  Deserializer, Des, pure, ◌>>=◌, deserialize_scalar, retrieve_raw_data, set_error, advance, peek,
  overruns,
}
use fdbus.Deserializer.Reading.{
  Ready, Reads, Reads->>=, Reads-scalar, Ready-overruns, Ready-peek, >>=-eq, >>=-none,
  Ready-overruns_short,
}
use fdbus.Parcelable.{unless_error}
use fdbus.Parcelable.Codec.{Reads-unless_error, Reads-last}

-- `buffer` has room for SIZE bytes, and `size` of them count.
pub record ByteArray : Type 0 where
  pub size : ℕ
  pub buffer : List ℕ

-- `mError = true`, as a step.
unfoldable pub fail : {A : Type 0} → A → Des A
unfolding set_error
fail a d = some (a, set_error d)

-- The array after `retrieveRawData`, whose answer the code does not look at.
unfoldable pub filled : ByteArray → ℕ → Option (List ℕ) → ByteArray
filled old size none = record old { size = size }
filled old size (some bs) = record { size = size; buffer = bs ++ drop size old.buffer }

-- The rest of `deserialize`; `size <= SIZE` compares as `int32_t`.
unfoldable pub get_sized : ℕ → ByteArray → ℕ → Des ByteArray
get_sized capacity old size =
    if leb (2 ^ 31) size || leb size capacity
    then (do got ← retrieve_raw_data size; pure (filled old size got))
    else fail old

module _ (little : Bool) where
  unfoldable pub put_byte_array : ByteArray → Ser
  unfolding serialize_scalar add_raw_data ◌>>◌
  put_byte_array a = do serialize_scalar little 4 a.size; add_raw_data a.buffer a.size

  unfoldable pub get_byte_array : ℕ → ByteArray → Des ByteArray
  unfolding get_sized
  get_byte_array capacity old =
      unless_error old (do size ← deserialize_scalar little 4 0; get_sized capacity old size)

-- CFdbByteArrayExt: `shared` is `mBuffer`, `owned` is `mVBuffer`, both with their true length.
pub record ByteArrayExt : Type 0 where
  pub size : ℕ
  pub shared : Option (List ℕ)
  pub owned : Option (List ℕ)

-- What the copy of `retrieveRawData` leaves: more bytes than `mVBuffer` has room for are written outside it.
unfoldable pub copy_into : List ℕ → ByteArrayExt → Option (List ℕ) → Des ByteArrayExt
copy_into buffer old none = pure old
copy_into buffer old (some bs) =
    if leb (length bs) (length buffer)
    then pure (record old { owned = some (bs ++ drop (length bs) buffer) })
    else λ d. none

-- `retrieveRawData(mVBuffer, size)`, where `mVBuffer` is `buffer`; its answer is not looked at.
unfoldable pub fill_owned : List ℕ → ℕ → ByteArrayExt → Des ByteArrayExt
unfolding copy_into
fill_owned buffer size old =
    retrieve_raw_data size >>= copy_into buffer (record old { owned = some buffer })

-- The rest of `deserialize`; `new uint8_t[size]` throws for a negative size.
unfoldable pub get_sized_ext : ByteArrayExt → ℕ → Des ByteArrayExt
get_sized_ext old size = if size == 0 then pure old else elim old.owned [
  | none ↦
      if leb (2 ^ 31) size
      then fail old
      else fill_owned (replicate size 0) size (record old { size = size })
  | some buffer ↦ fill_owned buffer size old
]

module _ (little : Bool) where
  unfoldable pub put_byte_array_ext : ByteArrayExt → Ser
  put_byte_array_ext a = elim a.shared [
    | none ↦ put_when (a.size == 0) (serialize_scalar little 4 a.size)
    | some buffer ↦ do serialize_scalar little 4 a.size; add_raw_data buffer a.size
  ]

  unfoldable pub get_byte_array_ext : ByteArrayExt → Des ByteArrayExt
  unfolding get_sized_ext
  get_byte_array_ext old =
      unless_error old (do size ← deserialize_scalar little 4 0; get_sized_ext old size)
