-- ===== src/Parcelable/ByteArray/Reading.antt =====
-- What byte arrays write, and what they make of any bytes.
use fdbus.Prelude.{
  ℕ, ◌+◌, ◌^◌, ◌≤◌, ◌<◌, ◌≡◌, Bool, true, false, none, some, List, ◌++◌, arith, length, take, drop,
  leb, ◌==◌, length-take, leb-true, leb-false, Bool-cases, inl, inr, ◌∙◌, refl,
}
use fdbus.Bytes.{bytes, length-bytes}
use fdbus.Serializer.Growth.{Appends, Appends->>}
use fdbus.Serializer.Puts.{serialize_scalar-Appends, add_raw_data-Appends}
use fdbus.Deserializer.{
  Deserializer, pure, ◌>>=◌, deserialize_scalar, retrieve_raw_data, copied_size, advance, peek,
  overruns,
}
use fdbus.Deserializer.Reading.{
  Ready, Ready-advance, Reads, Reads->>=, Reads-scalar, Ready-overruns, Ready-peek, >>=-eq,
  >>=-none, Ready-overruns_short,
}
use fdbus.Parcelable.{unless_error}
use fdbus.Parcelable.Codec.{Reads-unless_error, Reads-last}
use fdbus.Parcelable.ByteArray.{
  ByteArray, ByteArrayExt, filled, get_sized, put_byte_array, get_byte_array, fill_owned, copy_into,
  get_sized_ext, get_byte_array_ext,
}

-- What an array within its capacity writes comes back into any array of that capacity.
abbrev pub wire_byte_array : ByteArray → List ℕ
wire_byte_array a = bytes 4 a.size ++ take a.size a.buffer

module _ (little : Bool) where
  -- A byte array whose size is within its buffer is written as its size in four bytes and that many bytes
  -- of its buffer.
  pub put_byte_array-Appends :
      (a : ByteArray)
      → a.size ≤ length a.buffer
      → Appends (put_byte_array little a) (wire_byte_array a)
  unfolding put_byte_array
  put_byte_array-Appends a h =
      Appends->> _ _ _ _ (serialize_scalar-Appends little 4 a.size)
        (add_raw_data-Appends a.buffer a.size h)

Reads-raw :
    (n : ℕ) (bs : List ℕ) → n < 2 ^ 31 → length bs ≡ n → Reads (retrieve_raw_data n) bs (some bs)
unfolding retrieve_raw_data
Reads-raw n bs h e = record {
  at = λ d rest r.
      let over : overruns n d ≡ false = rw e at (Ready-overruns d bs rest r) in
      let got : peek n d ≡ some bs = rw e at (Ready-peek d bs rest r) in
      rw e (ground (arith, h, over, got));
}

get_sized-fits :
    (capacity : ℕ) (old : ByteArray) (n : ℕ)
    → n ≤ capacity
    → get_sized capacity old n ≡ (retrieve_raw_data n >>= λ got. pure (filled old n got))
unfolding get_sized
get_sized-fits capacity old n k = elim (Bool-cases (leb (2 ^ 31) n)) [
  | inl e ↦ rw e
  | inr e ↦ rw (e, leb-true k)
]

passes :
    (n : ℕ) (d : Deserializer) (bs : List ℕ)
    → 2 ^ 31 ≤ n
    → n < 2 ^ 32
    → length d.buffer < 2 ^ 31
    → Ready d bs
    → overruns n d ≡ false
unfolding overruns
passes n d bs h k small r = ground (arith, r.told, r.within, small, h, k)

beyond :
    (n : ℕ) (d : Deserializer)
    → 2 ^ 31 ≤ n
    → length d.buffer < 2 ^ 31
    → peek (copied_size n) d ≡ none
unfolding peek
beyond n d h small = rw (leb-true h) (ground (arith, h, small))

-- The test on a negative size passes, and the bytes that it stands for are more than there are.
retrieve_raw_data-negative :
    (n : ℕ) (d : Deserializer) (bs : List ℕ)
    → 2 ^ 31 ≤ n
    → n < 2 ^ 32
    → length d.buffer < 2 ^ 31
    → Ready d bs
    → retrieve_raw_data n d ≡ none
unfolding retrieve_raw_data
retrieve_raw_data-negative n d bs h k small r =
    let over : overruns n d ≡ false = passes n d bs h k small r in
    let gone : peek (copied_size n) d ≡ none = beyond n d h small in rw (over, gone) refl

get_sized-negative :
    (capacity : ℕ) (old : ByteArray) (n : ℕ) (d : Deserializer) (bs : List ℕ)
    → 2 ^ 31 ≤ n
    → n < 2 ^ 32
    → length d.buffer < 2 ^ 31
    → Ready d bs
    → get_sized capacity old n d ≡ none
unfolding get_sized
get_sized-negative capacity old n d bs h k small r =
    rw (leb-true h) (>>=-none _ _ d (retrieve_raw_data-negative n d bs h k small r))

retrieve_raw_data-short :
    (n : ℕ) (d : Deserializer)
    → n < 2 ^ 31
    → overruns n d ≡ true
    → retrieve_raw_data n d ≡ some (none, d)
unfolding retrieve_raw_data
retrieve_raw_data-short n d h e = ground (arith, e)

get_sized-short :
    (capacity : ℕ) (old : ByteArray) (n : ℕ) (d : Deserializer)
    → n ≤ capacity
    → n < 2 ^ 31
    → overruns n d ≡ true
    → get_sized capacity old n d ≡ some (record old { size = n }, d)
unfolding pure filled
get_sized-short capacity old n d k l over =
    rw (get_sized-fits capacity old n k) (>>=-eq _ _ d (retrieve_raw_data-short n d l over))

module _ (little : Bool) where
  get_byte_array-eq :
      (capacity : ℕ) (old : ByteArray) (n : ℕ) (d : Deserializer) (rest : List ℕ)
      → n < 2 ^ 32
      → Ready d (bytes 4 n ++ rest)
      → get_byte_array little capacity old d ≡ get_sized capacity old n (advance 4 d)
  unfolding get_byte_array unless_error
  get_byte_array-eq capacity old n d rest k r =
      let e =
        >>=-eq (deserialize_scalar little 4 0) (get_sized capacity old) d
          ((Reads-scalar little 4 0 n k).at d rest r) in
      ground (arith, r.clean, e, length-bytes 4 n)

  -- A byte array whose size fits the capacity and is below 2 ^ 31 comes back from its bytes into any old
  -- array: the size and the bytes arrive, and the old bytes after them stay.
  pub get_byte_array-Reads :
      (capacity : ℕ) (old a : ByteArray)
      → a.size ≤ length a.buffer
      → a.size ≤ capacity
      → a.size < 2 ^ 31
      → Reads
          (get_byte_array little capacity old)
          (wire_byte_array a)
          (record { size = a.size; buffer = take a.size a.buffer ++ drop a.size old.buffer })
  unfolding get_byte_array filled
  get_byte_array-Reads capacity old a h k l = Reads-unless_error _ _ _ _ (
      Reads->>= _ _ _ _ _ _ (Reads-scalar little 4 0 a.size (omega arith)) (
        rw (get_sized-fits capacity old a.size k) (
          Reads-last _ _ _ _
            (Reads-raw a.size (take a.size a.buffer) l (length-take a.size a.buffer h)))))

  -- In a buffer of fewer than 2 ^ 31 bytes, a size that is negative as an int32_t makes the reading of a
  -- byte array leave the buffer, whatever the capacity of the array is.
  pub get_byte_array_negative :
      (capacity : ℕ) (old : ByteArray) (n : ℕ) (d : Deserializer) (rest : List ℕ)
      → 2 ^ 31 ≤ n
      → n < 2 ^ 32
      → length d.buffer < 2 ^ 31
      → Ready d (bytes 4 n ++ rest)
      → get_byte_array little capacity old d ≡ none
  unfolding advance
  get_byte_array_negative capacity old n d rest h k small r =
      let after = rw length-bytes at (Ready-advance d (bytes 4 n) rest r) in
      get_byte_array-eq capacity old n d rest k r
      ∙ get_sized-negative capacity old n (advance 4 d) rest h k small after

  -- A byte array whose bytes end before its size, which fits the capacity, says is accepted: the old bytes
  -- stay, under the new size, and no error is set.
  pub get_byte_array_short :
      (capacity : ℕ) (old : ByteArray) (n : ℕ) (d : Deserializer) (rest : List ℕ)
      → n ≤ capacity
      → n < 2 ^ 31
      → d.size ≡ length d.buffer
      → length rest < n
      → length d.buffer + n < 2 ^ 31
      → Ready d (bytes 4 n ++ rest)
      → get_byte_array little capacity old d ≡ some (record old { size = n }, advance 4 d)
  get_byte_array_short capacity old n d rest k l told short small r =
      get_byte_array-eq capacity old n d rest (omega arith) r
      ∙ get_sized-short capacity old n (advance 4 d) k l (
          rw length-bytes at (
            Ready-overruns_short d (bytes 4 n) rest n r told (omega (arith, length-bytes 4 n)) short
              small))

copy_into-overflow :
    (buffer bs : List ℕ) (old : ByteArrayExt) (d : Deserializer)
    → length buffer < length bs
    → copy_into buffer old (some bs) d ≡ none
unfolding copy_into
copy_into-overflow buffer bs old d h = rw (leb-false h) refl

get_sized_ext-overflow :
    (old : ByteArrayExt) (buffer bs rest : List ℕ) (d : Deserializer)
    → old.owned ≡ some buffer
    → length buffer < length bs
    → length bs < 2 ^ 31
    → Ready d (bs ++ rest)
    → get_sized_ext old (length bs) d ≡ none
unfolding get_sized_ext fill_owned
get_sized_ext-overflow old buffer bs rest d e h k r =
    let positive : (length bs == 0) ≡ false = ground arith in
    let read = (Reads-raw (length bs) bs k refl).at d rest r in
    let before = record old { owned = some buffer } in
    rw (positive, e)
      (>>=-eq (retrieve_raw_data (length bs)) (copy_into buffer before) d read
        ∙ copy_into-overflow buffer bs before (advance (length bs) d) h)

module _ (little : Bool) where
  -- A byte array that already owns a buffer and reads a longer array, all of whose bytes are there, writes
  -- outside that buffer.
  pub get_byte_array_ext_overflow :
      (old : ByteArrayExt) (buffer bs : List ℕ) (d : Deserializer) (rest : List ℕ)
      → old.owned ≡ some buffer
      → length buffer < length bs
      → length bs < 2 ^ 31
      → Ready d (bytes 4 (length bs) ++ (bs ++ rest))
      → get_byte_array_ext little old d ≡ none
  unfolding get_byte_array_ext unless_error
  get_byte_array_ext_overflow old buffer bs d rest e h k r =
      let n = length bs in
      let got =
        >>=-eq (deserialize_scalar little 4 0) (get_sized_ext old) d
          ((Reads-scalar little 4 0 n (omega arith)).at d (bs ++ rest) r) in
      let after = Ready-advance d (bytes 4 n) (bs ++ rest) r in
      ground (
        arith,
        r.clean,
        got,
        get_sized_ext-overflow old buffer bs rest (advance (length (bytes 4 n)) d) e h k after,
      )
