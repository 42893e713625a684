-- ===== src/Serializer/Puts.antt =====
-- What each `operator<<` of the serializer appends.
use fdbus.Prelude.{
  ℕ, ◌+◌, ◌%◌, ◌^◌, ◌≤◌, ◌<◌, ◌≡◌, Bool, some, List, [], ◌∷◌, ◌++◌, arith, length, take,
  length-append, length-take, take-length, leb-true, if◌then◌else◌,
}
use fdbus.Bytes.{bytes, object_bytes, length-bytes, length-object_bytes, copy_basic-object_bytes}
use fdbus.Serializer.{
  Serializer, add_memory, store, add_raw_data, add_basic_type, serialize_scalar, put_bool,
  add_string, put_string,
}
use fdbus.Serializer.Growth.{Appends, Appended, max_message, IsValid, store_grown, Appends->>}

store_grown_by :
    (n : ℕ) (bs : List ℕ) (s : Serializer)
    → length bs ≡ n
    → IsValid s
    → s.pos + length bs ≤ max_message
    → (t : Serializer) × (store bs (add_memory n s) ≡ some t) × Appended s bs t
store_grown_by n bs s e v h = rw (← e) (store_grown bs s v h)

pub add_raw_data-Appends :
    (p_data : List ℕ) (size : ℕ)
    → size ≤ length p_data
    → Appends (add_raw_data p_data size) (take size p_data)
unfolding add_raw_data
add_raw_data-Appends p_data size h = record {
  at = λ s v fits.
      rw (leb-true h) (store_grown_by size (take size p_data) s (length-take size p_data h) v fits);
}

-- The length field of a text, its terminator counted, in 16 bits.
abbrev pub wire_length : List ℕ → ℕ
wire_length string = (length string % 2 ^ 16 + 1) % 2 ^ 16

module _ (little : Bool) where
  pub serialize_scalar-Appends : (w n : ℕ) → Appends (serialize_scalar little w n) (bytes w n)
  unfolding serialize_scalar add_basic_type
  serialize_scalar-Appends w n = record {
    at = λ s v fits.
        rw
          (
            leb-true {a = w} {b = length (object_bytes little w n)}
                (omega (arith, length-object_bytes little w n)),
            take-length (object_bytes little w n) w (length-object_bytes little w n),
            copy_basic-object_bytes little w n,
          )
          (store_grown_by w (bytes w n) s (length-bytes w n) v fits);
  }

  pub put_bool-Appends : (b : Bool) → Appends (put_bool little b) (bytes 1 (if b then 1 else 0))
  unfolding put_bool
  put_bool-Appends b = serialize_scalar-Appends 1 (if b then 1 else 0)

  -- A text of any length is written as a length in 16 bits, cut before and after the terminator is counted,
  -- and as many bytes of the text and its terminator as that length says.
  pub put_string-Appends :
      (string : List ℕ)
      → Appends
          (put_string little string)
          (bytes 2 (wire_length string) ++ take (wire_length string) (string ++ 0 ∷ []))
  unfolding put_string add_string
  put_string-Appends string = Appends->> _ _ _ _ (serialize_scalar-Appends 2 (wire_length string)) (
      add_raw_data-Appends (string ++ 0 ∷ []) (wire_length string)
        (omega (arith, length-append string (0 ∷ []))))

  -- A text that its length field can count.
  pub put_string-Appends_short :
      (string : List ℕ)
      → length string + 1 < 2 ^ 16
      → Appends (put_string little string) (bytes 2 (length string + 1) ++ (string ++ 0 ∷ []))
  put_string-Appends_short string h =
      let e : wire_length string ≡ length string + 1 = omega arith in
      let t : take (length string + 1) (string ++ 0 ∷ []) ≡ string ++ 0 ∷ [] =
        take-length (string ++ 0 ∷ []) (length string + 1)
          (omega (arith, length-append string (0 ∷ []))) in
      rw t at (rw e at (put_string-Appends string))
