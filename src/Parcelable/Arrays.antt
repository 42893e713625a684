-- ===== src/Parcelable/Arrays.antt =====
-- Arrays of parcelables keep the promises of their elements.
use fdbus.Prelude.{ℕ, ◌%◌, ◌^◌, ◌<◌, ◌≡◌, Bool, List, [], ◌∷◌, ◌++◌, arith, length, All}
use fdbus.Bytes.{bytes}
use fdbus.Serializer.{u16_mod}
use fdbus.Serializer.Growth.{Appends, Appends-skip, Appends->>}
use fdbus.Serializer.Puts.{serialize_scalar-Appends}
use fdbus.Deserializer.Reading.{Reads, Reads-pure, Reads->>=, Reads-scalar}
use fdbus.Deserializer.Safety.{Safe, Safe-pure, Safe->>=, Safe-scalar}
use fdbus.Parcelable.{
  Parcelable, serialize_each, put_array, resize, deserialize_each, get_array, array,
}
use fdbus.Parcelable.Codec.{Format, Implements, Reads-last, Reads-unless_error, Safe-unless_error}

module _ {A : Type 0} (f : Format A) where
  unfoldable pub wire_each : List A → List ℕ
  wire_each [] = []
  wire_each (x ∷ xs) = f.wire x ++ wire_each xs

  -- Old entries are read into; the others are fresh.
  unfoldable pub received_each : A → List A → List A → List A
  received_each fresh olds [] = []
  received_each fresh [] (x ∷ xs) = f.received fresh x ∷ received_each fresh [] xs
  received_each fresh (o ∷ olds) (x ∷ xs) = f.received o x ∷ received_each fresh olds xs

  pub record IsArray (xs : List A) : Type 0 where
    pub each : All f.IsSendable xs
    pub counted : length xs < 2 ^ 16

abbrev pub array_format : {A : Type 0} → A → Format A → Format (List A)
array_format fresh f = record {
  IsSendable = IsArray f;
  wire = λ xs. bytes 2 (length xs) ++ wire_each f xs;
  received = received_each f fresh;
}

module _ (little : Bool) {A : Type 0} {p : Parcelable A} {f : Format A} (c : Implements p f) where
  serialize_each-Appends :
      (xs : List A) → All f.IsSendable xs → Appends (serialize_each little p xs) (wire_each f xs)
  unfolding serialize_each wire_each
  serialize_each-Appends [] h = Appends-skip
  serialize_each-Appends (x ∷ xs) h =
      Appends->> _ _ _ _ (c.appends x h.0) (serialize_each-Appends xs h.1)

  -- If the elements implement a format, an array of any length writes all of its elements that can be sent,
  -- but after a count that is cut to 16 bits.
  pub put_array-Appends :
      (xs : List A)
      → All f.IsSendable xs
      → Appends (put_array little p xs) (bytes 2 (length xs % u16_mod) ++ wire_each f xs)
  unfolding put_array
  put_array-Appends xs h =
      Appends->> _ _ _ _ (serialize_scalar-Appends little 2 (length xs % u16_mod))
        (serialize_each-Appends xs h)

  put_array-Appends_counted :
      (xs : List A)
      → IsArray f xs
      → Appends (put_array little p xs) (bytes 2 (length xs) ++ wire_each f xs)
  put_array-Appends_counted xs h =
      let e : length xs % u16_mod ≡ length xs = omega (arith, h.counted) in
      rw e at (put_array-Appends xs h.each)

  deserialize_each-Reads :
      (olds xs : List A)
      → All f.IsSendable xs
      → Reads
          (deserialize_each little p (resize little p (length xs) olds))
          (wire_each f xs)
          (received_each f p.fresh olds xs)
  unfolding deserialize_each resize wire_each received_each
  deserialize_each-Reads olds [] h = Reads-pure []
  deserialize_each-Reads [] (x ∷ xs) h = Reads-unless_error _ _ _ _ (
      Reads->>= _ _ _ _ _ _ (c.reads _ x h.0)
        (Reads-last _ _ _ _ (deserialize_each-Reads [] xs h.1)))
  deserialize_each-Reads (o ∷ olds) (x ∷ xs) h = Reads-unless_error _ _ _ _ (
      Reads->>= _ _ _ _ _ _ (c.reads o x h.0)
        (Reads-last _ _ _ _ (deserialize_each-Reads olds xs h.1)))

  deserialize_each-Safe : (xs : List A) → Safe (deserialize_each little p xs)
  unfolding deserialize_each
  deserialize_each-Safe [] = Safe-pure []
  deserialize_each-Safe (x ∷ xs) =
      Safe-unless_error (x ∷ xs) _
        (Safe->>= _ _ (c.safe x) (λ y. Safe->>= _ _ (deserialize_each-Safe xs) (λ ys. Safe-pure _)))

  get_array-Reads :
      (olds xs : List A)
      → IsArray f xs
      → Reads
          (get_array little p olds)
          (bytes 2 (length xs) ++ wire_each f xs)
          (received_each f p.fresh olds xs)
  unfolding get_array
  get_array-Reads olds xs h = Reads-unless_error _ _ _ _ (
      Reads->>= _ _ _ _ _ _ (Reads-scalar little 2 0 (length xs) h.counted)
        (deserialize_each-Reads olds xs h.each))

  get_array-Safe : (olds : List A) → Safe (get_array little p olds)
  unfolding get_array
  get_array-Safe olds = Safe-unless_error olds _ (
      Safe->>= _ _ (Safe-scalar little 2 0 (omega arith))
        (λ size. deserialize_each-Safe (resize little p size olds)))

  -- If the elements implement a format, an array of up to 2 ^ 16 - 1 of them implements the format of its
  -- count and its elements in order: it is written as that, it is read back, old elements being read into
  -- and missing ones made, and reading any buffer of 1 to 2 ^ 31 - 2 ^ 16 bytes stays in it.
  pub array-Implements : Implements (array little p) (array_format p.fresh f)
  array-Implements = record {
    appends = put_array-Appends_counted;
    reads = get_array-Reads;
    safe = get_array-Safe;
  }
