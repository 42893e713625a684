-- ===== src/Parcelable/Codec.antt =====
-- What a parcelable promises: the bytes that it writes, what a reader makes of them, and that
-- reading never leaves the buffer.
use fdbus.Prelude.{
  ℕ, ◌+◌, ◌^◌, ◌<◌, ◌≡◌, refl, append-nil, Bool-cases, inl, inr, Bool, true, false, List, [], ◌∷◌,
  ◌++◌, arith, length, if◌then◌else◌,
}
use fdbus.Bytes.{bytes}
use fdbus.Serializer.Growth.{Appends-skip, Appends}
use fdbus.Serializer.Puts.{put_string-Appends_short}
use fdbus.Serializer.{put_string, Ser, put_when}
use fdbus.Deserializer.{get_string, pure, ◌>>=◌, Des}
use fdbus.Deserializer.Reading.{Reads, NoNul, Reads-string, Reads-pure, Reads->>=}
use fdbus.Deserializer.Safety.{Safe, Safe-string}
use fdbus.Parcelable.{Parcelable, unless_error, text}

-- A format of the wire, whatever the host: what can be sent, its bytes, and the object that `old`
-- becomes by reading what was sent.
pub record Format (A : Type 0) : Type 1 where
  pub IsSendable : A → Type 0
  pub wire : A → List ℕ
  pub received : A → A → A

pub record Implements {A : Type 0} (p : Parcelable A) (f : Format A) : Type 0 where
  pub appends : (a : A) → f.IsSendable a → Appends (p.serialize a) (f.wire a)
  pub reads : (old a : A) → f.IsSendable a → Reads (p.deserialize old) (f.wire a) (f.received old a)
  pub safe : (old : A) → Safe (p.deserialize old)

-- A text that `std::string` and the wire agree on: no NUL inside, and its length fits the field.
pub record IsText (cs : List ℕ) : Type 0 where
  pub no_nul : NoNul cs
  pub short : length cs + 1 < 2 ^ 16

abbrev pub wire_text : List ℕ → List ℕ
wire_text cs = bytes 2 (length cs + 1) ++ (cs ++ 0 ∷ [])

pub put_string-Appends_text :
    (little : Bool) (cs : List ℕ) → IsText cs → Appends (put_string little cs) (wire_text cs)
put_string-Appends_text little cs h = put_string-Appends_short little cs h.short

pub Reads-text_string :
    (little : Bool) (old cs : List ℕ) → IsText cs → Reads (get_string little old) (wire_text cs) cs
Reads-text_string little old cs h = Reads-string little old cs h.no_nul h.short

abbrev pub text_format : Format (List ℕ)
text_format = record { IsSendable = IsText; wire = wire_text; received = λ old a. a }

pub text-Implements : (little : Bool) → Implements (text little) text_format
text-Implements little = record {
  appends = put_string-Appends_text little;
  reads = Reads-text_string little;
  safe = λ old. Safe-string little old;
}

module _ {A : Type 0} where
  pub Reads-unless_error :
      (old a : A) (m : Des A) (bs : List ℕ) → Reads m bs a → Reads (unless_error old m) bs a
  unfolding unless_error
  Reads-unless_error old a m bs h = record {
    at = λ d rest r. ground (arith, r.clean, h.at d rest r);
  }

  pub Safe-unless_error : (old : A) (m : Des A) → Safe m → Safe (unless_error old m)
  unfolding unless_error
  Safe-unless_error old m h = record {
    at = λ d b. elim (Bool-cases d.error) [
      | inl e ↦ (old, d, rw e, b)
      | inr e ↦ let (a, d', got, b') = h.at d b in (a, d', ground (arith, e, got), b')
    ];
  }

-- The last read of a `deserialize`, whose object is then put together.
pub Reads-last :
    {A B : Type 0} (m : Des A) (f : A → B) (a : A) (bs : List ℕ)
    → Reads m bs a
    → Reads (m >>= λ x. pure (f x)) bs (f a)
Reads-last m f a bs h =
    let t : Reads (m >>= λ x. pure (f x)) (bs ++ []) (f a) =
      Reads->>= _ _ _ _ _ _ h (Reads-pure (f a)) in
    rw append-nil at t

-- An optional field at the end of a message: written if its bit is set.
pub Appends-when :
    (b : Bool) (m : Ser) (bs : List ℕ)
    → (b ≡ true → Appends m bs)
    → Appends (put_when b m) (if b then bs else [])
unfolding put_when
Appends-when true m bs h = h refl
Appends-when false m bs h = Appends-skip
