-- ===== src/Parcelable/Exchange.antt =====
-- A message from one host to another: what any implementation of a format guarantees.
use fdbus.Prelude.{ℕ, ◌≤◌, ◌<◌, ◌≡◌, append-nil, some, List, [], arith, length}
use fdbus.Serializer.{Serializer, new, output}
use fdbus.Serializer.Growth.{new-IsValid, max_message}
use fdbus.Deserializer.{Deserializer, advance, open_buffer}
use fdbus.Deserializer.Reading.{open_buffer-Ready}
use fdbus.Deserializer.Safety.{Bounded, max_read, open_buffer-Bounded}
use fdbus.Parcelable.{Parcelable}
use fdbus.Parcelable.Codec.{Format, Implements}

module _ {A : Type 0} (f : Format A) where
  send :
      (p : Parcelable A)
      → Implements p f
      → (a : A) → f.IsSendable a
      → length (f.wire a) ≤ max_message
      → (s : Serializer) × (p.serialize a new ≡ some s) × (output s ≡ f.wire a)
  unfolding new output
  send p c a h fits =
      let (s, e, w) = (c.appends a h).at new new-IsValid (omega arith) in (s, e, w.out)

  -- What a reader makes of the bytes of `a`: the received object, and the position at their end.
  abbrev pub delivered : A → A → List ℕ → A × Deserializer
  delivered old a bs = (f.received old a, advance (length bs) (open_buffer (some bs) (length bs)))

  receive :
      (q : Parcelable A)
      → Implements q f
      → (old a : A) → f.IsSendable a
      → q.deserialize old (open_buffer (some (f.wire a)) (length (f.wire a)))
        ≡ some (delivered old a (f.wire a))
  receive q c old a h = (c.reads old a h).at _ [] (rw append-nil (open_buffer-Ready (f.wire a)))

  -- Whatever two objects implement a wire format: what the one writes into a new serializer, if it can be
  -- sent and is at most 2 ^ 30 bytes long, is written without error, and the other reads from these bytes
  -- the object that the format says, up to their end.
  pub exchange :
      (p q : Parcelable A)
      → Implements p f
      → Implements q f
      → (old a : A) → f.IsSendable a
      → length (f.wire a) ≤ max_message
      → (s : Serializer) × (p.serialize a new ≡ some s)
        × (q.deserialize old (open_buffer (some (output s)) (length (output s)))
            ≡ some (delivered old a (output s)))
  exchange p q c d old a h fits =
      let (s, e, w) = send p c a h fits in (s, e, rw w (receive q d old a h))

-- Reading up to 2 ^ 31 - 2 ^ 16 bytes, from whomever they come, ends inside the buffer.
pub read_any :
    {A : Type 0} {f : Format A} (q : Parcelable A)
    → Implements q f
    → (old : A) (bs : List ℕ) → 0 < length bs
    → length bs ≤ max_read
    → (a : A) × (d : Deserializer) × (q.deserialize old (open_buffer (some bs) (length bs))
        ≡ some (a, d))
      × Bounded d
read_any q c old bs h k = (c.safe old).at _ (open_buffer-Bounded bs h k)
