-- ===== src/Deserializer/Safety.antt =====
-- Reading any bytes at all: no read leaves the buffer, provided that its length was told and that no sum
-- of a position and a length of 16 bits wraps around.
use fdbus.Prelude.{
  ℕ, ◌+◌, ◌-◌, ◌%◌, ◌^◌, ◌≤◌, ◌<◌, ◌≡◌, inl, inr, refl, ◌∙◌, Bool, true, false, some, List, arith,
  length, leb-true, Bool-cases, take, drop, ◌||◌, ◌==◌,
}
use fdbus.Deserializer.{
  Deserializer, Des, pure, ◌>>=◌, when, advance, set_error, overruns, peek, retrieve_basic_data,
  deserialize_scalar, get_bool, get_string, retrieve_text, open_buffer, last_byte, c_string,
}
use fdbus.Bytes.{object_value, copy_basic}
use fdbus.Deserializer.Reading.{>>=-eq}

-- No more than 2 ^ 16 bytes from the end of what an `int32_t` counts.
abbrev pub max_read : ℕ
max_read = 2 ^ 31 - 2 ^ 16

pub record Bounded (d : Deserializer) : Type 0 where
  pub told : d.size ≡ length d.buffer
  pub nonempty : 0 < d.size
  pub within : d.pos ≤ length d.buffer
  pub short : length d.buffer ≤ max_read

pub open_buffer-Bounded :
    (bs : List ℕ)
    → 0 < length bs
    → length bs ≤ max_read
    → Bounded (open_buffer (some bs) (length bs))
unfolding open_buffer
open_buffer-Bounded bs h k = record { told = refl; nonempty = h; within = omega arith; short = k }

-- `m` stays inside the buffer, whatever the bytes are.
pub record Safe {A : Type 0} (m : Des A) : Type 0 where
  pub at :
      (d : Deserializer)
      → Bounded d
      → (a : A) × (d' : Deserializer) × (m d ≡ some (a, d')) × Bounded d'

module _ {A : Type 0} where
  pub Safe-pure : (a : A) → Safe (pure a)
  unfolding pure
  Safe-pure a = record { at = λ d b. (a, d, refl, b) }

  pub Safe-when : (b : Bool) (m : Des A) (old : A) → Safe m → Safe (when b m old)
  unfolding when
  Safe-when true m old h = h
  Safe-when false m old h = Safe-pure old

pub Safe->>= :
    {A B : Type 0} (m : Des A) (f : A → Des B) → Safe m → ((a : A) → Safe (f a)) → Safe (m >>= f)
Safe->>= m f p q = record {
  at = λ d b.
      let (a, d', e, b') = p.at d b in
      let (c, d'', e', b'') = (q a).at d' b' in (c, d'', >>=-eq m f d e ∙ e', b'');
}

-- A read of `n` bytes that does not overrun finds them.
Bounded-peek :
    (n : ℕ) (d : Deserializer)
    → Bounded d
    → n < 2 ^ 16
    → overruns n d ≡ false
    → (bs : List ℕ) × (peek n d ≡ some bs) × Bounded (advance n d)
unfolding overruns peek advance
Bounded-peek n d b k h =
    let fits : d.pos + n ≤ length d.buffer =
      ground (arith, b.told, b.nonempty, b.within, b.short) in
    (
      take n (drop d.pos d.buffer),
      rw (leb-true fits) refl,
      record { told = b.told; nonempty = b.nonempty; within = fits; short = b.short },
    )

Bounded-set_error : (d : Deserializer) → Bounded d → Bounded (set_error d)
unfolding set_error
Bounded-set_error d b = record {
  told = b.told;
  nonempty = b.nonempty;
  within = b.within;
  short = b.short;
}

module _ (little : Bool) where
  retrieve_basic_data-peek :
      (w : ℕ) (d : Deserializer) (bs : List ℕ)
      → peek w d ≡ some bs
      → retrieve_basic_data little w d
        ≡ some (object_value little (copy_basic little bs), advance w d)
  unfolding retrieve_basic_data
  retrieve_basic_data-peek w d bs e = rw (e, retrieve_basic_data)

  pub Safe-scalar : (w old : ℕ) → w < 2 ^ 16 → Safe (deserialize_scalar little w old)
  unfolding deserialize_scalar
  Safe-scalar w old k = record {
    at = λ d b. elim (Bool-cases d.error) [
      | inl e ↦ (old, d, ground (arith, e), b)
      | inr e ↦ elim (Bool-cases (overruns w d)) [
        | inl o ↦ (old, set_error d, ground (arith, e, o), Bounded-set_error d b)
        | inr o ↦
            let (bs, got, b') = Bounded-peek w d b k o in
            (
              object_value little (copy_basic little bs),
              advance w d,
              ground (arith, e, o, retrieve_basic_data-peek w d bs got),
              b',
            )
      ]
    ];
  }

  pub Safe-bool : Safe (get_bool little)
  unfolding get_bool
  Safe-bool = Safe->>= _ _ (Safe-scalar 1 0 (omega arith)) (λ v. Safe-pure _)

pub Safe-text : (len : ℕ) (old : List ℕ) → len < 2 ^ 16 → Safe (retrieve_text len old)
unfolding retrieve_text
Safe-text len old k = record {
  at = λ d b. elim (Bool-cases (d.error || len == 0)) [
    | inl e ↦ (old, d, rw e, b)
    | inr e ↦ elim (Bool-cases (overruns len d)) [
      | inl o ↦ (old, set_error d, rw (e, o), Bounded-set_error d b)
      | inr o ↦
          let (bs, got, b') = Bounded-peek len d b k o in
          elim (Bool-cases (last_byte bs == 0)) [
            | inl z ↦ (c_string bs, advance len d, ground (arith, e, o, got, z), b')
            | inr z ↦ (old, set_error d, ground (arith, e, o, got, z), Bounded-set_error d b)
          ]
    ]
  ];
}

module _ (little : Bool) where
  pub Safe-string : (old : List ℕ) → Safe (get_string little old)
  unfolding get_string
  Safe-string old =
      Safe->>= _ _ (Safe-scalar little 2 0 (omega arith))
        (λ len. Safe-text (len % 2 ^ 16) old (omega arith))

module _ (little : Bool) where
  pub Safe-scalar_1 : (old : ℕ) → Safe (deserialize_scalar little 1 old)
  Safe-scalar_1 old = Safe-scalar little 1 old (omega arith)

  pub Safe-scalar_2 : (old : ℕ) → Safe (deserialize_scalar little 2 old)
  Safe-scalar_2 old = Safe-scalar little 2 old (omega arith)

  pub Safe-scalar_4 : (old : ℕ) → Safe (deserialize_scalar little 4 old)
  Safe-scalar_4 old = Safe-scalar little 4 old (omega arith)

  pub Safe-scalar_8 : (old : ℕ) → Safe (deserialize_scalar little 8 old)
  Safe-scalar_8 old = Safe-scalar little 8 old (omega arith)

pub ruleset safe_gets = (
  Safe->>=, Safe-pure, Safe-when, Safe-scalar_1, Safe-scalar_2, Safe-scalar_4, Safe-scalar_8,
  Safe-string, Safe-bool,
)
