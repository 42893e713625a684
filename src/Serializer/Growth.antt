-- ===== src/Serializer/Growth.antt =====
-- The output buffer grows before each store: nothing is written outside it.
use fdbus.Prelude.{
  ℕ, ◌+◌, ◌*◌, ◌^◌, ◌≤◌, ◌≡◌, refl, ◌⊎◌, inr, true, some, List, [], ◌++◌, arith, length, take,
  length-append, length-take, take-take_self, take-length, append-nil, append_assoc, sym, ap, ◌∙◌,
}
use fdbus.Serializer.{Serializer, new, capacity, output, add_memory, store, Ser, ◌>>◌, skip}

-- The longest message for which the sizes stay below 2 ^ 32.
abbrev pub max_message : ℕ
max_message = 2 ^ 30

pub record IsValid (s : Serializer) : Type 0 where
  pub stored : s.pos ≤ length s.buffer
  pub within : s.pos ≤ capacity s
  pub mode : (s.on_heap ≡ true) ⊎ (s.total_size ≡ 2048)
  pub bounded : s.total_size ≤ 2 * s.pos + 3072

pub new-IsValid : IsValid new
unfolding new capacity
new-IsValid = record {
  stored = omega arith;
  within = omega arith;
  mode = inr refl;
  bounded = omega arith;
}

-- Room for `n` more bytes, and the rest of the invariant as it will hold after them.
record HasRoom (n : ℕ) (s : Serializer) : Type 0 where
  stored : s.pos ≤ length s.buffer
  room : s.pos + n ≤ capacity s
  mode : (s.on_heap ≡ true) ⊎ (s.total_size ≡ 2048)
  bounded : s.total_size ≤ 2 * (s.pos + n) + 3072

add_memory-HasRoom :
    (n : ℕ) (s : Serializer) → IsValid s → s.pos + n ≤ max_message → HasRoom n (add_memory n s)
unfolding add_memory capacity
add_memory-HasRoom n s v h = record {
  stored = ground (arith, length-take s.pos s.buffer);
  room = ground arith;
  mode = ground arith;
  bounded = ground arith;
}

add_memory-pos : (n : ℕ) (s : Serializer) → (add_memory n s).pos ≡ s.pos
unfolding add_memory
add_memory-pos n s = ground arith

add_memory-take :
    (n : ℕ) (s : Serializer) → take s.pos (add_memory n s).buffer ≡ take s.pos s.buffer
unfolding add_memory
add_memory-take n s = ground (arith, take-take_self s.pos s.buffer)

-- What a successful store of `bs` makes of the output.
pub record Appended (s : Serializer) (bs : List ℕ) (t : Serializer) : Type 0 where
  pub valid : IsValid t
  pub at_pos : t.pos ≡ s.pos + length bs
  pub out : output t ≡ output s ++ bs

store-Appended :
    (bs : List ℕ) (s : Serializer)
    → HasRoom (length bs) s
    → s.pos + length bs ≤ max_message
    → (t : Serializer) × (store bs s ≡ some t) × Appended s bs t
unfolding store output capacity
store-Appended bs s r h = (
  record s { buffer = take s.pos s.buffer ++ bs; pos = s.pos + length bs },
  ground (arith, r.room),
  record {
    valid = record {
      stored = omega (arith, long);
      within = r.room;
      mode = r.mode;
      bounded = r.bounded;
    };
    at_pos = refl;
    out = take-length (take s.pos s.buffer ++ bs) (s.pos + length bs) long;
  },
)
  where
    long : length (take s.pos s.buffer ++ bs) ≡ s.pos + length bs
    long =
        omega (arith, length-append (take s.pos s.buffer) bs, length-take s.pos s.buffer r.stored)

-- In a valid serializer, storing bytes after the buffer has grown for them succeeds, appends them to the
-- output and leaves a valid serializer, as long as the position stays within 2 ^ 30.
pub store_grown :
    (bs : List ℕ) (s : Serializer)
    → IsValid s
    → s.pos + length bs ≤ max_message
    → (t : Serializer) × (store bs (add_memory (length bs) s) ≡ some t) × Appended s bs t
unfolding output
store_grown bs s v h =
    let e = add_memory-pos (length bs) s in
    let (t, stores, a) =
      store-Appended bs (add_memory (length bs) s) (add_memory-HasRoom (length bs) s v h)
        (omega arith) in
    (
      t,
      stores,
      record {
        valid = a.valid;
        at_pos = omega (arith, a.at_pos, e);
        out =
            a.out
            ∙ ap (λ l. l ++ bs)
                (ap (λ p. take p (add_memory (length bs) s).buffer) e
                  ∙ add_memory-take (length bs) s);
      },
    )

-- `m` appends the bytes `bs` to the output of every valid serializer with room for them.
pub record Appends (m : Ser) (bs : List ℕ) : Type 0 where
  pub at :
      (s : Serializer)
      → IsValid s
      → s.pos + length bs ≤ max_message
      → (t : Serializer) × (m s ≡ some t) × Appended s bs t

pub Appends-skip : Appends skip []
unfolding skip
Appends-skip = record {
  at = λ s v h.
      (s, refl, record { valid = v; at_pos = omega arith; out = sym (append-nil (output s)) });
}

>>-eq : (m n : Ser) (s : Serializer) {t : Serializer} → m s ≡ some t → (m >> n) s ≡ n t
unfolding ◌>>◌
>>-eq m n s e = rw (e, ◌>>◌)

pub Appends->> :
    (m n : Ser) (bs cs : List ℕ) → Appends m bs → Appends n cs → Appends (m >> n) (bs ++ cs)
Appends->> m n bs cs p q = record {
  at = λ s v h.
      let long = length-append bs cs in
      let (t, e, a) = p.at s v (omega arith) in
      let (u, e', b) = q.at t a.valid (omega (arith, a.at_pos)) in
      (
        u,
        >>-eq m n s e ∙ e',
        record {
          valid = b.valid;
          at_pos = omega (arith, a.at_pos, b.at_pos);
          out = b.out ∙ ap (λ l. l ++ cs) a.out ∙ append_assoc (output s) bs cs;
        },
      );
}
