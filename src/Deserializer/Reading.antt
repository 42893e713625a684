-- ===== src/Deserializer/Reading.antt =====
-- Reading back bytes that stand at the position of the input.
use fdbus.Prelude.{
  ℕ, ◌+◌, ◌%◌, ◌^◌, ◌≤◌, ◌<◌, ◌≡◌, ◌⊎◌, inr, refl, sym, subst, ap, ◌∙◌, Bool, true, false, none,
  some, List, [], ◌∷◌, ◌++◌, arith, length, take, drop, length-append, length-drop, take-append,
  drop-append, drop-add, append_assoc, append-nil, leb-true, All, if◌then◌else◌,
}
use fdbus.Bytes.{bytes, length-bytes, object_value-copy_basic}
use fdbus.Deserializer.{
  Deserializer, Des, pure, ◌>>=◌, when, advance, overruns, peek, retrieve_basic_data,
  deserialize_scalar, get_bool, get_string, retrieve_text, c_string, last_byte, open_buffer,
}

-- The input has met no error, and `bs` is what is left of it.
pub record Ready (d : Deserializer) (bs : List ℕ) : Type 0 where
  pub clean : d.error ≡ false
  pub ahead : drop d.pos d.buffer ≡ bs
  pub told : (d.size ≡ 0) ⊎ (d.size ≡ length d.buffer)
  pub within : d.pos ≤ length d.buffer

pub open_buffer-Ready : (bs : List ℕ) → Ready (open_buffer (some bs) (length bs)) bs
unfolding open_buffer
open_buffer-Ready bs = record { clean = refl; ahead = refl; told = inr refl; within = omega arith }

Ready-fits :
    (d : Deserializer) (bs rest : List ℕ)
    → Ready d (bs ++ rest)
    → d.pos + length bs ≤ length d.buffer
Ready-fits d bs rest r =
    omega (arith, length-drop d.pos d.buffer, ap length r.ahead, length-append bs rest, r.within)

pub Ready-advance :
    (d : Deserializer) (bs rest : List ℕ)
    → Ready d (bs ++ rest)
    → Ready (advance (length bs) d) rest
unfolding advance
Ready-advance d bs rest r = record {
  clean = r.clean;
  ahead =
      drop-add d.pos (length bs) _ d.buffer refl
      ∙ ap (drop (length bs)) r.ahead
      ∙ drop-append bs rest (length bs) refl;
  told = r.told;
  within = Ready-fits d bs rest r;
}

-- A read of more bytes than there are overruns, if the length was told.
pub Ready-overruns_short :
    (d : Deserializer) (bs rest : List ℕ) (n : ℕ)
    → Ready d (bs ++ rest)
    → d.size ≡ length d.buffer
    → 0 < length bs
    → length rest < n
    → length d.buffer + n < 2 ^ 31
    → overruns n (advance (length bs) d) ≡ true
unfolding overruns advance
Ready-overruns_short d bs rest n r told some_read short small =
    let left : length d.buffer ≡ d.pos + (length bs + length rest) =
      omega
        (arith, length-drop d.pos d.buffer, ap length r.ahead, length-append bs rest, r.within) in
    ground (arith, left, told)

pub Ready-peek :
    (d : Deserializer) (bs rest : List ℕ) → Ready d (bs ++ rest) → peek (length bs) d ≡ some bs
unfolding peek
Ready-peek d bs rest r =
    rw (leb-true (Ready-fits d bs rest r))
      (ap some (ap (take (length bs)) r.ahead ∙ take-append bs rest (length bs) refl))

pub Ready-overruns :
    (d : Deserializer) (bs rest : List ℕ) → Ready d (bs ++ rest) → overruns (length bs) d ≡ false
unfolding overruns
Ready-overruns d bs rest r = ground (arith, Ready-fits d bs rest r, r.told)

-- `m` reads the bytes `bs` as `a`, whatever follows them.
pub record Reads {A : Type 0} (m : Des A) (bs : List ℕ) (a : A) : Type 0 where
  pub at :
      (d : Deserializer) (rest : List ℕ)
      → Ready d (bs ++ rest)
      → m d ≡ some (a, advance (length bs) d)

module _ {A : Type 0} where
  pub Reads-pure : (a : A) → Reads (pure a) [] a
  unfolding pure advance
  Reads-pure a = record { at = λ d rest r. ground arith }

  pub Reads-when :
      (b : Bool) (m : Des A) (old a : A) (bs : List ℕ)
      → (b ≡ true → Reads m bs a)
      → Reads (when b m old) (if b then bs else []) (if b then a else old)
  unfolding when
  Reads-when true m old a bs h = h refl
  Reads-when false m old a bs h = Reads-pure old

pub >>=-eq :
    {A B : Type 0} (m : Des A) (f : A → Des B) (d : Deserializer) {a : A} {d' : Deserializer}
    → m d ≡ some (a, d')
    → (m >>= f) d ≡ f a d'
unfolding ◌>>=◌
>>=-eq m f d e = rw (e, ◌>>=◌)

pub >>=-none :
    {A B : Type 0} (m : Des A) (f : A → Des B) (d : Deserializer) → m d ≡ none → (m >>= f) d ≡ none
unfolding ◌>>=◌
>>=-none m f d e = rw (e, ◌>>=◌)

advance-advance : (m n k : ℕ) (d : Deserializer) → m + n ≡ k → advance n (advance m d) ≡ advance k d
unfolding advance
advance-advance m n k d e = ground arith

pub Reads->>= :
    {A B : Type 0} (m : Des A) (f : A → Des B) (a : A) (b : B) (bs cs : List ℕ)
    → Reads m bs a
    → Reads (f a) cs b
    → Reads (m >>= f) (bs ++ cs) b
Reads->>= m f a b bs cs p q = record {
  at = λ d rest r.
      let r' : Ready d (bs ++ (cs ++ rest)) = rw (← append_assoc bs cs rest) r in
      >>=-eq m f d (p.at d (cs ++ rest) r')
      ∙ q.at (advance (length bs) d) rest (Ready-advance d bs (cs ++ rest) r')
      ∙ ap (λ t. some (b, t))
          (advance-advance (length bs) (length cs) _ d (sym (length-append bs cs)));
}

module _ (little : Bool) where
  retrieve_basic_data-eq :
      (w n : ℕ) (d : Deserializer)
      → n < 256 ^ w
      → peek w d ≡ some (bytes w n)
      → retrieve_basic_data little w d ≡ some (n, advance w d)
  unfolding retrieve_basic_data
  retrieve_basic_data-eq w n d h e =
      rw (e, retrieve_basic_data)
        (ap (λ v. some (v, advance w d)) (object_value-copy_basic little w n h))

  pub Reads-scalar :
      (w old n : ℕ) → n < 256 ^ w → Reads (deserialize_scalar little w old) (bytes w n) n
  unfolding deserialize_scalar
  Reads-scalar w old n h = record {
    at = λ d rest r.
        let len = length-bytes w n in
        let over : overruns w d ≡ false = rw len at (Ready-overruns d (bytes w n) rest r) in
        let got : peek w d ≡ some (bytes w n) = rw len at (Ready-peek d (bytes w n) rest r) in
        let value = retrieve_basic_data-eq w n d h got in
        rw len (ground (arith, r.clean, over, value));
  }

  pub Reads-bool : (b : Bool) → Reads (get_bool little) (bytes 1 (if b then 1 else 0)) b
  unfolding get_bool
  Reads-bool true =
      rw (← append-nil (bytes 1 1))
        (Reads->>= _ _ 1 true (bytes 1 1) [] (Reads-scalar 1 0 1 (omega arith)) (Reads-pure true))
  Reads-bool false =
      rw (← append-nil (bytes 1 0))
        (Reads->>= _ _ 0 false (bytes 1 0) [] (Reads-scalar 1 0 0 (omega arith)) (Reads-pure false))

-- A text without NUL comes back from its bytes and terminator.
abbrev pub NoNul : List ℕ → Type 0
NoNul = All (λ c. 0 < c)

c_string-append : (cs : List ℕ) → NoNul cs → c_string (cs ++ 0 ∷ []) ≡ cs
unfolding c_string
c_string-append [] h = refl
c_string-append (c ∷ cs) h = ground (arith, c_string-append cs h.1)

last_byte-append : (cs : List ℕ) → last_byte (cs ++ 0 ∷ []) ≡ 0
unfolding last_byte
last_byte-append [] = refl
last_byte-append (b ∷ []) = refl
last_byte-append (b ∷ c ∷ cs) = last_byte-append (c ∷ cs)

Reads-text :
    (len : ℕ) (old cs : List ℕ)
    → NoNul cs
    → length cs + 1 ≡ len
    → Reads (retrieve_text len old) (cs ++ 0 ∷ []) cs
unfolding retrieve_text
Reads-text len old cs h e = record {
  at = λ d rest r.
      let long : length (cs ++ 0 ∷ []) ≡ len = omega (arith, length-append cs (0 ∷ [])) in
      let over : overruns len d ≡ false = rw long at (Ready-overruns d (cs ++ 0 ∷ []) rest r) in
      let got : peek len d ≡ some (cs ++ 0 ∷ []) =
        rw long at (Ready-peek d (cs ++ 0 ∷ []) rest r) in
      rw long (ground (arith, r.clean, over, got, c_string-append cs h, last_byte-append cs));
}

mod_lem : (n : ℕ) → n < 2 ^ 16 → n % 2 ^ 16 ≡ n
mod_lem n h = omega arith

module _ (little : Bool) where
  -- What `put_string` writes of a text that its length field can count.
  pub Reads-string :
      (old cs : List ℕ)
      → NoNul cs
      → length cs + 1 < 2 ^ 16
      → Reads (get_string little old) (bytes 2 (length cs + 1) ++ (cs ++ 0 ∷ [])) cs
  unfolding get_string
  Reads-string old cs h short =
      Reads->>= _ _ (length cs + 1) cs _ _ (Reads-scalar little 2 0 (length cs + 1) (omega arith)) (
        subst (λ len. Reads (retrieve_text len old) (cs ++ 0 ∷ []) cs)
          (sym (mod_lem (length cs + 1) short)) (Reads-text (length cs + 1) old cs h refl))
