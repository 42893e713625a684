-- ===== src/LogCache.antt =====
-- CFdbLogCache (log/CFdbLogCache.h, log/CFdbLogCache.cpp): the bounded queue of log records that the
-- log server keeps. `item_size` is `sizeof(CDataItem)`, which the platform fixes. `mCacheSize` is the
-- bit pattern of an `int32_t`, as are the sums that the code compares; the maximum and the sizes of records
-- are not negative.
pub mod Loop
pub mod Bounds
use fdbus.Prelude.{
  ℕ, zero, suc, Option, none, some, ◌+◌, ◌-◌, ◌%◌, ◌^◌, Bool, true, false, ◌||◌, ◌&&◌, List, [],
  ◌∷◌, ◌++◌, length, take, ltb, leb, ◌==◌, if◌then◌else◌,
}

pub record DataItem : Type 0 where
  pub log_data : List ℕ
  pub size : ℕ
  pub code : ℕ
  pub id : ℕ

abbrev pub is_empty : List DataItem → Bool
is_empty [] = true
is_empty (item ∷ items) = false

-- The front of the queue is the head of the list.
pub record LogCache : Type 0 where
  pub cache : List DataItem
  pub max_size : ℕ
  pub cache_size : ℕ
  pub data_id : ℕ
  pub stop_if_full : Bool
  pub full : Bool

-- A negative size asks for none.
unfoldable pub new : ℕ → Bool → LogCache
new max_size stop_if_full = record {
  cache = [];
  max_size = max_size;
  cache_size = 0;
  data_id = 0;
  stop_if_full = stop_if_full;
  full = false;
}

unfoldable pub remove_all : LogCache → LogCache
remove_all c = record c { cache = []; full = false; cache_size = 0 }

-- `mCacheSize + need > limit`: a sum of 2 ^ 31 or more is negative.
abbrev pub exceeds : ℕ → ℕ → ℕ → Bool
exceeds limit need cache_size =
    let sum = (cache_size + need) % 2 ^ 32 in ltb sum (2 ^ 31) && ltb limit sum

-- `mCacheSize -= used`
abbrev pub taken_off : ℕ → ℕ → ℕ
taken_off used cache_size = (cache_size + (2 ^ 32 - used % 2 ^ 32)) % 2 ^ 32

module _ (item_size : ℕ) where
  -- `mCacheSize` going below 0 empties the cache.
  unfoldable pub pop_one_of : List DataItem → LogCache → LogCache
  unfolding remove_all
  pop_one_of [] c = c
  pop_one_of (head ∷ rest) c =
      if leb (2 ^ 31) (taken_off (head.size + item_size) c.cache_size)
      then remove_all c
      else record c { cache = rest; cache_size = taken_off (head.size + item_size) c.cache_size }

  unfoldable pub pop_one : LogCache → LogCache
  unfolding pop_one_of
  pop_one c = pop_one_of c.cache c

  -- `while (mCacheSize + need > limit) { popOne(); if (mCache.empty()) break; }`, where `flag` is what
  -- a round first sets `mFull` to. One round for each record and one for an empty cache are enough.
  unfoldable pub pop_until : (LogCache → Bool) → ℕ → ℕ → ℕ → LogCache → LogCache
  unfolding pop_one
  pop_until flag need limit zero c = c
  pop_until flag need limit (suc fuel) c =
      let c' = pop_one (record c { full = flag c }) in
      let more = pop_until flag need limit fuel c' in
      if exceeds limit need c.cache_size then (if is_empty c'.cache then c' else more) else c

  unfoldable pub mark_full : LogCache → LogCache
  mark_full c = record c { full = true }

  unfoldable pub append : List ℕ → ℕ → ℕ → LogCache → LogCache
  append log_data size code c = record c {
    cache =
        c.cache
        ++ record { log_data = take size log_data; size = size; code = code; id = c.data_id } ∷ [];
    cache_size = (c.cache_size + (size + item_size)) % 2 ^ 32;
    data_id = (c.data_id + 1) % 2 ^ 32;
  }

  -- A size that is not positive is ignored.
  unfoldable pub push : List ℕ → ℕ → ℕ → LogCache → LogCache
  unfolding pop_until mark_full append
  push log_data size code c =
      if c.max_size == 0 || size == 0
      then c
      else if c.stop_if_full
      then (if exceeds c.max_size (size + item_size) c.cache_size
          then mark_full c
          else append log_data size code c)
      else append log_data size code
          (pop_until (λ d. true) (size + item_size) c.max_size (suc (length c.cache)) c)

  unfoldable pub resize : ℕ → LogCache → LogCache
  unfolding pop_until
  resize max_size c =
      if max_size == c.max_size
      then c
      else record (pop_until (λ d. d.full) 0 max_size (suc (length c.cache)) c) {
        max_size = max_size;
      }

-- `dump(log_producer)`: every record goes out, the oldest first, and the cache starts anew.
unfoldable pub dump_all : LogCache → List DataItem × LogCache
dump_all c = (c.cache, record c { cache = []; cache_size = 0; data_id = 0; full = false })

-- `dump(object, session, size)`: what is sent once `sent` bytes have been; `limit` is `none` for a
-- negative size, and `serializes` says for which records a message can be made.
unfoldable pub dump_from : (DataItem → Bool) → Option ℕ → ℕ → List DataItem → List DataItem
dump_from serializes limit sent [] = []
dump_from serializes limit sent (item ∷ items) =
    let skipped = dump_from serializes limit sent items in
    let more = item ∷ dump_from serializes limit (sent + item.size) items in
    if serializes item
    then (if elim limit [ none ↦ false | some size ↦ ltb size (sent + item.size) ]
        then item ∷ []
        else more)
    else skipped

unfoldable pub dump_some : (DataItem → Bool) → Option ℕ → LogCache → List DataItem
unfolding dump_from
dump_some serializes none c = dump_from serializes none 0 c.cache
dump_some serializes (some zero) c = []
dump_some serializes (some (suc n)) c = dump_from serializes (some (suc n)) 0 c.cache
