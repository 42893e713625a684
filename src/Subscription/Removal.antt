-- ===== src/Subscription/Removal.antt =====
-- Taking a session or an object out of the table, and the shape that every operation keeps: distinct
-- keys, and no empty table inside.
use Prim.Native.String.{String}
use fdbus.Prelude.{
  ℕ, ◌≡◌, refl, inl, inr, Option, none, some, List, [], arith, ◌==◌, Option-cases, if◌then◌else◌,
}
use fdbus.Prelude.Map.{
  Eq, Map, nat_eq, string_eq, or_empty, find, insert, erase, change_all, Distinct, find-change_all,
  find-Values, find-erase, insert-Distinct, erase-Distinct, assign_at,
}
use fdbus.Prelude.Map.Tidy.{
  Tidy, Inner, erase-Tidy, assign_at-ne-nil, assign_at-Tidy, update_at-Tidy, change_all-Tidy,
  insert-ne-nil,
}
use fdbus.Subscription.{
  SubItemTable, ObjectTable, SessionTable, SubscribeTable, SubscribeItem, topic_or_any, subscribe,
  erase_topic, unsubscribe, unsubscribe_session, unsubscribe_object, item_of,
}

abbrev pub TidyObjects : ObjectTable → Type 0
TidyObjects = Tidy Distinct

abbrev pub TidySessions : SessionTable → Type 0
TidySessions = Tidy TidyObjects

pub record IsTidy (table : SubscribeTable) : Type 0 where
  pub tidy : Tidy TidySessions table

pub empty-IsTidy : IsTidy []
empty-IsTidy = record { tidy = (tt, tt) }

-- A subscription keeps a table tidy: its keys distinct at every depth, and no empty table inside.
pub subscribe-IsTidy :
    (session msg obj_id : ℕ) (topic : Option String) (flag : ℕ) (table : SubscribeTable)
    → IsTidy table
    → IsTidy (subscribe session msg obj_id topic flag table)
unfolding subscribe
subscribe-IsTidy session msg obj_id topic flag table h = record {
  tidy =
      assign_at-Tidy TidySessions into_session
        (λ sessions q.
          assign_at-Tidy TidyObjects into_object
            (λ objects r.
              assign_at-Tidy Distinct into_topic
                (λ items d. insert-Distinct (topic_or_any topic) item items d) obj_id objects tt
                (λ items. insert-ne-nil (topic_or_any topic) item items) r)
            session sessions (tt, tt) (λ objects. assign_at-ne-nil obj_id into_topic objects) q)
        msg table (tt, tt) (λ sessions. assign_at-ne-nil session into_object sessions) h.tidy;
}
  where
    item : SubscribeItem
    item = record { flag = flag }

    into_topic : SubItemTable → SubItemTable
    into_topic = insert (topic_or_any topic) item

    into_object : ObjectTable → ObjectTable
    into_object = assign_at obj_id into_topic

    into_session : SessionTable → SessionTable
    into_session = assign_at session into_object

erase_topic-Distinct :
    (topic : Option String) (items : SubItemTable)
    → Distinct items
    → Distinct (erase_topic topic items)
unfolding erase_topic
erase_topic-Distinct none items h = tt
erase_topic-Distinct (some topic) items h = erase-Distinct topic items h

-- Unsubscribing a topic or an object of a session keeps a table tidy: its keys distinct at every depth, and
-- no empty table inside.
pub unsubscribe-IsTidy :
    (session msg obj_id : ℕ) (topic : Option String) (table : SubscribeTable)
    → IsTidy table
    → IsTidy (unsubscribe session msg obj_id topic table)
unfolding unsubscribe
unsubscribe-IsTidy session msg obj_id topic table h = record {
  tidy =
      update_at-Tidy TidySessions _
        (update_at-Tidy TidyObjects _
          (update_at-Tidy Distinct _ (erase_topic-Distinct topic) obj_id) session)
        msg table h.tidy;
}

-- Unsubscribing a session keeps a table tidy: its keys distinct at every depth, and no empty table inside.
pub unsubscribe_session-IsTidy :
    (session : ℕ) (table : SubscribeTable)
    → IsTidy table
    → IsTidy (unsubscribe_session session table)
unfolding unsubscribe_session
unsubscribe_session-IsTidy session table h = record {
  tidy = change_all-Tidy TidySessions (erase session) (erase-Tidy TidyObjects session) table h.tidy;
}

-- Unsubscribing an object from every session keeps a table tidy: its keys distinct at every depth, and no
-- empty table inside.
pub unsubscribe_object-IsTidy :
    (obj_id : ℕ) (table : SubscribeTable) → IsTidy table → IsTidy (unsubscribe_object obj_id table)
unfolding unsubscribe_object
unsubscribe_object-IsTidy obj_id table h = record {
  tidy =
      change_all-Tidy TidySessions _
        (change_all-Tidy TidyObjects (erase obj_id) (erase-Tidy Distinct obj_id)) table h.tidy;
}

erase-empty : {K V : Type 0} ⦃e : Eq K⦄ (k : K) → erase {V = V} k [] ≡ []
unfolding erase
erase-empty k = refl

change_all-empty : {K A B : Type 0} (f : Map A B → Map A B) → change_all {K = K} f [] ≡ []
unfolding change_all
change_all-empty f = refl

-- The entry at `j` after an erasure, seen as a table that may be empty.
or_empty-erase :
    {K A : Type 0} ⦃e : Eq K⦄ (k j : K) (m : Map K (List A))
    → or_empty (find j (erase k m)) ≡ (if e.beq k j then [] else or_empty (find j m))
or_empty-erase ⦃e⦄ k j m = rw (find-erase k j m) (ground arith)

-- In a tidy table, after a session is unsubscribed, no entry of it is left, and every other entry is what
-- it was.
pub item_of-unsubscribe_session :
    (session : ℕ) (table : SubscribeTable) (m s o : ℕ) (t : String)
    → IsTidy table
    → item_of m s o t (unsubscribe_session session table)
      ≡ (if session == s then none else item_of m s o t table)
unfolding item_of unsubscribe_session find
item_of-unsubscribe_session session table m s o t h = ground (
  arith,
  find-change_all (erase session) (erase-empty session) m table h.tidy.0,
  or_empty-erase session s (or_empty (find m table)),
)

pub at_tidy :
    {K A B : Type 0} ⦃e : Eq K⦄ (Q : Map A B → Type 0) (k : K) (m : Map K (Map A B))
    → Q []
    → Tidy Q m
    → Q (or_empty (find k m))
at_tidy Q k m base h = elim (Option-cases (find k m)) [
  | inl missing ↦ rw missing base
  | inr (inner, present) ↦ rw present (find-Values (Inner Q) k inner m h.1 present).1
]

-- In a tidy table, after an object is unsubscribed, no entry of it is left in any session, and every other
-- entry is what it was.
pub item_of-unsubscribe_object :
    (obj_id : ℕ) (table : SubscribeTable) (m s o : ℕ) (t : String)
    → IsTidy table
    → item_of m s o t (unsubscribe_object obj_id table)
      ≡ (if obj_id == o then none else item_of m s o t table)
unfolding item_of unsubscribe_object find
item_of-unsubscribe_object obj_id table m s o t h =
    let sessions = or_empty (find m table) in
    ground (
      arith,
      find-change_all (change_all (erase obj_id)) (change_all-empty (erase obj_id)) m table
          h.tidy.0,
      find-change_all (erase obj_id) (erase-empty obj_id) s (or_empty (find m table))
          (at_tidy TidySessions m table (tt, tt) h.tidy).0,
      or_empty-erase obj_id o (or_empty (find s (or_empty (find m table)))),
    )
