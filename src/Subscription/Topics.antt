-- ===== src/Subscription/Topics.antt =====
-- The topics that are subscribed: CEventSubscribeHandle::getSubscribeTable (fdbus/CEventSubscribeHandle.cpp).
-- A std::set of topics is the list of what is inserted into it, whose order and repetitions mean nothing.
use Prim.Native.String.{String}
use fdbus.Prelude.{ℕ, ◌≡◌, refl, subst, ◌↔◌, inl, inr, some, List, [], ◌∷◌, ◌++◌}
use fdbus.Prelude.Map.{Map, nat_eq, string_eq, find, or_empty, Distinct}
use fdbus.Prelude.Map.Entries.{Has, Has-append, append-Has, In, find-In, In-find}
use fdbus.Subscription.{
  SubscribeItem, SubItemTable, ObjectTable, SessionTable, SubscribeTable, item_of,
}
use fdbus.Subscription.Removal.{IsTidy, TidySessions, TidyObjects, at_tidy}
use fdbus.Subscription.Reach.{present}

unfoldable pub topics_of_items : SubItemTable → List String
topics_of_items [] = []
topics_of_items ((topic, item) ∷ subitems) = topic ∷ topics_of_items subitems

unfoldable pub topics_of_objects : ObjectTable → List String
unfolding topics_of_items
topics_of_objects [] = []
topics_of_objects ((object_id, subitems) ∷ objects) =
    topics_of_items subitems ++ topics_of_objects objects

unfoldable pub topics_of_sessions : SessionTable → List String
unfolding topics_of_objects
topics_of_sessions [] = []
topics_of_sessions ((session, objects) ∷ sessions) =
    topics_of_objects objects ++ topics_of_sessions sessions

-- `getSubscribeTable(table)`.
unfoldable pub all_topics : SubscribeTable → Map ℕ (List String)
unfolding topics_of_sessions
all_topics [] = []
all_topics ((code, sessions) ∷ table) = (code, topics_of_sessions sessions) ∷ all_topics table

-- `getSubscribeTable(code, topics)`.
unfoldable pub event_topics : ℕ → SubscribeTable → List String
unfolding topics_of_sessions
event_topics code table = topics_of_sessions (or_empty (find code table))

-- `getSubscribeTable(code, session, topic_tbl)`.
unfoldable pub session_topics : ℕ → ℕ → SubscribeTable → List String
unfolding topics_of_objects
session_topics code session table =
    topics_of_objects (or_empty (find session (or_empty (find code table))))

items_iff :
    (t : String) (items : SubItemTable)
    → (Has t (topics_of_items items) → (i : SubscribeItem) × In t i items)
      × ((i : SubscribeItem) → In t i items → Has t (topics_of_items items))
unfolding topics_of_items
items_iff t [] = (λ h. absurd h, λ i h. absurd h)
items_iff t ((u, j) ∷ items) = (
  λ h. elim h [
    | inl e ↦ (j, inl (e, refl))
    | inr r ↦ let (i, at) = (items_iff t items).0 r in (i, inr at)
  ],
  λ i h. elim h [ inl e ↦ inl e.0 | inr r ↦ inr ((items_iff t items).1 i r) ],
)

objects_iff :
    (t : String) (objects : ObjectTable)
    → (Has t (topics_of_objects objects)
        → (o : ℕ) × (items : SubItemTable) × (In o items objects) × Has t (topics_of_items items))
      × ((o : ℕ) (items : SubItemTable)
          → In o items objects
          → Has t (topics_of_items items)
          → Has t (topics_of_objects objects))
unfolding topics_of_objects
objects_iff t [] = (λ h. absurd h, λ o items h. absurd h)
objects_iff t ((p, its) ∷ objects) = (
  λ h. elim (Has-append t (topics_of_items its) (topics_of_objects objects) h) [
    | inl here ↦ (p, its, inl (refl, refl), here)
    | inr r ↦ let (o, items, at, there) = (objects_iff t objects).0 r in (o, items, inr at, there)
  ],
  λ o items at there. append-Has t (topics_of_items its) (topics_of_objects objects) (elim at [
    | inl e ↦ inl (subst (λ m. Has t (topics_of_items m)) e.1 there)
    | inr r ↦ inr ((objects_iff t objects).1 o items r there)
  ]),
)

sessions_iff :
    (t : String) (sessions : SessionTable)
    → (Has t (topics_of_sessions sessions)
        → (s : ℕ) × (objects : ObjectTable) × (In s objects sessions)
          × Has t (topics_of_objects objects))
      × ((s : ℕ) (objects : ObjectTable)
          → In s objects sessions
          → Has t (topics_of_objects objects)
          → Has t (topics_of_sessions sessions))
unfolding topics_of_sessions
sessions_iff t [] = (λ h. absurd h, λ o items h. absurd h)
sessions_iff t ((p, its) ∷ sessions) = (
  λ h. elim (Has-append t (topics_of_objects its) (topics_of_sessions sessions) h) [
    | inl here ↦ (p, its, inl (refl, refl), here)
    | inr r ↦ let (o, items, at, there) = (sessions_iff t sessions).0 r in (o, items, inr at, there)
  ],
  λ o items at there. append-Has t (topics_of_objects its) (topics_of_sessions sessions) (elim at [
    | inl e ↦ inl (subst (λ m. Has t (topics_of_objects m)) e.1 there)
    | inr r ↦ inr ((sessions_iff t sessions).1 o items r there)
  ]),
)

objects_view :
    (t : String) (objects : ObjectTable)
    → TidyObjects objects
    → Has t (topics_of_objects objects)
      ↔ ((o : ℕ) × (i : SubscribeItem) × (find t (or_empty (find o objects)) ≡ some i))
objects_view t objects tidy = (
  λ h.
      let (o, items, at, there) = (objects_iff t objects).0 h in
      let e : find o objects ≡ some items = In-find o items objects tidy.0 at in
      let d : Distinct items = rw e at (at_tidy Distinct o objects tt tidy) in
      let (i, in_items) = (items_iff t items).0 there in
      (o, i, rw e (In-find t i items d in_items)),
  λ w.
      let (o, i, e) = w in
      (objects_iff t objects).1 o _ (find-In o _ objects (present t i (find o objects) e))
        ((items_iff t _).1 i (find-In t i _ e)),
)

-- In a tidy table, the topics of an event and a session are exactly those that some object of the session
-- subscribes the event under.
pub session_topics_iff :
    (code session : ℕ) (table : SubscribeTable)
    → IsTidy table
    → (t : String)
    → Has t (session_topics code session table)
      ↔ ((o : ℕ) × (i : SubscribeItem) × (item_of code session o t table ≡ some i))
unfolding session_topics item_of
session_topics_iff code session table h t =
    let sessions = or_empty (find code table) in
    let tidy : TidySessions sessions = at_tidy TidySessions code table (tt, tt) h.tidy in
    objects_view t (or_empty (find session sessions))
      (at_tidy TidyObjects session sessions (tt, tt) tidy)

-- In a tidy table, the topics of an event are exactly those that some object of some session subscribes the
-- event under.
pub event_topics_iff :
    (code : ℕ) (table : SubscribeTable)
    → IsTidy table
    → (t : String)
    → Has t (event_topics code table)
      ↔ ((s o : ℕ) × (i : SubscribeItem) × (item_of code s o t table ≡ some i))
unfolding event_topics item_of
event_topics_iff code table h t =
    let sessions = or_empty (find code table) in
    let tidy : TidySessions sessions = at_tidy TidySessions code table (tt, tt) h.tidy in
    (
      λ has.
          let (s, objects, at, there) = (sessions_iff t sessions).0 has in
          let e : find s sessions ≡ some objects = In-find s objects sessions tidy.0 at in
          let (o, i, f) =
            (objects_view t objects (rw e at (at_tidy TidyObjects s sessions (tt, tt) tidy))).0
              there in
          (s, o, i, rw e f),
      λ w.
          let (s, o, i, e) = w in
          let at_object = present t i (find o (or_empty (find s sessions))) e in
          let at_session = present o _ (find s sessions) at_object in
          (sessions_iff t sessions).1 s _ (find-In s _ sessions at_session)
            ((objects_view t _ (at_tidy TidyObjects s sessions (tt, tt) tidy)).1 (o, i, e)),
    )
