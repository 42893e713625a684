-- ===== src/Subscription/Table.antt =====
-- What subscribing and unsubscribing do to the table, as its view `item_of` shows it.
use Prim.Native.String.{String}
use text.Mathlib.Text.{◌==◌ as str_eq}
use fdbus.Prelude.{ℕ, ◌≡◌, refl, Bool, true, ◌&&◌, Option, none, some, [], ◌==◌, if◌then◌else◌}
use fdbus.Prelude.Map.{
  lift-assign_at, lift-update_at, update_at-empty, or_empty, nat_eq, string_eq, find, erase,
  find-insert, find-erase, find-empty, update_at,
}
use fdbus.Subscription.{
  SubItemTable, ObjectTable, SessionTable, SubscribeItem, SubscribeTable, topic_or_any, subscribe,
  unsubscribe, erase_topic, item_of,
}

-- The key of a subscription is the one that an operation is about.
abbrev pub same : ℕ → ℕ → ℕ → String → ℕ → ℕ → ℕ → String → Bool
same msg session obj_id topic m s o t =
    (msg == m) && ((session == s) && ((obj_id == o) && str_eq topic t))

-- What tables of each depth show at the keys below them.
abbrev at_topic : String → SubItemTable → Option SubscribeItem
at_topic t items = find t items

abbrev at_object : ℕ → String → ObjectTable → Option SubscribeItem
at_object o t objects = at_topic t (or_empty (find o objects))

abbrev at_session : ℕ → ℕ → String → SessionTable → Option SubscribeItem
at_session s o t sessions = at_object o t (or_empty (find s sessions))

-- After a subscription, the entry of its own event, session, object and topic (a null topic being "") has
-- its flag, and every other entry is what it was.
pub item_of-subscribe :
    (session msg obj_id : ℕ) (topic : Option String) (flag : ℕ) (table : SubscribeTable) (m s o : ℕ)
    (t : String)
    → item_of m s o t (subscribe session msg obj_id topic flag table) ≡ (
        if same msg session obj_id (topic_or_any topic) m s o t
        then some (record { flag = flag })
        else item_of m s o t table)
unfolding item_of subscribe
item_of-subscribe session msg obj_id topic flag table m s o t =
    lift-assign_at (at_session s o t) _ _ _
      (lift-assign_at (at_object o t) _ _ _
        (lift-assign_at (at_topic t) _ _ _
          (find-insert (topic_or_any topic) t (record { flag = flag })) obj_id o)
        session s)
      msg m table

-- The topic that is unsubscribed: every one, if it is null.
abbrev pub covers : Option String → String → Bool
covers none t = true
covers (some topic) t = str_eq topic t

find-erase_topic :
    (topic : Option String) (t : String) (items : SubItemTable)
    → find t (erase_topic topic items) ≡ (if covers topic t then none else find t items)
unfolding erase_topic
find-erase_topic none t items = find-empty t
find-erase_topic (some topic) t items = find-erase topic t items

erase_topic-empty : (topic : Option String) → erase_topic topic [] ≡ []
unfolding erase_topic erase
erase_topic-empty none = refl
erase_topic-empty (some topic) = refl

-- After unsubscribing an event, a session, an object and a topic, or every topic if it is null, what they
-- cover is gone, and every other entry is what it was.
pub item_of-unsubscribe :
    (session msg obj_id : ℕ) (topic : Option String) (table : SubscribeTable) (m s o : ℕ)
    (t : String)
    → item_of m s o t (unsubscribe session msg obj_id topic table) ≡ (
        if (msg == m) && ((session == s) && ((obj_id == o) && covers topic t))
        then none
        else item_of m s o t table)
unfolding item_of unsubscribe
item_of-unsubscribe session msg obj_id topic table m s o t =
    lift-update_at (at_session s o t) _ _ _
      (λ sessions.
        lift-update_at (at_object o t) _ _ _
          (λ objects.
            lift-update_at (at_topic t) _ _ _ (find-erase_topic topic t) obj_id o objects
              (erase_topic-empty topic))
          session s sessions (update_at-empty obj_id (erase_topic topic)))
      msg m table (update_at-empty session (update_at obj_id (erase_topic topic)))
