-- ===== src/Subscription.antt =====
-- CEventSubscribeHandle (public/fdbus/CEventSubscribeHandle.h, fdbus/CEventSubscribeHandle.cpp): who
-- subscribes which event, and whom a broadcast reaches. A session is the number of its object,
-- and `sid_of` its `sid()`; a message that is sent is a delivery.
pub mod Table
pub mod Removal
pub mod Emptied
pub mod Broadcast
pub mod Reach
pub mod Topics
pub mod Steps
use Prim.Native.Nat.{bit_and}
use Prim.Native.String.{String}
use text.Mathlib.Text.{◌==◌ as str_eq}
use fdbus.Prelude.{
  ℕ, ◌%◌, ◌^◌, Bool, true, false, not, ◌&&◌, ◌||◌, Option, none, some, List, [], ◌∷◌, ◌++◌, ◌==◌,
  if◌then◌else◌,
}
use fdbus.Prelude.Bits.{has_bit}
use fdbus.Prelude.Map.{
  Map, or_empty, Eq, assign_at, nat_eq, string_eq, find, insert, erase, is_empty, change_all,
  update_at,
}

pub record SubscribeItem : Type 0 where
  pub flag : ℕ

abbrev pub SubItemTable : Type 0
SubItemTable = Map String SubscribeItem

abbrev pub ObjectTable : Type 0
ObjectTable = Map ℕ SubItemTable

abbrev pub SessionTable : Type 0
SessionTable = Map ℕ ObjectTable

abbrev pub SubscribeTable : Type 0
SubscribeTable = Map ℕ SessionTable

abbrev pub is_some : {A : Type 0} → Option A → Bool
is_some none = false
is_some (some a) = true

-- `if (!topic) { topic = ""; }`
abbrev pub topic_or_any : Option String → String
topic_or_any none = ""
topic_or_any (some topic) = topic

-- `mEventSubscribeTable[msg][session][obj_id][topic]` makes the tables that are missing.
unfoldable pub subscribe : ℕ → ℕ → ℕ → Option String → ℕ → SubscribeTable → SubscribeTable
unfolding assign_at
subscribe session msg obj_id topic flag =
    assign_at msg
      (assign_at session (assign_at obj_id (insert (topic_or_any topic) (record { flag = flag }))))

-- The topic is erased, or with a null topic the whole object.
unfoldable pub erase_topic : Option String → SubItemTable → SubItemTable
erase_topic none subitems = []
erase_topic (some topic) subitems = erase topic subitems

unfoldable pub unsubscribe : ℕ → ℕ → ℕ → Option String → SubscribeTable → SubscribeTable
unfolding update_at erase_topic
unsubscribe session msg obj_id topic =
    update_at msg (update_at session (update_at obj_id (erase_topic topic)))

unfoldable pub unsubscribe_session : ℕ → SubscribeTable → SubscribeTable
unfolding change_all
unsubscribe_session session = change_all (erase session)

unfoldable pub unsubscribe_object : ℕ → SubscribeTable → SubscribeTable
unfolding change_all
unsubscribe_object obj_id = change_all (change_all (erase obj_id))

-- A message that is broadcast: the session and the object that it comes from, and its topic.
pub record Message : Type 0 where
  pub session : ℕ
  pub object_id : ℕ
  pub topic : String
  pub no_reflect : Bool

-- `sendMessage(msg)` on a session, the message addressed to an object.
pub record Delivery : Type 0 where
  pub session : ℕ
  pub object_id : ℕ

-- FDB_SUBFLAG_NO_REFLECT
abbrev pub no_reflect_flag : ℕ
no_reflect_flag = 1

module _ (sid_of : ℕ → ℕ) (sender_sid sender_oid : ℕ) (no_reflect : Bool) where
  -- The message does not go back to its sender, if that is asked for.
  unfoldable pub reflected : ℕ → ℕ → SubscribeItem → Bool
  reflected session object_id item =
      no_reflect
      && (has_bit no_reflect_flag item.flag
          && ((sender_sid == sid_of session) && (sender_oid == object_id)))

  unfoldable pub broadcast_one_msg : ℕ → ℕ → SubscribeItem → List Delivery
  unfolding reflected
  broadcast_one_msg session object_id item =
      if reflected session object_id item
      then []
      else record { session = session; object_id = object_id } ∷ []

  -- The deliveries for the entry that was found, and whether there is one.
  unfoldable pub broadcast_found : ℕ → ℕ → Option SubscribeItem → List Delivery × Bool
  unfolding broadcast_one_msg
  broadcast_found session object_id none = ([], false)
  broadcast_found session object_id (some item) = (broadcast_one_msg session object_id item, true)

  abbrev pub both : List Delivery × Bool → List Delivery × Bool → List Delivery × Bool
  both a b = (a.0 ++ b.0, a.1 || b.1)

  -- The entry of the topic, and then, for a topic that is not "", the entry of "".
  unfoldable pub broadcast_object : String → ℕ → ℕ → SubItemTable → List Delivery × Bool
  unfolding broadcast_found
  broadcast_object topic session object_id subitems =
      both (broadcast_found session object_id (find topic subitems)) (
        if str_eq topic ""
        then ([], false)
        else broadcast_found session object_id (find "" subitems))

  unfoldable pub broadcast_objects : String → ℕ → ObjectTable → List Delivery × Bool
  unfolding broadcast_object
  broadcast_objects topic session [] = ([], false)
  broadcast_objects topic session ((object_id, subitems) ∷ objects) =
      both (broadcast_object topic session object_id subitems)
        (broadcast_objects topic session objects)

  unfoldable pub broadcast_sessions : String → SessionTable → List Delivery × Bool
  unfolding broadcast_objects
  broadcast_sessions topic [] = ([], false)
  broadcast_sessions topic ((session, objects) ∷ sessions) =
      both (broadcast_objects topic session objects) (broadcast_sessions topic sessions)

  -- To one session: only the objects of the class of the message, and "" only where the topic fails.
  unfoldable pub broadcast_session_object : String → ℕ → ℕ → SubItemTable → List Delivery × Bool
  unfolding broadcast_found
  broadcast_session_object topic session object_id subitems = elim (find topic subitems) [
    | some item ↦ broadcast_found session object_id (some item)
    | none ↦
        if str_eq topic ""
        then ([], false)
        else broadcast_found session object_id (find "" subitems)
  ]

  -- `class` is that of `msg->objectId()`, which is each time set to an object of the same class.
  unfoldable pub broadcast_session_objects : String → ℕ → ℕ → ObjectTable → List Delivery × Bool
  unfolding broadcast_session_object
  broadcast_session_objects topic class session [] = ([], false)
  broadcast_session_objects topic class session ((object_id, subitems) ∷ objects) =
      both
        (if object_id % 2 ^ 16 == class
          then broadcast_session_object topic session object_id subitems
          else ([], false))
        (broadcast_session_objects topic class session objects)

-- `broadcast(msg, event)`
unfoldable pub broadcast : (ℕ → ℕ) → Message → ℕ → SubscribeTable → List Delivery × Bool
unfolding broadcast_sessions
broadcast sid_of msg event table =
    broadcast_sessions sid_of msg.session msg.object_id msg.no_reflect msg.topic
      (or_empty (find event table))

-- `broadcast(msg, session, event)`
unfoldable pub broadcast_session : (ℕ → ℕ) → Message → ℕ → ℕ → SubscribeTable → List Delivery × Bool
unfolding broadcast_session_objects
broadcast_session sid_of msg session event table =
    broadcast_session_objects sid_of msg.session msg.object_id msg.no_reflect msg.topic
      (msg.object_id % 2 ^ 16) session (or_empty (find session (or_empty (find event table))))

-- `getSubscribeTable(code, topic, session_tbl)`: the sessions that the topic of an event concerns.
unfoldable pub concerns : String → ObjectTable → Bool
concerns topic [] = false
concerns topic ((object_id, subitems) ∷ objects) = elim (find topic subitems) [
  | some item ↦ true
  | none ↦ (not (str_eq topic "") && is_some (find "" subitems)) || concerns topic objects
]

unfoldable pub subscribed_sessions : String → SessionTable → List ℕ
unfolding concerns
subscribed_sessions topic [] = []
subscribed_sessions topic ((session, objects) ∷ sessions) =
    let rest = subscribed_sessions topic sessions in
    if concerns topic objects then session ∷ rest else rest

unfoldable pub get_subscribe_table : ℕ → Option String → SubscribeTable → List ℕ
unfolding subscribed_sessions
get_subscribe_table code topic table =
    subscribed_sessions (topic_or_any topic) (or_empty (find code table))

-- What the table says of one event, session, object and topic.
abbrev pub look : {K V : Type 0} ⦃e : Eq K⦄ → K → Option (Map K V) → Option V
look k o = find k (or_empty o)

unfoldable pub item_of : ℕ → ℕ → ℕ → String → SubscribeTable → Option SubscribeItem
item_of msg session obj_id topic table = look topic (look obj_id (look session (find msg table)))
