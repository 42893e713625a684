-- ===== src/Subscription/Steps.antt =====
-- The tables that an object's handle can come to hold (fdbus/CEventSubscribeHandle.cpp).
use Prim.Native.String.{String}
use fdbus.Prelude.{ℕ, Option, []}
use fdbus.Subscription.{
  SubscribeTable, subscribe, unsubscribe, unsubscribe_session, unsubscribe_object,
}
use fdbus.Subscription.Removal.{
  IsTidy, empty-IsTidy, subscribe-IsTidy, unsubscribe-IsTidy, unsubscribe_session-IsTidy,
  unsubscribe_object-IsTidy,
}

pub data Step (table : SubscribeTable) : SubscribeTable → Type 0 where
  subscribes :
      (session msg obj_id : ℕ) (topic : Option String) (flag : ℕ)
      → Step table (subscribe session msg obj_id topic flag table)
  unsubscribes :
      (session msg obj_id : ℕ) (topic : Option String)
      → Step table (unsubscribe session msg obj_id topic table)
  session_ends : (session : ℕ) → Step table (unsubscribe_session session table)
  object_ends : (obj_id : ℕ) → Step table (unsubscribe_object obj_id table)

-- The tables after any number of operations on an empty one.
pub data Reached : SubscribeTable → Type 0 where
  none_yet : Reached []
  next : {table after : SubscribeTable} → Reached table → Step table after → Reached after

Step-IsTidy : {table after : SubscribeTable} → Step table after → IsTidy table → IsTidy after
Step-IsTidy {table = table} (subscribes session msg obj_id topic flag) h =
    subscribe-IsTidy session msg obj_id topic flag table h
Step-IsTidy {table = table} (unsubscribes session msg obj_id topic) h =
    unsubscribe-IsTidy session msg obj_id topic table h
Step-IsTidy {table = table} (session_ends session) h = unsubscribe_session-IsTidy session table h
Step-IsTidy {table = table} (object_ends obj_id) h = unsubscribe_object-IsTidy obj_id table h

-- Every table that subscribing, unsubscribing, and the end of sessions and objects make of an empty table
-- is tidy: its keys are distinct at every depth, and no table inside is empty.
pub Reached-IsTidy : (table : SubscribeTable) → Reached table → IsTidy table
Reached-IsTidy table none_yet = empty-IsTidy
Reached-IsTidy table (next r st) = Step-IsTidy st (Reached-IsTidy _ r)
