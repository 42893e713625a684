-- ===== src/Subscription/Reach.antt =====
-- The reach of a broadcast, by the view of the table.
use Prim.Native.String.{String}
use text.Mathlib.Text.{◌==◌ as str_eq}
use fdbus.Prelude.{ℕ, ◌≡◌, refl, subst, sym, ◌↔◌, ◌⊎◌, inl, inr, false, Option, none, some, arith}
use fdbus.Prelude.Map.{Eq, Map, nat_eq, string_eq, find, or_empty, find-empty}
use fdbus.Prelude.Map.Entries.{Has, find-In, In-find}
use fdbus.Subscription.{
  SubscribeTable, SubscribeItem, SubItemTable, ObjectTable, item_of, Message, Delivery, reflected,
  broadcast,
}
use fdbus.Subscription.Removal.{IsTidy, TidySessions, TidyObjects, at_tidy}
use fdbus.Subscription.Broadcast.{Wanted, Wanted-sessions, sessions-Wanted}

module _ (sid_of : ℕ → ℕ) (msg : Message) (event : ℕ) (table : SubscribeTable) where
  -- The object of a delivery subscribes the event under the topic of the message or under "", and
  -- the message does not go back to its sender.
  pub record Subscribed (d : Delivery) : Type 0 where
    pub item : SubscribeItem
    pub found :
        (item_of event d.session d.object_id msg.topic table ≡ some item)
        ⊎ ((str_eq msg.topic "" ≡ false)
            × (item_of event d.session d.object_id "" table ≡ some item))
    pub let_out :
        reflected sid_of msg.session msg.object_id msg.no_reflect d.session d.object_id item ≡ false

  abbrev of_session : ℕ → ObjectTable
  of_session s = or_empty (find s (or_empty (find event table)))

  abbrev of_object : ℕ → ℕ → SubItemTable
  of_object s o = or_empty (find o (of_session s))

pub present :
    {K A : Type 0} ⦃e : Eq K⦄ (k : K) (v : A) (o : Option (Map K A))
    → find k (or_empty o) ≡ some v
    → o ≡ some (or_empty o)
present {A = A} k v none h = absurd (ground (arith, h, find-empty {V = A} k))
present k v (some m) h = refl

module _ (sid_of : ℕ → ℕ) (msg : Message) (event : ℕ) (table : SubscribeTable) where
  reaches_by :
      (t : String) (d : Delivery) (i : SubscribeItem)
      → item_of event d.session d.object_id t table ≡ some i
      → Wanted sid_of msg.session msg.object_id msg.no_reflect msg.topic d.session d.object_id
          (of_object sid_of msg event table d.session d.object_id)
      → Has d (broadcast sid_of msg event table).0
  unfolding item_of broadcast
  reaches_by t d i found w =
      let sessions = or_empty (find event table) in
      let at_object =
        present t i (find d.object_id (of_session sid_of msg event table d.session)) found in
      let at_session = present d.object_id _ (find d.session sessions) at_object in
      Wanted-sessions sid_of msg.session msg.object_id msg.no_reflect msg.topic d.session
        d.object_id (of_object sid_of msg event table d.session d.object_id)
        (of_session sid_of msg event table d.session) sessions (find-In _ _ _ at_session)
        (find-In _ _ _ at_object) w

  reaches :
      (d : Delivery)
      → Subscribed sid_of msg event table d
      → Has d (broadcast sid_of msg event table).0
  unfolding item_of
  reaches d w = elim w.found [
    | inl e ↦
        reaches_by msg.topic d w.item e
          (record { item = w.item; found = inl e; let_out = w.let_out })
    | inr (differs, e) ↦
        reaches_by "" d w.item e
          (record { item = w.item; found = inr (differs, e); let_out = w.let_out })
  ]

  reached :
      IsTidy table
      → (d : Delivery) → Has d (broadcast sid_of msg event table).0
      → Subscribed sid_of msg event table d
  unfolding item_of broadcast
  reached tidy d h =
      let sessions = or_empty (find event table) in
      let (s, objects, in_sessions, (o, items, in_objects, e, w)) =
        sessions-Wanted sid_of msg.session msg.object_id msg.no_reflect msg.topic d sessions h in
      let sessions_tidy : TidySessions sessions =
        at_tidy TidySessions event table (tt, tt) tidy.tidy in
      let at_session : find s sessions ≡ some objects =
        In-find s objects sessions sessions_tidy.0 in_sessions in
      let objects_tidy : TidyObjects (or_empty (find s sessions)) =
        at_tidy TidyObjects s sessions (tt, tt) sessions_tidy in
      let at_object : find o (or_empty (find s sessions)) ≡ some items =
        rw at_session (In-find o items objects (rw at_session at objects_tidy).0 in_objects) in
      subst (Subscribed sid_of msg event table) (sym e)
        (record { item = w.item; found = rw at_object w.found; let_out = w.let_out })

  -- In a tidy table, a broadcast to all sessions reaches exactly the objects that subscribe the event under
  -- the topic of the message or, for a topic that is not "", under "", and for which the entry does not
  -- hold the message back from its sender.
  pub broadcast_iff :
      IsTidy table
      → (d : Delivery)
      → Has d (broadcast sid_of msg event table).0 ↔ Subscribed sid_of msg event table d
  broadcast_iff tidy d = (reached tidy d, reaches d)
