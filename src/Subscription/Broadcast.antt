-- ===== src/Subscription/Broadcast.antt =====
-- Whom a broadcast reaches: exactly the subscribers of the event whose topic is that of the message
-- or "", unless the message would go back to its sender.
use Prim.Native.String.{String}
use text.Mathlib.Text.{◌==◌ as str_eq}
use fdbus.Prelude.{
  ℕ, ◌≡◌, refl, ◌⊎◌, inl, inr, Bool, false, Option, none, some, List, [], ◌∷◌, Bool-cases,
  if◌then◌else◌,
}
use fdbus.Prelude.Map.{nat_eq, string_eq, find}
use fdbus.Prelude.Map.Entries.{Has, Has-append, append-Has, In}
use fdbus.Subscription.{
  SubscribeItem, SubItemTable, ObjectTable, SessionTable, Delivery, reflected, broadcast_found,
  broadcast_one_msg, broadcast_object, broadcast_objects, broadcast_sessions,
}

module _ (sid_of : ℕ → ℕ) (sender_sid sender_oid : ℕ) (no_reflect : Bool) where
  -- An entry of the table of an object that the topic finds and that lets the message out.
  pub record Wanted (topic : String) (session object_id : ℕ) (subitems : SubItemTable)
      : Type 0 where
    pub item : SubscribeItem
    pub found :
        (find topic subitems ≡ some item)
        ⊎ ((str_eq topic "" ≡ false) × (find "" subitems ≡ some item))
    pub let_out : reflected sid_of sender_sid sender_oid no_reflect session object_id item ≡ false

  abbrev pub to_object : ℕ → ℕ → Delivery
  to_object session object_id = record { session = session; object_id = object_id }

  abbrev hits : ℕ → ℕ → Option SubscribeItem → List Delivery × Bool
  hits = broadcast_found sid_of sender_sid sender_oid no_reflect

  abbrev none_sent : List Delivery × Bool
  none_sent = ([], false)

  found-Has :
      (s o : ℕ) (i : SubscribeItem)
      → reflected sid_of sender_sid sender_oid no_reflect s o i ≡ false
      → Has (to_object s o) (broadcast_found sid_of sender_sid sender_oid no_reflect s o (some i)).0
  unfolding broadcast_found broadcast_one_msg
  found-Has s o i h = rw h (inl refl)

  Has-found :
      (d : Delivery) (s o : ℕ) (r : Option SubscribeItem)
      → Has d (broadcast_found sid_of sender_sid sender_oid no_reflect s o r).0
      → (i : SubscribeItem) × (r ≡ some i)
        × (d ≡ to_object s o)
        × (reflected sid_of sender_sid sender_oid no_reflect s o i ≡ false)
  unfolding broadcast_found broadcast_one_msg
  Has-found d s o none h = absurd h
  Has-found d s o (some i) h =
      elim (Bool-cases (reflected sid_of sender_sid sender_oid no_reflect s o i)) [
        | inl e ↦ absurd (rw e at h)
        | inr e ↦ (i, refl, elim (rw e at h) [ inl p ↦ p | inr q ↦ absurd q ], e)
      ]

  Wanted-object :
      (topic : String) (s o : ℕ) (items : SubItemTable)
      → Wanted topic s o items
      → Has
          (to_object s o)
          (broadcast_object sid_of sender_sid sender_oid no_reflect topic s o items).0
  unfolding broadcast_object
  Wanted-object topic s o items w =
      let first = hits s o (find topic items) in
      let second = if str_eq topic "" then none_sent else hits s o (find "" items) in
      append-Has (to_object s o) first.0 second.0 (elim w.found [
        | inl e ↦ inl (rw e (found-Has s o w.item w.let_out))
        | inr (differs, e) ↦ inr (rw (differs, e) (found-Has s o w.item w.let_out))
      ])

  object-Wanted :
      (topic : String) (d : Delivery) (s o : ℕ) (items : SubItemTable)
      → Has d (broadcast_object sid_of sender_sid sender_oid no_reflect topic s o items).0
      → (d ≡ to_object s o) × Wanted topic s o items
  unfolding broadcast_object
  object-Wanted topic d s o items h = elim (Has-append d _ _ h) [
    | inl first ↦
        let (i, e, at, out) = Has-found d s o (find topic items) first in
        (at, record { item = i; found = inl e; let_out = out })
    | inr second ↦ elim (Bool-cases (str_eq topic "")) [
      | inl same ↦ absurd (rw same at second)
      | inr differs ↦
          let (i, e, at, out) = Has-found d s o (find "" items) (rw differs at second) in
          (at, record { item = i; found = inr (differs, e); let_out = out })
    ]
  ]

  Wanted-objects :
      (topic : String) (s o : ℕ) (items : SubItemTable) (objects : ObjectTable)
      → In o items objects
      → Wanted topic s o items
      → Has
          (to_object s o)
          (broadcast_objects sid_of sender_sid sender_oid no_reflect topic s objects).0
  unfolding broadcast_objects
  Wanted-objects topic s o items [] h w = absurd h
  Wanted-objects topic s o items ((p, is) ∷ os) (inl (e, e')) w =
      append-Has _ (broadcast_object sid_of sender_sid sender_oid no_reflect topic s p is).0 _
        (inl (rw (← e, ← e') (Wanted-object topic s o items w)))
  Wanted-objects topic s o items ((p, is) ∷ os) (inr h) w =
      append-Has _ (broadcast_object sid_of sender_sid sender_oid no_reflect topic s p is).0 _
        (inr (Wanted-objects topic s o items os h w))

  objects-Wanted :
      (topic : String) (d : Delivery) (s : ℕ) (objects : ObjectTable)
      → Has d (broadcast_objects sid_of sender_sid sender_oid no_reflect topic s objects).0
      → (o : ℕ) × (items : SubItemTable) × In o items objects
        × (d ≡ to_object s o)
        × Wanted topic s o items
  unfolding broadcast_objects
  objects-Wanted topic d s [] h = absurd h
  objects-Wanted topic d s ((p, is) ∷ os) h =
      elim (Has-append d (broadcast_object sid_of sender_sid sender_oid no_reflect topic s p is).0 _
        h) [
          | inl here ↦
              let (e, w) = object-Wanted topic d s p is here in (p, is, inl (refl, refl), e, w)
          | inr there ↦
              let (o, items, i, e, w) = objects-Wanted topic d s os there in (o, items, inr i, e, w)
        ]

  pub Wanted-sessions :
      (topic : String) (s o : ℕ) (items : SubItemTable) (objects : ObjectTable)
      (sessions : SessionTable)
      → In s objects sessions
      → In o items objects
      → Wanted topic s o items
      → Has
          (to_object s o)
          (broadcast_sessions sid_of sender_sid sender_oid no_reflect topic sessions).0
  unfolding broadcast_sessions
  Wanted-sessions topic s o items objects [] h i w = absurd h
  Wanted-sessions topic s o items objects ((p, os) ∷ ss) (inl (e, e')) i w =
      append-Has _ (broadcast_objects sid_of sender_sid sender_oid no_reflect topic p os).0 _
        (inl (rw (← e, ← e') (Wanted-objects topic s o items objects i w)))
  Wanted-sessions topic s o items objects ((p, os) ∷ ss) (inr h) i w =
      append-Has _ (broadcast_objects sid_of sender_sid sender_oid no_reflect topic p os).0 _
        (inr (Wanted-sessions topic s o items objects ss h i w))

  pub sessions-Wanted :
      (topic : String) (d : Delivery) (sessions : SessionTable)
      → Has d (broadcast_sessions sid_of sender_sid sender_oid no_reflect topic sessions).0
      → (s : ℕ) × (objects : ObjectTable) × In s objects sessions
        × ((o : ℕ) × (items : SubItemTable) × In o items objects
            × (d ≡ to_object s o)
            × Wanted topic s o items)
  unfolding broadcast_sessions
  sessions-Wanted topic d [] h = absurd h
  sessions-Wanted topic d ((p, os) ∷ ss) h =
      elim (Has-append d (broadcast_objects sid_of sender_sid sender_oid no_reflect topic p os).0 _
        h) [
          | inl here ↦ (p, os, inl (refl, refl), objects-Wanted topic d p os here)
          | inr there ↦
              let (s, objects, i, rest) = sessions-Wanted topic d ss there in
              (s, objects, inr i, rest)
        ]
