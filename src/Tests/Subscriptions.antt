-- ===== src/Tests/Subscriptions.antt =====
-- Runs on a table with one subscription.
use fdbus.Prelude.{◌≡◌, ◌↔◌, true, none, some, [], ◌∷◌}
use fdbus.Prelude.Map.{nat_eq, string_eq}
use fdbus.Prelude.Map.Entries.{Has}
use fdbus.Subscription.{
  SubscribeItem, SubItemTable, SubscribeTable, Message, Delivery, subscribe, unsubscribe,
  unsubscribe_session, broadcast, item_of,
}
use fdbus.Subscription.Table.{item_of-subscribe, item_of-unsubscribe}
use fdbus.Subscription.Removal.{IsTidy, empty-IsTidy, subscribe-IsTidy, item_of-unsubscribe_session}
use fdbus.Subscription.Steps.{none_yet, next, subscribes, session_ends, Reached-IsTidy}
use fdbus.Subscription.Reach.{Subscribed, broadcast_iff}

abbrev quiet : SubscribeItem
quiet = record { flag = 1 }

abbrev loud : SubscribeItem
loud = record { flag = 0 }

abbrev one : SubscribeTable
one = subscribe 1 7 100 (some "speed") 1 []

one-IsTidy : IsTidy one
one-IsTidy = subscribe-IsTidy 1 7 100 (some "speed") 1 [] empty-IsTidy

abbrev note : Message
note = record { session = 2; object_id = 100; topic = "speed"; no_reflect = true }

abbrev to_one : Delivery
to_one = record { session = 1; object_id = 100 }

item_of-subscribe_example : item_of 7 1 100 "speed" one ≡ some quiet
item_of-subscribe_example = item_of-subscribe 1 7 100 (some "speed") 1 [] 7 1 100 "speed"

item_of-unsubscribe_example : item_of 7 1 100 "speed" (unsubscribe 1 7 100 none one) ≡ none
item_of-unsubscribe_example = item_of-unsubscribe 1 7 100 none one 7 1 100 "speed"

item_of-unsubscribe_session_example : item_of 7 1 100 "speed" (unsubscribe_session 1 one) ≡ none
item_of-unsubscribe_session_example = item_of-unsubscribe_session 1 one 7 1 100 "speed" one-IsTidy

broadcast_iff_example :
    Has to_one (broadcast (λ s. s) note 7 one).0 ↔ Subscribed (λ s. s) note 7 one to_one
broadcast_iff_example = broadcast_iff (λ s. s) note 7 one one-IsTidy to_one

abbrev both_topics : SubItemTable
both_topics = ("speed", loud) ∷ ("", loud) ∷ []

Reached-IsTidy_example : IsTidy (unsubscribe_session 1 one)
Reached-IsTidy_example =
    Reached-IsTidy (unsubscribe_session 1 one)
      (next (next none_yet (subscribes 1 7 100 (some "speed") 1)) (session_ends 1))
