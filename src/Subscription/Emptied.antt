-- ===== src/Subscription/Emptied.antt =====
-- A tidy table holds nothing but subscriptions: when the last is gone, so is every entry.
use Prim.Native.String.{String}
use fdbus.Prelude.{ℕ, ◌≡◌, refl, none, some, [], ◌∷◌, arith}
use fdbus.Prelude.Map.{Eq, Map, nat_eq, string_eq, find}
use fdbus.Subscription.{SubscribeTable, SubscribeItem, SessionTable, item_of}
use fdbus.Subscription.Removal.{IsTidy}

find-head : {K V : Type 0} ⦃e : Eq K⦄ (k : K) (v : V) (m : Map K V) → find k ((k, v) ∷ m) ≡ some v
unfolding find
find-head ⦃e⦄ k v m = ground (arith, e.beq_iff k k)

abbrev ItemIn : SubscribeTable → Type 0
ItemIn table = (m s o : ℕ) × (t : String) × (i : SubscribeItem) × (item_of m s o t table ≡ some i)

-- Each nested table of a tidy table has an entry, down to a flag.
some_item :
    (entry : ℕ × SessionTable) (table : SubscribeTable)
    → IsTidy (entry ∷ table)
    → ItemIn (entry ∷ table)
unfolding item_of
some_item (m, []) table h = absurd (h.tidy.1.0.0 refl)
some_item (m, (s, []) ∷ ss) table h = absurd (h.tidy.1.0.1.1.0.0 refl)
some_item (m, (s, (o, []) ∷ os) ∷ ss) table h = absurd (h.tidy.1.0.1.1.0.1.1.0.0 refl)
some_item (m, (s, (o, (t, i) ∷ ts) ∷ os) ∷ ss) table h = (
  m,
  s,
  o,
  t,
  i,
  ground (
    arith,
    find-head m ((s, (o, (t, i) ∷ ts) ∷ os) ∷ ss) table,
    find-head s ((o, (t, i) ∷ ts) ∷ os) ss,
    find-head o ((t, i) ∷ ts) os,
    find-head t i ts,
  ),
)

-- A tidy table without any entry is the empty table: nothing of ended subscriptions stays behind.
pub emptied :
    (table : SubscribeTable)
    → IsTidy table
    → ((m s o : ℕ) (t : String) → item_of m s o t table ≡ none)
    → table ≡ []
emptied [] h gone = refl
emptied (entry ∷ table) h gone =
    let (m, s, o, t, i, e) = some_item entry table h in absurd (ground (arith, e, gone m s o t))
