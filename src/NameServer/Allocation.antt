-- ===== src/NameServer/Allocation.antt =====
-- What `CNameServer::onAllocServiceAddressReq` enters into the registry (server/CNameServer.cpp).
use fdbus.Prelude.{
  ℕ, ◌+◌, ◌≤◌, ◌≡◌, ◌⊎◌, inl, inr, refl, ◌∙◌, ap, arith, ◌==◌, if◌then◌else◌, ◌&&◌, Bool, true,
  false, Option, none, some, List, [], ◌∷◌, Bool-cases, Option-cases,
}
use fdbus.Prelude.Map.{nat_eq, is_empty, Distinct, Values}
use fdbus.Prelude.Map.Tidy.{Inner}
use fdbus.Prelude.Map.Entries.{Has, find-In}
use fdbus.AddressAllocator.{AllocatedAddress}
use fdbus.NameServer.{
  SvcRegistryEntry, RegistryTbl, is_group, merge_event_code, find_service, auto_instance_begin,
  auto_instance_end, text_eq,
}
use fdbus.NameServer.Registry.{entry_at, entry_at-table, entry_at-assign, assign-IsTidy, IsTidy}
use fdbus.NameServer.Found.{Registered, Named, find_service_iff}
use fdbus.NameServer.Instances.{
  choose_instance, choose_instance_lem, choose_instance-allocator, Chosen,
}
use fdbus.NameServer.Requests.{
  Names, NameServer, AllocReq, Answer, status, already_exist, no_resource, enter_service,
  on_alloc_service_address_req, new_entry, add_service_address, add_one_service_address, chosen,
}

-- Every entry has the name and the id that it is found at, which is not a group's; and the allocator of
-- ids is between its limits.
pub record IsSound (s : NameServer) : Type 0 where
  pub tidy : IsTidy s.registry
  pub keyed :
      (n : List ℕ) (i : ℕ) (e : SvcRegistryEntry)
      → entry_at n i s.registry ≡ some e
      → (e.svc_name ≡ n) × ((e.instance_id ≡ i) × (is_group i ≡ false))
  pub begin : auto_instance_begin ≤ s.instance_id_allocator
  pub end : s.instance_id_allocator ≤ auto_instance_end + 1

pub Has-not-empty :
    (e : SvcRegistryEntry) (l : List SvcRegistryEntry) → Has e l → is_empty l ≡ false
Has-not-empty e [] h = absurd h
Has-not-empty e (x ∷ xs) h = refl

Named-self : (name : List ℕ) → Named name name
Named-self [] = tt
Named-self (c ∷ cs) = refl

pub Values-Distinct : (r : RegistryTbl) → Values (Inner Distinct) r → Values Distinct r
Values-Distinct [] v = tt
Values-Distinct ((n, tbl) ∷ rest) v = (v.0.1, Values-Distinct rest v.1)

pub found_entry :
    (name : List ℕ) (iid : ℕ) (e : SvcRegistryEntry) (r : RegistryTbl)
    → is_group iid ≡ false
    → entry_at name iid r ≡ some e
    → Registered name iid e r
found_entry name iid e r g f =
    let (tbl, (there, here)) = entry_at-table name iid r e f in
    (
      name,
      (
        tbl,
        (
          Named-self name,
          (find-In name tbl r there, (iid, (ground (arith, g), find-In iid e tbl here))),
        ),
      ),
    )

-- An id that `findService` does not find is free under the name.
absent :
    (name : List ℕ) (iid : ℕ) (r : RegistryTbl)
    → IsTidy r
    → is_group iid ≡ false
    → (find_service name iid r).0 ≡ false
    → entry_at name iid r ≡ none
absent name iid r h g f = elim (Option-cases (entry_at name iid r)) [
  | inl e ↦ e
  | inr (x, e) ↦
      let (counted, listed) = find_service_iff name iid r h.0 (Values-Distinct r h.1) in
      let there = (listed x).1 (found_entry name iid x r g e) in
      absurd (ground (arith, f, counted, Has-not-empty x (find_service name iid r).1 there))
]

merged-is-single :
    (group k : ℕ) → k ≤ auto_instance_end → is_group (merge_event_code group k) ≡ false
unfolding is_group merge_event_code
merged-is-single group k h = ground arith

-- One service has come in, where none was.
pub record Entered (sid : ℕ) (req : AllocReq) (s t : NameServer) : Type 0 where
  pub id : ℕ
  pub entry : SvcRegistryEntry
  pub single : is_group id ≡ false
  pub requested : (id ≡ req.instance_id) ⊎ ((k : ℕ) × (id ≡ merge_event_code req.instance_id k))
  pub free : entry_at req.name id s.registry ≡ none
  pub owner : entry.sid ≡ sid
  pub known_as : (entry.svc_name ≡ req.name) × (entry.instance_id ≡ id)
  pub only :
      (n : List ℕ) (i : ℕ)
      → entry_at n i t.registry
        ≡ (if text_eq.beq req.name n && (id == i) then some entry else entry_at n i s.registry)

-- Nothing has come in, and why.
abbrev pub Refused : AllocReq → NameServer → Answer → NameServer → Type 0
Refused req s a t =
    (t.registry ≡ s.registry)
    × (((a ≡ status already_exist)
          × ((is_group req.instance_id ≡ false)
              × ((find_service req.name req.instance_id s.registry).0 ≡ true)))
        ⊎ ((a ≡ status no_resource)
            × ((k : ℕ)
                → auto_instance_begin ≤ k
                → k ≤ auto_instance_end
                → (find_service req.name (merge_event_code req.instance_id k) s.registry).0
                  ≡ true)))

module _ (names : Names) (allocated : Bool → SvcRegistryEntry → List AllocatedAddress)
    (udp_port : List ℕ → Option ℕ) (tokens : List (List ℕ)) (sid : ℕ) (req : AllocReq) where
  abbrev pub Answered : NameServer → Option (Answer × NameServer) → Type 0
  Answered s none = ⊥
  Answered s (some (a, t)) = IsSound t × (Refused req s a t ⊎ Entered sid req s t)

  enter_service-Entered :
      (id next : ℕ) (s : NameServer)
      → is_group id ≡ false
      → (id ≡ req.instance_id) ⊎ ((k : ℕ) × (id ≡ merge_event_code req.instance_id k))
      → (find_service req.name id s.registry).0 ≡ false
      → IsSound s
      → Entered sid req s
          (enter_service names allocated udp_port tokens sid req id
            (record s { instance_id_allocator = next })).1
  unfolding enter_service add_service_address add_one_service_address new_entry
  enter_service-Entered id next s g r f h =
      let entry =
        (add_service_address names allocated udp_port false
          (new_entry names allocated udp_port tokens sid req id)).0 in
      record {
        id = id;
        entry = entry;
        single = g;
        requested = r;
        free = absent req.name id s.registry h.tidy g f;
        owner = refl;
        known_as = (refl, refl);
        only = λ n i. entry_at-assign req.name n id i entry s.registry;
      }

  enter_service-IsSound :
      (id next : ℕ) (s : NameServer)
      → is_group id ≡ false
      → auto_instance_begin ≤ next
      → next ≤ auto_instance_end + 1
      → IsSound s
      → IsSound
          (enter_service names allocated udp_port tokens sid req id
            (record s { instance_id_allocator = next })).1
  unfolding enter_service add_service_address add_one_service_address new_entry
  enter_service-IsSound id next s g l r h = record {
    tidy = assign-IsTidy req.name id _ s.registry h.tidy;
    keyed = λ n i e f.
        let entry =
          (add_service_address names allocated udp_port false
            (new_entry names allocated udp_port tokens sid req id)).0 in
        ground (
          arith,
          entry_at-assign req.name n id i entry s.registry,
          f,
          g,
          h.keyed n i e,
          text_eq.beq_iff req.name n,
        );
    begin = l;
    end = r;
  }

  chosen-Answered :
      (s : NameServer) (r : Option (Option ℕ × ℕ))
      → IsSound s
      → Chosen auto_instance_begin auto_instance_end
          (λ id. (find_service req.name id s.registry).0)
          req.instance_id
          auto_instance_begin
          r
      → ((o : Option ℕ) (next : ℕ)
          → r ≡ some (o, next)
          → (auto_instance_begin ≤ next) × (next ≤ auto_instance_end + 1))
      → Answered s (chosen names allocated udp_port tokens sid req s r)
  chosen-Answered s none h c b = c
  chosen-Answered s (some (none, next)) h c b =
      let (l, r) = b none next refl in
      (record { tidy = h.tidy; keyed = h.keyed; begin = l; end = r }, inl (refl, inr (refl, c)))
  chosen-Answered s (some (some id, next)) h (free, (k, (p, (q, e)))) b =
      let (l, r) = b (some id) next refl in
      let single = ap is_group e ∙ merged-is-single req.instance_id k q in
      (
        enter_service-IsSound id next s single l r h,
        inr (enter_service-Entered id next s single (inr (k, e)) free h),
      )

  -- In a sound name server, a request for addresses with at least 131072 rounds of fuel is answered and
  -- leaves the server sound. Either the registry is unchanged, because the instance is not a group and is
  -- there already or because every automatic instance of the group is taken, or exactly one service has
  -- come in, owned by the session, under the requested name and an instance that was free: the requested
  -- one, or one merged with its group.
  pub on_alloc_service_address_req-Answered :
      (fuel : ℕ) (s : NameServer)
      → 131072 ≤ fuel
      → IsSound s
      → Answered s (on_alloc_service_address_req names allocated udp_port tokens sid req fuel s)
  unfolding on_alloc_service_address_req
  on_alloc_service_address_req-Answered fuel s enough h =
      let used : ℕ → Bool = λ id. (find_service req.name id s.registry).0 in
      elim (Bool-cases (is_group req.instance_id)) [
        | inl g ↦ rw g (
            chosen-Answered s
              (choose_instance auto_instance_begin auto_instance_end used req.instance_id fuel false
                s.instance_id_allocator)
              h
              (choose_instance_lem auto_instance_begin auto_instance_end used req.instance_id
                (omega arith) (omega arith) fuel s.instance_id_allocator h.begin h.end
                (omega arith))
              (choose_instance-allocator auto_instance_begin auto_instance_end used req.instance_id
                fuel false s.instance_id_allocator (omega arith) (omega arith) h.begin h.end))
        | inr g ↦ elim (Bool-cases (used req.instance_id)) [
          | inl u ↦ rw (g, u) (h, inl (refl, inl (refl, (g, u))))
          | inr u ↦
              rw (g, u)
                (
                  enter_service-IsSound req.instance_id s.instance_id_allocator s g h.begin h.end h,
                  inr (
                      enter_service-Entered req.instance_id s.instance_id_allocator s g (inl refl) u
                        h),
                )
        ]
      ]
