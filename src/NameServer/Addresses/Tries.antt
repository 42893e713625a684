-- ===== src/NameServer/Addresses/Tries.antt =====
-- What the loops that look for a free address or port return (server/CNameServer.cpp).
use fdbus.Prelude.{
  ℕ, zero, suc, ◌<◌, ◌≡◌, ◌⊎◌, inl, inr, refl, sym, ◌∙◌, ap, arith, ◌==◌, ltb, not, ◌&&◌, Bool,
  true, false, Option, some, List, [], ◌∷◌, Bool-cases, if_true, if_false,
}
use fdbus.Prelude.Map.Entries.{Has}
use fdbus.AddressAllocator.{AllocatedAddress, user}
use fdbus.NameServer.{AddressDesc, RegistryTbl, same_text}
use fdbus.NameServer.Removal.{all_entries}
use fdbus.NameServer.Addresses.{
  all_addresses, retry, next_udp_port, allocate_udp_port, find_udp_port, first_address,
  first_udp_port, find_address, of_type, is_free, tries_of, allocate_address, takes_address,
}

module _ {A S : Type 0} (allocate : S → A × S) (good : A → Bool) where
  -- The allocator before a try, counted from 0, and what that try gives.
  abbrev pub state_at : ℕ → S → S
  state_at zero s = s
  state_at (suc k) s = state_at k (allocate s).1

  abbrev pub value_at : ℕ → S → A
  value_at k s = (allocate (state_at k s)).0

  -- The first good try of some, or that there is none.
  abbrev pub First : ℕ → S → Bool × (A × S) → Type 0
  First tries s r =
      ((k : ℕ) × (((k < tries) × ((i : ℕ) → i < k → good (value_at i s) ≡ false))
          × ((good (value_at k s) ≡ true) × (r ≡ (true, (value_at k s, state_at (suc k) s))))))
      ⊎ ((r.0 ≡ false) × ((i : ℕ) → i < tries → good (value_at i s) ≡ false))

  before :
      (s : S) (k : ℕ)
      → good (value_at 0 s) ≡ false
      → ((i : ℕ) → i < k → good (value_at i (allocate s).1) ≡ false)
      → (i : ℕ) → i < suc k
      → good (value_at i s) ≡ false
  before s k f h zero l = f
  before s k f h (suc i) l = h i (omega arith)

  pub retry-First :
      (tries : ℕ) (last : A) (s : S) → First tries s (retry allocate good tries last s)
  unfolding retry
  retry-First zero last s = inr (refl, λ i l. absurd (omega arith))
  retry-First (suc tries) last s = elim (Bool-cases (good (allocate s).0)) [
    | inl hit ↦ rw hit (inl (0, ((omega arith, λ i l. absurd (omega arith)), (hit, refl))))
    | inr miss ↦ rw miss (elim (retry-First tries (allocate s).0 (allocate s).1) [
      | inl (k, ((l, f), (g, e))) ↦ inl (suc k, ((omega arith, before s k miss f), (g, e)))
      | inr (f, h) ↦ inr (f, before s tries miss h)
    ])
  ]

-- The address is of the type and has the URL.
abbrev pub is_at : Option ℕ → List ℕ → AddressDesc → Bool
is_at type url desc = of_type type desc.address.type && same_text desc.address.url url

-- The address is one of the interface, for TCP, with this UDP port.
abbrev pub has_port : ℕ → List ℕ → ℕ → AddressDesc → Bool
has_port ipc ip port desc =
    (not (desc.address.type == ipc) && same_text desc.address.addr ip)
    && ((ltb 0 desc.udp_port && ltb desc.udp_port 2147483648) && desc.udp_port == port)

first_address-free :
    (type : Option ℕ) (url : List ℕ) (x : AddressDesc) (descs : List AddressDesc)
    → is_free (first_address type url descs) ≡ true
    → Has x descs
    → is_at type url x ≡ false
unfolding first_address
first_address-free type url x [] f h = absurd h
first_address-free type url x (d ∷ ds) f h = elim (Bool-cases (is_at type url d)) [
  | inl hit ↦ absurd (ground (arith, ap is_free (sym (if_true (some d) _ hit)) ∙ f))
  | inr miss ↦ elim h [
    | inl p ↦ ap (is_at type url) p ∙ miss
    | inr q ↦ first_address-free type url x ds (ap is_free (sym (if_false (some d) _ miss)) ∙ f) q
  ]
]

first_udp_port-free :
    (ipc : ℕ) (ip : List ℕ) (port : ℕ) (x : AddressDesc) (descs : List AddressDesc)
    → is_free (first_udp_port ipc ip port descs) ≡ true
    → Has x descs
    → has_port ipc ip port x ≡ false
unfolding first_udp_port
first_udp_port-free ipc ip port x [] f h = absurd h
first_udp_port-free ipc ip port x (d ∷ ds) f h = elim (Bool-cases (has_port ipc ip port d)) [
  | inl hit ↦ absurd (ground (arith, ap is_free (sym (if_true (some d) _ hit)) ∙ f))
  | inr miss ↦ elim h [
    | inl p ↦ ap (has_port ipc ip port) p ∙ miss
    | inr q ↦
        first_udp_port-free ipc ip port x ds (ap is_free (sym (if_false (some d) _ miss)) ∙ f) q
  ]
]

module _ {S : Type 0} (allocate : S → AllocatedAddress × S) (tcp auto : ℕ) (registry : RegistryTbl)
    (old : AllocatedAddress) (s : S) where
  abbrev pub Fresh : AllocatedAddress → Type 0
  Fresh a =
      (x : AddressDesc)
      → Has x (all_addresses (all_entries registry))
      → is_at (some a.type) a.url x ≡ false

  takes-Fresh :
      (a : AllocatedAddress)
      → takes_address tcp auto user registry a ≡ true
      → ((a.type ≡ tcp) × (a.port ≡ auto)) ⊎ Fresh a
  unfolding takes_address find_address
  takes-Fresh a t = elim (Bool-cases (a.type == tcp && a.port == auto)) [
    | inl e ↦ inl (ground (arith, e))
    | inr e ↦ inr (λ x h.
        first_address-free (some a.type) a.url x (all_addresses (all_entries registry))
          (ground (arith, t, e)) h)
  ]

  refused-used :
      (a : AllocatedAddress)
      → takes_address tcp auto user registry a ≡ false
      → is_free (find_address (some a.type) a.url registry) ≡ false
  unfolding takes_address
  refused-used a t = ground (arith, t)

  -- Allocating an address for a user server gives a TCP address whose port the system chooses, or one of a
  -- type and a URL that no registered service has, or fails after each of its tries gave an address that a
  -- service has.
  pub allocate_address-Fresh :
      let r = allocate_address allocate tcp auto user registry old s in
      ((r.0 ≡ true) × (((r.1.0.type ≡ tcp) × (r.1.0.port ≡ auto)) ⊎ Fresh r.1.0))
      ⊎ ((r.0 ≡ false)
          × ((i : ℕ)
              → i < tries_of registry
              → is_free (
                  find_address
                    (some (value_at allocate (takes_address tcp auto user registry) i s).type)
                    (value_at allocate (takes_address tcp auto user registry) i s).url
                    registry)
                ≡ false))
  unfolding allocate_address
  allocate_address-Fresh =
      elim (retry-First allocate (takes_address tcp auto user registry) (tries_of registry) old s) [
        | inl (k, (l, (g, e))) ↦ rw e (inl (refl, takes-Fresh _ g))
        | inr (f, h) ↦ inr (f, λ i l. refused-used _ (h i l))
      ]

-- Allocating a UDP port gives one that no registered service has for the interface, or fails and leaves the
-- port as it was.
pub allocate_udp_port-unused :
    (by_user : Bool) (ipc min_port max_port : ℕ) (ip : List ℕ) (registry : RegistryTbl)
    (old port : ℕ)
    → (((allocate_udp_port by_user ipc min_port max_port ip registry old port).0 ≡ true)
        × ((x : AddressDesc)
            → Has x (all_addresses (all_entries registry))
            → has_port ipc ip
                (allocate_udp_port by_user ipc min_port max_port ip registry old port).1.0
                x
              ≡ false))
      ⊎ (((allocate_udp_port by_user ipc min_port max_port ip registry old port).0 ≡ false)
          × ((allocate_udp_port by_user ipc min_port max_port ip registry old port).1.0 ≡ old))
unfolding allocate_udp_port find_udp_port
allocate_udp_port-unused by_user ipc min_port max_port ip registry old port =
    let good : ℕ → Bool = λ p. is_free (find_udp_port ipc ip p registry) in
    elim (retry-First (next_udp_port by_user min_port max_port) good (tries_of registry) old port) [
      | inl (k, (l, (g, e))) ↦ rw e (
          inl (
            refl,
            λ x h. first_udp_port-free ipc ip _ x (all_addresses (all_entries registry)) g h,
          ))
      | inr (f, h) ↦ rw f (inr (refl, refl))
    ]
