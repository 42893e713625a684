-- ===== src/AddressAllocator/Ports.antt =====
-- The ports of CTCPAddressAllocator and CUDPPortAllocator.
use fdbus.Prelude.{
  ℕ, zero, suc, ◌+◌, ◌-◌, ◌≤◌, ◌<◌, ◌≡◌, ◌≢◌, ◌⊎◌, inl, refl, ap, arith, some, Bool, true, false,
  List,
}
use fdbus.AddressAllocator.{
  Config, FdbServerType, name_server, host_server, log_server, user, unknown, AllocatedAddress,
  TcpAllocator, next_port, tcp_allocate, tcp_allocate_user, tcp_allocate_known, tcp_port_min,
  new_tcp_allocator,
}

module _ (low high : ℕ) where
  -- `mPort` after a number of allocations.
  abbrev pub port_after : ℕ → ℕ → ℕ
  port_after zero port = port
  port_after (suc n) port = (next_port low high (port_after n port)).1

  port_after-eq :
      (n port : ℕ)
      → low ≤ port
      → port ≤ high
      → n ≤ (high - low) + 1
      → ((port + n ≤ high) × (port_after n port ≡ port + n))
        ⊎ ((high < port + n) × (port_after n port ≡ (port + n) - ((high - low) + 1)))
  unfolding next_port
  port_after-eq zero port l h m = inl (omega arith, omega arith)
  port_after-eq (suc n) port l h m = ground (arith, port_after-eq n port l h (omega arith))

  port_after-range :
      (n port : ℕ)
      → low ≤ port
      → port ≤ high
      → (low ≤ port_after n port) × (port_after n port ≤ high)
  unfolding next_port
  port_after-range zero port l h = (l, h)
  port_after-range (suc n) port l h = ground (arith, port_after-range n port l h)

module _ (k : Config) (decimal : ℕ → List ℕ) (build_url : List ℕ → List ℕ → Bool → List ℕ)
    (secure : Bool) where
  -- The allocator after a number of allocations for user servers, and the port that the next one returns.
  abbrev pub tcp_after : ℕ → TcpAllocator → TcpAllocator
  tcp_after zero a = a
  tcp_after (suc n) a = (tcp_allocate k decimal build_url user secure (tcp_after n a)).1

  abbrev pub port_of : ℕ → TcpAllocator → ℕ
  port_of n a = (tcp_allocate k decimal build_url user secure (tcp_after n a)).0.port

  tcp_after-eq :
      (n : ℕ) (a : TcpAllocator)
      → tcp_after n a ≡ record a { port = port_after a.min_port a.max_port n a.port }
  unfolding tcp_allocate tcp_allocate_user
  tcp_after-eq zero a = refl
  tcp_after-eq (suc n) a = rw (tcp_after-eq n a)

  port_of-eq : (n : ℕ) (a : TcpAllocator) → port_of n a ≡ port_after a.min_port a.max_port n a.port
  unfolding tcp_allocate tcp_allocate_user next_port
  port_of-eq n a = ap (λ b. b.port) (tcp_after-eq n a)

  -- From a port of the configured range, as many allocations to user servers as the range has ports return
  -- different ports, every port that is ever returned is in the range, and the allocation after a whole
  -- round returns the first port again.
  pub tcp_allocate-round :
      (a : TcpAllocator)
      → a.min_port ≤ a.port
      → a.port ≤ a.max_port
      → ((i n : ℕ) → i < n → n ≤ a.max_port - a.min_port → port_of i a ≢ port_of n a)
        × ((n : ℕ) → (a.min_port ≤ port_of n a) × (port_of n a ≤ a.max_port))
        × (port_of ((a.max_port - a.min_port) + 1) a ≡ port_of 0 a)
  tcp_allocate-round a l h = (
    λ i n less m e. ground (
      arith,
      port_of-eq i a,
      port_of-eq n a,
      port_after-eq a.min_port a.max_port i a.port l h (omega arith),
      port_after-eq a.min_port a.max_port n a.port l h (omega arith),
    ),
    λ n. rw (port_of-eq n a) (port_after-range a.min_port a.max_port n a.port l h),
    ground (
      arith,
      port_of-eq 0 a,
      port_of-eq ((a.max_port - a.min_port) + 1) a,
      port_after-eq a.min_port a.max_port ((a.max_port - a.min_port) + 1) a.port l h (omega arith),
    ),
  )

  known-low :
      (type : FdbServerType) (known_secure : Bool) (b : TcpAllocator) (a : AllocatedAddress)
      → tcp_allocate_known k decimal build_url type known_secure b ≡ some a
      → a.port < tcp_port_min k
  unfolding tcp_allocate_known
  known-low name_server true b a e = ground arith
  known-low name_server false b a e = ground arith
  known-low host_server true b a e = ground arith
  known-low host_server false b a e = ground arith
  known-low log_server known_secure b a e = ground arith
  known-low user known_secure b a e = ground arith
  known-low unknown known_secure b a e = ground arith

  -- However many ports a new allocator returns to user servers, none is one that is known for the name
  -- server or the host server, if the configured range is not empty.
  pub tcp_allocate-apart :
      (exportable_domain : ℕ) (ip : List ℕ) (interface_id : ℕ)
      → tcp_port_min k ≤ k.max_port
      → (n : ℕ) (type : FdbServerType) (known_secure : Bool) (a : AllocatedAddress)
      → tcp_allocate_known k decimal build_url type known_secure
          (new_tcp_allocator k exportable_domain ip interface_id)
        ≡ some a
      → port_of n (new_tcp_allocator k exportable_domain ip interface_id) ≢ a.port
  unfolding tcp_allocate_known new_tcp_allocator
  tcp_allocate-apart domain ip id h n type known_secure a e same =
      let first = new_tcp_allocator k domain ip id in
      let (low, high) = (tcp_allocate-round first (omega arith) h).1 n in
      omega (arith, known-low type known_secure first a e)
