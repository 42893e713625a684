-- ===== src/AddressAllocator/Ids.antt =====
-- The identifiers of CIPCAddressAllocator.
use fdbus.Prelude.{ℕ, zero, suc, ◌+◌, ◌%◌, ◌^◌, ◌<◌, ◌≡◌, ◌≢◌, some, Bool, List, arith}
use mathlib.Core.List.{append_cancel_left}
use fdbus.AddressAllocator.{
  Config, FdbServerType, name_server, host_server, log_server, user, unknown, AllocatedAddress,
  ipc_allocate, ipc_allocate_user, ipc_allocate_known,
}

module _ (k : Config) (decimal : ℕ → List ℕ) (secure : Bool) where
  -- The state after a number of allocations for user servers.
  abbrev pub id_after : ℕ → ℕ → ℕ
  id_after zero id = id
  id_after (suc n) id = (ipc_allocate k decimal user secure (id_after n id)).1

  id_after-eq : (n id : ℕ) → id < 2 ^ 32 → id_after n id ≡ (id + n) % 2 ^ 32
  unfolding ipc_allocate ipc_allocate_user
  id_after-eq zero id h = omega arith
  id_after-eq (suc n) id h = omega (arith, id_after-eq n id h)

  id_after-distinct :
      (i n id : ℕ) → id < 2 ^ 32 → n < 2 ^ 32 → i < n → id_after i id ≢ id_after n id
  id_after-distinct i n id h m l e = omega (arith, id_after-eq i id h, id_after-eq n id h, e)

  -- The address that the allocation after `n` others returns.
  abbrev pub addr_after : ℕ → ℕ → List ℕ
  addr_after n id = (ipc_allocate k decimal user secure (id_after n id)).0.addr

  -- From any state, two of the first 2 ^ 32 socket addresses that are allocated to user servers differ, if
  -- different identifiers print differently.
  pub ipc_allocate-distinct :
      ((m n : ℕ) → decimal m ≡ decimal n → m ≡ n)
      → (i n id : ℕ) → id < 2 ^ 32
      → n < 2 ^ 32
      → i < n
      → addr_after i id ≢ addr_after n id
  unfolding ipc_allocate ipc_allocate_user
  ipc_allocate-distinct injective i n id h m l e =
      id_after-distinct i n id h m l
        (injective (id_after i id) (id_after n id) (append_cancel_left k.ipc_path_base _ _ e))

  -- Where an IPC address is known before it is allocated, it is the one that is allocated, and allocating
  -- it uses up no identifier.
  pub ipc_allocate-known :
      (type : FdbServerType) (id : ℕ) (a : AllocatedAddress)
      → ipc_allocate_known k decimal type secure ≡ some a
      → ipc_allocate k decimal type secure id ≡ (a, id)
  unfolding ipc_allocate ipc_allocate_known
  ipc_allocate-known name_server id a e = ground arith
  ipc_allocate-known host_server id a e = ground arith
  ipc_allocate-known log_server id a e = ground arith
  ipc_allocate-known user id a e = ground arith
  ipc_allocate-known unknown id a e = ground arith
