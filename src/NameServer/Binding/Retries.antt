-- ===== src/NameServer/Binding/Retries.antt =====
-- How often a service is asked to bind an address anew (server/CNameServer.cpp).
use fdbus.Prelude.{
  ℕ, ◌+◌, ◌-◌, ◌≤◌, ◌≡◌, refl, inl, inr, arith, false, if◌then◌else◌, Option, none, some, List, [],
  ◌∷◌, ◌++◌, length, length-append, Bool-cases, Option-cases,
}
use fdbus.Prelude.Map.{is_empty}
use fdbus.AddressAllocator.{AllocatedAddress}
use fdbus.Messages.AddrBindStatus.{AddrBindStatus}
use fdbus.NameServer.{AddressDesc, SvcRegistryEntry, same_text}
use fdbus.ServiceAddresses.{Network}
use fdbus.NameServer.Removal.{is_bound}
use fdbus.NameServer.Binding.{
  rebind_to_address, bound, handled, bind_in_table, bind_all, registered, new_desc, parsed,
}

-- A report of a service, with what the allocator then gives to an address that has to move.
pub record Report : Type 0 where
  pub sid : ℕ
  pub items : List AddrBindStatus
  pub reallocate : AddressDesc → Option (AllocatedAddress × ℕ)

module _ (retry_cnt : ℕ) where
  -- The retries that the addresses of a table that are not bound have left.
  abbrev pub retries_left : List AddressDesc → ℕ
  retries_left [] = 0
  retries_left (desc ∷ descs) =
      (if is_bound desc.status then 0 else retry_cnt - desc.rebind_count) + retries_left descs

  retries_left-append :
      (xs ys : List AddressDesc) → retries_left (xs ++ ys) ≡ retries_left xs + retries_left ys
  retries_left-append [] ys = omega arith
  retries_left-append (x ∷ xs) ys = omega (arith, retries_left-append xs ys)

  module _ (n : Network) (parse_url : List ℕ → Option AllocatedAddress) where
    module _ (reallocate : AddressDesc → Option (AllocatedAddress × ℕ)) where
      rebind_to_address-spends :
          (desc d : AddressDesc)
          → is_bound desc.status ≡ false
          → rebind_to_address n retry_cnt parse_url reallocate desc ≡ some d
          → 1 + retries_left (d ∷ []) ≤ retries_left (desc ∷ [])
      unfolding rebind_to_address
      rebind_to_address-spends desc d u e = elim (Option-cases (reallocate desc)) [
        | inl r ↦ absurd (ground (arith, e, r))
        | inr (p, r) ↦ ground (arith, e, r, u)
      ]

      bound-spends :
          (item : AddrBindStatus) (desc : AddressDesc)
          → retries_left (bound n retry_cnt parse_url reallocate item desc ∷ []) ≡ 0
      unfolding bound
      bound-spends item desc = elim (Option-cases (parse_url item.bind_addr)) [
        | inl e ↦ ground (arith, e)
        | inr (a, e) ↦ ground (arith, e)
      ]

      handled-spends :
          (item : AddrBindStatus) (desc : AddressDesc)
          → length (handled n retry_cnt parse_url reallocate item desc).1
              + retries_left (handled n retry_cnt parse_url reallocate item desc).0
            ≤ retries_left (desc ∷ [])
      unfolding handled
      handled-spends item desc = elim (Bool-cases (is_empty item.bind_addr)) [
        | inr there ↦ rw there (omega (arith, bound-spends item desc))
        | inl failed ↦ rw failed (elim (Bool-cases (is_bound desc.status)) [
          | inl old ↦ ground (arith, old)
          | inr again ↦
              rw again
                (elim (Option-cases (rebind_to_address n retry_cnt parse_url reallocate desc)) [
                  | inl e ↦ rw e (omega arith)
                  | inr (d, e) ↦
                      rw e (ground (arith, again, rebind_to_address-spends desc d again e))
                ])
        ])
      ]

      bind_in_table-spends :
          (item : AddrBindStatus) (tbl : List AddressDesc)
          → length (bind_in_table n retry_cnt parse_url reallocate item tbl).1.1
              + retries_left (bind_in_table n retry_cnt parse_url reallocate item tbl).1.0
            ≤ retries_left tbl
      unfolding bind_in_table
      bind_in_table-spends item [] = omega arith
      bind_in_table-spends item (desc ∷ descs) =
          elim (Bool-cases (same_text item.request_addr desc.address.url)) [
            | inl hit ↦ rw hit (
                omega (
                  arith,
                  handled-spends item desc,
                  retries_left-append (handled n retry_cnt parse_url reallocate item desc).0 descs,
                ))
            | inr miss ↦ rw miss (omega (arith, bind_in_table-spends item descs))
          ]

      parsed-spends :
          (o : Option AllocatedAddress)
          → retries_left (parsed n retry_cnt parse_url reallocate o) ≡ 0
      unfolding new_desc
      parsed-spends none = refl
      parsed-spends (some socket) = refl

      bind_all-spends :
          (items : List AddrBindStatus) (tbl : List AddressDesc)
          → (length (bind_all n retry_cnt parse_url reallocate items tbl).1.1
                + retries_left (bind_all n retry_cnt parse_url reallocate items tbl).0
              ≤ retries_left tbl)
            × (retries_left (bind_all n retry_cnt parse_url reallocate items tbl).1.0 ≡ 0)
      unfolding bind_all
      bind_all-spends [] tbl = (omega arith, refl)
      bind_all-spends (item ∷ items) tbl =
          let (found, (after, asked)) = bind_in_table n retry_cnt parse_url reallocate item tbl in
          let (end, (new, more)) = bind_all n retry_cnt parse_url reallocate items after in
          let rest = bind_all-spends items after in
          let fresh = parsed n retry_cnt parse_url reallocate (parse_url item.bind_addr) in
          (
            omega (arith, rest.0, bind_in_table-spends item tbl, length-append asked more),
            elim (Bool-cases found) [
              | inl e ↦ rw e rest.1
              | inr e ↦ rw e (
                  omega (
                    arith,
                    rest.1,
                    retries_left-append fresh new,
                    parsed-spends (parse_url item.bind_addr),
                  ))
            ],
          )

    -- How many addresses the service is asked to bind, by one report and by all.
    abbrev pub asked_by : Report → SvcRegistryEntry → ℕ
    asked_by r entry =
        length (bind_all n retry_cnt parse_url r.reallocate r.items entry.addr_tbl).1.1

    abbrev pub asked_by_all : List Report → SvcRegistryEntry → ℕ
    asked_by_all [] entry = 0
    asked_by_all (r ∷ rs) entry =
        asked_by r entry
        + asked_by_all rs (registered n retry_cnt parse_url r.reallocate r.sid r.items entry)

    registered-spends :
        (r : Report) (entry : SvcRegistryEntry)
        → asked_by r entry
            + retries_left
                (registered n retry_cnt parse_url r.reallocate r.sid r.items entry).addr_tbl
          ≤ retries_left entry.addr_tbl
    unfolding registered
    registered-spends r entry =
        let (tbl, (new, asked)) =
          bind_all n retry_cnt parse_url r.reallocate r.items entry.addr_tbl in
        let (spent, none_new) = bind_all-spends r.reallocate r.items entry.addr_tbl in
        omega (arith, spent, none_new, retries_left-append tbl new)

    -- Whatever reports of addresses a service sends, and whatever addresses the allocators give in place of
    -- those that could not be bound: over all reports it is asked to bind addresses anew no more often than
    -- its addresses that are not bound have retries left, each of the configured number.
    pub registered-retries :
        (reports : List Report) (entry : SvcRegistryEntry)
        → asked_by_all reports entry ≤ retries_left entry.addr_tbl
    registered-retries [] entry = omega arith
    registered-retries (r ∷ rs) entry = omega (
      arith,
      registered-spends r entry,
      registered-retries rs (registered n retry_cnt parse_url r.reallocate r.sid r.items entry),
    )
