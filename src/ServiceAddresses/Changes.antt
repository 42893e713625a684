-- ===== src/ServiceAddresses/Changes.antt =====
-- What compareSvcTable calls added and removed.
use fdbus.Prelude.{
  ℕ, ◌≡◌, refl, inl, inr, arith, Bool, true, false, not, ◌&&◌, ◌||◌, List, [], ◌∷◌, ◌==◌,
  Bool-cases, All,
}
use fdbus.Messages.AddressList.{AddressList}
use fdbus.ServiceAddresses.Peers.{same_text_eq}
use fdbus.ServiceAddresses.{
  SvcAddress, same_text, is_nil, populate_to_host_info, blank, same_service, in_current, in_new,
  added, removed, compare_svc_table,
}

-- A service is known by its name and its instance.
abbrev pub listed : List ℕ → ℕ → List SvcAddress → Bool
listed name instance_id [] = false
listed name instance_id (svc ∷ table) =
    (same_text svc.svc_name name && (svc.instance_id == instance_id))
    || listed name instance_id table

abbrev pub announced : List ℕ → ℕ → List AddressList → Bool
announced name instance_id [] = false
announced name instance_id (m ∷ new) =
    (same_text m.service_name name && (m.instance_id == instance_id))
    || announced name instance_id new

same_text_sym : (xs ys : List ℕ) → same_text xs ys ≡ same_text ys xs
unfolding same_text
same_text_sym [] [] = refl
same_text_sym [] (y ∷ ys) = refl
same_text_sym (x ∷ xs) [] = refl
same_text_sym (x ∷ xs) (y ∷ ys) = ground (arith, same_text_sym xs ys)

module _ (unset : ℕ) where
  in_current-listed :
      (m : AddressList) (table : List SvcAddress)
      → in_current unset m table ≡ listed m.service_name m.instance_id table
  unfolding in_current same_service
  in_current-listed m [] = refl
  in_current-listed m (svc ∷ table) = ground (arith, in_current-listed m table)

  -- The new list after its addressless services are set aside (all of its services have addresses).
  abbrev pub Addressed : List AddressList → Type 0
  Addressed new = All (λ m. is_nil m.address_list ≡ false) new

  populated-name :
      (m : AddressList)
      → is_nil m.address_list ≡ false
      → ((populate_to_host_info m (blank unset)).svc_name ≡ m.service_name)
        × ((populate_to_host_info m (blank unset)).instance_id ≡ m.instance_id)
  unfolding populate_to_host_info
  populated-name m h = rw h (refl, refl)

  in_current-key :
      (m : AddressList) (name : List ℕ) (instance_id : ℕ) (table : List SvcAddress)
      → (same_text m.service_name name && (m.instance_id == instance_id)) ≡ true
      → in_current unset m table ≡ listed name instance_id table
  in_current-key m name instance_id table h =
      let e : m.service_name ≡ name = same_text_eq m.service_name name (ground (arith, h)) in
      let e' : m.instance_id ≡ instance_id = ground (arith, h) in
      rw (in_current-listed m table, e, e')

  in_new-announced :
      (svc : SvcAddress) (new : List AddressList)
      → in_new unset svc new ≡ announced svc.svc_name svc.instance_id new
  unfolding in_new same_service
  in_new-announced svc [] = refl
  in_new-announced svc (m ∷ new) =
      ground (arith, in_new-announced svc new, same_text_sym svc.svc_name m.service_name)

  in_new-key :
      (svc : SvcAddress) (name : List ℕ) (instance_id : ℕ) (new : List AddressList)
      → (same_text svc.svc_name name && (svc.instance_id == instance_id)) ≡ true
      → in_new unset svc new ≡ announced name instance_id new
  in_new-key svc name instance_id new h =
      let e : svc.svc_name ≡ name = same_text_eq svc.svc_name name (ground (arith, h)) in
      let e' : svc.instance_id ≡ instance_id = ground (arith, h) in
      rw (in_new-announced svc new, e, e')

  -- A service is in `added` exactly if it is announced and is not in the current table.
  added_iff :
      (name : List ℕ) (instance_id : ℕ) (new : List AddressList) (current : List SvcAddress)
      → Addressed new
      → listed name instance_id (added unset new current)
        ≡ announced name instance_id new && not (listed name instance_id current)
  unfolding added
  added_iff name instance_id [] current h = refl
  added_iff name instance_id (m ∷ new) current h = elim (Bool-cases (in_current unset m current)) [
    | inl present ↦ rw present (
        ground (
          arith,
          added_iff name instance_id new current h.1,
          in_current-key m name instance_id current,
        ))
    | inr missing ↦
        rw (missing, (populated-name m h.0).0, (populated-name m h.0).1)
          (ground (
            arith,
            added_iff name instance_id new current h.1,
            in_current-key m name instance_id current,
          ))
  ]

  removed_iff :
      (name : List ℕ) (instance_id : ℕ) (new : List AddressList) (current : List SvcAddress)
      → listed name instance_id (removed unset new current)
        ≡ listed name instance_id current && not (announced name instance_id new)
  unfolding removed
  removed_iff name instance_id new [] = refl
  removed_iff name instance_id new (svc ∷ current) =
      ground (arith, removed_iff name instance_id new current, in_new-key svc name instance_id new)

  -- If every announced service has an address: a service, known by its name and instance, is added exactly
  -- if it is announced and not in the table, it is removed exactly if it is in the table and not announced,
  -- and the table without the removed services and with the added ones lists exactly what is announced.
  pub compare_svc_table-listed :
      (new : List AddressList) (current : List SvcAddress)
      → Addressed new
      → (name : List ℕ) (instance_id : ℕ)
      → let (a, r) = compare_svc_table unset new current [] [] in
        (listed name instance_id a
          ≡ announced name instance_id new && not (listed name instance_id current))
        × (listed name instance_id r
            ≡ listed name instance_id current && not (announced name instance_id new))
        × (((listed name instance_id current && not (listed name instance_id r))
              || listed name instance_id a)
            ≡ announced name instance_id new)
  unfolding compare_svc_table
  compare_svc_table-listed new current h name instance_id = (
    added_iff name instance_id new current h,
    removed_iff name instance_id new current,
    ground
        (arith, added_iff name instance_id new current h, removed_iff name instance_id new current),
  )
