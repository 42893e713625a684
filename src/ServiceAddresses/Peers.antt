-- ===== src/ServiceAddresses/Peers.antt =====
-- Which addresses validateUrl and verifyUrl let out.
use fdbus.Prelude.{
  ℕ, ◌≡◌, refl, sym, ap, subst, ◌∙◌, ◌⊎◌, inl, inr, arith, some, Bool, true, false, not, ◌&&◌, ◌||◌,
  List, [], ◌∷◌, if_true, if_false, Bool-cases, All,
}
use fdbus.Messages.AddressItem.{AddressItem}
use fdbus.Messages.AddressList.{AddressList}
use fdbus.ServiceAddresses.{
  same_text, Network, Candidates, is_nil, stays_here, readdress, sort_item, sort_items, choose,
  validate_url, verify_items, verify_url,
}

pub same_text_eq : (xs ys : List ℕ) → same_text xs ys ≡ true → xs ≡ ys
unfolding same_text
same_text_eq [] [] h = refl
same_text_eq [] (y ∷ ys) h = ground arith
same_text_eq (x ∷ xs) [] h = ground arith
same_text_eq (x ∷ xs) (y ∷ ys) h = ground (arith, same_text_eq xs ys)

pub same_text_refl : (xs : List ℕ) → same_text xs xs ≡ true
unfolding same_text
same_text_refl [] = refl
same_text_refl (x ∷ xs) = ground (arith, same_text_refl xs)

module _ (n : Network) (peer_ip : List ℕ) where
  abbrev pub Leaves : AddressItem → Type 0
  Leaves item = stays_here n item ≡ false

  abbrev pub AtPeer : AddressItem → Type 0
  AtPeer item = same_text item.tcp_ipc_address peer_ip ≡ true

  record Sorted (c : Candidates) : Type 0 where
    best : All (λ item. Leaves item × AtPeer item) c.best
    all_if : All (λ item. Leaves item × AtPeer item) c.all_if
    fallback : All Leaves c.fallback

  readdress-Leaves :
      (item : AddressItem)
      → same_text peer_ip n.local_host ≡ false
      → Leaves item
      → Leaves (readdress n peer_ip item)
  unfolding stays_here readdress
  readdress-Leaves item away h = ground arith

  put : {x y : Candidates} → x ≡ y → Sorted y → Sorted x
  put e s = subst Sorted (sym e) s

  readdress-AtPeer : (item : AddressItem) → AtPeer (readdress n peer_ip item)
  unfolding readdress
  readdress-AtPeer item = same_text_refl peer_ip

  sort_item-Sorted :
      (item : AddressItem) (c : Candidates)
      → same_text peer_ip n.local_host ≡ false
      → Sorted c
      → Sorted (sort_item n peer_ip item c)
  unfolding sort_item
  sort_item-Sorted item c away s = elim (Bool-cases (stays_here n item)) [
    | inl stays ↦ put (if_true _ _ stays) s
    | inr leaves ↦ elim (Bool-cases (same_text item.tcp_ipc_address peer_ip)) [
      | inl at ↦
          put (if_false _ _ leaves ∙ if_true _ _ at)
            (record { best = ((leaves, at), s.best); all_if = s.all_if; fallback = s.fallback })
      | inr other ↦
          elim (Bool-cases
            (same_text item.tcp_ipc_address n.all_interface && not (is_nil peer_ip))) [
              | inl all ↦ put (if_false _ _ leaves ∙ if_false _ _ other ∙ if_true _ _ all) (record {
                best = s.best;
                all_if = ((readdress-Leaves item away leaves, readdress-AtPeer item), s.all_if);
                fallback = s.fallback;
              })
              | inr one ↦
                  put (if_false _ _ leaves ∙ if_false _ _ other ∙ if_false _ _ one)
                    (record { best = s.best; all_if = s.all_if; fallback = (leaves, s.fallback) })
            ]
    ]
  ]

  sort_items-Sorted :
      (items : List AddressItem)
      → same_text peer_ip n.local_host ≡ false
      → Sorted (sort_items n peer_ip items)
  unfolding sort_items
  sort_items-Sorted [] away = record { best = tt; all_if = tt; fallback = tt }
  sort_items-Sorted (item ∷ items) away =
      sort_item-Sorted item _ away (sort_items-Sorted items away)

  -- Whether every address stays here.
  abbrev pub all_stay : List AddressItem → Bool
  all_stay [] = true
  all_stay (item ∷ items) = stays_here n item && all_stay items

  -- Whether some address goes out that is the peer's or stands for all interfaces.
  abbrev pub is_near : AddressItem → Bool
  is_near item =
      not (stays_here n item)
      && (same_text item.tcp_ipc_address peer_ip
          || (same_text item.tcp_ipc_address n.all_interface && not (is_nil peer_ip)))

  abbrev pub any_near : List AddressItem → Bool
  any_near [] = false
  any_near (item ∷ items) = is_near item || any_near items

  abbrev none_left : Candidates → Bool
  none_left c = is_nil c.best && (is_nil c.all_if && is_nil c.fallback)

  abbrev none_near : Candidates → Bool
  none_near c = is_nil c.best && is_nil c.all_if

  All-first :
      (P Q : AddressItem → Type 0) (items : List AddressItem)
      → All (λ item. P item × Q item) items
      → All P items × All Q items
  All-first P Q [] h = (tt, tt)
  All-first P Q (item ∷ items) h = let (p, q) = All-first P Q items h.1 in ((h.0.0, p), (h.0.1, q))

  choose-Leaves :
      (pool best all_if fallback : List AddressItem)
      → Sorted (record { best = best; all_if = all_if; fallback = fallback })
      → (is_nil best && (is_nil all_if && is_nil fallback)) ≡ false
      → All Leaves (choose n pool (record { best = best; all_if = all_if; fallback = fallback }))
  unfolding choose
  choose-Leaves pool (b ∷ bs) qs fs s h = (All-first Leaves AtPeer (b ∷ bs) s.best).0
  choose-Leaves pool [] (q ∷ qs) fs s h = (All-first Leaves AtPeer (q ∷ qs) s.all_if).0
  choose-Leaves pool [] [] (f ∷ fs) s h = s.fallback
  choose-Leaves pool [] [] [] s h = ground arith

  choose-AtPeer :
      (pool best all_if fallback : List AddressItem)
      → Sorted (record { best = best; all_if = all_if; fallback = fallback })
      → (is_nil best && is_nil all_if) ≡ false
      → All AtPeer (choose n pool (record { best = best; all_if = all_if; fallback = fallback }))
  unfolding choose
  choose-AtPeer pool (b ∷ bs) qs fs s h = (All-first Leaves AtPeer (b ∷ bs) s.best).1
  choose-AtPeer pool [] (q ∷ qs) fs s h = (All-first Leaves AtPeer (q ∷ qs) s.all_if).1
  choose-AtPeer pool [] [] fs s h = ground arith

  sort_items-left :
      (items : List AddressItem) → none_left (sort_items n peer_ip items) ≡ all_stay items
  unfolding sort_items sort_item
  sort_items-left [] = refl
  sort_items-left (item ∷ items) = ground (arith, sort_items-left items)

  sort_items-near :
      (items : List AddressItem)
      → any_near items ≡ true
      → none_near (sort_items n peer_ip items) ≡ false
  unfolding sort_items sort_item
  sort_items-near [] h = ground arith
  sort_items-near (item ∷ items) h = ground (arith, sort_items-near items)

  choose-none :
      (pool best all_if fallback : List AddressItem)
      → (is_nil best && (is_nil all_if && is_nil fallback)) ≡ true
      → choose n pool (record { best = best; all_if = all_if; fallback = fallback }) ≡ pool
  unfolding choose
  choose-none pool (b ∷ bs) qs fs h = ground arith
  choose-none pool [] (q ∷ qs) fs h = ground arith
  choose-none pool [] [] (f ∷ fs) h = ground arith
  choose-none pool [] [] [] h = refl

  -- Fit to be sent to the peer: not a local address, and not all interfaces unless that is the peer's own
  -- address or the peer's address is not known.
  abbrev pub Fit : AddressItem → Type 0
  Fit item =
      Leaves item
      × ((is_nil peer_ip ≡ true)
          ⊎ (AtPeer item ⊎ (same_text item.tcp_ipc_address n.all_interface ≡ false)))

  verify_items-Fit :
      (items : List AddressItem)
      → same_text peer_ip n.local_host ≡ false
      → All Fit (verify_items n peer_ip items)
  unfolding verify_items
  verify_items-Fit [] away = tt
  verify_items-Fit (item ∷ items) away = elim (Bool-cases (stays_here n item)) [
    | inl stays ↦ rw stays (verify_items-Fit items away)
    | inr leaves ↦
        elim (Bool-cases (same_text item.tcp_ipc_address n.all_interface && not (is_nil peer_ip))) [
          | inl all ↦
              rw (leaves, all)
                (
                  (readdress-Leaves item away leaves, inr (inl (readdress-AtPeer item))),
                  verify_items-Fit items away,
                )
          | inr one ↦ rw (leaves, one) ((leaves, ground arith), verify_items-Fit items away)
        ]
  ]

  -- If the peer is not on this host and some address of the list is not a local one, no address that
  -- validateUrl leaves is a local one.
  pub validate_url-Leaves :
      (m : AddressList)
      → same_text peer_ip n.local_host ≡ false
      → all_stay m.address_list ≡ false
      → All Leaves (validate_url n (some peer_ip) m).address_list
  unfolding validate_url
  validate_url-Leaves m away h =
      choose-Leaves m.address_list _ _ _ (sort_items-Sorted m.address_list away)
        (sort_items-left m.address_list ∙ h)

  -- If the peer is not on this host and some address of the list that is not a local one is the address of
  -- the peer, or stands for all interfaces and the address of the peer is known, every address that
  -- validateUrl leaves has the address of the peer.
  pub validate_url-AtPeer :
      (m : AddressList)
      → same_text peer_ip n.local_host ≡ false
      → any_near m.address_list ≡ true
      → All AtPeer (validate_url n (some peer_ip) m).address_list
  unfolding validate_url
  validate_url-AtPeer m away h =
      choose-AtPeer m.address_list _ _ _ (sort_items-Sorted m.address_list away)
        (sort_items-near m.address_list h)

  -- If every address of the list is a local one, validateUrl leaves all of them as they are.
  pub validate_url-unchanged :
      (m : AddressList) → all_stay m.address_list ≡ true → validate_url n (some peer_ip) m ≡ m
  unfolding validate_url
  validate_url-unchanged m h =
      let sorted = sort_items n peer_ip m.address_list in
      ap (λ items. record m { address_list = items })
        (choose-none m.address_list sorted.best sorted.all_if sorted.fallback
          (sort_items-left m.address_list ∙ h))

  -- If the peer is not on this host, no address that verifyUrl leaves is a local one, and none stands for
  -- all interfaces unless the address of the peer is empty or is the same.
  pub verify_url-Fit :
      (items : List AddressItem)
      → same_text peer_ip n.local_host ≡ false
      → All Fit (verify_url n (some peer_ip) items)
  unfolding verify_url
  verify_url-Fit items away = rw away (verify_items-Fit items away)
