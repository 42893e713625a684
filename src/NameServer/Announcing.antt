-- ===== src/NameServer/Announcing.antt =====
-- Which addresses of a service are announced to whom: `prepareAddressesToNotify`, and the tokens that go with
-- them (server/CNameServer.cpp).
pub mod Audience
use fdbus.Prelude.{
  ℕ, suc, ◌-◌, ◌≤◌, ◌<◌, ◌≡◌, ◌≢◌, refl, arith, ◌==◌, ltb, leb, if◌then◌else◌, not, ◌&&◌, ◌||◌,
  Bool, true, false, Option, none, some, List, [], ◌∷◌, ◌++◌, length, take, drop, All, Bool-cases,
  if_true, if_false, subst, sym,
}
use fdbus.Prelude.Map.{is_empty}
use fdbus.Messages.AddressItem.{AddressItem}
use fdbus.NameServer.{AddressDesc, same_text}
use fdbus.ServiceAddresses.{Network}
use fdbus.NameServer.Requests.{
  check_exportable, populate_address_item, prepare_address, prepare_addresses, exportable_any,
}

-- FDB_EXPORTABLE_DOMAIN
abbrev pub exportable_domain : ℕ
exportable_domain = 1

-- The URLs of local TCP addresses, secure and normal.
pub record TcpUrls : Type 0 where
  pub secure_url : List ℕ
  pub normal_url : List ℕ

-- What `prepareAddressesToNotify` fills.
pub record Announced : Type 0 where
  pub best_local_url : List ℕ
  pub local_list : List AddressItem
  pub remote_list : List AddressItem
  pub all_list : List AddressItem

abbrev no_urls : TcpUrls
no_urls = record { secure_url = []; normal_url = [] }

module _ (n : Network) where
  unfoldable pub is_ipc : AddressDesc → Bool
  is_ipc desc = desc.address.type == n.socket_ipc

  -- The last IPC address.
  unfoldable pub best_local_ipc : List AddressDesc → Option AddressDesc → Option AddressDesc
  best_local_ipc [] best = best
  best_local_ipc (desc ∷ descs) best =
      let found = best_local_ipc descs (some desc) in
      let kept = best_local_ipc descs best in if is_ipc desc then found else kept

  unfoldable pub best_local_host_tcp : List AddressDesc → List AddressDesc
  best_local_host_tcp [] = []
  best_local_host_tcp (desc ∷ descs) =
      let rest = best_local_host_tcp descs in
      if not (is_ipc desc) && same_text desc.address.addr n.local_host then desc ∷ rest else rest

  unfoldable pub outward : List AddressDesc → List AddressDesc
  outward [] = []
  outward (desc ∷ descs) =
      let rest = outward descs in
      if is_ipc desc || same_text desc.address.addr n.local_host then rest else desc ∷ rest

  unfoldable pub best_all_interface_tcp : List AddressDesc → List AddressDesc
  best_all_interface_tcp [] = []
  best_all_interface_tcp (desc ∷ descs) =
      let rest = best_all_interface_tcp descs in
      if same_text desc.address.addr n.all_interface then desc ∷ rest else rest

  -- A copy of an address for all interfaces that is one of this host.
  unfoldable pub at_local_host : AddressDesc → AddressDesc
  at_local_host desc =
      let a = desc.address in
      record desc {
        address = record a { addr = n.local_host; url = n.build_url n.local_host a.port a.secure };
      }

  unfoldable pub all_at_local_host : List AddressDesc → List AddressDesc
  all_at_local_host [] = []
  all_at_local_host (desc ∷ descs) = at_local_host desc ∷ all_at_local_host descs

  -- Of the addresses of the local host the last of each kind is the best.
  unfoldable pub last_urls : List AddressDesc → TcpUrls → TcpUrls
  last_urls [] urls = urls
  last_urls (desc ∷ descs) urls =
      let a = desc.address in
      let secure = last_urls descs (record urls { secure_url = a.url }) in
      let normal = last_urls descs (record urls { normal_url = a.url }) in
      if a.secure then secure else normal

  abbrev or_else : List ℕ → List ℕ → List ℕ
  or_else [] url = url
  or_else (c ∷ cs) url = c ∷ cs

  -- Of those for all interfaces it is the first.
  unfoldable pub first_urls : List AddressDesc → TcpUrls → TcpUrls
  first_urls [] urls = urls
  first_urls (desc ∷ descs) urls =
      let a = desc.address in
      let secure = first_urls descs (record urls { secure_url = or_else urls.secure_url a.url }) in
      let normal = first_urls descs (record urls { normal_url = or_else urls.normal_url a.url }) in
      if a.secure then secure else normal

  abbrev pub local_part :
      Option AddressDesc → List AddressDesc → List AddressDesc → List ℕ × List AddressItem
  local_part (some ipc) tcp every = (or_else ipc.address.url [], prepare_address 0 ipc [])
  local_part none [] every =
      let here = all_at_local_host every in
      let urls = first_urls here no_urls in
      (or_else urls.secure_url urls.normal_url, prepare_addresses exportable_domain here [])
  local_part none (desc ∷ tcp) every =
      let urls = last_urls (desc ∷ tcp) no_urls in
      (or_else urls.secure_url urls.normal_url, prepare_addresses 0 (desc ∷ tcp) [])

  -- `old` is the URL before, which stays if there is no better one.
  unfoldable pub prepare_addresses_to_notify : ℕ → List ℕ → List AddressDesc → Announced
  prepare_addresses_to_notify max_domain_level old tbl =
      let outer = outward tbl in
      let (url, local) =
        local_part (best_local_ipc tbl none) (best_local_host_tcp tbl)
          (best_all_interface_tcp outer) in
      record {
        best_local_url = or_else url old;
        local_list = local;
        remote_list = prepare_addresses max_domain_level outer [];
        all_list = prepare_addresses exportable_any tbl [];
      }

-- A level that is negative is `none`. A remote session gets the tokens up to its level, a local one that of its
-- level.
abbrev pub clamped : ℕ → List (List ℕ) → ℕ
clamped level tokens = if leb (length tokens) level then length tokens - 1 else level

unfoldable pub populate_tokens_remote : Option ℕ → List (List ℕ) → List (List ℕ)
populate_tokens_remote none tokens = []
populate_tokens_remote (some level) tokens =
    if is_empty tokens then [] else take (suc (clamped level tokens)) tokens

unfoldable pub populate_tokens_local : Option ℕ → List (List ℕ) → List (List ℕ)
populate_tokens_local none tokens = []
populate_tokens_local (some level) tokens =
    if is_empty tokens then [] else take 1 (drop (clamped level tokens) tokens)
