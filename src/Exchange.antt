-- ===== src/Exchange.antt =====
-- What crosses the wire between two hosts, message by message (utils/CFdbIfMessageHeader.h,
-- public/fdbus/CFdbIfNameServer.h).
use fdbus.Prelude.{
  ℕ, ◌+◌, ◌^◌, ◌≤◌, ◌<◌, ◌≡◌, refl, Bool, true, false, List, [], ◌∷◌, ◌++◌, arith, Option, some,
  length, length-append, if◌then◌else◌,
}
use fdbus.Prelude.Bits.{has_bit}
use fdbus.Bytes.{bytes, length-bytes}
use fdbus.Serializer.{Serializer, new, output}
use fdbus.Serializer.Growth.{max_message}
use fdbus.Deserializer.{Deserializer, advance, open_buffer}
use fdbus.Deserializer.Safety.{Bounded, max_read}
use fdbus.Parcelable.{Parcelable}
use fdbus.Parcelable.Codec.{wire_text}
use fdbus.Parcelable.Exchange.{exchange, read_any}
use fdbus.MessageHeader.{
  MessageHeader, header, serialize_header, mask_head_filter, mask_sender_arrive_time,
  mask_reply_time,
}
use fdbus.MessageHeader.Codecs.{
  IsHeader, wire_header, received_header, header_format, header-Implements,
}
use fdbus.Messages.ErrorInfo.{error_info, error_info-Implements}
use fdbus.Messages.Authentication.{authentication, authentication-Implements}
use fdbus.Messages.SessionInfo.{session_info, session_info-Implements}
use fdbus.Messages.AddressItem.{address_item, address_item-Implements}
use fdbus.Messages.AddressList.{
  AddressList, address_list, IsAddressList, wire_address_list, address_list_format,
  address_list-Implements,
}
use fdbus.Messages.AddrBindStatus.{addr_bind_status, addr_bind_status-Implements}
use fdbus.Messages.AddrBindResults.{addr_bind_results, addr_bind_results-Implements}
use fdbus.Messages.ServerName.{server_name, server_name-Implements}
use fdbus.Messages.ExportableSvcAddress.{exportable_svc_address, exportable_svc_address-Implements}
use fdbus.Messages.HostRegisterReq.{host_register_req, host_register_req-Implements}
use fdbus.Messages.HostAddress.{host_address, host_address-Implements}
use fdbus.Messages.DomainRegisterReq.{domain_register_req, domain_register_req-Implements}
use fdbus.Messages.DomainAddress.{domain_address, domain_address-Implements}
use fdbus.Messages.HostRegisterAck.{host_register_ack, host_register_ack-Implements}
use fdbus.Messages.HostAddressList.{
  HostAddressList, host_address_list, IsHostAddressList, wire_host_address_list,
  host_address_list_format, host_address_list-Implements,
}
use fdbus.Messages.ServiceInfo.{service_info, service_info-Implements}
use fdbus.Messages.ServiceTable.{service_table, service_table-Implements}

length-wire_text : (cs : List ℕ) → length (wire_text cs) ≡ length cs + 3
length-wire_text cs = omega (
  arith,
  length-append (bytes 2 (length cs + 1)) (cs ++ 0 ∷ []),
  length-append cs (0 ∷ []),
  length-bytes 2 (length cs + 1),
)

optional-le :
    (b : Bool) (xs : List ℕ) (n : ℕ)
    → (b ≡ true → length xs ≤ n)
    → length (if b then xs else []) ≤ n
optional-le true xs n h = h refl
optional-le false xs n h = omega arith

header-fits : (h : MessageHeader) → IsHeader h → length (wire_header h) ≤ max_message
unfolding wire_header
header-fits h v =
    let topic =
      optional-le (has_bit mask_head_filter h.options) (wire_text h.topic) (2 ^ 17)
        (λ e. omega (arith, length-wire_text h.topic, (v.topic e).short)) in
    let sent =
      optional-le (has_bit mask_sender_arrive_time h.options) (bytes 8 h.send_arrive_time) 8
        (λ e. omega (arith, length-bytes 8 h.send_arrive_time)) in
    let replied =
      optional-le (has_bit mask_reply_time h.options) (bytes 8 h.reply_time) 8
        (λ e. omega (arith, length-bytes 8 h.reply_time)) in
    simp (length-append, length-bytes) (omega (arith, topic, sent, replied))

-- What a reader makes of the bytes that a serializer holds.
abbrev pub read_back : {A : Type 0} → Parcelable A → A → Serializer → Option (A × Deserializer)
read_back q old s = q.deserialize old (open_buffer (some (output s)) (length (output s)))

-- The reader's object and its place at the end of the bytes.
abbrev pub at_end : {A : Type 0} → A → Serializer → Option (A × Deserializer)
at_end a s =
    some (a, advance (length (output s)) (open_buffer (some (output s)) (length (output s))))

-- A message header whose members fit their fields is written without error by a host of either byte order,
-- and a host of either byte order reads it: every member arrives, an optional member that was not sent
-- stays what it was in the object read into, and the reader ends at the end of the bytes.
pub header_exchange :
    (writer reader : Bool) (old h : MessageHeader)
    → IsHeader h
    → (s : Serializer) × (serialize_header writer h new ≡ some s)
      × (read_back (header reader) old s ≡ at_end (received_header old h) s)
header_exchange writer reader old h v =
    exchange header_format (header writer) (header reader) (header-Implements writer)
      (header-Implements reader) old h v (header-fits h v)

-- An address list whose members fit their fields and that is at most 2 ^ 30 bytes long is written without
-- error by a host of either byte order, and a host of either byte order reads what was sent, up to the
-- optional members that were not sent, which stay what they were in the object read into.
pub address_list_exchange :
    (writer reader : Bool) (old m : AddressList)
    → IsAddressList m
    → length (wire_address_list m) ≤ max_message
    → (s : Serializer) × ((address_list writer).serialize m new ≡ some s)
      × (read_back (address_list reader) old s ≡ at_end (address_list_format.received old m) s)
address_list_exchange writer reader old m v fits =
    exchange address_list_format (address_list writer) (address_list reader)
      (address_list-Implements writer) (address_list-Implements reader) old m v fits

-- A list of host addresses and exported services whose members fit their fields and that is at most 2 ^ 30
-- bytes long is written without error by a host of either byte order, and a host of either byte order reads
-- what was sent, up to the optional members that were not sent, which stay what they were in the object
-- read into.
pub host_address_list_exchange :
    (writer reader : Bool) (old m : HostAddressList)
    → IsHostAddressList m
    → length (wire_host_address_list m) ≤ max_message
    → (s : Serializer) × ((host_address_list writer).serialize m new ≡ some s)
      × (read_back (host_address_list reader) old s
          ≡ at_end (host_address_list_format.received old m) s)
host_address_list_exchange writer reader old m v fits =
    exchange host_address_list_format (host_address_list writer) (host_address_list reader)
      (host_address_list-Implements writer) (host_address_list-Implements reader) old m v fits

-- Reading an object from bytes ends, inside the buffer.
abbrev pub Contained : {A : Type 0} → Parcelable A → List ℕ → Type 0
Contained {A} q bs =
    (old : A)
    → (a : A) × (d : Deserializer) × (q.deserialize old (open_buffer (some bs) (length bs))
        ≡ some (a, d))
      × Bounded d

abbrev pub AllContained : Bool → List ℕ → Type 0
AllContained little bs =
    Contained (header little) bs
    × Contained (error_info little) bs
    × Contained (authentication little) bs
    × Contained (session_info little) bs
    × Contained (address_item little) bs
    × Contained (address_list little) bs
    × Contained (addr_bind_status little) bs
    × Contained (addr_bind_results little) bs
    × Contained (server_name little) bs
    × Contained (exportable_svc_address little) bs
    × Contained (host_register_req little) bs
    × Contained (host_address little) bs
    × Contained (domain_register_req little) bs
    × Contained (domain_address little) bs
    × Contained (host_register_ack little) bs
    × Contained (host_address_list little) bs
    × Contained (service_info little) bs
    × Contained (service_table little) bs

-- Whatever bytes arrive, from one to 2 ^ 31 - 2 ^ 16 of them, and whatever object they are read into, each
-- of the eighteen message types is read to an end without an access outside the buffer.
pub messages-Contained :
    (little : Bool) (bs : List ℕ) → 0 < length bs → length bs ≤ max_read → AllContained little bs
messages-Contained little bs h k = (
  λ old. read_any (header little) (header-Implements little) old bs h k,
  λ old. read_any (error_info little) (error_info-Implements little) old bs h k,
  λ old. read_any (authentication little) (authentication-Implements little) old bs h k,
  λ old. read_any (session_info little) (session_info-Implements little) old bs h k,
  λ old. read_any (address_item little) (address_item-Implements little) old bs h k,
  λ old. read_any (address_list little) (address_list-Implements little) old bs h k,
  λ old. read_any (addr_bind_status little) (addr_bind_status-Implements little) old bs h k,
  λ old. read_any (addr_bind_results little) (addr_bind_results-Implements little) old bs h k,
  λ old. read_any (server_name little) (server_name-Implements little) old bs h k,
  λ old.
      read_any (exportable_svc_address little) (exportable_svc_address-Implements little) old bs h
        k,
  λ old. read_any (host_register_req little) (host_register_req-Implements little) old bs h k,
  λ old. read_any (host_address little) (host_address-Implements little) old bs h k,
  λ old. read_any (domain_register_req little) (domain_register_req-Implements little) old bs h k,
  λ old. read_any (domain_address little) (domain_address-Implements little) old bs h k,
  λ old. read_any (host_register_ack little) (host_register_ack-Implements little) old bs h k,
  λ old. read_any (host_address_list little) (host_address_list-Implements little) old bs h k,
  λ old. read_any (service_info little) (service_info-Implements little) old bs h k,
  λ old. read_any (service_table little) (service_table-Implements little) old bs h k,
)
