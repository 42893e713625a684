-- ===== src/Messages/AddrBindStatus.antt =====
-- FdbAddrBindStatus (public/fdbus/CFdbIfNameServer.h).
use fdbus.Prelude.{ℕ, ◌^◌, ◌<◌, Bool, List, [], ◌++◌}
use fdbus.Bytes.{bytes}
use fdbus.Serializer.{Ser, ◌>>◌, serialize_scalar, put_string}
use fdbus.Serializer.Growth.{Appends, Appends->>}
use fdbus.Serializer.Puts.{serialize_scalar-Appends}
use fdbus.Deserializer.{Des, pure, ◌>>=◌, deserialize_scalar, get_string}
use fdbus.Deserializer.Reading.{Reads, Reads->>=, Reads-scalar}
use fdbus.Deserializer.Safety.{Safe, safe_gets}
use fdbus.Parcelable.{Parcelable}
use fdbus.Parcelable.Codec.{
  Format, Implements, IsText, wire_text, put_string-Appends_text, Reads-text_string, Reads-last,
}

pub record AddrBindStatus : Type 0 where
  pub request_addr : List ℕ
  pub bind_addr : List ℕ
  pub udp_port : ℕ

abbrev pub new_addr_bind_status : AddrBindStatus
new_addr_bind_status = record { request_addr = []; bind_addr = []; udp_port = 0 }

module _ (little : Bool) where
  unfoldable pub serialize_addr_bind_status : AddrBindStatus → Ser
  serialize_addr_bind_status m = do
    put_string little m.request_addr
    put_string little m.bind_addr
    serialize_scalar little 4 m.udp_port

  unfoldable pub deserialize_addr_bind_status : AddrBindStatus → Des AddrBindStatus
  deserialize_addr_bind_status old = do
    request_addr ← get_string little old.request_addr
    bind_addr ← get_string little old.bind_addr
    udp_port ← deserialize_scalar little 4 old.udp_port
    pure (record { request_addr = request_addr; bind_addr = bind_addr; udp_port = udp_port })

abbrev pub addr_bind_status : Bool → Parcelable AddrBindStatus
addr_bind_status little = record {
  fresh = new_addr_bind_status;
  serialize = serialize_addr_bind_status little;
  deserialize = deserialize_addr_bind_status little;
}

-- Every member that goes out fits its field.
pub record IsAddrBindStatus (m : AddrBindStatus) : Type 0 where
  pub request_addr : IsText m.request_addr
  pub bind_addr : IsText m.bind_addr
  pub udp_port : m.udp_port < 256 ^ 4

unfoldable pub wire_addr_bind_status : AddrBindStatus → List ℕ
wire_addr_bind_status m =
    wire_text m.request_addr ++ (wire_text m.bind_addr ++ (bytes 4 m.udp_port))

abbrev pub addr_bind_status_format : Format AddrBindStatus
addr_bind_status_format = record {
  IsSendable = IsAddrBindStatus;
  wire = wire_addr_bind_status;
  received = λ old m. m;
}

module _ (little : Bool) where
  addr_bind_status-Appends :
      (m : AddrBindStatus)
      → IsAddrBindStatus m
      → Appends (serialize_addr_bind_status little m) (wire_addr_bind_status m)
  unfolding serialize_addr_bind_status wire_addr_bind_status
  addr_bind_status-Appends m v =
      Appends->> _ _ _ _ (put_string-Appends_text little m.request_addr v.request_addr) (
        Appends->> _ _ _ _ (put_string-Appends_text little m.bind_addr v.bind_addr)
          (serialize_scalar-Appends little 4 m.udp_port))

  addr_bind_status-Reads :
      (old m : AddrBindStatus)
      → IsAddrBindStatus m
      → Reads (deserialize_addr_bind_status little old) (wire_addr_bind_status m) (m)
  unfolding deserialize_addr_bind_status wire_addr_bind_status
  addr_bind_status-Reads old m v =
      Reads->>= _ _ _ _ _ _ (Reads-text_string little _ m.request_addr v.request_addr) (
        Reads->>= _ _ _ _ _ _ (Reads-text_string little _ m.bind_addr v.bind_addr)
          (Reads-last _ _ _ _ (Reads-scalar little 4 _ m.udp_port v.udp_port)))

  addr_bind_status-Safe : (old : AddrBindStatus) → Safe (deserialize_addr_bind_status little old)
  unfolding deserialize_addr_bind_status
  addr_bind_status-Safe old = search safe_gets depth 40

  pub addr_bind_status-Implements : Implements (addr_bind_status little) addr_bind_status_format
  addr_bind_status-Implements = record {
    appends = addr_bind_status-Appends;
    reads = addr_bind_status-Reads;
    safe = addr_bind_status-Safe;
  }
