-- ===== src/Messages/SessionInfo.antt =====
-- FdbSessionInfo (utils/CFdbIfMessageHeader.h).
use fdbus.Prelude.{ℕ, ◌^◌, ◌<◌, ◌≡◌, Bool, true, List, [], ◌++◌, if◌then◌else◌}
use fdbus.Prelude.Bits.{has_bit}
use fdbus.Bytes.{bytes}
use fdbus.Serializer.{Ser, ◌>>◌, put_when, serialize_scalar, put_string}
use fdbus.Serializer.Growth.{Appends, Appends->>}
use fdbus.Serializer.Puts.{serialize_scalar-Appends}
use fdbus.Deserializer.{Des, pure, ◌>>=◌, when, deserialize_scalar, get_string}
use fdbus.Deserializer.Reading.{Reads, Reads-when, Reads->>=, Reads-scalar}
use fdbus.Deserializer.Safety.{Safe, safe_gets}
use fdbus.Parcelable.{Parcelable}
use fdbus.Parcelable.Codec.{
  Format, Implements, IsText, wire_text, put_string-Appends_text, Reads-text_string, Reads-last,
  Appends-when,
}

pub record SessionInfo : Type 0 where
  pub sender_name : List ℕ
  pub pid : ℕ
  pub options : ℕ
  pub udp_port : ℕ

abbrev pub new_session_info : SessionInfo
new_session_info = record { sender_name = []; pid = 0; options = 0; udp_port = 0 }

module _ (little : Bool) where
  unfoldable pub serialize_session_info : SessionInfo → Ser
  serialize_session_info m = do
    put_string little m.sender_name
    serialize_scalar little 4 m.pid
    serialize_scalar little 1 m.options
    put_when (has_bit 1 m.options) (serialize_scalar little 4 m.udp_port)

  unfoldable pub deserialize_session_info : SessionInfo → Des SessionInfo
  deserialize_session_info old = do
    sender_name ← get_string little old.sender_name
    pid ← deserialize_scalar little 4 old.pid
    options ← deserialize_scalar little 1 old.options
    udp_port ← when (has_bit 1 options) (deserialize_scalar little 4 old.udp_port) old.udp_port
    pure (record { sender_name = sender_name; pid = pid; options = options; udp_port = udp_port })

abbrev pub session_info : Bool → Parcelable SessionInfo
session_info little = record {
  fresh = new_session_info;
  serialize = serialize_session_info little;
  deserialize = deserialize_session_info little;
}

-- Every member that goes out fits its field.
pub record IsSessionInfo (m : SessionInfo) : Type 0 where
  pub sender_name : IsText m.sender_name
  pub pid : m.pid < 256 ^ 4
  pub options : m.options < 256 ^ 1
  pub udp_port : has_bit 1 m.options ≡ true → m.udp_port < 256 ^ 4

unfoldable pub wire_session_info : SessionInfo → List ℕ
wire_session_info m =
    wire_text m.sender_name
    ++ (bytes 4 m.pid
        ++ (bytes 1 m.options ++ ((if has_bit 1 m.options then bytes 4 m.udp_port else []))))

-- The object after reading `m` into `old`.
unfoldable pub received_session_info : SessionInfo → SessionInfo → SessionInfo
received_session_info old m = record m {
  udp_port = if has_bit 1 m.options then m.udp_port else old.udp_port;
}

abbrev pub session_info_format : Format SessionInfo
session_info_format = record {
  IsSendable = IsSessionInfo;
  wire = wire_session_info;
  received = received_session_info;
}

module _ (little : Bool) where
  session_info-Appends :
      (m : SessionInfo)
      → IsSessionInfo m
      → Appends (serialize_session_info little m) (wire_session_info m)
  unfolding serialize_session_info wire_session_info
  session_info-Appends m v =
      Appends->> _ _ _ _ (put_string-Appends_text little m.sender_name v.sender_name) (
        Appends->> _ _ _ _ (serialize_scalar-Appends little 4 m.pid) (
          Appends->> _ _ _ _ (serialize_scalar-Appends little 1 m.options)
            (Appends-when _ _ _ (λ e. serialize_scalar-Appends little 4 m.udp_port))))

  session_info-Reads :
      (old m : SessionInfo)
      → IsSessionInfo m
      → Reads
          (deserialize_session_info little old)
          (wire_session_info m)
          (received_session_info old m)
  unfolding deserialize_session_info wire_session_info received_session_info
  session_info-Reads old m v =
      Reads->>= _ _ _ _ _ _ (Reads-text_string little _ m.sender_name v.sender_name) (
        Reads->>= _ _ _ _ _ _ (Reads-scalar little 4 _ m.pid v.pid) (
          Reads->>= _ _ _ _ _ _ (Reads-scalar little 1 _ m.options v.options) (
            Reads-last _ _ _ _
              (Reads-when _ _ _ _ _ (λ e. Reads-scalar little 4 _ m.udp_port (v.udp_port e))))))

  session_info-Safe : (old : SessionInfo) → Safe (deserialize_session_info little old)
  unfolding deserialize_session_info
  session_info-Safe old = search safe_gets depth 40

  pub session_info-Implements : Implements (session_info little) session_info_format
  session_info-Implements = record {
    appends = session_info-Appends;
    reads = session_info-Reads;
    safe = session_info-Safe;
  }
