-- ===== src/Messages/ErrorInfo.antt =====
-- FdbMsgErrorInfo (utils/CFdbIfMessageHeader.h).
use fdbus.Prelude.{ℕ, ◌^◌, ◌<◌, ◌≡◌, Bool, true, List, [], ◌++◌, if◌then◌else◌}
use fdbus.Prelude.Bits.{has_bit}
use fdbus.Bytes.{bytes}
use fdbus.Serializer.{Ser, ◌>>◌, put_when, serialize_scalar, put_string}
use fdbus.Serializer.Growth.{Appends, Appends->>}
use fdbus.Serializer.Puts.{serialize_scalar-Appends}
use fdbus.Deserializer.{Des, pure, ◌>>=◌, when, deserialize_scalar, get_string}
use fdbus.Deserializer.Reading.{Reads, Reads-when, Reads->>=, Reads-scalar}
use fdbus.Deserializer.Safety.{Safe, safe_gets}
use fdbus.Parcelable.{Parcelable}
use fdbus.Parcelable.Codec.{
  Format, Implements, IsText, wire_text, put_string-Appends_text, Reads-text_string, Reads-last,
  Appends-when,
}

pub record ErrorInfo : Type 0 where
  pub error_code : ℕ
  pub options : ℕ
  pub description : List ℕ

abbrev pub new_error_info : ErrorInfo
new_error_info = record { error_code = 0; options = 0; description = [] }

module _ (little : Bool) where
  unfoldable pub serialize_error_info : ErrorInfo → Ser
  serialize_error_info m = do
    serialize_scalar little 4 m.error_code
    serialize_scalar little 1 m.options
    put_when (has_bit 1 m.options) (put_string little m.description)

  unfoldable pub deserialize_error_info : ErrorInfo → Des ErrorInfo
  deserialize_error_info old = do
    error_code ← deserialize_scalar little 4 old.error_code
    options ← deserialize_scalar little 1 old.options
    description ← when (has_bit 1 options) (get_string little old.description) old.description
    pure (record { error_code = error_code; options = options; description = description })

abbrev pub error_info : Bool → Parcelable ErrorInfo
error_info little = record {
  fresh = new_error_info;
  serialize = serialize_error_info little;
  deserialize = deserialize_error_info little;
}

-- Every member that goes out fits its field.
pub record IsErrorInfo (m : ErrorInfo) : Type 0 where
  pub error_code : m.error_code < 256 ^ 4
  pub options : m.options < 256 ^ 1
  pub description : has_bit 1 m.options ≡ true → IsText m.description

unfoldable pub wire_error_info : ErrorInfo → List ℕ
wire_error_info m =
    bytes 4 m.error_code
    ++ (bytes 1 m.options ++ ((if has_bit 1 m.options then wire_text m.description else [])))

-- The object after reading `m` into `old`.
unfoldable pub received_error_info : ErrorInfo → ErrorInfo → ErrorInfo
received_error_info old m = record m {
  description = if has_bit 1 m.options then m.description else old.description;
}

abbrev pub error_info_format : Format ErrorInfo
error_info_format = record {
  IsSendable = IsErrorInfo;
  wire = wire_error_info;
  received = received_error_info;
}

module _ (little : Bool) where
  error_info-Appends :
      (m : ErrorInfo) → IsErrorInfo m → Appends (serialize_error_info little m) (wire_error_info m)
  unfolding serialize_error_info wire_error_info
  error_info-Appends m v = Appends->> _ _ _ _ (serialize_scalar-Appends little 4 m.error_code) (
      Appends->> _ _ _ _ (serialize_scalar-Appends little 1 m.options)
        (Appends-when _ _ _ (λ e. put_string-Appends_text little m.description (v.description e))))

  error_info-Reads :
      (old m : ErrorInfo)
      → IsErrorInfo m
      → Reads (deserialize_error_info little old) (wire_error_info m) (received_error_info old m)
  unfolding deserialize_error_info wire_error_info received_error_info
  error_info-Reads old m v =
      Reads->>= _ _ _ _ _ _ (Reads-scalar little 4 _ m.error_code v.error_code) (
        Reads->>= _ _ _ _ _ _ (Reads-scalar little 1 _ m.options v.options) (
          Reads-last _ _ _ _ (
            Reads-when _ _ _ _ _
              (λ e. Reads-text_string little _ m.description (v.description e)))))

  error_info-Safe : (old : ErrorInfo) → Safe (deserialize_error_info little old)
  unfolding deserialize_error_info
  error_info-Safe old = search safe_gets depth 40

  pub error_info-Implements : Implements (error_info little) error_info_format
  error_info-Implements = record {
    appends = error_info-Appends;
    reads = error_info-Reads;
    safe = error_info-Safe;
  }
