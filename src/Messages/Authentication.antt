-- ===== src/Messages/Authentication.antt =====
-- FdbAuthentication (utils/CFdbIfMessageHeader.h).
use fdbus.Prelude.{arith, ℕ, ◌^◌, ◌<◌, ◌≡◌, Bool, true, List, [], ◌++◌, if◌then◌else◌}
use fdbus.Prelude.Bits.{has_bit}
use fdbus.Bytes.{bytes}
use fdbus.Serializer.{Ser, ◌>>◌, put_when, serialize_scalar}
use fdbus.Serializer.Growth.{Appends, Appends->>}
use fdbus.Serializer.Puts.{serialize_scalar-Appends}
use fdbus.Deserializer.{Des, pure, ◌>>=◌, when, deserialize_scalar}
use fdbus.Deserializer.Reading.{Reads, Reads-when, Reads->>=, Reads-scalar}
use fdbus.Deserializer.Safety.{Safe, Safe-pure, Safe-when, Safe->>=, Safe-scalar}
use fdbus.Parcelable.{Parcelable}
use fdbus.Parcelable.Arrays.{IsArray}
use fdbus.Parcelable.Codec.{Format, Implements, text_format, Reads-last, Appends-when}
use fdbus.Messages.Tokens.{tokens, tokens_format, tokens-Implements}

pub record Authentication : Type 0 where
  pub options : ℕ
  pub token_list : List (List ℕ)

abbrev pub new_authentication : Authentication
new_authentication = record { options = 0; token_list = [] }

module _ (little : Bool) where
  unfoldable pub serialize_authentication : Authentication → Ser
  serialize_authentication m = do
    serialize_scalar little 1 m.options
    put_when (has_bit 1 m.options) ((tokens little).serialize m.token_list)

  unfoldable pub deserialize_authentication : Authentication → Des Authentication
  deserialize_authentication old = do
    options ← deserialize_scalar little 1 old.options
    token_list ←
        when (has_bit 1 options) ((tokens little).deserialize old.token_list) old.token_list
    pure (record { options = options; token_list = token_list })

abbrev pub authentication : Bool → Parcelable Authentication
authentication little = record {
  fresh = new_authentication;
  serialize = serialize_authentication little;
  deserialize = deserialize_authentication little;
}

-- Every member that goes out fits its field.
pub record IsAuthentication (m : Authentication) : Type 0 where
  pub options : m.options < 256 ^ 1
  pub token_list : has_bit 1 m.options ≡ true → IsArray text_format m.token_list

unfoldable pub wire_authentication : Authentication → List ℕ
wire_authentication m =
    bytes 1 m.options ++ ((if has_bit 1 m.options then tokens_format.wire m.token_list else []))

-- The object after reading `m` into `old`.
unfoldable pub received_authentication : Authentication → Authentication → Authentication
received_authentication old m = record m {
  token_list =
      if has_bit 1 m.options
      then tokens_format.received old.token_list m.token_list
      else old.token_list;
}

abbrev pub authentication_format : Format Authentication
authentication_format = record {
  IsSendable = IsAuthentication;
  wire = wire_authentication;
  received = received_authentication;
}

module _ (little : Bool) where
  authentication-Appends :
      (m : Authentication)
      → IsAuthentication m
      → Appends (serialize_authentication little m) (wire_authentication m)
  unfolding serialize_authentication wire_authentication
  authentication-Appends m v =
      Appends->> _ _ _ _ (serialize_scalar-Appends little 1 m.options)
        (Appends-when _ _ _ (λ e. (tokens-Implements little).appends m.token_list (v.token_list e)))

  authentication-Reads :
      (old m : Authentication)
      → IsAuthentication m
      → Reads
          (deserialize_authentication little old)
          (wire_authentication m)
          (received_authentication old m)
  unfolding deserialize_authentication wire_authentication received_authentication
  authentication-Reads old m v =
      Reads->>= _ _ _ _ _ _ (Reads-scalar little 1 _ m.options v.options) (
        Reads-last _ _ _ _ (
          Reads-when _ _ _ _ _
            (λ e. (tokens-Implements little).reads _ m.token_list (v.token_list e))))

  authentication-Safe : (old : Authentication) → Safe (deserialize_authentication little old)
  unfolding deserialize_authentication
  authentication-Safe old = Safe->>= _ _ (Safe-scalar little 1 _ (omega arith)) (λ options.
      Safe->>= _ _ (Safe-when _ _ _ ((tokens-Implements little).safe old.token_list))
        (λ token_list. Safe-pure _))

  pub authentication-Implements : Implements (authentication little) authentication_format
  authentication-Implements = record {
    appends = authentication-Appends;
    reads = authentication-Reads;
    safe = authentication-Safe;
  }
