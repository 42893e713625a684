-- ===== src/Messages/DomainRegisterReq.antt =====
-- FdbMsgDomainRegisterReq (public/fdbus/CFdbIfNameServer.h).
use fdbus.Prelude.{ℕ, ◌^◌, ◌<◌, ◌≡◌, Bool, true, List, [], ◌++◌, if◌then◌else◌}
use fdbus.Prelude.Bits.{has_bit}
use fdbus.Bytes.{bytes}
use fdbus.Serializer.{Ser, ◌>>◌, put_when, serialize_scalar, put_string}
use fdbus.Serializer.Growth.{Appends, Appends->>}
use fdbus.Serializer.Puts.{serialize_scalar-Appends}
use fdbus.Deserializer.{Des, pure, ◌>>=◌, when, deserialize_scalar, get_string}
use fdbus.Deserializer.Reading.{Reads, Reads-when, Reads->>=, Reads-scalar}
use fdbus.Deserializer.Safety.{Safe, safe_gets}
use fdbus.Parcelable.{Parcelable}
use fdbus.Parcelable.Codec.{
  Format, Implements, IsText, wire_text, put_string-Appends_text, Reads-text_string, Reads-last,
  Appends-when,
}

pub record DomainRegisterReq : Type 0 where
  pub domain_name : List ℕ
  pub options : ℕ
  pub cred : List ℕ

abbrev pub new_domain_register_req : DomainRegisterReq
new_domain_register_req = record { domain_name = []; options = 0; cred = [] }

module _ (little : Bool) where
  unfoldable pub serialize_domain_register_req : DomainRegisterReq → Ser
  serialize_domain_register_req m = do
    put_string little m.domain_name
    serialize_scalar little 1 m.options
    put_when (has_bit 1 m.options) (put_string little m.cred)

  unfoldable pub deserialize_domain_register_req : DomainRegisterReq → Des DomainRegisterReq
  deserialize_domain_register_req old = do
    domain_name ← get_string little old.domain_name
    options ← deserialize_scalar little 1 old.options
    cred ← when (has_bit 1 options) (get_string little old.cred) old.cred
    pure (record { domain_name = domain_name; options = options; cred = cred })

abbrev pub domain_register_req : Bool → Parcelable DomainRegisterReq
domain_register_req little = record {
  fresh = new_domain_register_req;
  serialize = serialize_domain_register_req little;
  deserialize = deserialize_domain_register_req little;
}

-- Every member that goes out fits its field.
pub record IsDomainRegisterReq (m : DomainRegisterReq) : Type 0 where
  pub domain_name : IsText m.domain_name
  pub options : m.options < 256 ^ 1
  pub cred : has_bit 1 m.options ≡ true → IsText m.cred

unfoldable pub wire_domain_register_req : DomainRegisterReq → List ℕ
wire_domain_register_req m =
    wire_text m.domain_name
    ++ (bytes 1 m.options ++ ((if has_bit 1 m.options then wire_text m.cred else [])))

-- The object after reading `m` into `old`.
unfoldable pub received_domain_register_req :
    DomainRegisterReq → DomainRegisterReq → DomainRegisterReq
received_domain_register_req old m = record m {
  cred = if has_bit 1 m.options then m.cred else old.cred;
}

abbrev pub domain_register_req_format : Format DomainRegisterReq
domain_register_req_format = record {
  IsSendable = IsDomainRegisterReq;
  wire = wire_domain_register_req;
  received = received_domain_register_req;
}

module _ (little : Bool) where
  domain_register_req-Appends :
      (m : DomainRegisterReq)
      → IsDomainRegisterReq m
      → Appends (serialize_domain_register_req little m) (wire_domain_register_req m)
  unfolding serialize_domain_register_req wire_domain_register_req
  domain_register_req-Appends m v =
      Appends->> _ _ _ _ (put_string-Appends_text little m.domain_name v.domain_name) (
        Appends->> _ _ _ _ (serialize_scalar-Appends little 1 m.options)
          (Appends-when _ _ _ (λ e. put_string-Appends_text little m.cred (v.cred e))))

  domain_register_req-Reads :
      (old m : DomainRegisterReq)
      → IsDomainRegisterReq m
      → Reads
          (deserialize_domain_register_req little old)
          (wire_domain_register_req m)
          (received_domain_register_req old m)
  unfolding deserialize_domain_register_req wire_domain_register_req received_domain_register_req
  domain_register_req-Reads old m v =
      Reads->>= _ _ _ _ _ _ (Reads-text_string little _ m.domain_name v.domain_name) (
        Reads->>= _ _ _ _ _ _ (Reads-scalar little 1 _ m.options v.options) (
          Reads-last _ _ _ _
            (Reads-when _ _ _ _ _ (λ e. Reads-text_string little _ m.cred (v.cred e)))))

  domain_register_req-Safe :
      (old : DomainRegisterReq) → Safe (deserialize_domain_register_req little old)
  unfolding deserialize_domain_register_req
  domain_register_req-Safe old = search safe_gets depth 40

  pub domain_register_req-Implements :
      Implements (domain_register_req little) domain_register_req_format
  domain_register_req-Implements = record {
    appends = domain_register_req-Appends;
    reads = domain_register_req-Reads;
    safe = domain_register_req-Safe;
  }
