-- ===== src/MessageHeader/Codecs.antt =====
-- What the messages of utils/CFdbIfMessageHeader.h promise on the wire.
use fdbus.Prelude.{ℕ, ◌%◌, ◌^◌, ◌<◌, ◌≡◌, Bool, true, List, [], ◌++◌, arith, if◌then◌else◌}
use fdbus.Prelude.Bits.{has_bit}
use fdbus.Bytes.{bytes}
use fdbus.Serializer.Growth.{Appends, Appends->>}
use fdbus.Serializer.Puts.{serialize_scalar-Appends}
use fdbus.Deserializer.Reading.{Reads, Reads-when, Reads->>=, Reads-scalar}
use fdbus.Deserializer.Safety.{Safe, safe_gets}
use fdbus.Parcelable.Codec.{
  Implements, Format, put_string-Appends_text, Reads-text_string, IsText, wire_text, Reads-last,
  Appends-when,
}
use fdbus.MessageHeader.{
  MessageHeader, serialize_header, deserialize_header, header, mask_head_filter,
  mask_sender_arrive_time, mask_reply_time,
}

ruleset puts = (Appends->>, serialize_scalar-Appends, put_string-Appends_text, Appends-when)

-- Every member that goes out fits its field.
pub record IsHeader (h : MessageHeader) : Type 0 where
  pub type : h.type < 256 ^ 1
  pub sn : h.sn < 256 ^ 4
  pub code : h.code < 256 ^ 4
  pub flag : h.flag < 256 ^ 4
  pub obj_id : h.obj_id < 256 ^ 4
  pub payload_size : h.payload_size < 256 ^ 4
  pub qos : h.qos < 256 ^ 1
  pub options : h.options < 256 ^ 1
  pub topic : has_bit mask_head_filter h.options ≡ true → IsText h.topic
  pub send_arrive_time :
      has_bit mask_sender_arrive_time h.options ≡ true → h.send_arrive_time < 256 ^ 8
  pub reply_time : has_bit mask_reply_time h.options ≡ true → h.reply_time < 256 ^ 8

unfoldable pub wire_header : MessageHeader → List ℕ
wire_header h =
    bytes 1 h.type
    ++ (bytes 4 h.sn
        ++ (bytes 4 h.code
            ++ (bytes 4 h.flag
                ++ (bytes 4 h.obj_id
                    ++ (bytes 4 h.payload_size
                        ++ (bytes 1 h.qos
                            ++ (bytes 1 h.options
                                ++ ((if has_bit mask_head_filter h.options
                                      then wire_text h.topic
                                      else [])
                                    ++ ((if has_bit mask_sender_arrive_time h.options
                                          then bytes 8 h.send_arrive_time
                                          else [])
                                        ++ (if has_bit mask_reply_time h.options
                                            then bytes 8 h.reply_time
                                            else []))))))))))

-- An optional member that was not sent stays as it was.
unfoldable pub received_header : MessageHeader → MessageHeader → MessageHeader
received_header old h = record h {
  topic = if has_bit mask_head_filter h.options then h.topic else old.topic;
  send_arrive_time =
      if has_bit mask_sender_arrive_time h.options
      then h.send_arrive_time
      else old.send_arrive_time;
  reply_time = if has_bit mask_reply_time h.options then h.reply_time else old.reply_time;
}

abbrev pub header_format : Format MessageHeader
header_format = record { IsSendable = IsHeader; wire = wire_header; received = received_header }

module _ (little : Bool) where
  header-Appends :
      (h : MessageHeader) → IsHeader h → Appends (serialize_header little h) (wire_header h)
  unfolding serialize_header wire_header
  header-Appends h v =
      let type : h.type % 256 ≡ h.type = omega (arith, v.type) in
      let qos : h.qos % 256 ≡ h.qos = omega (arith, v.qos) in
      rw (type, qos) (search (puts, v.topic) depth 40)

  header-Reads :
      (old h : MessageHeader)
      → IsHeader h
      → Reads (deserialize_header little old) (wire_header h) (received_header old h)
  unfolding deserialize_header wire_header received_header
  header-Reads old h v =
      (Reads->>= _ _ _ _ _ _ (Reads-scalar little 1 _ h.type v.type) (
        Reads->>= _ _ _ _ _ _ (Reads-scalar little 4 _ h.sn v.sn) (
          Reads->>= _ _ _ _ _ _ (Reads-scalar little 4 _ h.code v.code) (
            Reads->>= _ _ _ _ _ _ (Reads-scalar little 4 _ h.flag v.flag) (
              Reads->>= _ _ _ _ _ _ (Reads-scalar little 4 _ h.obj_id v.obj_id) (
                Reads->>= _ _ _ _ _ _ (Reads-scalar little 4 _ h.payload_size v.payload_size) (
                  Reads->>= _ _ _ _ _ _ (Reads-scalar little 1 _ h.qos v.qos) (
                    Reads->>= _ _ _ _ _ _ (Reads-scalar little 1 _ h.options v.options) (
                      Reads->>= _ _ _ _ _ _
                        (Reads-when _ _ _ _ _ (λ e. Reads-text_string little _ h.topic (v.topic e)))
                        (Reads->>= _ _ _ _ _ _
                          (Reads-when _ _ _ _ _ (λ e.
                            Reads-scalar little 8 _ h.send_arrive_time (v.send_arrive_time e)))
                          (Reads-last _ _ _ _ (
                            Reads-when _ _ _ _ _ (λ e.
                              Reads-scalar little 8 _ h.reply_time (v.reply_time e))))))))))))))

  header-Safe : (old : MessageHeader) → Safe (deserialize_header little old)
  unfolding deserialize_header
  header-Safe old = search safe_gets depth 40

  pub header-Implements : Implements (header little) header_format
  header-Implements = record { appends = header-Appends; reads = header-Reads; safe = header-Safe }
