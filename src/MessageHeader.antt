-- ===== src/MessageHeader.antt =====
-- utils/CFdbIfMessageHeader.h: the header before every message, and the small messages beside it.
-- An enum is its number, an integer its bit pattern; a member that a constructor leaves
-- uninitialised is 0 here, and so is the local that an enum is read through.
pub mod Codecs
use fdbus.Prelude.{ℕ, ◌%◌, Bool, List, []}
use fdbus.Prelude.Bits.{has_bit, set_bit}
use fdbus.Serializer.{Ser, ◌>>◌, put_when, serialize_scalar, put_string}
use fdbus.Deserializer.{Des, pure, ◌>>=◌, when, deserialize_scalar, get_string}
use fdbus.Parcelable.{Parcelable, text, put_array, get_array}

abbrev pub mask_head_filter : ℕ
mask_head_filter = 2

abbrev pub mask_sender_arrive_time : ℕ
mask_sender_arrive_time = 4

abbrev pub mask_reply_time : ℕ
mask_reply_time = 8

-- CFdbMessageHeader
pub record MessageHeader : Type 0 where
  pub type : ℕ
  pub sn : ℕ
  pub code : ℕ
  pub flag : ℕ
  pub obj_id : ℕ
  pub payload_size : ℕ
  pub topic : List ℕ
  pub send_arrive_time : ℕ
  pub reply_time : ℕ
  pub qos : ℕ
  pub options : ℕ

abbrev pub new_header : MessageHeader
new_header = record {
  type = 0;
  sn = 0;
  code = 0;
  flag = 0;
  obj_id = 0;
  payload_size = 0;
  topic = [];
  send_arrive_time = 0;
  reply_time = 0;
  qos = 0;
  options = 0;
}

unfoldable pub has_broadcast_topic : MessageHeader → Bool
has_broadcast_topic h = has_bit mask_head_filter h.options

unfoldable pub set_broadcast_topic : List ℕ → MessageHeader → MessageHeader
set_broadcast_topic topic h = record h {
  topic = topic;
  options = set_bit mask_head_filter h.options;
}

unfoldable pub has_send_or_arrive_time : MessageHeader → Bool
has_send_or_arrive_time h = has_bit mask_sender_arrive_time h.options

unfoldable pub set_send_or_arrive_time : ℕ → MessageHeader → MessageHeader
set_send_or_arrive_time time h = record h {
  send_arrive_time = time;
  options = set_bit mask_sender_arrive_time h.options;
}

unfoldable pub has_reply_time : MessageHeader → Bool
has_reply_time h = has_bit mask_reply_time h.options

unfoldable pub set_reply_time : ℕ → MessageHeader → MessageHeader
set_reply_time time h = record h { reply_time = time; options = set_bit mask_reply_time h.options }

module _ (little : Bool) where
  unfoldable pub serialize_header : MessageHeader → Ser
  serialize_header h = do
    serialize_scalar little 1 (h.type % 256)
    serialize_scalar little 4 h.sn
    serialize_scalar little 4 h.code
    serialize_scalar little 4 h.flag
    serialize_scalar little 4 h.obj_id
    serialize_scalar little 4 h.payload_size
    serialize_scalar little 1 (h.qos % 256)
    serialize_scalar little 1 h.options
    put_when (has_bit mask_head_filter h.options) (put_string little h.topic)
    put_when (has_bit mask_sender_arrive_time h.options)
        (serialize_scalar little 8 h.send_arrive_time)
    put_when (has_bit mask_reply_time h.options) (serialize_scalar little 8 h.reply_time)

  unfoldable pub deserialize_header : MessageHeader → Des MessageHeader
  deserialize_header old = do
    msg_type ← deserialize_scalar little 1 0
    sn ← deserialize_scalar little 4 old.sn
    code ← deserialize_scalar little 4 old.code
    flag ← deserialize_scalar little 4 old.flag
    obj_id ← deserialize_scalar little 4 old.obj_id
    payload_size ← deserialize_scalar little 4 old.payload_size
    qos ← deserialize_scalar little 1 0
    options ← deserialize_scalar little 1 old.options
    topic ← when (has_bit mask_head_filter options) (get_string little old.topic) old.topic
    send_arrive_time ←
        when (has_bit mask_sender_arrive_time options)
          (deserialize_scalar little 8 old.send_arrive_time) old.send_arrive_time
    reply_time ←
        when (has_bit mask_reply_time options) (deserialize_scalar little 8 old.reply_time)
          old.reply_time
    pure (record {
      type = msg_type;
      sn = sn;
      code = code;
      flag = flag;
      obj_id = obj_id;
      payload_size = payload_size;
      topic = topic;
      send_arrive_time = send_arrive_time;
      reply_time = reply_time;
      qos = qos;
      options = options;
    })

abbrev pub header : Bool → Parcelable MessageHeader
header little = record {
  fresh = new_header;
  serialize = serialize_header little;
  deserialize = deserialize_header little;
}
