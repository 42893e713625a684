-- ===== src/Tests/Wire.antt =====
-- Runs of the serializer, the deserializer and the messages.
use fdbus.Prelude.{
  ℕ, ◌-◌, ◌^◌, ◌≡◌, refl, true, false, none, some, List, [], ◌∷◌, ◌++◌, arith, length, take,
}
use fdbus.Bytes.{bytes}
use fdbus.Serializer.{Serializer, new, put_string}
use fdbus.Serializer.Growth.{Appends}
use fdbus.Serializer.Puts.{wire_length, put_string-Appends}
use fdbus.Deserializer.{Deserializer, open_buffer}
use fdbus.Deserializer.Reading.{open_buffer-Ready}
use fdbus.Parcelable.{text, array}
use fdbus.Parcelable.Codec.{Implements, IsText, text_format, text-Implements}
use fdbus.Parcelable.Arrays.{array_format, array-Implements}
use fdbus.Parcelable.ByteArray.{ByteArray, ByteArrayExt, get_byte_array, get_byte_array_ext}
use fdbus.Parcelable.ByteArray.Reading.{get_byte_array_negative, get_byte_array_ext_overflow}
use fdbus.MessageHeader.{MessageHeader, new_header, header, serialize_header}
use fdbus.MessageHeader.Codecs.{IsHeader, received_header}
use fdbus.Messages.AddressItem.{new_address_item, IsAddressItem}
use fdbus.Messages.AddressList.{AddressList, new_address_list, IsAddressList}
use fdbus.Exchange.{read_back, at_end, AllContained, header_exchange, messages-Contained}

abbrev hi : List ℕ
hi = 104 ∷ 105 ∷ []

hi-IsText : IsText hi
hi-IsText = record { no_nul = (omega arith, (omega arith, tt)); short = omega arith }

put_string-Appends_example :
    Appends (put_string true hi) (bytes 2 (wire_length hi) ++ take (wire_length hi) (hi ++ 0 ∷ []))
put_string-Appends_example = put_string-Appends true hi

array-Implements_example : Implements (array true (text true)) (array_format [] text_format)
array-Implements_example = array-Implements true (text-Implements true)

abbrev request : MessageHeader
request = record new_header {
  type = 1;
  sn = 5;
  code = 7;
  payload_size = 12;
  topic = hi;
  options = 2;
}

request-IsHeader : IsHeader request
request-IsHeader = record {
  type = omega arith;
  sn = omega arith;
  code = omega arith;
  flag = omega arith;
  obj_id = omega arith;
  payload_size = omega arith;
  qos = omega arith;
  options = omega arith;
  topic = λ e. hi-IsText;
  send_arrive_time = λ e. omega arith;
  reply_time = λ e. omega arith;
}

header_exchange_example :
    (s : Serializer) × (serialize_header true request new ≡ some s)
    × (read_back (header false) new_header s ≡ at_end (received_header new_header request) s)
header_exchange_example = header_exchange true false new_header request request-IsHeader

nil-IsText : IsText []
nil-IsText = record { no_nul = tt; short = omega arith }

abbrev listed : AddressList
listed = record new_address_list {
  service_name = hi;
  address_list = record new_address_item { tcp_port = 80 } ∷ [];
}

item-IsAddressItem : IsAddressItem (record new_address_item { tcp_port = 80 })
item-IsAddressItem = record {
  tcp_ipc_address = nil-IsText;
  tcp_port = omega arith;
  type = omega arith;
  tcp_ipc_url = nil-IsText;
  exportable_level = omega arith;
  interface_id = omega arith;
  options = omega arith;
  udp_port = λ e. omega arith;
}

listed-IsAddressList : IsAddressList listed
listed-IsAddressList = record {
  service_name = hi-IsText;
  host_name = nil-IsText;
  endpoint_name = nil-IsText;
  domain_name = nil-IsText;
  instance_id = omega arith;
  pid = omega arith;
  address_list = record { each = (item-IsAddressItem, tt); counted = omega arith };
  options = omega arith;
  token_list = λ e. record { each = tt; counted = omega arith };
}

messages-Contained_example : AllContained true hi
messages-Contained_example = messages-Contained true hi (omega arith) (omega arith)

abbrev four : ByteArray
four = record { size = 2; buffer = 1 ∷ 2 ∷ 3 ∷ 4 ∷ [] }

abbrev arrived : ℕ → List ℕ → Deserializer
arrived n rest = open_buffer (some (bytes 4 n ++ rest)) (length (bytes 4 n ++ rest))

get_byte_array_negative_example : get_byte_array true 4 four (arrived (2 ^ 32 - 1) []) ≡ none
unfolding open_buffer bytes
get_byte_array_negative_example =
    get_byte_array_negative true 4 four (2 ^ 32 - 1) (arrived (2 ^ 32 - 1) []) [] (omega arith)
      (omega arith) (omega arith) (open_buffer-Ready (bytes 4 (2 ^ 32 - 1) ++ []))

abbrev owner : ByteArrayExt
owner = record { size = 1; shared = none; owned = some (5 ∷ []) }

get_byte_array_ext_overflow_example : get_byte_array_ext true owner (arrived 2 (7 ∷ 8 ∷ [])) ≡ none
get_byte_array_ext_overflow_example =
    get_byte_array_ext_overflow true owner (5 ∷ []) (7 ∷ 8 ∷ []) (arrived 2 (7 ∷ 8 ∷ [])) [] refl
      (omega arith) (omega arith) (open_buffer-Ready (bytes 4 2 ++ 7 ∷ 8 ∷ []))
