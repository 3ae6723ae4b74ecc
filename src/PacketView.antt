-- ===== src/PacketView.antt =====
-- packetview/mod.rs: the errors, the enums and the fixed header that every packet shares. The
-- modules below follow the files of packetview/.
pub mod Cursor
pub mod WriteCursor
pub mod Utf8
pub mod Field
pub mod Header
pub mod PubAck
pub mod PubRec
pub mod PubRel
pub mod PubComp
pub mod UnsubAck
pub mod ConnAck
pub mod Connect
pub mod Ping
pub mod Packet
pub mod SubAck
pub mod Subscribe
pub mod Unsubscribe
pub mod Publish
pub mod BorrowedBuf
pub mod SubscribeWriter
pub mod OutPublish
pub mod TopicIterator
use umqtt.Base.{ℕ, ◌+◌, ◌/◌, ◌==◌, if◌then◌else◌, Bool, true, false}
use umqtt.Base.Outcome.{Outcome, ok, err}

pub data PacketType : Type 0 where
  connect conn_ack publish pub_ack pub_rec pub_rel pub_comp : PacketType
  subscribe sub_ack unsubscribe unsub_ack ping_req ping_resp disconnect : PacketType

pub data Error : Type 0 where
  need_more_data : ℕ → Error
  payload_size_limit_exceeded : ℕ → Error
  invalid_packet_type : ℕ → Error
  malformed_remaining_length : Error
  malformed_packet : Error
  empty_subscription : Error
  bad_utf8 : Error
  invalid_protocol : Error
  invalid_protocol_level : ℕ → Error
  invalid_qos : ℕ → Error
  invalid_connect_return_code : ℕ → Error
  packet_id_zero : Error
  unsupported_packet : Error
  invalid_subscribe_reason_code : ℕ → Error
  unexpected_packet : PacketType → Error

pub data WriteError : Type 0 where
  malformed_packet not_enough_capacity payload_too_long : WriteError

-- `From<core::fmt::Error>`, an error that says nothing.
abbrev pub from_fmt_error : Unit {0} → WriteError
from_fmt_error e = not_enough_capacity

-- Quality of service.
pub data QoS : Type 0 where
  at_most_once at_least_once exactly_once : QoS

pub data Protocol : Type 0 where
  v4 v5 : Protocol

-- `qos as u8`
abbrev pub qos_byte : QoS → ℕ
qos_byte at_most_once = 0
qos_byte at_least_once = 1
qos_byte exactly_once = 2

-- `self.qos != QoS::AtMostOnce`
abbrev pub has_pkid : QoS → Bool
has_pkid at_most_once = false
has_pkid at_least_once = true
has_pkid exactly_once = true

-- Maps a number to QoS.
unfoldable pub qos : ℕ → Outcome Error QoS
qos num =
    if num == 0
    then ok at_most_once
    else if num == 1
    then ok at_least_once
    else if num == 2
    then ok exactly_once
    else err (invalid_qos num)

pub record FixedHeader : Type 0 where
  pub byte1 : ℕ
  pub fixed_header_len : ℕ
  pub remaining_len : ℕ

-- `FixedHeader::new`
abbrev pub new_header : ℕ → ℕ → ℕ → FixedHeader
new_header byte1 remaining_len_len remaining_len = record {
  byte1 = byte1;
  fixed_header_len = remaining_len_len + 1;
  remaining_len = remaining_len;
}

-- `byte1 >> 4` picks the type.
unfoldable pub type_of_nibble : ℕ → Outcome Error PacketType
type_of_nibble num =
    if num == 1
    then ok connect
    else if num == 2
    then ok conn_ack
    else if num == 3
    then ok publish
    else if num == 4
    then ok pub_ack
    else if num == 5
    then ok pub_rec
    else if num == 6
    then ok pub_rel
    else if num == 7
    then ok pub_comp
    else if num == 8
    then ok subscribe
    else if num == 9
    then ok sub_ack
    else if num == 10
    then ok unsubscribe
    else if num == 11
    then ok unsub_ack
    else if num == 12
    then ok ping_req
    else if num == 13
    then ok ping_resp
    else if num == 14
    then ok disconnect
    else err (invalid_packet_type num)

abbrev pub packet_type : FixedHeader → Outcome Error PacketType
packet_type h = type_of_nibble (h.byte1 / 16)

abbrev pub frame_length : FixedHeader → ℕ
frame_length h = h.fixed_header_len + h.remaining_len
