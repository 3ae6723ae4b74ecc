-- ===== src/PacketView/Publish.antt =====
-- packetview/publish.rs, `Publish`: an application message.
pub mod RoundTrip
pub mod Typed
use umqtt.Base.{
  ℕ, ◌+◌, ◌*◌, ◌/◌, ◌==◌, if◌then◌else◌, Bool, true, false, not, ◌&&◌, List, length, bit_and,
  bit_or,
}
use umqtt.Base.Outcome.{Outcome, run_on, pure, fail, lift, and_then, ◌>>=◌, ◌>>◌}
use umqtt.PacketView.{
  Error, WriteError, FixedHeader, QoS, qos, qos_byte, has_pkid, malformed_packet, packet_id_zero,
}
use umqtt.PacketView.Cursor.{Read, as_slice, advance}
use umqtt.PacketView.WriteCursor.{Write, put_u8, put_u16, put_slice, bytes_written, write_into}
use umqtt.PacketView.Field.{read_u16, read_mqtt_string, write_mqtt_string}
use umqtt.PacketView.Header.{write_remaining_length}

pub record Publish : Type 0 where
  pub dup : Bool
  pub quality : QoS
  pub retain : Bool
  pub topic : List ℕ
  pub pkid : ℕ
  pub payload : List ℕ

-- `flag as u8`
abbrev pub flag_byte : Bool → ℕ
flag_byte true = 1
flag_byte false = 0

-- `0b0011_0000 | retain | (qos << 1) | (dup << 3)`
abbrev pub first_byte : Bool → QoS → Bool → ℕ
first_byte dup q retain =
    bit_or (bit_or (bit_or 0x30 (flag_byte retain)) (qos_byte q * 2)) (flag_byte dup * 8)

-- The packet identifier exists where QoS > 0.
read_pkid : QoS → Read ℕ
read_pkid q = if has_pkid q then read_u16 else pure 0

unfoldable pub read_exact : FixedHeader → List ℕ → Outcome Error Publish
unfolding read_pkid
read_exact h bytes = and_then (qos (bit_and h.byte1 0x06 / 2)) λ q. run_on bytes do
  let dup = not (bit_and h.byte1 0x08 == 0)
  let retain = not (bit_and h.byte1 0x01 == 0)
  advance h.fixed_header_len
  topic ← read_mqtt_string
  pkid ← read_pkid q
  if has_pkid q && pkid == 0 then fail packet_id_zero else do
    payload ← as_slice
    pure (record {
      dup = dup;
      quality = q;
      retain = retain;
      topic = topic;
      pkid = pkid;
      payload = payload;
    })

unfoldable pub len : Publish → ℕ
len p =
    let n = 2 + length p.topic + length p.payload in
    if has_pkid p.quality && not (p.pkid == 0) then n + 2 else n

unfoldable pub write_pkid : Publish → Write (Unit {0})
write_pkid p =
    if has_pkid p.quality
    then (if p.pkid == 0 then fail WriteError.malformed_packet else put_u16 p.pkid)
    else pure tt

unfoldable pub writer : Publish → Write ℕ
writer p = do
  put_u8 (first_byte p.dup p.quality p.retain)
  write_remaining_length (len p)
  write_mqtt_string p.topic
  write_pkid p
  put_slice p.payload
  bytes_written

unfoldable pub write : Publish → List ℕ → Outcome WriteError ℕ × List ℕ
write p = write_into (writer p)
