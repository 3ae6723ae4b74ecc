-- ===== src/PacketView/Field.antt =====
-- packetview/mod.rs: reading and writing the fields of a packet.
pub mod RoundTrip
pub mod Safe
pub mod Tame
pub mod Typed
use umqtt.Base.{ℕ, ◌%◌, List, [], ◌∷◌, length, ltb, if◌then◌else◌, is_nil}
use umqtt.Base.Outcome.{ok, err, pure, fail, ◌>>=◌, ◌>>◌}
use umqtt.PacketView.{Error, malformed_packet, bad_utf8}
use umqtt.PacketView.Cursor.{Cursor, Read, as_slice, take_u8, take_u16, split_to}
use umqtt.PacketView.WriteCursor.{Write, put_u16, put_slice}
use umqtt.PacketView.Utf8.{is_utf8}

unfoldable pub read_u8 : Read ℕ
unfolding take_u8
read_u8 = do stream ← as_slice; if is_nil stream then fail Error.malformed_packet else take_u8

unfoldable pub read_u16 : Read ℕ
unfolding take_u16
read_u16 = do
  stream ← as_slice
  if ltb (length stream) 2 then fail Error.malformed_packet else take_u16

unfoldable pub read_mqtt_bytes : Read (List ℕ)
read_mqtt_bytes = do
  len ← read_u16
  stream ← as_slice
  if ltb (length stream) len then fail Error.malformed_packet else split_to len

unfoldable pub read_mqtt_string : Read (List ℕ)
read_mqtt_string = do s ← read_mqtt_bytes; if is_utf8 s then pure s else fail bad_utf8

-- `bytes.len() as u16` keeps the low sixteen bits of the length.
unfoldable pub write_mqtt_bytes : List ℕ → Write (Unit {0})
write_mqtt_bytes bytes = do put_u16 (length bytes % 65536); put_slice bytes

unfoldable pub write_mqtt_string : List ℕ → Write (Unit {0})
write_mqtt_string string = write_mqtt_bytes string
