-- ===== src/Tests/Sessions.antt =====
-- Runs of the client on a platform that follows a script.
use umqtt.Base.{
  ℕ, ◌≡◌, refl, arith, true, false, List, length, length-take_le, ap, take, drop, some, inr,
}
use umqtt.Base.Outcome.{NoPanic}
use umqtt.PacketView.{type_of_nibble}
use umqtt.PacketView.Utf8.{is_utf8}
use umqtt.PacketView.WriteCursor
use umqtt.PacketView.Header.{
  check, check_header, parse_fixed_header, header_from, remaining_length, length_loop,
  write_length_loop, write_remaining_length,
}
use umqtt.PacketView.ConnAck.{ConnAck, is_success}
use umqtt.PacketView.ConnAck
use umqtt.PacketView.Connect
use umqtt.PacketView.Connect.{ConnectOptions}
use umqtt.PacketView.Packet.{read, read_exact, with_payload}
use umqtt.Transport
use umqtt.Transport.{
  TransportClient, on_transport_opened, on_packet_sent, next_ping_in, on_bytes_received, connected,
}
use umqtt.Nano.Buffer
use umqtt.Nano.Buffer.{Buffer}
use umqtt.Nano.Platform.{Platform, ReadFits, ReadWaits}
use umqtt.Nano.Client
use umqtt.Nano.Client.{Client}
use umqtt.Nano.Client.Connecting
use umqtt.PacketView.Field
use umqtt.PacketView.Cursor
use umqtt.Nano.Client.Connecting.{connect, read_connack}
use umqtt.Nano.Client.Receiving.{next_notification}
use umqtt.Nano.Client.Handshake.{connect_lem}
use umqtt.Nano.Client.Progress.{read_connack_ends}
use umqtt.Nano.Client.Waiting.{next_notification_ends}
use umqtt.Tests.{options, accepting, zeros}

-- A platform that takes what is written and gives the bytes that it has, as many as fit.
abbrev pub script : Platform (List ℕ) (Unit {0})
script = record {
  write_all = λ bytes s. (inr tt, s);
  read_some = λ n t s. (inr (some (take n s)), drop n s);
  now = λ s. (record { milliseconds = 0 }, s);
}

pub script_fits : ReadFits script
script_fits n t p q bytes e =
    let same : take n p ≡ bytes = cc e in omega (arith, length-take_le n p, ap length same)

pub script_waits : ReadWaits script
script_waits n p q e = cc

abbrev pub client : Client (List ℕ)
client = Client.new zeros zeros accepting

connect_lem_example :
    (is_success ConnAck.success ≡ true)
    × ((connect script options client).1.transport.state ≡ connected)
unfolding connect Connecting.open_with read_connack Connecting.connack_loop Connecting.on_read
    Connecting.on_received Connecting.expect_connack Connecting.on_connack Connect.as_connect
    Connect.write Connect.writer Connect.len is_utf8 Client.new Client.write_all Client.write_buffer
    Client.after_write Client.read_some_with_timeout Client.read_into Client.after_read
    Client.receive Client.handle_bytes on_transport_opened on_packet_sent on_bytes_received
    Transport.on_first_packet Transport.receive Transport.in_state write_remaining_length
    write_length_loop WriteCursor.put_u8 WriteCursor.put_u16 WriteCursor.put_slice
    WriteCursor.set_byte WriteCursor.remaining_capacity Field.write_mqtt_bytes
    Field.write_mqtt_string read read_exact with_payload check check_header parse_fixed_header
    header_from remaining_length length_loop type_of_nibble ConnAck.read_exact
    ConnAck.connect_return Field.read_u8 Buffer.fill Buffer.remove_prefix Cursor.advance
    Cursor.take_u8 Transport.new
connect_lem_example =
    connect_lem script options client (connect script options client).1
      (record { session_present = false; code = ConnAck.success }) refl

read_connack_ends_example : NoPanic (read_connack script client).0
unfolding Client.new
read_connack_ends_example = read_connack_ends script client script_fits script_waits (omega arith)

next_notification_ends_example : NoPanic (next_notification script client).0
unfolding Client.new
next_notification_ends_example = next_notification_ends script client script_fits (omega arith)
