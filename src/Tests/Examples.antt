-- ===== src/Tests/Examples.antt =====
-- Runs of the example's sessions, and of the reader on the bytes of a publish.
use umqtt.Base.{
  ℕ, ◌≡◌, refl, arith, true, false, List, [], ◌∷◌, ◌++◌, map, drop, Option, none, some,
}
use umqtt.Base.Outcome.{ok}
use mathlib.Core.List.{Memᴰ}
use mathlib.Core.List.Memᴰ.{head, tail}
use umqtt.PacketView.{type_of_nibble}
use umqtt.PacketView.Utf8.{is_utf8}
use umqtt.PacketView.BorrowedBuf
use umqtt.PacketView.SubscribeWriter
use umqtt.PacketView.WriteCursor
use umqtt.PacketView.Field
use umqtt.PacketView.Cursor
use umqtt.PacketView.Header.{
  check, check_header, parse_fixed_header, header_from, remaining_length, length_loop,
  write_length_loop, write_remaining_length,
}
use umqtt.PacketView.Header.Encoding.{length_bytes}
use umqtt.PacketView.Publish
use umqtt.PacketView.Publish.RoundTrip.{encoding}
use umqtt.PacketView.Packet.RoundTrip.{read-encoding_append}
use umqtt.PacketView.Packet.Typed.{IsTyped, read-IsTyped}
use umqtt.PacketView.ConnAck
use umqtt.PacketView.ConnAck.{ConnAck, is_success}
use umqtt.PacketView.Connect
use umqtt.PacketView.Packet.{Packet, read, read_exact, with_payload}
use umqtt.Transport
use umqtt.Transport.{on_transport_opened, on_transport_closed, on_packet_sent, on_bytes_received}
use umqtt.Nano.Buffer
use umqtt.Nano.Buffer.{Buffer}
use umqtt.Nano.Buffer.Queue.{contents}
use umqtt.Nano.Client
use umqtt.Nano.Client.{Client}
use umqtt.Nano.Client.Connecting
use umqtt.Nano.Client.Connecting.{connect, read_connack}
use umqtt.Nano.Client.Sending
use umqtt.Nano.Client.Sending.{write_subscribe, connect_subscribe}
use umqtt.Nano.Serving.Recorded.{Recorded, recorded}
use umqtt.Nano.Serving.Decoding.{Decodes, messages}
use umqtt.Nano.Example
use umqtt.Nano.Example.{Session, session, comes_back, main}
use umqtt.Nano.Example.Reconnecting.{untouched, recording, main-Decodes}
use umqtt.PacketView.BorrowedBuf.{Fill, add_slice}
use umqtt.PacketView.Subscribe.RoundTrip.{filters_bytes}
use umqtt.Transport.{connected}
use umqtt.Nano.Client.Accepting.Accepted.{connect_bytes}
use umqtt.Nano.Example.Subscribing.{subscribe_bytes, connect_subscribe-sends}
use umqtt.Tests.Deliveries.{options-IsWritable}
use umqtt.Tests.Writers.{filters, filters-IsWritable, subscriptions-Adds}
use umqtt.Tests
use umqtt.Tests.{zeros, hello, hello-IsWritable}
use umqtt.Tests.Serving.{pieces, pieces-ReadFits}

abbrev sixty : List ℕ
sixty = zeros ++ (zeros ++ zeros)

abbrev welcome : ConnAck
welcome = record { session_present = false; code = ConnAck.success }

-- The connack arrives with the beginning of a ping response.
abbrev arriving : List (List ℕ)
arriving = (0x20 ∷ 2 ∷ 0 ∷ 0 ∷ 0xd0 ∷ []) ∷ (0 ∷ []) ∷ []

abbrev guest : Client (Recorded (List (List ℕ)))
guest = Client.new sixty sixty (untouched [])

-- The broker cannot be reached, then it closes the connection, and then it answers.
abbrev made : List (Option (List (List ℕ)))
made = none ∷ some [] ∷ some arriving ∷ []

abbrev closed : Session (recorded pieces)
closed = session (recorded pieces) 2 (record guest { platform = untouched [] })

abbrev answered : Session (recorded pieces)
answered = session (recorded pieces) 2 (record closed.1.2 { platform = untouched arriving })

sessions : (comes_back (recorded pieces) closed ≡ true) × (answered.0 ≡ ok welcome)
unfolding comes_back session Example.on_connected Example.subscriptions connect_subscribe
    write_subscribe Sending.write_filters Sending.send_subscribe Sending.subscribe_header
    BorrowedBuf.add_slice BorrowedBuf.spare_capacity SubscribeWriter.add_str
    SubscribeWriter.add_separated connect Connecting.open_with read_connack Connecting.connack_loop
    Connecting.on_read Connecting.on_received Connecting.expect_connack Connecting.on_connack
    Connect.as_connect Connect.write Connect.writer Connect.len is_utf8 Client.new Client.write_all
    Client.write_buffer Client.after_write Client.read_some_with_timeout Client.read_into
    Client.after_read Client.receive Client.handle_bytes on_transport_opened on_transport_closed
    on_packet_sent on_bytes_received Transport.on_first_packet Transport.receive Transport.in_state
    write_remaining_length write_length_loop WriteCursor.put_u8 WriteCursor.put_u16
    WriteCursor.put_slice WriteCursor.set_byte WriteCursor.remaining_capacity Field.write_mqtt_bytes
    Field.write_mqtt_string read read_exact with_payload check check_header parse_fixed_header
    header_from remaining_length length_loop type_of_nibble ConnAck.read_exact
    ConnAck.connect_return Field.read_u8 Buffer.fill Buffer.remove_prefix Cursor.advance
    Cursor.take_u8 Transport.new
sessions = (refl, refl)

answered-main : Memᴰ answered (main (recorded pieces) 2 (map recording made) guest)
unfolding main
answered-main = rw sessions.0 (tail (head refl))

main-Decodes_example :
    (size : ℕ) × (read answered.1.2.platform.received 60 ≡ ok (Packet.conn_ack welcome, size))
    × (is_success ConnAck.success ≡ true)
    × Decodes 60
        (drop size answered.1.2.platform.received)
        (messages answered.1.0)
        (contents answered.1.2.rx_buffer)
unfolding Client.new Transport.new
main-Decodes_example =
    main-Decodes pieces pieces-ReadFits 2 made guest welcome answered answered-main sessions.1

-- A client that subscribes to one filter.
abbrev filtering : Fill (Unit {0})
filtering = add_slice (0 ∷ 3 ∷ 0x61 ∷ 0x2f ∷ 0x23 ∷ 1 ∷ [])

abbrev joining : Client (Recorded (List (List ℕ)))
joining = Client.new sixty sixty (untouched arriving)

joining-welcome :
    (connect_subscribe (recorded pieces) Tests.options filtering joining).0 ≡ ok welcome
unfolding connect_subscribe write_subscribe Sending.write_filters Sending.send_subscribe
    Sending.subscribe_header BorrowedBuf.add_slice BorrowedBuf.spare_capacity connect
    Connecting.open_with read_connack Connecting.connack_loop Connecting.on_read
    Connecting.on_received Connecting.expect_connack Connecting.on_connack Connect.as_connect
    Connect.write Connect.writer Connect.len is_utf8 Client.new Client.write_all Client.write_buffer
    Client.after_write Client.read_some_with_timeout Client.read_into Client.after_read
    Client.receive Client.handle_bytes on_transport_opened on_packet_sent on_bytes_received
    Transport.on_first_packet Transport.receive Transport.in_state write_remaining_length
    write_length_loop WriteCursor.put_u8 WriteCursor.put_u16 WriteCursor.put_slice
    WriteCursor.set_byte WriteCursor.remaining_capacity Field.write_mqtt_bytes
    Field.write_mqtt_string read read_exact with_payload check check_header parse_fixed_header
    header_from remaining_length length_loop type_of_nibble ConnAck.read_exact
    ConnAck.connect_return Field.read_u8 Buffer.fill Buffer.remove_prefix Cursor.advance
    Cursor.take_u8 Transport.new
joining-welcome = refl

connect_subscribe-sends_example :
    ((connect_subscribe (recorded pieces) Tests.options filtering joining).1.platform.sent
      ≡ ([] ++ connect_bytes Tests.options) ++ subscribe_bytes filters)
    × ((connect_subscribe (recorded pieces) Tests.options filtering joining).1.transport.state
        ≡ connected)
    × (is_success ConnAck.success ≡ true)
unfolding Client.new Transport.new Connect.as_connect length_bytes filters_bytes
connect_subscribe-sends_example =
    connect_subscribe-sends pieces filters filters-IsWritable filtering subscriptions-Adds
      pieces-ReadFits Tests.options options-IsWritable joining welcome (omega arith) (omega arith)
      (omega arith) joining-welcome

read-IsTyped_example : IsTyped 9 (Packet.publish hello)
unfolding length_bytes Publish.len
read-IsTyped_example =
    read-IsTyped (encoding hello ++ (0xff ∷ [])) 9 11 (Packet.publish hello) (omega arith)
      (read-encoding_append hello (0xff ∷ []) 9 hello-IsWritable (omega arith))
