-- ===== src/Tests.antt =====
-- Runs of the code at concrete inputs, among them one for each theorem that has hypotheses.
pub mod Topics
pub mod Replies
pub mod Sessions
pub mod Writers
pub mod Deliveries
pub mod Safety
pub mod Serving
pub mod Events
pub mod Examples
use umqtt.Base.{
  ℕ, ◌≡◌, ◌≤◌, ◌+◌, ◌*◌, ◌-◌, ◌==◌, if◌then◌else◌, refl, arith, true, false, List, [], ◌∷◌, ◌++◌,
  length, length-take_le, ap, take, drop, none, some, inr,
}
use umqtt.Base.Outcome.{ok, err, NoPanic}
use umqtt.Time.{Instant, from_millis}
use umqtt.PacketView.{at_least_once, need_more_data, type_of_nibble, new_header, frame_length}
use umqtt.PacketView.Utf8.{is_utf8}
use umqtt.PacketView.WriteCursor
use umqtt.PacketView.WriteCursor.Emits.{Wrote}
use umqtt.PacketView.Header.{
  check, check_header, parse_fixed_header, header_from, remaining_length, length_loop,
  write_length_loop, write_remaining_length, max_remaining_len,
}
use umqtt.PacketView.Header.Encoding.{length_bytes}
use umqtt.PacketView.Header.RoundTrip.{remaining_length_round_trip}
use umqtt.PacketView.Header.Bounds.{check_bounds}
use umqtt.PacketView.ConnAck.{ConnAck, is_success}
use umqtt.PacketView.ConnAck
use umqtt.PacketView.PubAck
use umqtt.PacketView.PubRec
use umqtt.PacketView.PubRel
use umqtt.PacketView.PubComp
use umqtt.PacketView.UnsubAck
use umqtt.PacketView.Connect
use umqtt.PacketView.Connect.{ConnectOptions}
use umqtt.PacketView.Publish
use umqtt.PacketView.Publish.{Publish}
use umqtt.PacketView.Publish.RoundTrip.{IsWritable, encoding, write-encoding}
use umqtt.PacketView.Packet.{Packet, read, read_exact, no_payload, with_payload}
use umqtt.PacketView.Packet.Safety.{read_safe}
use umqtt.PacketView.Packet.RoundTrip.{publish_round_trip}
use umqtt.PacketView.Packet.Acks.{acks_round_trip, conn_ack_round_trip}
use umqtt.PacketView.Packet.Stream.{read-append, read-prefix}
use umqtt.Transport
use umqtt.Transport.{
  TransportClient, on_transport_opened, on_packet_sent, next_ping_in, on_bytes_received, connected,
}
use umqtt.Transport.States.{Step, on_bytes_received-Step}
use umqtt.Transport.KeepAlive.{next_ping_in-on_packet_sent}
use umqtt.Nano.Buffer
use umqtt.Nano.Buffer.{Buffer}
use umqtt.Nano.Buffer.Queue.{contents, IsValid, remove_prefix_lem}
use umqtt.Nano.Platform.{Platform, ReadFits, ReadWaits}
use umqtt.Nano.Client
use umqtt.Nano.Client.{Client}
use umqtt.Nano.Client.Connecting
use umqtt.PacketView.Field
use umqtt.PacketView.Cursor
use umqtt.Nano.Client.Connecting.{connect, read_connack}
use umqtt.Nano.Client.Receiving.{next_notification}
use umqtt.Nano.Client.Handshake.{connect_lem}
use umqtt.Nano.Client.Progress.{read_connack_ends}
use umqtt.Nano.Client.Waiting.{next_notification_ends}

abbrev pub hello : Publish
hello = record {
  dup = false;
  quality = at_least_once;
  retain = true;
  topic = 0x61 ∷ 0x2f ∷ 0x62 ∷ [];
  pkid = 10;
  payload = 1 ∷ 2 ∷ [];
}

abbrev pub zeros : List ℕ
zeros = 0 ∷ 0 ∷ 0 ∷ 0 ∷ 0 ∷ 0 ∷ 0 ∷ 0 ∷ 0 ∷ 0 ∷ 0 ∷ 0 ∷ 0 ∷ 0 ∷ 0 ∷ 0 ∷ 0 ∷ 0 ∷ 0 ∷ 0 ∷ []

pub hello-IsWritable : IsWritable hello
unfolding is_utf8 Publish.len
hello-IsWritable = record {
  topic_str = refl;
  topic_fits = omega arith;
  pkid_u16 = omega arith;
  pkid_of_qos = refl;
  len_fits = omega arith;
}

publish_round_trip_example :
    read (Publish.write hello zeros).1 9 ≡ ok (Packet.publish hello, length (encoding hello))
unfolding length_bytes Publish.len
publish_round_trip_example =
    publish_round_trip hello zeros 9 hello-IsWritable (omega arith) (omega arith)

write-encoding_example : Wrote (encoding hello) zeros (Publish.write hello zeros)
write-encoding_example = write-encoding hello zeros hello-IsWritable

abbrev pub opened : TransportClient
opened = record {
  keep_alive = 0;
  state = Transport.transport_connected;
  max_packet_size = 20;
  packet_send_at = record { milliseconds = 0 };
}

abbrev pub accepting : List ℕ
accepting = 0x20 ∷ 2 ∷ 0 ∷ 0 ∷ []

on_bytes_received-Step_example : Step opened (on_bytes_received accepting opened)
on_bytes_received-Step_example = on_bytes_received-Step accepting opened

read_safe_example : NoPanic (read (0x30 ∷ 2 ∷ 0 ∷ 9 ∷ []) 20)
read_safe_example = read_safe (0x30 ∷ 2 ∷ 0 ∷ 9 ∷ []) 20

read-prefix_example :
    (k : ℕ) × (read (0x40 ∷ 2 ∷ 0 ∷ []) 20 ≡ err (need_more_data k)) × (1 ≤ k) × (k ≤ 1)
unfolding length_bytes
read-prefix_example =
    read-prefix 0x40 (0 ∷ 10 ∷ []) (0x40 ∷ 2 ∷ 0 ∷ []) 10 [] 20 (omega arith) (omega arith) refl

read-append_example :
    (read ((0xd0 ∷ 0 ∷ []) ++ (0x40 ∷ [])) 20 ≡ ok (Packet.ping_resp, 2)) × (2 ≤ 2)
unfolding read read_exact no_payload check check_header parse_fixed_header header_from
    remaining_length length_loop type_of_nibble
read-append_example = read-append (0xd0 ∷ 0 ∷ []) (0x40 ∷ []) 20 Packet.ping_resp 2 refl

check_bounds_example :
    (2 ≤ 2)
    × (2 ≤ 5)
    × (2 ≤ max_remaining_len)
    × (2 ≤ 20)
    × (frame_length (new_header 0x40 1 2) ≤ 4)
unfolding check check_header parse_fixed_header header_from remaining_length length_loop
check_bounds_example =
    check_bounds (0x40 ∷ 2 ∷ 0 ∷ 10 ∷ []) 20 (new_header 0x40 1 2)
      (omega arith, (omega arith, (omega arith, (omega arith, tt)))) refl

remaining_length_round_trip_example :
    (count : ℕ) × ((write_remaining_length 321 (WriteCursor.new zeros)).0 ≡ ok count)
    × (remaining_length (write_remaining_length 321 (WriteCursor.new zeros)).1.buffer
        ≡ ok (count, 321))
remaining_length_round_trip_example =
    remaining_length_round_trip 321 zeros (omega arith) (omega arith)

acks_round_trip_example :
    (read (PubAck.write (record { pkid = 10 }) zeros).1 2
      ≡ ok (Packet.pub_ack (record { pkid = 10 }), 4))
    × (read (PubRec.write (record { pkid = 10 }) zeros).1 2
        ≡ ok (Packet.pub_rec (record { pkid = 10 }), 4))
    × (read (PubRel.write (record { pkid = 10 }) zeros).1 2
        ≡ ok (Packet.pub_rel (record { pkid = 10 }), 4))
    × (read (PubComp.write (record { pkid = 10 }) zeros).1 2
        ≡ ok (Packet.pub_comp (record { pkid = 10 }), 4))
    × (read (UnsubAck.write (record { pkid = 10 }) zeros).1 2
        ≡ ok (Packet.unsub_ack (record { pkid = 10 }), 4))
acks_round_trip_example = acks_round_trip 10 zeros 2 (omega arith) (omega arith)

abbrev refusal : ConnAck
refusal = record { session_present = false; code = ConnAck.not_authorized }

conn_ack_round_trip_example :
    read (ConnAck.write refusal zeros).1 2 ≡ ok (Packet.conn_ack refusal, 4)
conn_ack_round_trip_example = conn_ack_round_trip refusal zeros 2 (omega arith) (omega arith)

abbrev pub options : ConnectOptions
options = record {
  client_id = 0x61 ∷ [];
  last_will = none;
  login = none;
  keep_alive = 10;
  clean_session = true;
}

abbrev noon : Instant
noon = record { milliseconds = 5000 }

next_ping_in-on_packet_sent_example :
    next_ping_in noon (on_packet_sent noon (on_transport_opened options opened))
    ≡ (if 10 == 0 then none else some (from_millis (5000 + 1000 * 10 - 5000)))
next_ping_in-on_packet_sent_example =
    next_ping_in-on_packet_sent options opened noon noon (omega arith) (omega arith)

abbrev half_full : Buffer
half_full = record { buffer = accepting; used = 2 }

remove_prefix_lem_example :
    (contents (Buffer.remove_prefix 1 half_full) ≡ 2 ∷ [])
    × IsValid (Buffer.remove_prefix 1 half_full)
    × (Buffer.capacity (Buffer.remove_prefix 1 half_full) ≡ 4)
remove_prefix_lem_example = remove_prefix_lem half_full 1 (omega arith)
