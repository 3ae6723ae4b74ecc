-- ===== src/Tests/Serving.antt =====
-- Runs of the loop that serves a client.
use umqtt.Base.{
  ℕ, ◌≤◌, ◌≡◌, ◌≢◌, ◌⊎◌, refl, ap, arith, List, [], ◌∷◌, ◌++◌, length, drop, map, inr, inl, some,
  leb, if◌then◌else◌, Bool-cases, tests,
}
use umqtt.Base.Outcome.{ok}
use mathlib.Core.Path.{subst}
use umqtt.PacketView
use umqtt.PacketView.{type_of_nibble}
use umqtt.PacketView.Cursor
use umqtt.PacketView.WriteCursor
use umqtt.PacketView.Utf8.{is_utf8}
use umqtt.PacketView.Field
use umqtt.PacketView.Header.{
  check, check_header, parse_fixed_header, header_from, remaining_length, length_loop,
  write_remaining_length, write_length_loop,
}
use umqtt.PacketView.Header.Encoding.{length_bytes}
use umqtt.PacketView.PubAck
use umqtt.PacketView.Publish
use umqtt.PacketView.Publish.{Publish}
use umqtt.PacketView.Publish.RoundTrip.{encoding}
use umqtt.PacketView.Packet.{read, read_exact, with_payload}
use umqtt.Transport
use umqtt.Transport.{
  Notification, on_packet_sent, on_bytes_received, next_ping_in, on_transport_closed,
}
use umqtt.Nano.Buffer
use umqtt.Nano.Buffer.Queue.{contents}
use umqtt.Nano.Platform.{Platform, ReadFits}
use umqtt.Nano.Client
use umqtt.Nano.Client.{Client, ClientNotification}
use umqtt.Nano.Client.Receiving
use umqtt.Nano.Serving
use umqtt.Nano.Serving.{run_client}
use umqtt.Nano.Serving.Recorded.{Recorded, recorded}
use umqtt.Nano.Serving.Decoding.{Decodes, messages, answers}
use umqtt.Nano.Serving.Stream.{run_client-Decodes, run_client-answers}
use umqtt.Nano.Serving.Publishes.{encodings, run_client-encodings}
use umqtt.Tests.{hello, hello-IsWritable, zeros}
use umqtt.Tests.Replies.{online, dawn}

-- A platform that gives its pieces, one for each read of a large enough buffer.
abbrev next_piece : ℕ → List (List ℕ) → List ℕ × List (List ℕ)
next_piece n [] = ([], [])
next_piece n (piece ∷ pieces) =
    if leb (length piece) n then (piece, pieces) else ([], piece ∷ pieces)

abbrev pub pieces : Platform (List (List ℕ)) (Unit {0})
pieces = record {
  write_all = λ bytes s. (inr tt, s);
  read_some = λ n t s. let (piece, rest) = next_piece n s in (inr (some piece), rest);
  now = λ s. (dawn, s);
}

next_piece-le : (n : ℕ) (s : List (List ℕ)) → length (next_piece n s).0 ≤ n
next_piece-le n [] = omega arith
next_piece-le n (piece ∷ pieces) = elim (Bool-cases (leb (length piece) n)) [
  | inl le ↦ rw le (omega tests)
  | inr gt ↦ rw gt (omega arith)
]

pub pieces-ReadFits : ReadFits pieces
pieces-ReadFits n t p q bytes e =
    let same : (next_piece n p).0 ≡ bytes = cc e in
    subst (λ l. length l ≤ n) same (next_piece-le n p)

-- The first two bytes of a publish are there, and the others arrive in two reads.
abbrev served : Client (Recorded (List (List ℕ)))
served = record {
  transport = online;
  tx_buffer = zeros;
  rx_buffer = record { buffer = 0x33 ∷ 9 ∷ zeros; used = 2 };
  platform = record {
    inner = (0 ∷ 3 ∷ 0x61 ∷ []) ∷ drop 5 (encoding hello) ∷ [];
    received = [];
    sent = [];
  };
}

run_client-Decodes_example :
    (fresh : List ℕ) × ((run_client (recorded pieces) 2 served).2.platform.received ≡ [] ++ fresh)
    × Decodes online.max_packet_size
        (contents served.rx_buffer ++ fresh)
        (messages (run_client (recorded pieces) 2 served).0)
        (contents (run_client (recorded pieces) 2 served).2.rx_buffer)
run_client-Decodes_example = run_client-Decodes pieces pieces-ReadFits 2 served (omega arith) refl

run_client-answers_example :
    (answered unanswered : List ClientNotification) × ((run_client (recorded pieces) 2 served).0
      ≡ answered ++ unanswered)
    × ((run_client (recorded pieces) 2 served).2.platform.sent ≡ [] ++ answers answered)
    × (length unanswered ≤ 1)
    × ((unanswered ≡ []) ⊎ ((run_client (recorded pieces) 2 served).1 ≢ ok tt))
run_client-answers_example = run_client-answers pieces pieces-ReadFits 2 served (omega arith) refl

-- The publish is reported and acknowledged, and then the connection is closed.
served_lem :
    ((run_client (recorded pieces) 2 served).2.platform.received ≡ drop 2 (encoding hello))
    × (messages (run_client (recorded pieces) 2 served).0 ≡ Notification.publish hello ∷ [])
    × ((run_client (recorded pieces) 2 served).2.platform.sent ≡ 0x40 ∷ 2 ∷ 0 ∷ 10 ∷ [])
unfolding run_client Serving.on_notified Serving.on_completed Receiving.next_notification
    Receiving.notification_loop Receiving.wait Receiving.on_wait Receiving.framed Receiving.is_ok
    Receiving.on_framed Receiving.notification_of Receiving.complete_notification
    Receiving.run_action Client.complete Client.publish_action Client.read_some_with_timeout
    Client.read_into Client.after_read Client.receive Client.handle_bytes Client.send
    Client.send_pub_ack Client.write_all Client.write_buffer Client.after_write on_packet_sent
    on_bytes_received Transport.receive Transport.in_state Transport.on_packet next_ping_in
    on_transport_closed Buffer.fill Buffer.remove_prefix read read_exact with_payload check
    check_header parse_fixed_header header_from remaining_length length_loop type_of_nibble
    write_remaining_length write_length_loop length_bytes WriteCursor.put_u8 WriteCursor.put_u16
    WriteCursor.put_slice WriteCursor.remaining_capacity PubAck.write Publish.read_exact
    Field.read_u8 Field.read_u16 Field.read_mqtt_bytes Field.read_mqtt_string Cursor.advance
    Cursor.take_u8 Cursor.take_u16 Cursor.split_to is_utf8 PacketView.qos
served_lem = (refl, refl, refl)

served_whole :
    (contents served.rx_buffer ++ (run_client (recorded pieces) 2 served).2.platform.received) ++ []
    ≡ encodings (hello ∷ [])
unfolding length_bytes
served_whole = ap (λ l. (contents served.rx_buffer ++ l) ++ []) served_lem.0

run_client-encodings_example :
    (pending : List Publish) × (map Notification.publish (hello ∷ [])
      ≡ messages (run_client (recorded pieces) 2 served).0 ++ map Notification.publish pending)
    × (contents (run_client (recorded pieces) 2 served).2.rx_buffer ++ [] ≡ encodings pending)
unfolding Publish.len
run_client-encodings_example =
    run_client-encodings pieces pieces-ReadFits 2 served (hello ∷ []) [] (omega arith) refl
      (hello-IsWritable, omega arith, tt) refl served_whole
