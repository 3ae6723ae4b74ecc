-- ===== src/Tests/Deliveries.antt =====
-- Runs of the client with packets that arrive in pieces, and with subscriptions.
use umqtt.Base.{ℕ, ◌≡◌, refl, arith, List, [], ◌∷◌, length, drop, false, some, inr}
use umqtt.Base.Outcome.{ok}
use umqtt.PacketView.Utf8.{is_utf8}
use umqtt.PacketView.Header.{}
use umqtt.PacketView.Header.Encoding.{length_bytes}
use umqtt.PacketView.ConnAck
use umqtt.PacketView.ConnAck.{ConnAck, is_success}
use umqtt.PacketView.Connect
use umqtt.PacketView.Publish
use umqtt.PacketView.Publish.RoundTrip.{encoding}
use umqtt.Transport
use umqtt.Transport.{
  Notification, connected, on_transport_opened, on_packet_sent, on_bytes_received, next_ping_in,
}
use umqtt.Nano.Buffer.{Buffer, capacity}
use umqtt.Nano.Buffer.Queue.{IsValid, contents}
use umqtt.Nano.Platform.{Platform}
use umqtt.Nano.Client
use umqtt.Nano.Client.{Client, transport_notification}
use umqtt.Nano.Client.Connecting.{connect}
use umqtt.Nano.Client.Receiving.{next_notification}
use umqtt.Nano.Client.Accepting
use umqtt.Nano.Client.Accepting.{Answers}
use umqtt.Nano.Client.Accepting.Accepted.{connect-Answers}
use umqtt.PacketView.Connect.Encoding
use umqtt.Nano.Client.Delivery.{Feeds, arrived, arrives, next_notification-Feeds}
use umqtt.Tests.{hello, hello-IsWritable, zeros, options}
use umqtt.Tests.Replies.{online, dawn}

-- A platform that gives its pieces, one for each read.
abbrev next_piece : List (List ℕ) → List ℕ × List (List ℕ)
next_piece [] = ([], [])
next_piece (piece ∷ pieces) = (piece, pieces)

abbrev pieces : Platform (List (List ℕ)) (Unit {0})
pieces = record {
  write_all = λ bytes s. (inr tt, s);
  read_some = λ n t s. let (piece, rest) = next_piece s in (inr (some piece), rest);
  now = λ s. (dawn, s);
}

-- The first two bytes are there, and the others arrive in two reads.
abbrev half : Client (List (List ℕ))
half = record {
  transport = online;
  tx_buffer = zeros;
  rx_buffer = record { buffer = 0x33 ∷ 9 ∷ zeros; used = 2 };
  platform = (0 ∷ 3 ∷ 0x61 ∷ []) ∷ drop 5 (encoding hello) ∷ [];
}

half-Feeds : Feeds pieces online 20 half.platform (drop 2 (encoding hello)) []
unfolding length_bytes
half-Feeds =
    arrives dawn (0 ∷ 3 ∷ 0x61 ∷ []) (drop 5 (encoding hello)) refl refl refl (omega arith)
      (omega arith) (omega arith) (arrived dawn refl refl (omega arith) (omega arith))

next_notification-Feeds_example :
    (b : Buffer) × (next_notification pieces half ≡ (
      ok (transport_notification (Notification.publish hello) (length (encoding hello))),
      record half { rx_buffer = b; platform = [] },
    ))
    × (contents b ≡ encoding hello)
    × IsValid b
    × (capacity b ≡ 22)
unfolding length_bytes Publish.len
next_notification-Feeds_example =
    next_notification-Feeds pieces hello half [] (drop 2 (encoding hello)) hello-IsWritable
      (omega arith) (omega arith) refl (omega arith) refl half-Feeds

-- The connack arrives in two reads.
abbrev greeted : Client (List (List ℕ))
greeted = Client.new zeros zeros ((0x20 ∷ 2 ∷ []) ∷ (0 ∷ 0 ∷ []) ∷ [])

abbrev welcome : ConnAck
welcome = record { session_present = false; code = ConnAck.success }

greeted-Answers : Answers pieces 20 ((0x20 ∷ 2 ∷ []) ∷ (0 ∷ 0 ∷ []) ∷ []) (0x20 ∷ 2 ∷ 0 ∷ 0 ∷ []) []
greeted-Answers =
    Accepting.arrives (0x20 ∷ 2 ∷ []) (0 ∷ 0 ∷ []) refl refl (omega arith) (omega arith)
      (omega arith) (Accepting.arrived refl (omega arith) (omega arith))

pub options-IsWritable : Connect.Encoding.IsWritable (Connect.as_connect options)
unfolding is_utf8 Connect.as_connect Connect.len
options-IsWritable = record {
  is_v4 = refl;
  client_id_str = refl;
  client_id_fits = omega arith;
  will_fits = tt;
  login_fits = tt;
  len_fits = omega arith;
}

connect-Answers_example :
    (d : Client (List (List ℕ))) × (connect pieces options greeted ≡ (ok welcome, d))
    × (d.transport.state ≡ connected)
    × (contents d.rx_buffer ≡ [])
    × IsValid d.rx_buffer
    × (capacity d.rx_buffer ≡ 20)
    × (d.platform ≡ [])
unfolding Client.new Transport.new Connect.as_connect length_bytes
connect-Answers_example =
    connect-Answers pieces welcome refl options greeted greeted.platform greeted.platform [] dawn
      options-IsWritable (omega arith) refl refl (omega arith) greeted-Answers
