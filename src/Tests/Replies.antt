-- ===== src/Tests/Replies.antt =====
-- Runs of the clients at concrete inputs: deliveries, replies and timeouts.
use umqtt.Base.{ℕ, ◌≡◌, arith, refl, List, [], ◌∷◌, ◌++◌, length, drop, none, some, inr}
use umqtt.Base.Outcome.{ok}
use umqtt.Time.{Instant}
use umqtt.PacketView.Publish
use umqtt.PacketView.Publish.RoundTrip.{encoding}
use umqtt.PacketView.Header.Encoding.{length_bytes}
use umqtt.Transport
use umqtt.Transport.{TransportClient, Notification, on_bytes_received}
use umqtt.Transport.Delivery.{on_bytes_received-encoding}
use umqtt.Nano.Platform.{Platform}
use umqtt.Nano.Client.{Client, complete, transport_notification}
use umqtt.Nano.Client.Receiving.{complete_notification}
use umqtt.Nano.Client.Replies.{reply, sent, consumed, complete_notification-reply}
use umqtt.Tests.{hello, hello-IsWritable, zeros, opened}

abbrev pub online : TransportClient
online = record opened { state = Transport.connected }

on_bytes_received-encoding_example :
    (on_bytes_received (0x33 ∷ 9 ∷ []) online ≡ (ok none, online))
    × (on_bytes_received (encoding hello ++ (0xd0 ∷ [])) online
        ≡ (ok (some (Notification.publish hello, length (encoding hello))), online))
unfolding length_bytes Publish.len
on_bytes_received-encoding_example =
    on_bytes_received-encoding online hello (0x33 ∷ 9 ∷ []) 0 (drop 3 (encoding hello)) (0xd0 ∷ [])
      refl hello-IsWritable (omega arith) refl

-- A platform that logs what is written, and where nothing arrives.
abbrev pub silent : Platform (List (List ℕ)) (Unit {0})
silent = record {
  write_all = λ bytes s. (inr tt, bytes ∷ s);
  read_some = λ n t s. (inr none, s);
  now = λ s. (record { milliseconds = 0 }, s);
}

abbrev pub dawn : Instant
dawn = record { milliseconds = 0 }

abbrev pub receiver : Client (List (List ℕ))
receiver = record {
  transport = online;
  tx_buffer = zeros;
  rx_buffer = record { buffer = zeros; used = 11 };
  platform = [];
}

abbrev pub_ack_bytes : List ℕ
pub_ack_bytes = 0x40 ∷ 2 ∷ 0 ∷ 10 ∷ []

complete_notification-reply_example :
    complete_notification silent
      (complete (transport_notification (Notification.publish hello) 11))
      receiver
    ≡ (ok tt, consumed silent 11 (sent silent pub_ack_bytes dawn (pub_ack_bytes ∷ []) receiver))
unfolding reply
complete_notification-reply_example =
    complete_notification-reply silent (Notification.publish hello) 11 pub_ack_bytes receiver
      (pub_ack_bytes ∷ []) (pub_ack_bytes ∷ []) dawn refl (omega arith) (omega arith) refl refl refl
