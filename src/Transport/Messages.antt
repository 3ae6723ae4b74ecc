-- ===== src/Transport/Messages.antt =====
-- transport_client.rs: which packet of the stream a connected client passes on.
use umqtt.Base.{ℕ, ◌≡◌, refl, List, Option, none, some}
use umqtt.Base.Outcome.{Outcome, ok, err, panic}
use umqtt.Base.Meets.{Ends}
use umqtt.PacketView.{Error, need_more_data}
use umqtt.PacketView.Packet.{Packet, read}
use umqtt.Transport.{
  Notification, State, TransportClient, Received, connected, on_packet, on_read_error, receive,
  in_state, on_bytes_received,
}

-- The notification of a packet that a broker may send to a client that is connected (MQTT 3.1.1,
-- section 2.2.1); a packet of any other type is a violation of the protocol.
unfoldable pub message : Packet → Option Notification
message (Packet.publish p) = some (Notification.publish p)
message (Packet.pub_ack p) = some (Notification.pub_ack p)
message (Packet.pub_rec p) = some (Notification.pub_rec p)
message (Packet.pub_rel p) = some (Notification.pub_rel p)
message (Packet.pub_comp p) = some (Notification.pub_comp p)
message (Packet.sub_ack p) = some (Notification.sub_ack p)
message (Packet.unsub_ack p) = some (Notification.unsub_ack p)
message Packet.ping_resp = some Notification.ping_response
message p = none

-- The notification is that of the packet which the bytes begin with, and the number is its length.
abbrev pub IsFirst : ℕ → List ℕ → Notification → ℕ → Type 0
IsFirst max bytes n taken = (p : Packet) × (read bytes max ≡ ok (p, taken)) × (message p ≡ some n)

abbrev pub Reports : ℕ → List ℕ → Option (Notification × ℕ) → Type 0
Reports max bytes none = Unit
Reports max bytes (some (n, taken)) = IsFirst max bytes n taken

-- A connected client that answers is unchanged, and its answer is about the first packet.
abbrev Answers : List ℕ → TransportClient → Received → Type 0
Answers bytes c =
    Ends (λ r d. (d ≡ c) × Reports c.max_packet_size bytes r)
      (λ d. d.max_packet_size ≡ c.max_packet_size)

module _ (bytes : List ℕ) (c : TransportClient) where
  on_packet-Answers :
      (p : Packet) (taken : ℕ)
      → read bytes c.max_packet_size ≡ ok (p, taken)
      → Answers bytes c (on_packet p taken c)
  unfolding on_packet message
  on_packet-Answers (Packet.publish p) taken e = (refl, (Packet.publish p, e, refl))
  on_packet-Answers (Packet.pub_ack p) taken e = (refl, (Packet.pub_ack p, e, refl))
  on_packet-Answers (Packet.pub_rec p) taken e = (refl, (Packet.pub_rec p, e, refl))
  on_packet-Answers (Packet.pub_rel p) taken e = (refl, (Packet.pub_rel p, e, refl))
  on_packet-Answers (Packet.pub_comp p) taken e = (refl, (Packet.pub_comp p, e, refl))
  on_packet-Answers (Packet.sub_ack p) taken e = (refl, (Packet.sub_ack p, e, refl))
  on_packet-Answers (Packet.unsub_ack p) taken e = (refl, (Packet.unsub_ack p, e, refl))
  on_packet-Answers Packet.ping_resp taken e = (refl, (Packet.ping_resp, e, refl))
  on_packet-Answers p taken e = refl

  on_read_error-Answers : (e : Error) → Answers bytes c (on_read_error e c)
  unfolding on_read_error
  on_read_error-Answers (need_more_data n) = (refl, tt)
  on_read_error-Answers e = refl

  receive-Answers :
      (r : Outcome Error (Packet × ℕ))
      → read bytes c.max_packet_size ≡ r
      → Answers bytes c (receive on_packet r c)
  unfolding receive
  receive-Answers (ok (p, taken)) e = on_packet-Answers p taken e
  receive-Answers (err x) e = on_read_error-Answers x
  receive-Answers panic e = refl

  in_state-Answers : (s : State) → s ≡ connected → Answers bytes c (in_state s bytes c)
  unfolding in_state
  in_state-Answers connected online = receive-Answers _ refl
  in_state-Answers s online = cc

  pub on_bytes_received-Answers : c.state ≡ connected → Answers bytes c (on_bytes_received bytes c)
  unfolding on_bytes_received
  on_bytes_received-Answers online = in_state-Answers c.state online
