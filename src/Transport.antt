-- ===== src/Transport.antt =====
-- transport_client.rs: the client without input and output. It takes the bytes that were received
-- and keeps the state of the connection and the time of the next ping.
pub mod States
pub mod KeepAlive
pub mod Delivery
pub mod Messages
pub mod Greeting
use umqtt.Base.{ℕ, ltb, if◌then◌else◌, Bool, true, false, List, Option, none, some}
use umqtt.Base.Outcome.{Outcome, ok, err, panic}
use umqtt.Time
use umqtt.Time.{Duration, Instant}
use umqtt.PacketView.{Error, PacketType, need_more_data, unexpected_packet, unsupported_packet}
use umqtt.PacketView.ConnAck.{ConnAck, is_success}
use umqtt.PacketView.Connect.{ConnectOptions}
use umqtt.PacketView.Publish.{Publish}
use umqtt.PacketView.PubAck.{PubAck}
use umqtt.PacketView.PubRec.{PubRec}
use umqtt.PacketView.PubRel.{PubRel}
use umqtt.PacketView.PubComp.{PubComp}
use umqtt.PacketView.SubAck.{SubAck}
use umqtt.PacketView.UnsubAck.{UnsubAck}
use umqtt.PacketView.Packet
use umqtt.PacketView.Packet.{Packet, type_of}

pub data Notification : Type 0 where
  conn_ack : ConnAck → Notification
  publish : Publish → Notification
  pub_ack : PubAck → Notification
  pub_rec : PubRec → Notification
  pub_rel : PubRel → Notification
  pub_comp : PubComp → Notification
  sub_ack : SubAck → Notification
  unsub_ack : UnsubAck → Notification
  ping_response disconnected : Notification

pub data State : Type 0 where
  disconnected transport_connected connected : State

pub record TransportClient : Type 0 where
  pub keep_alive : Duration
  pub state : State
  pub max_packet_size : ℕ
  pub packet_send_at : Instant

-- `Instant::from_seconds_since_epoch(0)`
abbrev epoch : Instant
epoch = record { milliseconds = 0 }

unfoldable pub new : ℕ → TransportClient
new max_packet_size = record {
  keep_alive = Time.from_secs 0;
  state = State.disconnected;
  max_packet_size = max_packet_size;
  packet_send_at = epoch;
}

unfoldable pub on_transport_opened : ConnectOptions → TransportClient → TransportClient
on_transport_opened options c = record c {
  keep_alive = Time.from_secs options.keep_alive;
  packet_send_at = epoch;
  state = transport_connected;
}

unfoldable pub on_packet_sent : Instant → TransportClient → TransportClient
on_packet_sent now c =
    if ltb 0 c.keep_alive then record c { packet_send_at = Time.add now c.keep_alive } else c

unfoldable pub on_transport_closed : TransportClient → TransportClient
on_transport_closed c = record c { state = State.disconnected }

abbrev pub Received : Type 0
Received = Outcome Error (Option (Notification × ℕ)) × TransportClient

abbrev notify : Notification → ℕ → TransportClient → Received
notify n taken c = (ok (some (n, taken)), c)

abbrev fail_with : Error → TransportClient → Received
fail_with e c = (err e, record c { state = State.disconnected })

-- `Err(Error::NeedMoreData(_)) => Ok(None)`, and any other error.
unfoldable pub on_read_error : Error → TransportClient → Received
on_read_error (need_more_data n) c = (ok none, c)
on_read_error e c = fail_with e c

-- In the state `TransportConnected` only a connack is expected.
unfoldable pub on_first_packet : Packet → ℕ → TransportClient → Received
on_first_packet (Packet.conn_ack a) taken c =
    if is_success a.code
    then notify (conn_ack a) taken (record c { state = connected })
    else notify Notification.disconnected 0 (record c { state = State.disconnected })
on_first_packet p taken c = fail_with (unexpected_packet (type_of p)) c

-- In the state `Connected`.
unfoldable pub on_packet : Packet → ℕ → TransportClient → Received
on_packet (Packet.conn_ack a) taken c = fail_with (unexpected_packet PacketType.conn_ack) c
on_packet (Packet.publish p) taken c = notify (publish p) taken c
on_packet (Packet.pub_ack p) taken c = notify (pub_ack p) taken c
on_packet (Packet.pub_rec p) taken c = notify (pub_rec p) taken c
on_packet (Packet.pub_rel p) taken c = notify (pub_rel p) taken c
on_packet (Packet.pub_comp p) taken c = notify (pub_comp p) taken c
on_packet (Packet.sub_ack p) taken c = notify (sub_ack p) taken c
on_packet (Packet.unsub_ack p) taken c = notify (unsub_ack p) taken c
on_packet Packet.ping_resp taken c = notify ping_response taken c
on_packet _ taken c = fail_with unsupported_packet c

unfoldable pub receive :
    (Packet → ℕ → TransportClient → Received)
    → Outcome Error (Packet × ℕ)
    → TransportClient
    → Received
unfolding on_read_error
receive handle (ok (p, taken)) c = handle p taken c
receive handle (err e) c = on_read_error e c
receive handle panic c = (panic, c)

unfoldable pub in_state : State → List ℕ → TransportClient → Received
in_state State.disconnected bytes c = notify Notification.disconnected 0 c
in_state transport_connected bytes c =
    receive on_first_packet (Packet.read bytes c.max_packet_size) c
in_state connected bytes c = receive on_packet (Packet.read bytes c.max_packet_size) c

unfoldable pub on_bytes_received : List ℕ → TransportClient → Received
unfolding in_state
on_bytes_received bytes c = in_state c.state bytes c

unfoldable pub next_ping_in : Instant → TransportClient → Option Duration
next_ping_in now c = if ltb 0 c.keep_alive then some (Time.since c.packet_send_at now) else none

abbrev pub is_disconnected_state : State → Bool
is_disconnected_state State.disconnected = true
is_disconnected_state _ = false

abbrev pub is_disconnected : TransportClient → Bool
is_disconnected c = is_disconnected_state c.state
