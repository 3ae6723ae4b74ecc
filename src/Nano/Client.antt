-- ===== src/Nano/Client.antt =====
-- nano_client.rs, `NanoClient`: connecting, sending, and receiving notifications.
pub mod Connecting
pub mod Receiving
pub mod Handshake
pub mod Replies
pub mod Sending
pub mod Reads
pub mod Progress
pub mod Waiting
pub mod Timeouts
pub mod Storing
pub mod Delivery
pub mod Accepting
use umqtt.Base.{
  ℕ, zero, suc, ◌==◌, ltb, if◌then◌else◌, Bool, true, false, List, length, ◌⊎◌, inl, inr, Option,
  none, some,
}
use umqtt.Base.Outcome.{Outcome, ok, err, panic, Act, pure, fail, lift, map_err, ◌>>=◌, ◌>>◌}
use umqtt.Base.Slice.{slice_to}
use umqtt.Time.{Duration, Instant}
use umqtt.PacketView
use umqtt.PacketView.{WriteError, QoS, at_most_once, at_least_once, exactly_once, malformed_packet}
use umqtt.PacketView.ConnAck.{ConnAck, is_success}
use umqtt.PacketView.Connect
use umqtt.PacketView.Connect.{ConnectOptions, as_connect}
use umqtt.PacketView.PubAck
use umqtt.PacketView.PubRec
use umqtt.PacketView.PubComp
use umqtt.PacketView.Ping.{write_ping_req}
use umqtt.PacketView.Header.{check}
use umqtt.Transport
use umqtt.Transport.{
  TransportClient, Notification, on_transport_opened, on_packet_sent, on_transport_closed,
  on_bytes_received, next_ping_in, is_disconnected,
}
use umqtt.Nano.Buffer
use umqtt.Nano.Buffer.{Buffer}
use umqtt.Nano.Platform.{Platform}

pub data Error (E : Type 0) : Type 0 where
  connection_closed : Error E
  unexpected_packet : Error E
  io : E → Error E
  read_error : PacketView.Error → Error E
  write_error : WriteError → Error E

pub record Client (P : Type 0) : Type 0 where
  pub transport : TransportClient
  pub tx_buffer : List ℕ
  pub rx_buffer : Buffer
  pub platform : P

-- `NanoClient::new`
unfoldable pub new : {P : Type 0} → List ℕ → List ℕ → P → Client P
new tx_buffer rx_buffer platform = record {
  transport = Transport.new (length rx_buffer);
  tx_buffer = tx_buffer;
  rx_buffer = Buffer.new rx_buffer;
  platform = platform;
}

-- `NanoClient::from_transport_client`
unfoldable pub from_transport_client :
    {P : Type 0} → TransportClient → List ℕ → List ℕ → P → Client P
from_transport_client transport_client tx_buffer rx_buffer platform = record {
  transport = transport_client;
  tx_buffer = tx_buffer;
  rx_buffer = Buffer.new rx_buffer;
  platform = platform;
}

-- `NanoClient::into_inner`
abbrev pub into_inner : {P : Type 0} → Client P → TransportClient
into_inner c = c.transport

-- `NanoClient::is_disconnected`
abbrev pub is_closed : {P : Type 0} → Client P → Bool
is_closed c = is_disconnected c.transport

pub data NotificationAction : Type 0 where
  no_action ping_req : NotificationAction
  pub_ack pub_rec pub_comp : ℕ → NotificationAction

pub record NotificationCompletion : Type 0 where
  pub taken : ℕ
  pub action : NotificationAction

pub data ClientNotification : Type 0 where
  transport_notification : Notification → ℕ → ClientNotification
  send_ping : ClientNotification

unfoldable pub publish_action : QoS → ℕ → NotificationAction
publish_action at_most_once pkid = no_action
publish_action at_least_once pkid = pub_ack pkid
publish_action exactly_once pkid = pub_rec pkid

action_for : Notification → NotificationAction
unfolding publish_action
action_for (Notification.publish p) = publish_action p.quality p.pkid
action_for (Notification.pub_rel p) = pub_comp p.pkid
action_for _ = no_action

-- `ClientNotification::complete`
unfoldable pub complete : ClientNotification → NotificationCompletion
unfolding action_for
complete send_ping = record { taken = 0; action = ping_req }
complete (transport_notification n taken) = record { taken = taken; action = action_for n }

-- `ClientNotification::complete_no_pub_ack`
unfoldable pub complete_no_pub_ack : ClientNotification → NotificationCompletion
complete_no_pub_ack send_ping = record { taken = 0; action = ping_req }
complete_no_pub_ack (transport_notification n taken) = record { taken = taken; action = no_action }

-- `ClientNotification::taken`
abbrev pub taken : ClientNotification → ℕ
taken send_ping = 0
taken (transport_notification n t) = t

-- `ClientNotification::complete_no_action`
unfoldable pub complete_no_action : ClientNotification → NotificationCompletion
complete_no_action n = record { taken = taken n; action = no_action }

-- `NotificationCompletion::with_action`
unfoldable pub with_action : ClientNotification → NotificationAction → NotificationCompletion
with_action tick_result action = record { taken = taken tick_result; action = action }

module _ {P E : Type 0} (plat : Platform P E) where
  abbrev Run : Type 0 → Type 0
  Run A = Act (Client P) (Error E) A

  -- After `platform.write_all` has answered.
  unfoldable pub after_write : (E ⊎ Unit {0}) × P → Run (Unit {0})
  after_write (inr done, p) c =
      let (t, p') = plat.now p in
      (ok tt, record c { transport = on_packet_sent t c.transport; platform = p' })
  after_write (inl e, p) c =
      (err (io e), record c { transport = on_transport_closed c.transport; platform = p })

  unfoldable pub write_buffer : List ℕ → Run (Unit {0})
  write_buffer bytes c =
      if is_disconnected c.transport
      then (err connection_closed, c)
      else after_write (plat.write_all bytes c.platform) c

  -- `write_all`: the first `size` bytes of the transmit buffer.
  unfoldable pub write_all : ℕ → Run (Unit {0})
  write_all size = do bytes ← λ c. (slice_to size c.tx_buffer, c); write_buffer bytes

  -- A packet's `write` into the transmit buffer.
  abbrev pub encode : (List ℕ → Outcome WriteError ℕ × List ℕ) → Run ℕ
  encode write c =
      let (r, tx) = write c.tx_buffer in (map_err write_error r, record c { tx_buffer = tx })

  -- A packet is encoded and sent.
  unfoldable pub send : (List ℕ → Outcome WriteError ℕ × List ℕ) → Run (Unit {0})
  send write = do out_size ← encode write; write_all out_size

  unfoldable pub send_ping_request : Run (Unit {0})
  send_ping_request = send write_ping_req

  unfoldable pub send_pub_ack : ℕ → Run (Unit {0})
  send_pub_ack packet_id = send (PubAck.write (record { pkid = packet_id }))

  unfoldable pub send_pub_rec : ℕ → Run (Unit {0})
  send_pub_rec packet_id = send (PubRec.write (record { pkid = packet_id }))

  unfoldable pub send_pub_comp : ℕ → Run (Unit {0})
  send_pub_comp packet_id = send (PubComp.write (record { pkid = packet_id }))

  -- After `platform.read_some` has answered.
  unfoldable pub after_read : (E ⊎ Option (List ℕ)) × P → Run (Option ℕ)
  after_read (inr none, p) c = (ok none, record c { platform = p })
  after_read (inr (some bytes), p) c =
      if length bytes == 0
      then (
        err connection_closed,
        record c {
          transport = on_transport_closed c.transport;
          rx_buffer = Buffer.fill bytes c.rx_buffer;
          platform = p;
        },
      )
      else (
        ok (some (length bytes)),
        record c {
          rx_buffer = Buffer.advance (length bytes) (Buffer.fill bytes c.rx_buffer);
          platform = p;
        },
      )
  after_read (inl e, p) c =
      (err (io e), record c { transport = on_transport_closed c.transport; platform = p })

  abbrev pub unused : Run (List ℕ)
  unused c = (Buffer.unused_slice c.rx_buffer, c)

  -- `platform.read_some(buf, timeout)` and the match on its answer.
  unfoldable pub read_into : Option Duration → List ℕ → Run (Option ℕ)
  read_into timeout buf c = after_read (plat.read_some (length buf) timeout c.platform) c

  unfoldable pub read_some_with_timeout : Option Duration → Run (Option ℕ)
  read_some_with_timeout timeout = unused >>= read_into timeout

  unfoldable pub handle_bytes : List ℕ → Run (Option (Notification × ℕ))
  handle_bytes bytes c =
      let (r, t) = on_bytes_received bytes c.transport in
      (map_err read_error r, record c { transport = t })

  abbrev pub used : Run (List ℕ)
  used c = (Buffer.used_slice c.rx_buffer, c)

  -- `self.transport_client.on_bytes_received(self.rx_buffer.used_slice())`
  unfoldable pub receive : Run (Option (Notification × ℕ))
  receive = used >>= handle_bytes

  abbrev pub remove_prefix : ℕ → Run (Unit {0})
  remove_prefix n c = (ok tt, record c { rx_buffer = Buffer.remove_prefix n c.rx_buffer })
