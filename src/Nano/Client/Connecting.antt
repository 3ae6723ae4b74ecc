-- ===== src/Nano/Client/Connecting.antt =====
-- nano_client.rs: `connect` and `read_connack`.
use umqtt.Base.{ℕ, zero, suc, ◌==◌, if◌then◌else◌, Option, none, some}
use umqtt.Base.Outcome.{ok, panic, Act, pure, fail, lift, ◌>>=◌, ◌>>◌}
use umqtt.PacketView.ConnAck.{ConnAck, is_success}
use umqtt.PacketView.Connect
use umqtt.PacketView.Connect.{ConnectOptions, as_connect}
use umqtt.Transport.{Notification, on_transport_opened, on_transport_closed}
use umqtt.Nano.Buffer
use umqtt.Nano.Buffer.{Buffer}
use umqtt.Nano.Platform.{Platform}
use umqtt.Nano.Client.{
  Error, connection_closed, unexpected_packet, Client, encode, write_all, read_some_with_timeout,
  receive, remove_prefix,
}

module _ {P E : Type 0} (plat : Platform P E) where
  abbrev Run : Type 0 → Type 0
  Run A = Act (Client P) (Error E) A

  -- The match on a notification in `read_connack`.
  unfoldable pub expect_connack : Notification → ℕ → Run ConnAck
  expect_connack (Notification.conn_ack ack) taken = do remove_prefix plat taken; pure ack
  expect_connack _ taken = fail unexpected_packet

  -- The match on what was received, in the loop that goes on with `again`.
  unfoldable pub on_received : Run ConnAck → Option (Notification × ℕ) → Run ConnAck
  on_received again none = again
  on_received again (some (n, taken)) = expect_connack n taken

  -- What follows the read: its `unwrap`, the test for no byte, and the match.
  unfoldable pub on_read : Run ConnAck → Option ℕ → Run ConnAck
  on_read again none = lift panic
  on_read again (some read_result) =
      if read_result == 0 then fail connection_closed else receive plat >>= on_received again

  -- The loop of `read_connack`, with fuel; no fuel stands for a loop that goes on.
  unfoldable pub connack_loop : ℕ → Run ConnAck
  connack_loop zero = lift panic
  connack_loop (suc fuel) = read_some_with_timeout plat none >>= on_read (connack_loop fuel)

  -- Each round stores a byte at least, so the loop ends when the buffer is full, or before.
  unfoldable pub read_connack : Run ConnAck
  read_connack c = connack_loop (suc (Buffer.capacity c.rx_buffer)) c

  abbrev modify : (Client P → Client P) → Run (Unit {0})
  modify f c = (ok tt, f c)

  -- `connect` up to `read_connack`: the transport is open, and the packet is sent.
  unfoldable pub open_with : ConnectOptions → Run (Unit {0})
  open_with options = do
    modify λ c. record c {
      transport = on_transport_opened options c.transport;
      rx_buffer = Buffer.reset c.rx_buffer;
    }
    out_size ← encode plat (Connect.write (as_connect options))
    write_all plat out_size

  -- The end of `connect`: the connack is an answer whatever its code is.
  unfoldable pub on_connack : ConnAck → Run ConnAck
  on_connack connack c =
      if is_success connack.code
      then (ok connack, c)
      else (ok connack, record c { transport = on_transport_closed c.transport })

  unfoldable pub connect : ConnectOptions → Run ConnAck
  connect options = open_with options >>= λ done. read_connack >>= on_connack
