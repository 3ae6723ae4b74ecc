-- ===== src/Nano/Client/Sending.antt =====
-- nano_client.rs: publishes and subscriptions that functions of the application write in place.
pub mod Publishing
pub mod Subscribing
use umqtt.Base.{ℕ, ◌+◌, ◌-◌, Bool, true, false, if◌then◌else◌, List, [], ◌∷◌}
use umqtt.Base.Outcome.{Outcome, ok, and_then, map_err, Act, pure, lift, resume, ◌>>=◌, ◌>>◌}
use umqtt.Base.Slice.{set_index, slice_to}
use umqtt.PacketView.{WriteError, QoS, at_most_once, at_least_once}
use umqtt.PacketView.WriteCursor
use umqtt.PacketView.BorrowedBuf
use umqtt.PacketView.BorrowedBuf.{BorrowedBuf, Fill}
use umqtt.PacketView.Header.{write_remaining_length}
use umqtt.PacketView.ConnAck.{ConnAck, is_success}
use umqtt.PacketView.Connect.{ConnectOptions}
use umqtt.PacketView.OutPublish
use umqtt.PacketView.OutPublish.{OutPublish}
use umqtt.Nano.Platform.{Platform}
use umqtt.Nano.Client.{Error, write_error, Client, write_buffer}
use umqtt.Nano.Client.Connecting.{connect}

-- The header of a subscribe with the packet identifier 1 and `len` bytes of filters, in an array of
-- seven bytes.
unfoldable pub subscribe_header : ℕ → Outcome WriteError (List ℕ)
subscribe_header len =
    let (r, c) = write_remaining_length (len + 2) (WriteCursor.new (0 ∷ 0 ∷ 0 ∷ 0 ∷ 0 ∷ 0 ∷ [])) in
    and_then r λ remaining_len_len.
      and_then (set_index (remaining_len_len + 1) 0 (0x82 ∷ c.buffer)) λ header.
        and_then (set_index (remaining_len_len + 2) 1 header) (slice_to (remaining_len_len + 3))

module _ {P E : Type 0} (plat : Platform P E) where
  abbrev Run : Type 0 → Type 0
  Run A = Act (Client P) (Error E) A

  -- `publish.write(topic, payload, self.tx_buffer)`
  unfoldable pub write_publish : OutPublish → Fill (Unit {0}) → Fill (Unit {0}) → Run (List ℕ)
  write_publish publish topic payload c =
      let (r, tx) = OutPublish.write publish topic payload c.tx_buffer in
      (map_err write_error r, record c { tx_buffer = tx })

  unfoldable pub send_publish : OutPublish → Fill (Unit {0}) → Fill (Unit {0}) → Run (Unit {0})
  send_publish publish topic payload = do
    written ← write_publish publish topic payload
    write_buffer plat written

  unfoldable pub send_publish_qos0 : Fill (Unit {0}) → Fill (Unit {0}) → Run (Unit {0})
  send_publish_qos0 topic payload =
      send_publish (record { dup = false; quality = at_most_once; retain = false; pkid = 0 }) topic
        payload

  unfoldable pub send_publish_qos1 : ℕ → Fill (Unit {0}) → Fill (Unit {0}) → Run (Unit {0})
  send_publish_qos1 packet_id topic payload =
      send_publish
        (record { dup = false; quality = at_least_once; retain = false; pkid = packet_id }) topic
        payload

  -- `write_subscribe` once the filters are in the transmit buffer: the header and the filters are
  -- written one after the other.
  unfoldable pub send_subscribe : ℕ → Run (Unit {0})
  send_subscribe len = do
    header ← lift (map_err write_error (subscribe_header len))
    write_buffer plat header
    payload ← λ c. (slice_to len c.tx_buffer, c)
    write_buffer plat payload

  -- `subscriptions(&mut SubscribeWriter(&mut borrowed_buf))`, and the length of what it wrote.
  unfoldable pub write_filters : Fill (Unit {0}) → Run ℕ
  write_filters subscriptions c =
      let (r, b) = subscriptions (BorrowedBuf.new c.tx_buffer) in
      (and_then (map_err write_error r) (λ _. ok b.len), record c { tx_buffer = b.buffer })

  unfoldable pub write_subscribe : Fill (Unit {0}) → Run (Unit {0})
  write_subscribe subscriptions = do len ← write_filters subscriptions; send_subscribe len

  unfoldable pub connect_subscribe : ConnectOptions → Fill (Unit {0}) → Run ConnAck
  connect_subscribe connect_options subscriptions = do
    connack ← connect plat connect_options
    if is_success connack.code then write_subscribe subscriptions else pure tt
    pure connack
