-- ===== src/Nano/Serving/Answering.antt =====
-- nano_client.rs: what `complete_notification` takes out of the receive buffer and what it sends.
use umqtt.Base.{
  ℕ, ◌≡◌, refl, sym, ap, ◌∙◌, ltb, tests, Bool-cases, inl, inr, List, [], ◌∷◌, drop, Option, none,
  some,
}
use umqtt.Base.Outcome.{Outcome}
use umqtt.Base.Meets.{Ends-weaken}
use umqtt.PacketView.{QoS, at_most_once, at_least_once, exactly_once}
use umqtt.PacketView.Packet.Acks.{PubAck_written, PubRec_written, PubComp_written}
use umqtt.PacketView.Packet.Bare.{ping_req_written}
use umqtt.PacketView.Header.Encoding.{length_bytes}
use umqtt.Transport.{Notification, connected}
use umqtt.Nano.Buffer
use umqtt.Nano.Buffer.Queue.{IsValid, contents, remove_prefix_lem}
use umqtt.Nano.Platform.{Platform}
use umqtt.Nano.Client.{
  Client, Error, ClientNotification, transport_notification, send_ping, complete, taken,
  publish_action, send_ping_request, send_pub_ack, send_pub_rec, send_pub_comp,
}
use umqtt.Nano.Client.Receiving.{complete_notification, run_action}
use umqtt.Nano.Client.Replies.{reply, publish_reply}
use umqtt.Nano.Serving.Recorded.{Recorded, recorded}
use umqtt.Nano.Serving.Sending.{Gone, Answered, Sends, start_of, nothing, send-Sends}

abbrev or_nothing : Option (List ℕ) → List ℕ
or_nothing none = []
or_nothing (some bytes) = bytes

-- The bytes of the action that the table of `ClientNotification::complete` gives for a notification.
-- A PUBREC has none, though MQTT 3.1.1 (4.3.3) asks its receiver for a PUBREL.
unfoldable pub answer : ClientNotification → List ℕ
answer send_ping = 0xc0 ∷ 0 ∷ []
answer (transport_notification n size) = or_nothing (reply n)

complete-taken : (n : ClientNotification) → (complete n).taken ≡ taken n
unfolding complete
complete-taken send_ping = refl
complete-taken (transport_notification n size) = refl

module _ {P E : Type 0} (plat : Platform P E) where
  publish_action-Sends :
      (quality : QoS) (pkid : ℕ) (c : Client (Recorded P))
      → IsValid c.rx_buffer
      → c.transport.state ≡ connected
      → Sends
          (start_of c)
          0
          (or_nothing (publish_reply quality pkid))
          (run_action (recorded plat) (publish_action quality pkid) c)
  unfolding run_action publish_action publish_reply send_pub_ack send_pub_rec length_bytes
  publish_action-Sends at_most_once pkid c v online = (nothing plat c v, online)
  publish_action-Sends at_least_once pkid c v online =
      send-Sends plat _ _ c (PubAck_written (record { pkid = pkid }) c.tx_buffer) v online
  publish_action-Sends exactly_once pkid c v online =
      send-Sends plat _ _ c (PubRec_written (record { pkid = pkid }) c.tx_buffer) v online

  -- The acknowledgement, or the ping.
  run_action-Sends :
      (n : ClientNotification) (c : Client (Recorded P))
      → IsValid c.rx_buffer
      → c.transport.state ≡ connected
      → Sends (start_of c) 0 (answer n) (run_action (recorded plat) (complete n).action c)
  unfolding run_action complete answer reply send_ping_request send_pub_ack send_pub_rec
      send_pub_comp length_bytes
  run_action-Sends send_ping c v online =
      send-Sends plat _ _ c (ping_req_written c.tx_buffer) v online
  run_action-Sends (transport_notification (Notification.publish m) size) c v online =
      publish_action-Sends m.quality m.pkid c v online
  run_action-Sends (transport_notification (Notification.pub_rel m) size) c v online =
      send-Sends plat _ _ c (PubComp_written (record { pkid = m.pkid }) c.tx_buffer) v online
  run_action-Sends (transport_notification n size) c v online = (nothing plat c v, online)

  -- What was sent since a prefix was taken out of the receive buffer was sent since then.
  Sends-removed :
      (c : Client (Recorded P)) (b : Buffer.Buffer) (size : ℕ) (bytes : List ℕ)
      (r : Outcome (Error E) (Unit {0}) × Client (Recorded P))
      → contents b ≡ drop size (contents c.rx_buffer)
      → Sends (start_of (record c { rx_buffer = b })) 0 bytes r
      → Sends (start_of c) size bytes r
  Sends-removed c b size bytes r e h =
      Ends-weaken (λ done. Answered (start_of (record c { rx_buffer = b })) 0 bytes)
        (λ done. Answered (start_of c) size bytes)
        (Gone (start_of (record c { rx_buffer = b })) 0 []) (Gone (start_of c) size []) r
        (λ done d g. (since bytes d g.0, g.1)) (since []) h
    where
      since :
          (bs : List ℕ) (d : Client (Recorded P))
          → Gone (start_of (record c { rx_buffer = b })) 0 bs d
          → Gone (start_of c) size bs d
      since bs d g = record {
        left = g.left ∙ e;
        valid = g.valid;
        received = g.received;
        sent = g.sent;
        limit = g.limit;
      }

  pub complete_notification-Sends :
      (n : ClientNotification) (c : Client (Recorded P))
      → IsValid c.rx_buffer
      → c.transport.state ≡ connected
      → Sends
          (start_of c)
          (taken n)
          (answer n)
          (complete_notification (recorded plat) (complete n) c)
  unfolding complete_notification
  complete_notification-Sends n c v online =
      let size = (complete n).taken in
      let b = Buffer.remove_prefix size c.rx_buffer in
      let (held, valid, _) = remove_prefix_lem c.rx_buffer size v in
      rw (← complete-taken n) (elim (Bool-cases (ltb 0 size)) [
        | inl some_bytes ↦ rw some_bytes (
            Sends-removed c b size (answer n) _ held
              (run_action-Sends n (record c { rx_buffer = b }) valid online))
        | inr no_byte ↦
            let zero_size : size ≡ 0 = omega tests in
            rw no_byte (
              Sends-removed c c.rx_buffer size (answer n) _
                (sym (ap (λ k. drop k (contents c.rx_buffer)) zero_size))
                (run_action-Sends n c v online))
      ])
