-- ===== src/Nano/Client/Replies.antt =====
-- nano_client.rs: the packet that completing a notification sends.
use umqtt.Base.{
  ℕ, ◌≤◌, ◌<◌, ◌≡◌, refl, ◌∙◌, ap, List, ◌∷◌, ◌++◌, length, drop, false, Option, none, some, inr,
  lt→ltb,
}
use umqtt.Base.Outcome.{Outcome, ok, bind_ok}
use umqtt.Base.Slice.{slice_to, slice_to-append}
use umqtt.Time.{Instant}
use umqtt.PacketView.{WriteError, QoS, at_most_once, at_least_once, exactly_once}
use umqtt.PacketView.WriteCursor.{be_bytes}
use umqtt.PacketView.WriteCursor.Emits.{Wrote, Wrote-fits}
use umqtt.PacketView.Packet.Acks.{PubAck_written, PubRec_written, PubComp_written}
use umqtt.Transport.{Notification, on_packet_sent, is_disconnected}
use umqtt.Nano.Buffer
use umqtt.Nano.Platform.{Platform}
use umqtt.Nano.Client.{
  Client, complete, transport_notification, send, encode, write_all, write_buffer, after_write,
  send_pub_ack, send_pub_rec, send_pub_comp, publish_action,
}
use umqtt.Nano.Client.Receiving.{complete_notification, run_action}
use umqtt.PacketView.Header.Encoding.{length_bytes}

unfoldable pub publish_reply : QoS → ℕ → Option (List ℕ)
publish_reply at_most_once pkid = none
publish_reply at_least_once pkid = some (0x40 ∷ 2 ∷ be_bytes pkid)
publish_reply exactly_once pkid = some (0x50 ∷ 2 ∷ be_bytes pkid)

-- The acknowledgement that MQTT 3.1.1 (4.3) asks of the receiver of a publish, in both exchanges of
-- QoS 2. The PUBREL with which a sender goes on after a PUBREC is not among them.
unfoldable pub reply : Notification → Option (List ℕ)
unfolding publish_reply
reply (Notification.publish p) = publish_reply p.quality p.pkid
reply (Notification.pub_rel p) = some (0x70 ∷ 2 ∷ be_bytes p.pkid)
reply n = none

module _ {P E : Type 0} (plat : Platform P E) where
  -- The client after `bytes` were sent.
  abbrev pub sent : List ℕ → Instant → P → Client P → Client P
  sent bytes t p c = record c {
    transport = on_packet_sent t c.transport;
    tx_buffer = bytes ++ drop (length bytes) c.tx_buffer;
    platform = p;
  }

  write_all-append :
      (bytes rest : List ℕ) (c : Client P) (p q : P) (t : Instant)
      → c.tx_buffer ≡ bytes ++ rest
      → is_disconnected c.transport ≡ false
      → plat.write_all bytes c.platform ≡ (inr tt, p)
      → plat.now p ≡ (t, q)
      → write_all plat (length bytes) c
        ≡ (ok tt, record c { transport = on_packet_sent t c.transport; platform = q })
  unfolding write_all write_buffer after_write
  write_all-append bytes rest c p q t e online written clock =
      bind_ok (λ d. (slice_to (length bytes) d.tx_buffer, d)) (write_buffer plat) {t = c}
        {a = bytes}
        (ap (λ r. (r, c))
          (ap (slice_to (length bytes)) e ∙ slice_to-append bytes rest (length bytes) refl))
      ∙ rw (online, written, clock) refl

  pub send-Wrote :
      (write : List ℕ → Outcome WriteError ℕ × List ℕ) (bytes : List ℕ) (c : Client P) (p q : P)
      (t : Instant)
      → Wrote bytes c.tx_buffer (write c.tx_buffer)
      → length bytes ≤ length c.tx_buffer
      → is_disconnected c.transport ≡ false
      → plat.write_all bytes c.platform ≡ (inr tt, p)
      → plat.now p ≡ (t, q)
      → send plat write c ≡ (ok tt, sent bytes t q c)
  unfolding send
  send-Wrote write bytes c p q t w room online written clock =
      let e = Wrote-fits bytes c.tx_buffer (write c.tx_buffer) w room in
      bind_ok (encode plat write) (write_all plat)
        {t = record c { tx_buffer = bytes ++ drop (length bytes) c.tx_buffer }} {a = length bytes}
        (rw e refl)
      ∙ write_all-append bytes (drop (length bytes) c.tx_buffer)
          (record c { tx_buffer = bytes ++ drop (length bytes) c.tx_buffer }) p q t refl online
          written clock

  -- The client without the bytes of the notification.
  abbrev pub consumed : ℕ → Client P → Client P
  consumed taken c = record c { rx_buffer = Buffer.remove_prefix taken c.rx_buffer }

  module _ (bytes : List ℕ) (c : Client P) (p q : P) (t : Instant) (room : 4 ≤ length c.tx_buffer)
      (online : is_disconnected c.transport ≡ false)
      (written : plat.write_all bytes c.platform ≡ (inr tt, p)) (clock : plat.now p ≡ (t, q)) where
    publish_action-reply :
        (quality : QoS) (pkid : ℕ)
        → publish_reply quality pkid ≡ some bytes
        → run_action plat (publish_action quality pkid) c ≡ (ok tt, sent bytes t q c)
    unfolding run_action send_pub_ack send_pub_rec publish_reply publish_action length_bytes
    publish_action-reply at_most_once pkid e = cc
    publish_action-reply at_least_once pkid e =
        let same : bytes ≡ 0x40 ∷ 2 ∷ be_bytes pkid = cc e in
        rw same (
          send-Wrote _ _ c p q t (PubAck_written _ c.tx_buffer) room online (rw same at written)
            clock)
    publish_action-reply exactly_once pkid e =
        let same : bytes ≡ 0x50 ∷ 2 ∷ be_bytes pkid = cc e in
        rw same (
          send-Wrote _ _ c p q t (PubRec_written _ c.tx_buffer) room online (rw same at written)
            clock)

    run_action-reply :
        (n : Notification) (taken : ℕ)
        → reply n ≡ some bytes
        → run_action plat (complete (transport_notification n taken)).action c
          ≡ (ok tt, sent bytes t q c)
    unfolding run_action complete reply send_pub_comp length_bytes
    run_action-reply (Notification.publish m) taken e = publish_action-reply m.quality m.pkid e
    run_action-reply (Notification.pub_rel m) taken e =
        let same : bytes ≡ 0x70 ∷ 2 ∷ be_bytes m.pkid = cc e in
        rw same (
          send-Wrote _ _ c p q t (PubComp_written _ c.tx_buffer) room online (rw same at written)
            clock)
    run_action-reply n taken e = cc

  -- Completing a publish with QoS 1 or 2 or a PUBREL sends exactly the bytes of the acknowledgement
  -- that the MQTT standard asks of the receiver of a publish (PUBACK for a publish with QoS 1,
  -- PUBREC for one with QoS 2, PUBCOMP for a PUBREL), restarts the keep-alive, and takes the bytes of the notification out of the receive
  -- buffer: for a notification of at least one byte, a client that is not disconnected, a transmit
  -- buffer of at least four bytes and a platform that writes the bytes.
  pub complete_notification-reply :
      (n : Notification) (taken : ℕ) (bytes : List ℕ) (c : Client P) (p q : P) (t : Instant)
      → reply n ≡ some bytes
      → 0 < taken
      → 4 ≤ length c.tx_buffer
      → is_disconnected c.transport ≡ false
      → plat.write_all bytes c.platform ≡ (inr tt, p)
      → plat.now p ≡ (t, q)
      → complete_notification plat (complete (transport_notification n taken)) c
        ≡ (ok tt, consumed taken (sent bytes t q c))
  unfolding complete_notification complete
  complete_notification-reply n taken bytes c p q t e pos room online written clock =
      rw (lt→ltb 0 taken pos)
        (run_action-reply bytes (consumed taken c) p q t room online written clock n taken e)
