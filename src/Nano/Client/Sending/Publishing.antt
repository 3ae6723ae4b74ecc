-- ===== src/Nano/Client/Sending/Publishing.antt =====
-- nano_client.rs: what `send_publish` writes to the transport.
use umqtt.Base.{ℕ, ◌+◌, ◌≤◌, ◌≡◌, refl, ◌∙◌, List, length, false, inr}
use umqtt.Base.Outcome.{ok, bind_ok}
use umqtt.Time.{Instant}
use umqtt.PacketView.BorrowedBuf.{Fill}
use umqtt.PacketView.BorrowedBuf.Adds.{Adds}
use umqtt.PacketView.Publish.{Publish}
use umqtt.PacketView.Publish.RoundTrip.{IsWritable, body, encoding}
use umqtt.PacketView.OutPublish
use umqtt.PacketView.OutPublish.InPlace.{out, out-encoding}
use umqtt.Transport.{is_disconnected, on_packet_sent}
use umqtt.Nano.Platform.{Platform}
use umqtt.Nano.Client.{Client, write_buffer, after_write}
use umqtt.Nano.Client.Sending.{write_publish, send_publish}

module _ {P E : Type 0} (plat : Platform P E) where
  -- The client after bytes of its transmit buffer were sent, which holds `tx` then.
  abbrev pub sent_from : List ℕ → Instant → P → Client P → Client P
  sent_from tx t p c = record c {
    transport = on_packet_sent t c.transport;
    tx_buffer = tx;
    platform = p;
  }

  pub write_buffer-online :
      (bytes : List ℕ) (c : Client P) (p q : P) (t : Instant)
      → is_disconnected c.transport ≡ false
      → plat.write_all bytes c.platform ≡ (inr tt, p)
      → plat.now p ≡ (t, q)
      → write_buffer plat bytes c ≡ (ok tt, sent_from c.tx_buffer t q c)
  unfolding write_buffer after_write
  write_buffer-online bytes c p q t online written clock = rw (online, written, clock) refl

  -- Sending a publish whose topic and payload are written in place writes exactly the encoding of
  -- that publish to the transport and restarts the keep-alive; nothing but the transmit buffer, the
  -- transport client and the platform changes. The publish can be written, the functions write its
  -- topic and its payload, the transmit buffer has five bytes more than the body, the client is not
  -- disconnected and the platform writes the bytes.
  pub send_publish-encoding :
      (m : Publish) (topic payload : Fill (Unit {0})) (c : Client P) (p q : P) (t : Instant)
      → IsWritable m
      → Adds topic m.topic
      → Adds payload m.payload
      → 5 + length (body m) ≤ length c.tx_buffer
      → is_disconnected c.transport ≡ false
      → plat.write_all (encoding m) c.platform ≡ (inr tt, p)
      → plat.now p ≡ (t, q)
      → send_publish plat (out m) topic payload c
        ≡ (ok tt, sent_from (OutPublish.write (out m) topic payload c.tx_buffer).1 t q c)
  unfolding send_publish write_publish
  send_publish-encoding m topic payload c p q t w ht hp room online written clock =
      let tx = (OutPublish.write (out m) topic payload c.tx_buffer).1 in
      bind_ok (write_publish plat (out m) topic payload) (write_buffer plat)
        {t = record c { tx_buffer = tx }} {a = encoding m}
        (rw (out-encoding m w topic payload ht hp c.tx_buffer room) refl)
      ∙ write_buffer-online (encoding m) (record c { tx_buffer = tx }) p q t online written clock
