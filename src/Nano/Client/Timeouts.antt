-- ===== src/Nano/Client/Timeouts.antt =====
-- nano_client.rs: what `next_notification` does when the time for a ping has come.
use umqtt.Base.{◌-◌, ◌≡◌, refl, ◌∙◌, arith, length, false, Option, none, inr}
use umqtt.Base.Outcome.{ok, bind_ok}
use umqtt.Time.{Instant, Duration}
use umqtt.Transport.{is_disconnected, next_ping_in}
use umqtt.Nano.Buffer.{capacity}
use umqtt.Nano.Platform.{Platform}
use umqtt.Nano.Client.{Client, send_ping, unused, read_some_with_timeout, read_into, after_read}
use umqtt.Nano.Client.Receiving.{on_wait, wait, notification_loop, on_framed, next_notification}
use umqtt.Nano.Client.Reads.{Fits, unused_lem}

module _ {P E : Type 0} (plat : Platform P E) where
  read-timeout :
      (c : Client P) (t : Option Duration) (q : P)
      → Fits plat c
      → plat.read_some (capacity c.rx_buffer - c.rx_buffer.used) t c.platform ≡ (inr none, q)
      → read_some_with_timeout plat t c ≡ (ok none, record c { platform = q })
  unfolding read_some_with_timeout read_into after_read
  read-timeout c t q v answer =
      let (bytes, e, size) = unused_lem plat c v in
      let room : length bytes ≡ capacity c.rx_buffer - c.rx_buffer.used = omega arith in
      bind_ok (unused plat) (read_into plat t) e ∙ rw (room, answer) refl

  -- A client that is not disconnected, whose platform answers the next read with a timeout, asks
  -- for a ping, whatever the receive buffer already holds, also a whole packet; the buffer is valid
  -- and the client is unchanged but for the platform.
  pub next_notification-timeout :
      (c : Client P) (t : Instant) (p q : P)
      → Fits plat c
      → is_disconnected c.transport ≡ false
      → plat.now c.platform ≡ (t, p)
      → plat.read_some (capacity c.rx_buffer - c.rx_buffer.used) (next_ping_in t c.transport) p
        ≡ (inr none, q)
      → next_notification plat c ≡ (ok send_ping, record c { platform = q })
  unfolding next_notification notification_loop on_wait wait on_framed
  next_notification-timeout c t p q v online clock answer =
      rw
        (
          online,
          clock,
          read-timeout (record c { platform = p }) (next_ping_in t c.transport) q v answer,
        )
        refl
