-- ===== src/Nano/Client/Storing.antt =====
-- nano_client.rs: one read into the receive buffer, and what the data in it is taken for.
use umqtt.Base.{ℕ, ◌-◌, ◌<◌, ◌≡◌, refl, ap, ◌∙◌, arith, ne→==, List, length, some, Option, inr}
use umqtt.Base.Outcome.{ok, bind_ok}
use umqtt.Time.{Instant, Duration}
use umqtt.Transport.{on_bytes_received, TransportClient, Notification, next_ping_in}
use umqtt.Nano.Buffer
use umqtt.Nano.Buffer.{Buffer, capacity}
use umqtt.Nano.Buffer.Queue.{contents, used_slice_lem}
use umqtt.Nano.Platform.{Platform}
use umqtt.Nano.Client.{
  Client, Error, unused, used, read_some_with_timeout, read_into, after_read, receive, handle_bytes,
}
use umqtt.Nano.Client.Receiving.{wait}
use umqtt.Nano.Client.Reads.{Fits, unused_lem}

module _ {P E : Type 0} (plat : Platform P E) where
  -- The client after `bytes` were read.
  abbrev pub stored : List ℕ → P → Client P → Client P
  stored bytes q c = record c {
    rx_buffer = Buffer.advance (length bytes) (Buffer.fill bytes c.rx_buffer);
    platform = q;
  }

  pub read-stored :
      (c : Client P) (timeout : Option Duration) (q : P) (bytes : List ℕ)
      → Fits plat c
      → plat.read_some (capacity c.rx_buffer - c.rx_buffer.used) timeout c.platform
        ≡ (inr (some bytes), q)
      → 0 < length bytes
      → read_some_with_timeout plat timeout c ≡ (ok (some (length bytes)), stored bytes q c)
  unfolding read_some_with_timeout read_into after_read
  read-stored c timeout q bytes v answer pos =
      let (buf, e, size) = unused_lem plat c v in
      let room : length buf ≡ capacity c.rx_buffer - c.rx_buffer.used = omega arith in
      bind_ok (unused plat) (read_into plat timeout) e
      ∙ rw (room, answer, ne→== (length bytes) 0 (λ z. omega (arith, z, pos))) refl

  pub wait-stored :
      (c : Client P) (t : Instant) (p q : P) (bytes : List ℕ)
      → Fits plat c
      → plat.now c.platform ≡ (t, p)
      → plat.read_some (capacity c.rx_buffer - c.rx_buffer.used) (next_ping_in t c.transport) p
        ≡ (inr (some bytes), q)
      → 0 < length bytes
      → wait plat c ≡ (ok (some (length bytes)), stored bytes q c)
  unfolding wait
  wait-stored c t p q bytes v clock answer pos =
      rw clock
        (read-stored (record c { platform = p }) (next_ping_in t c.transport) q bytes v answer pos)

  -- What the transport client makes of the data is what `receive` answers.
  pub receive-eq :
      (c : Client P) (bytes : List ℕ) (r : Option (Notification × ℕ)) (t : TransportClient)
      → Fits plat c
      → contents c.rx_buffer ≡ bytes
      → on_bytes_received bytes c.transport ≡ (ok r, t)
      → receive plat c ≡ (ok r, record c { transport = t })
  unfolding receive handle_bytes
  receive-eq c bytes r t v held e =
      bind_ok (used plat) (handle_bytes plat) {t = c} {a = bytes}
        (rw (used_slice_lem {E = Error E} c.rx_buffer v) (ap (λ l. (ok l, c)) held))
      ∙ rw e refl
