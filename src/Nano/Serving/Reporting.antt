-- ===== src/Nano/Serving/Reporting.antt =====
-- nano_client.rs: what `next_notification` returns, in terms of the data in the receive buffer.
use umqtt.Base.{ℕ, suc, ◌≡◌, refl, sym, ap, ◌∙◌, Bool, true, false, List, Option, none, some}
use umqtt.Base.Outcome.{ok, err, panic, map_err, bind_ok}
use umqtt.Base.Meets.{Ends, Meets, Ends-bind}
use mathlib.Core.Path.{subst}
use umqtt.Transport.{connected, Notification, Received, is_disconnected}
use umqtt.Transport.Messages.{IsFirst, Reports, on_bytes_received-Answers}
use umqtt.Nano.Buffer.{capacity}
use umqtt.Nano.Buffer.Queue.{contents, used_slice_lem}
use umqtt.Nano.Platform.{Platform, ReadFits}
use umqtt.Nano.Client.{
  Client, Error, read_error, ClientNotification, transport_notification, send_ping, used,
  handle_bytes, receive,
}
use umqtt.Nano.Client.Receiving.{notification_of, on_framed, notification_loop, next_notification}
use umqtt.Nano.Serving.Recorded.{Recorded, recorded}
use umqtt.Nano.Serving.Reading.{Start, Fed, Live, Fed-same, notification_loop-Fed}

-- A notification of the transport client is about the packet at the front of the data.
abbrev pub Told : ℕ → List ℕ → ClientNotification → Type 0
Told max bytes send_ping = Unit
Told max bytes (transport_notification n taken) = IsFirst max bytes n taken

module _ {P E : Type 0} (plat : Platform P E) (fits : ReadFits plat) (o : Start) where
  abbrev Reported : Option (Notification × ℕ) → Client (Recorded P) → Type 0
  Reported r c = Live o c × Reports o.max (contents c.rx_buffer) r

  -- What `handle_bytes` makes of an answer of the transport client.
  handled :
      (c : Client (Recorded P)) (q : Received)
      → Live o c
      → Ends
          (λ r d. (d ≡ c.transport) × Reports c.transport.max_packet_size (contents c.rx_buffer) r)
          (λ d. d.max_packet_size ≡ c.transport.max_packet_size)
          q
      → Ends Reported (Fed o) (map_err {F = Error E} read_error q.0, record c { transport = q.1 })
  handled c (ok none, t) (f, online) (e, h) = (
    (
      Fed-same o c (record c { transport = t }) refl refl refl (ap (λ u. u.max_packet_size) e) f,
      ap (λ u. u.state) e ∙ online,
    ),
    tt,
  )
  handled c (ok (some (n, taken)), t) (f, online) (e, h) = (
    (
      Fed-same o c (record c { transport = t }) refl refl refl (ap (λ u. u.max_packet_size) e) f,
      ap (λ u. u.state) e ∙ online,
    ),
    subst (λ m. IsFirst m (contents c.rx_buffer) n taken) f.limit h,
  )
  handled c (err x, t) (f, online) m = Fed-same o c (record c { transport = t }) refl refl refl m f
  handled c (panic, t) (f, online) m = Fed-same o c (record c { transport = t }) refl refl refl m f

  receive-Reported : Meets (Live o) (receive (recorded plat)) Reported (Fed o)
  unfolding receive handle_bytes
  receive-Reported c live =
      let slice : used (recorded plat) c ≡ (ok (contents c.rx_buffer), c) =
        ap (λ r. (r, c)) (used_slice_lem {E = Error E} c.rx_buffer live.0.valid) in
      subst (Ends Reported (Fed o))
        (sym (bind_ok (used (recorded plat)) (handle_bytes (recorded plat)) slice))
        (handled c _ live (on_bytes_received-Answers (contents c.rx_buffer) c.transport live.1))

  abbrev pub Notified : ClientNotification → Client (Recorded P) → Type 0
  Notified n c = Live o c × Told o.max (contents c.rx_buffer) n

  notification_of-Notified :
      (r : Option (Notification × ℕ))
      → Meets (Reported r) (notification_of (recorded plat) r) Notified (Fed o)
  unfolding notification_of
  notification_of-Notified none c h = h.0.0
  notification_of-Notified (some (n, taken)) c h = h

  on_framed-Notified : (b : Bool) → Meets (Live o) (on_framed (recorded plat) b) Notified (Fed o)
  unfolding on_framed
  on_framed-Notified true c live =
      Ends-bind Reported Notified (Fed o) (notification_of (recorded plat))
        (receive (recorded plat)) c (receive-Reported c live) notification_of-Notified
  on_framed-Notified false c live = (live, tt)

  -- From a connected client.
  pub next_notification-Notified :
      Meets (Live o) (next_notification (recorded plat)) Notified (Fed o)
  unfolding next_notification
  next_notification-Notified c live =
      let here : is_disconnected c.transport ≡ false = rw live.1 refl in
      rw here (
        Ends-bind (λ b. Live o) Notified (Fed o) (on_framed (recorded plat))
          (notification_loop (recorded plat) (suc (capacity c.rx_buffer))) c
          (notification_loop-Fed plat fits connected o (suc (capacity c.rx_buffer)) c live)
          on_framed-Notified)
