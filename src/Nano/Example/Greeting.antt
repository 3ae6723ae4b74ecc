-- ===== src/Nano/Example/Greeting.antt =====
-- nano_client.rs: what a `read_connack` that answers has received.
use umqtt.Base.{
  ℕ, zero, suc, ◌≡◌, refl, sym, ap, ◌∙◌, true, Bool-cases, inl, inr, ◌==◌, List, ◌++◌, drop, Option,
  none, some,
}
use umqtt.Base.Outcome.{Outcome, ok, err, panic, map_err, bind_ok, ◌>>=◌}
use umqtt.Base.Meets.{Ends, Ends-weaken, Meets, Ends-bind}
use mathlib.Core.Path.{subst}
use umqtt.PacketView.ConnAck.{ConnAck, is_success}
use umqtt.PacketView.Packet.{Packet, read}
use umqtt.Transport.{Notification, transport_connected, connected, Received}
use umqtt.Transport.Greeting.{Greets, on_bytes_received-Greeted}
use umqtt.Nano.Buffer.{capacity}
use umqtt.Nano.Buffer.Queue.{IsValid, contents, used_slice_lem, remove_prefix_lem}
use umqtt.Nano.Platform.{Platform, ReadFits}
use umqtt.Nano.Client.{
  Client, Error, read_error, used, handle_bytes, receive, read_some_with_timeout,
}
use umqtt.Nano.Client.Connecting.{
  expect_connack, on_received, on_read, connack_loop, read_connack, on_connack,
}
use umqtt.Nano.Serving.Recorded.{Recorded, recorded}
use umqtt.Nano.Serving.Reading.{Start, Fed, LiveIn, Fed-same, read-Fed}

-- What was received since `o` begins with the connack, and what follows that is in the receive
-- buffer.
pub record Welcomed {P : Type 0} (o : Start) (a : ConnAck) (d : Client (Recorded P)) : Type 0 where
  pub fresh : List ℕ
  pub size : ℕ
  pub logged : d.platform.received ≡ o.received ++ fresh
  pub opening : read (o.data_held ++ fresh) o.max ≡ ok (Packet.conn_ack a, size)
  pub left : contents d.rx_buffer ≡ drop size (o.data_held ++ fresh)
  pub valid : IsValid d.rx_buffer
  pub limit : d.transport.max_packet_size ≡ o.max
  pub online : d.transport.state ≡ connected
  pub success : is_success a.code ≡ true

-- And nothing was sent since `o`.
abbrev pub Greeted : {P : Type 0} → Start → ConnAck → Client (Recorded P) → Type 0
Greeted o a d = Welcomed o a d × (d.platform.sent ≡ o.sent)

module _ {P E : Type 0} (plat : Platform P E) (fits : ReadFits plat) (o : Start) where
  abbrev Opened : Client (Recorded P) → Type 0
  Opened c = LiveIn transport_connected o c

  abbrev SameLimit : Client (Recorded P) → Type 0
  SameLimit c = c.transport.max_packet_size ≡ o.max

  abbrev Heard : Option (Notification × ℕ) → Client (Recorded P) → Type 0
  Heard r d = Fed o d × Greets o.max (contents d.rx_buffer) transport_connected r d.transport.state

  handled :
      (c : Client (Recorded P)) (q : Received)
      → Opened c
      → Ends
          (λ r d.
            Greets c.transport.max_packet_size (contents c.rx_buffer) c.transport.state r d.state
            × (d.max_packet_size ≡ c.transport.max_packet_size))
          (λ d. d.max_packet_size ≡ c.transport.max_packet_size)
          q
      → Ends Heard SameLimit (map_err {F = Error E} read_error q.0, record c { transport = q.1 })
  handled c (ok r, t) (f, opened) (g, m) = (
    Fed-same o c (record c { transport = t }) refl refl refl m f,
    subst (λ s. Greets o.max (contents c.rx_buffer) s r t.state) opened
        (subst (λ n. Greets n (contents c.rx_buffer) c.transport.state r t.state) f.limit g),
  )
  handled c (err x, t) live e = e ∙ live.0.limit
  handled c (panic, t) live e = e ∙ live.0.limit

  receive-Heard : Meets Opened (receive (recorded plat)) Heard SameLimit
  unfolding receive handle_bytes
  receive-Heard c live =
      let slice : used (recorded plat) c ≡ (ok (contents c.rx_buffer), c) =
        ap (λ r. (r, c)) (used_slice_lem {E = Error E} c.rx_buffer live.0.valid) in
      subst (Ends Heard SameLimit)
        (sym (bind_ok (used (recorded plat)) (handle_bytes (recorded plat)) slice))
        (handled c _ live (on_bytes_received-Greeted (contents c.rx_buffer) c.transport live.1))

  expect_connack-Welcomed :
      (n : Notification) (taken : ℕ)
      → Meets
          (Heard (some (n, taken)))
          (expect_connack (recorded plat) n taken)
          (Greeted o)
          SameLimit
  unfolding expect_connack
  expect_connack-Welcomed (Notification.conn_ack a) taken c (f, (e, success, online)) =
      let (held, valid, _) = remove_prefix_lem c.rx_buffer taken f.valid in
      (
        record {
          fresh = f.fresh;
          size = taken;
          logged = f.logged;
          opening = subst (λ l. read l o.max ≡ ok (Packet.conn_ack a, taken)) f.held e;
          left = held ∙ ap (drop taken) f.held;
          valid = valid;
          limit = f.limit;
          online = online;
          success = success;
        },
        f.unsent,
      )
  expect_connack-Welcomed n taken c h = h.0.limit

  on_received-Welcomed :
      (again : Client (Recorded P) → Outcome (Error E) ConnAck × Client (Recorded P))
      (r : Option (Notification × ℕ))
      → Meets Opened again (Greeted o) SameLimit
      → Meets (Heard r) (on_received (recorded plat) again r) (Greeted o) SameLimit
  unfolding on_received
  on_received-Welcomed again none h c heard = h c heard
  on_received-Welcomed again (some (n, taken)) h c heard = expect_connack-Welcomed n taken c heard

  on_read-Welcomed :
      (again : Client (Recorded P) → Outcome (Error E) ConnAck × Client (Recorded P)) (r : Option ℕ)
      → Meets Opened again (Greeted o) SameLimit
      → Meets Opened (on_read (recorded plat) again r) (Greeted o) SameLimit
  unfolding on_read
  on_read-Welcomed again none h c live = live.0.limit
  on_read-Welcomed again (some n) h c live = elim (Bool-cases (n == 0)) [
    | inl z ↦ rw z live.0.limit
    | inr p ↦ rw p (
        Ends-bind Heard (Greeted o) SameLimit (on_received (recorded plat) again)
          (receive (recorded plat)) c (receive-Heard c live) (λ r. on_received-Welcomed again r h))
  ]

  connack_loop-Welcomed :
      (fuel : ℕ) → Meets Opened (connack_loop (recorded plat) fuel) (Greeted o) SameLimit
  unfolding connack_loop
  connack_loop-Welcomed zero c live = live.0.limit
  connack_loop-Welcomed (suc fuel) c live =
      let step = connack_loop-Welcomed fuel in
      let waited =
        Ends-weaken (λ n. Opened) (λ n. Opened) (Fed o) SameLimit _ (λ n d l. l) (λ d f. f.limit)
          (read-Fed plat fits transport_connected o none c live) in
      Ends-bind (λ n. Opened) (Greeted o) SameLimit
        (on_read (recorded plat) (connack_loop (recorded plat) fuel))
        (read_some_with_timeout (recorded plat) none) c waited
        (λ r. on_read-Welcomed (connack_loop (recorded plat) fuel) r step)

  on_connack-Welcomed :
      (a : ConnAck) → Meets (Greeted o a) (on_connack (recorded plat) a) (Greeted o) SameLimit
  unfolding on_connack
  on_connack-Welcomed a c w = rw w.0.success w

  read_connack-Welcomed : Meets Opened (read_connack (recorded plat)) (Greeted o) SameLimit
  unfolding read_connack
  read_connack-Welcomed c live = connack_loop-Welcomed (suc (capacity c.rx_buffer)) c live

  pub answer-Welcomed :
      Meets Opened
        (read_connack (recorded plat) >>= on_connack (recorded plat))
        (Greeted o)
        SameLimit
  answer-Welcomed c live =
      Ends-bind (Greeted o) (Greeted o) SameLimit (on_connack (recorded plat))
        (read_connack (recorded plat)) c (read_connack-Welcomed c live) on_connack-Welcomed
