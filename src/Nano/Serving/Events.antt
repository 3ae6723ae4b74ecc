-- ===== src/Nano/Serving/Events.antt =====
-- examples/basic.rs, `run_client`: what a round of the loop does with a publish and with a silence.
use umqtt.Base.{
  ℕ, suc, ◌-◌, ◌≤◌, ◌≡◌, refl, ap, ◌∙◌, arith, List, [], ◌∷◌, ◌++◌, length, drop, none, some, inr,
  length-take, drop-all, lt→ltb, false,
}
use umqtt.Base.Outcome.{ok}
use umqtt.Time.{Instant}
use umqtt.PacketView.{QoS, at_most_once, at_least_once, exactly_once}
use umqtt.PacketView.Publish
use umqtt.PacketView.Publish.{Publish}
use umqtt.PacketView.Publish.RoundTrip.{IsWritable, encoding}
use umqtt.Transport.{
  TransportClient, Notification, connected, on_packet_sent, is_disconnected, next_ping_in,
}
use umqtt.Nano.Buffer
use umqtt.Nano.Buffer.{capacity}
use umqtt.Nano.Buffer.Queue.{IsValid, contents, remove_prefix_lem}
use umqtt.Nano.Platform.{Platform}
use umqtt.Nano.Client.{
  Client, ClientNotification, transport_notification, send_ping, send_ping_request, complete,
  publish_action,
}
use umqtt.Nano.Client.Receiving.{next_notification, complete_notification, run_action}
use umqtt.Nano.Client.Delivery.{Feeds, next_notification-Feeds}
use umqtt.Nano.Client.Replies.{
  publish_reply, reply, sent, consumed, send-Wrote, complete_notification-reply,
}
use umqtt.Nano.Serving.{run_client, on_notified, on_completed}
use umqtt.PacketView.Header.Encoding.{length_bytes}
use umqtt.PacketView.Packet.Bare.{ping_req_written}

-- What a broker does: it sends a publish, or nothing until the time for a ping has come.
pub data Event : Type 0 where
  sends : Publish → Event
  waits : Event

-- The notification about a publish.
abbrev pub delivered : Publish → ClientNotification
delivered m = transport_notification (Notification.publish m) (length (encoding m))

-- The notification about an event.
abbrev pub told : Event → ClientNotification
told (sends m) = delivered m
told waits = send_ping

-- Each publish can be written, and is within the size limit.
abbrev pub EventsWithin : ℕ → List Event → Type 0
EventsWithin max [] = Unit
EventsWithin max (sends m ∷ es) = IsWritable m × (Publish.len m ≤ max) × EventsWithin max es
EventsWithin max (waits ∷ es) = EventsWithin max es

module _ {P E : Type 0} (plat : Platform P E) where
  -- The platform brings the events one after the other. The bytes of a publish come in reads of its
  -- own, as many as it likes and none of them empty, that fit the `room` of an empty receive buffer;
  -- where the broker waits, the read times out. The platform writes the acknowledgement or the ping
  -- before the next event.
  pub data Brings (room : ℕ) : TransportClient → P → List Event → Type 0 where
    over : {transport : TransportClient} {p : P} → Brings room transport p []
    quiet :
        {transport : TransportClient} {p q : P} {m : Publish} {es : List Event}
        → publish_reply m.quality m.pkid ≡ none
        → Feeds plat transport room p (encoding m) q
        → Brings room transport q es
        → Brings room transport p (sends m ∷ es)
    acknowledged :
        {transport : TransportClient} {p q q1 q2 : P} {m : Publish} {es : List Event}
        (bytes : List ℕ) (t : Instant)
        → publish_reply m.quality m.pkid ≡ some bytes
        → Feeds plat transport room p (encoding m) q
        → plat.write_all bytes q ≡ (inr tt, q1)
        → plat.now q1 ≡ (t, q2)
        → Brings room (on_packet_sent t transport) q2 es
        → Brings room transport p (sends m ∷ es)
    pinged :
        {transport : TransportClient} {p p1 q q1 q2 : P} {es : List Event} (t u : Instant)
        → plat.now p ≡ (t, p1)
        → plat.read_some room (next_ping_in t transport) p1 ≡ (inr none, q)
        → plat.write_all (0xc0 ∷ 0 ∷ []) q ≡ (inr tt, q1)
        → plat.now q1 ≡ (u, q2)
        → Brings room (on_packet_sent u transport) q2 es
        → Brings room transport p (waits ∷ es)

  -- The client between two events.
  pub record Ready (room max : ℕ) (transport : TransportClient) (p : P) (c : Client P)
      : Type 0 where
    pub empty : contents c.rx_buffer ≡ []
    pub valid : IsValid c.rx_buffer
    pub size : capacity c.rx_buffer ≡ room
    pub tx : 4 ≤ length c.tx_buffer
    pub here : c.transport ≡ transport
    pub online : transport.state ≡ connected
    pub limit : transport.max_packet_size ≡ max
    pub at_p : c.platform ≡ p

  pub one_round :
      (c d e : Client P) (n : ClientNotification) (rounds : ℕ)
      → next_notification plat c ≡ (ok n, d)
      → complete_notification plat (complete n) d ≡ (ok tt, e)
      → run_client plat (suc rounds) c
        ≡ (let (ns, r, f) = run_client plat rounds e in (n ∷ ns, r, f))
  unfolding run_client on_notified on_completed
  one_round c d e n rounds next completed = rw (next, completed) refl

  publish_action-quiet :
      (quality : QoS) (pkid : ℕ) (c : Client P)
      → publish_reply quality pkid ≡ none
      → run_action plat (publish_action quality pkid) c ≡ (ok tt, c)
  unfolding run_action publish_action publish_reply
  publish_action-quiet at_most_once pkid c e = refl
  publish_action-quiet at_least_once pkid c e = cc
  publish_action-quiet exactly_once pkid c e = cc

  pub all_room :
      (room max : ℕ) (transport : TransportClient) (p : P) (c : Client P)
      → Ready room max transport p c
      → capacity c.rx_buffer - c.rx_buffer.used ≡ room
  all_room room max transport p c r =
      omega
        (arith, r.size, ap length r.empty, length-take c.rx_buffer.used c.rx_buffer.buffer r.valid)

  pub received :
      (room max : ℕ) (transport : TransportClient) (p q : P) (c : Client P) (m : Publish)
      → Ready room max transport p c
      → IsWritable m
      → Publish.len m ≤ max
      → max ≤ room
      → Feeds plat transport room p (encoding m) q
      → (b : Buffer.Buffer) × (next_notification plat c
          ≡ (ok (delivered m), record c { rx_buffer = b; platform = q }))
        × (contents b ≡ encoding m)
        × IsValid b
        × (capacity b ≡ room)
  received room max transport p q c m r w fits k feeds =
      let left = all_room room max transport p c r in
      let fed : Feeds plat c.transport (capacity c.rx_buffer - c.rx_buffer.used) c.platform
          (encoding m) q =
        rw (left, r.here, r.at_p) feeds in
      let limit : Publish.len m ≤ c.transport.max_packet_size =
        omega (arith, fits, r.limit, ap (λ u. u.max_packet_size) r.here) in
      let (b, next, held, valid, same) =
        next_notification-Feeds plat m c q (encoding m) w limit (omega (arith, fits, k, r.size))
          (ap (λ u. u.state) r.here ∙ r.online) r.valid (ap (λ l. l ++ encoding m) r.empty) fed in
      (b, next, held, valid, same ∙ r.size)

  -- What is left of the receive buffer when the publish is taken out of it.
  pub taken :
      (b : Buffer.Buffer) (bytes : List ℕ)
      → contents b ≡ bytes
      → IsValid b
      → (contents (Buffer.remove_prefix (length bytes) b) ≡ [])
        × IsValid (Buffer.remove_prefix (length bytes) b)
        × (capacity (Buffer.remove_prefix (length bytes) b) ≡ capacity b)
  taken b bytes held valid =
      let (left, still, size) = remove_prefix_lem b (length bytes) valid in
      (
        left ∙ ap (drop (length bytes)) held ∙ drop-all bytes (length bytes) (omega arith),
        still,
        size,
      )

  pub completed-quiet :
      (m : Publish) (d : Client P)
      → publish_reply m.quality m.pkid ≡ none
      → complete_notification plat (complete (delivered m)) d
        ≡ (ok tt, consumed plat (length (encoding m)) d)
  unfolding complete_notification complete
  completed-quiet m d e =
      rw (lt→ltb 0 (length (encoding m)) (omega arith))
        (publish_action-quiet m.quality m.pkid (consumed plat (length (encoding m)) d) e)

  pub completed-acknowledged :
      (m : Publish) (bytes : List ℕ) (d : Client P) (p q : P) (t : Instant)
      → publish_reply m.quality m.pkid ≡ some bytes
      → 4 ≤ length d.tx_buffer
      → d.transport.state ≡ connected
      → plat.write_all bytes d.platform ≡ (inr tt, p)
      → plat.now p ≡ (t, q)
      → complete_notification plat (complete (delivered m)) d
        ≡ (ok tt, consumed plat (length (encoding m)) (sent plat bytes t q d))
  unfolding reply
  completed-acknowledged m bytes d p q t e tx online written clock =
      let here : is_disconnected d.transport ≡ false = rw online refl in
      complete_notification-reply plat (Notification.publish m) (length (encoding m)) bytes d p q t
        e (omega arith) tx here written clock

  pub completed-pinged :
      (d : Client P) (p q : P) (t : Instant)
      → 4 ≤ length d.tx_buffer
      → d.transport.state ≡ connected
      → plat.write_all (0xc0 ∷ 0 ∷ []) d.platform ≡ (inr tt, p)
      → plat.now p ≡ (t, q)
      → complete_notification plat (complete send_ping) d ≡ (ok tt, sent plat (0xc0 ∷ 0 ∷ []) t q d)
  unfolding complete_notification complete run_action send_ping_request length_bytes
  completed-pinged d p q t tx online written clock =
      let here : is_disconnected d.transport ≡ false = rw online refl in
      send-Wrote plat _ _ d p q t (ping_req_written d.tx_buffer) (omega (arith, tx)) here written
        clock
