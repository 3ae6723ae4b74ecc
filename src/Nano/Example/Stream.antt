-- ===== src/Nano/Example/Stream.antt =====
-- examples/basic.rs, `main`: a whole session, in terms of the bytes that the platform received.
use umqtt.Base.{ℕ, ◌≡◌, refl, sym, ap, ◌∙◌, true, if◌then◌else◌, List, ◌++◌, drop, append_assoc}
use umqtt.Base.Outcome.{Outcome, ok, err, panic, pure, ◌>>◌}
use umqtt.Base.Meets.{Ends, Ends-bind}
use mathlib.Core.Path.{subst}
use umqtt.PacketView.BorrowedBuf.{Fill}
use umqtt.PacketView.ConnAck.{ConnAck, is_success}
use umqtt.PacketView.Connect.{ConnectOptions}
use umqtt.PacketView.Packet.{Packet, read}
use umqtt.PacketView.Packet.Stream.{read-append}
use umqtt.Transport.{connected}
use umqtt.Nano.Buffer.Queue.{contents}
use umqtt.Nano.Platform.{Platform, ReadFits}
use umqtt.Nano.Client.{Client, Error}
use umqtt.Nano.Client.Connecting.{connect}
use umqtt.Nano.Client.Sending.{connect_subscribe, write_subscribe}
use umqtt.Nano.Serving.{run_client}
use umqtt.Nano.Serving.Recorded.{Recorded, recorded}
use umqtt.Nano.Serving.Reading.{Start}
use umqtt.Nano.Serving.Decoding.{drop-append_le, Decodes, messages}
use umqtt.Nano.Serving.Stream.{run_client-Decodes}
use umqtt.Nano.Example.{options, subscriptions, on_connected, session}
use umqtt.Nano.Example.Quiet.{Quiet, write_subscribe-IsQuiet}
use umqtt.Nano.Example.Greeting.{Welcomed}
use umqtt.Nano.Example.Opening.{start_from, SameLimit, connect-Welcomed}

module _ {P E : Type 0} (plat : Platform P E) (fits : ReadFits plat) where
  -- Calls that only write keep what the opening left.
  Welcomed-Quiet :
      (o : Start) (a : ConnAck) (d e : Client (Recorded P))
      → Welcomed o a d
      → Quiet d.platform.received d.rx_buffer connected o.max e
      → Welcomed o a e
  Welcomed-Quiet o a d e w (r, b, s, m) = record {
    fresh = w.fresh;
    size = w.size;
    logged = r ∙ w.logged;
    opening = w.opening;
    left = ap contents b ∙ w.left;
    valid = rw b w.valid;
    limit = m;
    online = s;
    success = w.success;
  }

  subscribed :
      (o : Start) (a : ConnAck) (subs : Fill (Unit {0})) (d : Client (Recorded P))
      → Welcomed o a d
      → Ends
          (Welcomed o)
          (λ e. e.transport.max_packet_size ≡ o.max)
          (((if is_success a.code then write_subscribe (recorded plat) subs else pure tt) >> pure a)
            d)
  subscribed o a subs d w =
      let written =
        write_subscribe-IsQuiet plat d.platform.received d.rx_buffer connected o.max subs d
          (refl, refl, w.online, w.limit) in
      rw w.success (
        Ends-bind (λ u. Quiet d.platform.received d.rx_buffer connected o.max) (Welcomed o)
          (λ e. e.transport.max_packet_size ≡ o.max) (λ u. pure a)
          (write_subscribe (recorded plat) subs) d written (λ u e q. Welcomed-Quiet o a d e w q))

  pub connect_subscribe-Welcomed :
      (opts : ConnectOptions) (subs : Fill (Unit {0})) (c : Client (Recorded P))
      → Ends
          (Welcomed (start_from c))
          (SameLimit plat fits c)
          (connect_subscribe (recorded plat) opts subs c)
  unfolding connect_subscribe
  connect_subscribe-Welcomed opts subs c =
      Ends-bind (Welcomed (start_from c)) (Welcomed (start_from c)) (SameLimit plat fits c) _
        (connect (recorded plat) opts) c (connect-Welcomed plat fits opts c)
        (λ a d w. subscribed (start_from c) a subs d w)

  -- The connack and the packets after it.
  abbrev ServedFrom :
      ℕ → Client (Recorded P) → ConnAck → Outcome (Error E) ConnAck × Client (Recorded P) → Type 0
  ServedFrom rounds c a q =
      (fresh : List ℕ) × (size : ℕ) × ((on_connected (recorded plat) rounds q).1.2.platform.received
        ≡ c.platform.received ++ fresh)
      × (read fresh c.transport.max_packet_size ≡ ok (Packet.conn_ack a, size))
      × (is_success a.code ≡ true)
      × Decodes c.transport.max_packet_size (drop size fresh)
          (messages (on_connected (recorded plat) rounds q).1.0)
          (contents (on_connected (recorded plat) rounds q).1.2.rx_buffer)

  served_since :
      (rounds : ℕ) (c : Client (Recorded P)) (a : ConnAck) (d : Client (Recorded P))
      → Welcomed (start_from c) a d
      → ServedFrom rounds c a (ok a, d)
  unfolding on_connected
  served_since rounds c a d w =
      let (more, logged, decoded) = run_client-Decodes plat fits rounds d w.valid w.online in
      let (longer, within) =
        read-append w.fresh more c.transport.max_packet_size (Packet.conn_ack a) w.size w.opening in
      let max = c.transport.max_packet_size in
      let (ns, r, e) = run_client (recorded plat) rounds d in
      let stream : contents d.rx_buffer ++ more ≡ drop w.size (w.fresh ++ more) =
        ap (λ l. l ++ more) w.left ∙ sym (drop-append_le w.size w.fresh more within) in
      rw w.success (
        w.fresh ++ more,
        w.size,
        logged ∙ ap (λ l. l ++ more) w.logged ∙ append_assoc c.platform.received w.fresh more,
        longer,
        refl,
        subst (λ l. Decodes max l (messages ns) (contents e.rx_buffer)) stream
            (subst
              (λ m. Decodes m (contents d.rx_buffer ++ more) (messages ns) (contents e.rx_buffer))
              w.limit decoded),
      )

  served :
      (rounds : ℕ) (c : Client (Recorded P)) (a : ConnAck)
      (q : Outcome (Error E) ConnAck × Client (Recorded P))
      → Ends (Welcomed (start_from c)) (SameLimit plat fits c) q
      → q.0 ≡ ok a
      → ServedFrom rounds c a q
  served rounds c a (ok b, d) w e =
      let same : b ≡ a = cc e in
      subst (λ x. ServedFrom rounds c x (ok b, d)) same (served_since rounds c b d w)
  served rounds c a (err x, d) w e = cc
  served rounds c a (panic, d) w e = cc

  on_connected-answer :
      (rounds : ℕ) (q : Outcome (Error E) ConnAck × Client (Recorded P))
      → (on_connected (recorded plat) rounds q).0 ≡ q.0
  unfolding on_connected
  on_connected-answer rounds (ok a, d) = refl
  on_connected-answer rounds (err x, d) = refl
  on_connected-answer rounds (panic, d) = refl

  -- A whole session serves the byte stream in order, whatever client it starts with: where
  -- `connect_subscribe` answers a connack, the bytes that are received from the start of the
  -- session on begin with that connack, whose code is a success, the notifications about packets
  -- that the loop reports are, one for one and in this order, the packets that follow it, and the
  -- data in the receive buffer at the end is exactly what follows the last of them. The reads of
  -- the platform fit the buffer that they are given; how the bytes are cut into reads and how many
  -- rounds there are is arbitrary, and the loop may have ended.
  pub session-Decodes :
      (rounds : ℕ) (c : Client (Recorded P)) (a : ConnAck)
      → (session (recorded plat) rounds c).0 ≡ ok a
      → (fresh : List ℕ) × (size : ℕ) × ((session (recorded plat) rounds c).1.2.platform.received
          ≡ c.platform.received ++ fresh)
        × (read fresh c.transport.max_packet_size ≡ ok (Packet.conn_ack a, size))
        × (is_success a.code ≡ true)
        × Decodes c.transport.max_packet_size
            (drop size fresh)
            (messages (session (recorded plat) rounds c).1.0)
            (contents (session (recorded plat) rounds c).1.2.rx_buffer)
  unfolding session
  session-Decodes rounds c a e =
      let q = connect_subscribe (recorded plat) options subscriptions c in
      served rounds c a q (connect_subscribe-Welcomed options subscriptions c)
        (sym (on_connected-answer rounds q) ∙ e)
