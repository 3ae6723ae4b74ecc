-- ===== src/Nano/Example/Opening.antt =====
-- nano_client.rs: what a `connect` that answers has received.
use umqtt.Base.{ℕ, List, ◌≡◌, refl, sym, ap, ◌∙◌, arith, [], ◌++◌, drop, append-nil}
use umqtt.Base.Outcome.{ok, ◌>>=◌}
use umqtt.Base.Meets.{Ends, Ends-weaken, Ends-bind, Ends-and}
use mathlib.Core.Path.{subst}
use umqtt.PacketView.ConnAck.{ConnAck}
use umqtt.PacketView.Connect
use umqtt.PacketView.Connect.{ConnectOptions, as_connect}
use umqtt.PacketView.Packet.{Packet, read}
use umqtt.Transport.{transport_connected, on_transport_opened}
use umqtt.Nano.Buffer
use umqtt.Nano.Buffer.{capacity}
use umqtt.Nano.Buffer.Queue.{contents}
use umqtt.Nano.Platform.{Platform, ReadFits}
use umqtt.Nano.Client.{Client}
use umqtt.Nano.Client.Connecting.{read_connack, open_with, on_connack, connect}
use umqtt.Nano.Serving.Recorded.{Recorded, recorded}
use umqtt.Nano.Serving.Reading.{Start, Fed}
use umqtt.Nano.Serving.Sending.{start_of}
use umqtt.Nano.Example.Quiet.{Quiet, encode_all-IsQuiet}
use umqtt.Nano.Example.Greeting.{Welcomed, Greeted, answer-Welcomed}

-- A connection starts with nothing in the receive buffer.
abbrev pub start_from : {P : Type 0} → Client (Recorded P) → Start
start_from c = record {
  received = c.platform.received;
  sent = c.platform.sent;
  data_held = [];
  max = c.transport.max_packet_size;
}

module _ {P E : Type 0} (plat : Platform P E) (fits : ReadFits plat) where
  -- The limit on the size of a packet is that of the client `c`.
  abbrev pub SameLimit : Client (Recorded P) → Client (Recorded P) → Type 0
  SameLimit c d = d.transport.max_packet_size ≡ c.transport.max_packet_size

  -- The client that has sent the connect.
  Sent : Client (Recorded P) → Unit {0} → Client (Recorded P) → Type 0
  Sent c done =
      Quiet c.platform.received (Buffer.reset c.rx_buffer) transport_connected
        c.transport.max_packet_size

  open_with-Sent :
      (options : ConnectOptions) (c : Client (Recorded P))
      → Ends (Sent c) (SameLimit c) (open_with (recorded plat) options c)
  unfolding open_with on_transport_opened Sent
  open_with-Sent options c =
      encode_all-IsQuiet plat c.platform.received (Buffer.reset c.rx_buffer) transport_connected
        c.transport.max_packet_size (Connect.write (as_connect options)) _ (refl, refl, refl, refl)

  Welcomed-since :
      (c d : Client (Recorded P)) (a : ConnAck) (e : Client (Recorded P))
      → Sent c tt d
      → Welcomed (start_of d) a e
      → Welcomed (start_from c) a e
  unfolding Sent
  Welcomed-since c d a e (r, b, s, m) w = record {
    fresh = w.fresh;
    size = w.size;
    logged = w.logged ∙ ap (λ l. l ++ w.fresh) r;
    opening =
        subst
          (λ l. read (l ++ w.fresh) c.transport.max_packet_size ≡ ok (Packet.conn_ack a, w.size))
          (ap contents b)
          (subst (λ k. read (contents d.rx_buffer ++ w.fresh) k ≡ ok (Packet.conn_ack a, w.size)) m
            w.opening);
    left = w.left ∙ ap (λ l. drop w.size (l ++ w.fresh)) (ap contents b);
    valid = w.valid;
    limit = w.limit ∙ m;
    online = w.online;
    success = w.success;
  }

  -- A connection that was just opened has received nothing.
  opened-Greeted :
      (c d : Client (Recorded P))
      → Sent c tt d
      → Ends
          (Greeted (start_of d))
          (SameLimit d)
          ((read_connack (recorded plat) >>= on_connack (recorded plat)) d)
  unfolding Sent
  opened-Greeted c d (r, b, s, m) =
      let here : Fed (start_of d) d = record {
        fresh = [];
        logged = sym (append-nil _);
        held = sym (append-nil _);
        valid = rw b (omega arith);
        unsent = refl;
        limit = refl;
      } in
      answer-Welcomed plat fits (start_of d) d (here, s)

  after_opening :
      (c d : Client (Recorded P))
      → Sent c tt d
      → Ends
          (Welcomed (start_from c))
          (SameLimit c)
          ((read_connack (recorded plat) >>= on_connack (recorded plat)) d)
  unfolding Sent
  after_opening c d (r, b, s, m) =
      Ends-weaken (Greeted (start_of d)) (Welcomed (start_from c)) (SameLimit d) (SameLimit c) _
        (λ a e w. Welcomed-since c d a e (r, b, s, m) w.0) (λ e u. u ∙ m)
        (opened-Greeted c d (r, b, s, m))

  pub connect-Welcomed :
      (options : ConnectOptions) (c : Client (Recorded P))
      → Ends (Welcomed (start_from c)) (SameLimit c) (connect (recorded plat) options c)
  unfolding connect
  connect-Welcomed options c =
      Ends-bind (Sent c) (Welcomed (start_from c)) (SameLimit c)
        (λ done. read_connack (recorded plat) >>= on_connack (recorded plat))
        (open_with (recorded plat) options) c (open_with-Sent options c)
        (λ done d q. after_opening c d q)

  abbrev Anything : Client (Recorded P) → Type 0
  Anything d = Unit {0}

  -- All that `connect` sends is sent by `open_with`.
  pub connect-sent :
      (options : ConnectOptions) (c : Client (Recorded P)) (said : List ℕ)
      → Ends (λ u d. d.platform.sent ≡ said) Anything (open_with (recorded plat) options c)
      → Ends (λ a d. d.platform.sent ≡ said) Anything (connect (recorded plat) options c)
  unfolding connect
  connect-sent options c said opened =
      Ends-bind (λ u d. Sent c u d × (d.platform.sent ≡ said)) (λ a d. d.platform.sent ≡ said)
        Anything (λ done. read_connack (recorded plat) >>= on_connack (recorded plat))
        (open_with (recorded plat) options) c
        (Ends-weaken _ (λ u d. Sent c u d × (d.platform.sent ≡ said)) (SameLimit c) Anything _
          (λ u d h. h) (λ d h. tt)
          (Ends-and (Sent c) (λ u d. d.platform.sent ≡ said) (SameLimit c) Anything _
            (open_with-Sent options c) opened))
        (λ done d (s, e).
          Ends-weaken (Greeted (start_of d)) (λ a f. f.platform.sent ≡ said) (SameLimit d) Anything
            _ (λ a f w. w.1 ∙ e) (λ f h. tt) (opened-Greeted c d s))
