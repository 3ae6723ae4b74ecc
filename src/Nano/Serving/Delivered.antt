-- ===== src/Nano/Serving/Delivered.antt =====
-- examples/basic.rs, `run_client`: a broker whose publishes all reach the application.
use umqtt.Base.{
  ℕ, suc, ◌≤◌, ◌≡◌, refl, ap, ◌∙◌, arith, List, [], ◌∷◌, length, drop, map, length-append,
  length-drop, false,
}
use umqtt.Base.Outcome.{ok}
use umqtt.Time.{Instant}
use umqtt.PacketView.Publish.{Publish}
use umqtt.PacketView.Publish.RoundTrip.{encoding}
use umqtt.Transport.{TransportClient, connected, on_packet_sent, is_disconnected}
use umqtt.Nano.Buffer
use umqtt.Nano.Buffer.{capacity}
use umqtt.Nano.Buffer.Queue.{IsValid, contents}
use umqtt.Nano.Platform.{Platform}
use umqtt.Nano.Client.{Client, complete}
use umqtt.Nano.Client.Receiving.{next_notification, complete_notification}
use umqtt.Nano.Client.Replies.{sent, consumed}
use umqtt.Nano.Serving.{run_client}
use umqtt.Nano.Serving.Sending.{on_packet_sent-same}
use umqtt.Nano.Client.Timeouts.{next_notification-timeout}
use umqtt.Nano.Serving.Events.{
  Event, sends, waits, told, EventsWithin, Brings, over, quiet, acknowledged, pinged, Ready,
  one_round, all_room, received, taken, completed-quiet, completed-acknowledged, completed-pinged,
}

module _ {P E : Type 0} (plat : Platform P E) where
  abbrev Serves : ℕ → List Event → Client P → Type 0
  Serves rounds es c =
      ((run_client plat rounds c).0 ≡ map told es)
      × ((run_client plat rounds c).1 ≡ ok tt)
      × (contents (run_client plat rounds c).2.rx_buffer ≡ [])

  Serves-round :
      (c d f : Client P) (e : Event) (es : List Event)
      → next_notification plat c ≡ (ok (told e), d)
      → complete_notification plat (complete (told e)) d ≡ (ok tt, f)
      → Serves (length es) es f
      → Serves (suc (length es)) (e ∷ es) c
  Serves-round c d f e es next completed (reported, fine, left) =
      rw (one_round plat c d f (told e) (length es) next completed)
        (ap (λ l. told e ∷ l) reported, fine, left)

  -- Sending leaves a client ready.
  Ready-sent :
      (room max : ℕ) (transport : TransportClient) (p q : P) (t : Instant) (bytes : List ℕ)
      (d : Client P)
      → Ready plat room max transport p d
      → Ready plat room max (on_packet_sent t transport) q (sent plat bytes t q d)
  Ready-sent room max transport p q t bytes d r =
      let kept = on_packet_sent-same t transport in
      record {
        empty = r.empty;
        valid = r.valid;
        size = r.size;
        tx = omega (
          arith,
          r.tx,
          length-append bytes (drop (length bytes) d.tx_buffer),
          length-drop (length bytes) d.tx_buffer,
        );
        here = ap (on_packet_sent t) r.here;
        online = kept.0 ∙ r.online;
        limit = kept.1 ∙ r.limit;
        at_p = refl;
      }

  -- A publish that was taken out of the receive buffer leaves a client ready.
  Ready-taken :
      (room max : ℕ) (transport : TransportClient) (p q : P) (m : Publish) (b : Buffer.Buffer)
      (c : Client P)
      → Ready plat room max transport p c
      → contents b ≡ encoding m
      → IsValid b
      → capacity b ≡ room
      → Ready plat room max transport q
          (consumed plat (length (encoding m)) (record c { rx_buffer = b; platform = q }))
  Ready-taken room max transport p q m b c r held valid size =
      let (left, still, same) = taken plat b (encoding m) held valid in
      record {
        empty = left;
        valid = still;
        size = same ∙ size;
        tx = r.tx;
        here = r.here;
        online = r.online;
        limit = r.limit;
        at_p = refl;
      }

  Ready-Serves :
      (room max : ℕ) {transport : TransportClient} {p : P} {es : List Event}
      → Brings plat room transport p es
      → (c : Client P) → Ready plat room max transport p c
      → EventsWithin max es
      → max ≤ room
      → Serves (length es) es c
  unfolding run_client
  Ready-Serves room max over c r w k = (refl, refl, r.empty)
  Ready-Serves room max (quiet {transport} {p} {q} {m} {es} e feeds more) c r (w, fits, ws) k =
      let (b, next, held, valid, size) =
        received plat room max transport p q c m r w fits k feeds in
      let d = record c { rx_buffer = b; platform = q } in
      let ready = Ready-taken room max transport p q m b c r held valid size in
      Serves-round c d _ (sends m) es next (completed-quiet plat m d e)
        (Ready-Serves room max more _ ready ws k)
  Ready-Serves room max
        (acknowledged {transport} {p} {q} {q1} {q2} {m} {es} bytes t e feeds written clock more) c r
        (w, fits, ws) k =
      let (b, next, held, valid, size) =
        received plat room max transport p q c m r w fits k feeds in
      let d = record c { rx_buffer = b; platform = q } in
      let ready =
        Ready-sent room max transport q q2 t bytes _
          (Ready-taken room max transport p q m b c r held valid size) in
      let completed =
        completed-acknowledged plat m bytes d q1 q2 t e r.tx (ap (λ u. u.state) r.here ∙ r.online)
          written clock in
      Serves-round c d _ (sends m) es next completed (Ready-Serves room max more _ ready ws k)
  Ready-Serves room max
        (pinged {transport} {p} {p1} {q} {q1} {q2} {es} t u clock answer written after more) c r ws
        k =
      let d = record c { platform = q } in
      let online = ap (λ u. u.state) r.here ∙ r.online in
      let here : is_disconnected c.transport ≡ false = rw online refl in
      let next =
        next_notification-timeout plat c t p1 q r.valid here (rw r.at_p clock)
          (rw (all_room plat room max transport p c r, r.here) answer) in
      let waiting : Ready plat room max transport q d = record {
        empty = r.empty;
        valid = r.valid;
        size = r.size;
        tx = r.tx;
        here = r.here;
        online = r.online;
        limit = r.limit;
        at_p = refl;
      } in
      let ready = Ready-sent room max transport q q2 u (0xc0 ∷ 0 ∷ []) d waiting in
      Serves-round c d _ waits es next (completed-pinged plat d q1 q2 u r.tx online written after)
        (Ready-Serves room max more _ ready ws k)

  -- Publishes are delivered, each exactly once and in order, and the connection is kept alive: where
  -- a connected client with an empty, valid receive buffer is given publishes and silences one after
  -- the other, as many rounds of the loop as there are of them report exactly these, in this order,
  -- a publish with the number of its bytes and a silence as the time for a ping; the loop has not
  -- failed, and the receive buffer is empty again. The platform gives the bytes of each publish in
  -- reads of its own, as many as it likes, none of them empty and all within the room of the receive
  -- buffer; in a silence the read times out; and it writes the acknowledgement of a publish with QoS
  -- 1 or 2, and the PINGREQ after a silence, before it goes on. Each publish can be written and is
  -- within the client's limit, which is at most the size of the receive buffer, and the transmit
  -- buffer has at least four bytes.
  pub run_client-Brings :
      (c : Client P) (es : List Event)
      → contents c.rx_buffer ≡ []
      → IsValid c.rx_buffer
      → 4 ≤ length c.tx_buffer
      → c.transport.state ≡ connected
      → c.transport.max_packet_size ≤ capacity c.rx_buffer
      → EventsWithin c.transport.max_packet_size es
      → Brings plat (capacity c.rx_buffer) c.transport c.platform es
      → ((run_client plat (length es) c).0 ≡ map told es)
        × ((run_client plat (length es) c).1 ≡ ok tt)
        × (contents (run_client plat (length es) c).2.rx_buffer ≡ [])
  run_client-Brings c es empty valid tx online fits w brings =
      let ready : Ready plat (capacity c.rx_buffer) c.transport.max_packet_size c.transport
          c.platform c =
        record {
          empty = empty;
          valid = valid;
          size = refl;
          tx = tx;
          here = refl;
          online = online;
          limit = refl;
          at_p = refl;
        } in
      Ready-Serves (capacity c.rx_buffer) c.transport.max_packet_size brings c ready w fits
