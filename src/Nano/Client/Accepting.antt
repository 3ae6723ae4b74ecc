-- ===== src/Nano/Client/Accepting.antt =====
-- nano_client.rs: a `connect` that the broker accepts.
pub mod Accepted
use umqtt.Base.{
  ℕ, zero, suc, ◌+◌, ◌-◌, ◌≤◌, ◌<◌, ◌≡◌, refl, sym, ap, ◌∙◌, arith, false, true, ◌==◌, ne→==, List,
  [], ◌∷◌, ◌++◌, length, take, drop, append_assoc, length-append, drop-all, if◌then◌else◌, Option,
  none, some, inr, inl, Bool-cases, ltb,
}
use umqtt.Base.Outcome.{Outcome, ok, fail, bind_ok, ◌>>=◌, ◌>>◌}
use umqtt.Time.{Instant}
use umqtt.PacketView.ConnAck.{ConnAck, is_success}
use umqtt.PacketView.Connect
use umqtt.PacketView.Connect.{ConnectOptions, as_connect}
use umqtt.PacketView.Connect.Encoding
use umqtt.PacketView.Connect.Encoding.{IsWritable, Connect_written}
use umqtt.PacketView.Header.RoundTrip.{frame}
use umqtt.PacketView.Header.Encoding.{length_bytes}
use umqtt.PacketView.Packet.Acks.{conn_ack_body, read-conn_ack}
use umqtt.PacketView.Packet.Stream.{read-prefix}
use umqtt.Transport
use umqtt.Transport.{
  TransportClient, Notification, connected, transport_connected, on_transport_opened,
  on_packet_sent, on_bytes_received, in_state, on_first_packet, on_read_error,
}
use umqtt.Nano.Buffer
use umqtt.Nano.Buffer.{Buffer, capacity}
use umqtt.Nano.Buffer.Queue.{IsValid, contents, advance-fill, remove_prefix_lem}
use umqtt.Nano.Platform.{Platform}
use umqtt.Nano.Client.{
  Client, Error, send, connection_closed, read_some_with_timeout, receive, remove_prefix,
}
use umqtt.Nano.Client.Connecting.{
  expect_connack, on_received, on_read, connack_loop, read_connack, open_with, on_connack, connect,
}
use umqtt.Nano.Client.Reads.{Fits}
use umqtt.Nano.Client.Storing.{stored, read-stored, receive-eq}
use umqtt.Nano.Client.Replies.{send-Wrote}

-- A connack on an open connection that arrives in part, and as a whole.
conn_ack_pieces :
    (c : TransportClient) (a : ConnAck) (front : List ℕ) (x : ℕ) (back : List ℕ)
    → c.state ≡ transport_connected
    → 2 ≤ c.max_packet_size
    → frame 0x20 (conn_ack_body a) ≡ front ++ (x ∷ back)
    → on_bytes_received front c ≡ (ok none, c)
unfolding on_bytes_received in_state Transport.receive on_read_error
conn_ack_pieces c a front x back fresh limit e =
    let (k, short, _, _) =
      read-prefix 0x20 (conn_ack_body a) front x back c.max_packet_size (omega arith) limit e in
    rw (fresh, short) refl

conn_ack_whole :
    (c : TransportClient) (a : ConnAck)
    → c.state ≡ transport_connected
    → 2 ≤ c.max_packet_size
    → is_success a.code ≡ true
    → on_bytes_received (frame 0x20 (conn_ack_body a)) c
      ≡ (ok (some (Notification.conn_ack a, 4)), record c { state = connected })
unfolding on_bytes_received in_state Transport.receive on_first_packet
conn_ack_whole c a fresh limit success =
    rw (fresh, read-conn_ack a c.max_packet_size limit, success) refl

module _ {P E : Type 0} (plat : Platform P E) where
  -- From the state `p` to the state `q` the platform gives the bytes `all`, in as many reads without
  -- a timeout as it likes and none of them empty, to a client that has `room` bytes left.
  pub data Answers : ℕ → P → List ℕ → P → Type 0 where
    arrived :
        {room : ℕ} {p q : P} {all : List ℕ}
        → plat.read_some room none p ≡ (inr (some all), q)
        → 0 < length all
        → length all ≤ room
        → Answers room p all q
    arrives :
        {room : ℕ} {p p2 q : P} {all : List ℕ} (front back : List ℕ)
        → all ≡ front ++ back
        → plat.read_some room none p ≡ (inr (some front), p2)
        → 0 < length front
        → length front ≤ room
        → 0 < length back
        → Answers (room - length front) p2 back q
        → Answers room p all q

  pub Answers-bound : {room : ℕ} {p q : P} {all : List ℕ} → Answers room p all q → length all ≤ room
  Answers-bound (arrived answer pos fits) = fits
  Answers-bound (arrives front back split answer pos fits more rest) =
      omega (arith, ap length split, length-append front back, Answers-bound rest, fits)

  -- A client that has sent its connect.
  pub record Opened (c : Client P) : Type 0 where
    pub fits : Fits plat c
    pub state : c.transport.state ≡ transport_connected
    pub limit : 2 ≤ c.transport.max_packet_size

  -- The client that has taken the connack.
  abbrev pub Connected : Client P → P → Client P → Type 0
  Connected c q d =
      (d.transport.state ≡ connected)
      × (contents d.rx_buffer ≡ [])
      × Fits plat d
      × (capacity d.rx_buffer ≡ capacity c.rx_buffer)
      × (d.platform ≡ q)

  module _ (a : ConnAck) (success : is_success a.code ≡ true) where
    abbrev pub bytes_of : List ℕ
    bytes_of = frame 0x20 (conn_ack_body a)

    -- One round, on the client that has stored what it read.
    round :
        (fuel : ℕ) (c : Client P) (q : P) (bytes : List ℕ)
        → Fits plat c
        → plat.read_some (capacity c.rx_buffer - c.rx_buffer.used) none c.platform
          ≡ (inr (some bytes), q)
        → 0 < length bytes
        → connack_loop plat (suc fuel) c
          ≡ (receive plat >>= on_received plat (connack_loop plat fuel)) (stored plat bytes q c)
    unfolding connack_loop on_read
    round fuel c q bytes v answer pos =
        bind_ok (read_some_with_timeout plat none) (on_read plat (connack_loop plat fuel))
          (read-stored plat c none q bytes v answer pos)
        ∙ rw (ne→== (length bytes) 0 (λ z. omega (arith, z, pos))) refl

    last_round :
        (fuel : ℕ) (d : Client P)
        → Opened d
        → contents d.rx_buffer ≡ bytes_of
        → (e : Client P) × ((receive plat >>= on_received plat (connack_loop plat fuel)) d
            ≡ (ok a, e))
          × Connected d d.platform e
    unfolding on_received expect_connack length_bytes
    last_round fuel d o held =
        let t : TransportClient = record d.transport { state = connected } in
        let (dropped, valid, same) = remove_prefix_lem d.rx_buffer 4 o.fits in
        (
          record d { transport = t; rx_buffer = Buffer.remove_prefix 4 d.rx_buffer },
          bind_ok (receive plat) (on_received plat (connack_loop plat fuel)) (
              receive-eq plat d bytes_of _ t o.fits held
                (conn_ack_whole d.transport a o.state o.limit success)),
          (refl, dropped ∙ ap (drop 4) held, valid, same, refl),
        )

    pub loop-Answers :
        {room : ℕ} {p q : P} {all : List ℕ}
        → Answers room p all q
        → (c : Client P) (fuel : ℕ) → Opened c
        → room ≡ capacity c.rx_buffer - c.rx_buffer.used
        → c.platform ≡ p
        → length all ≤ fuel
        → contents c.rx_buffer ++ all ≡ bytes_of
        → (e : Client P) × (connack_loop plat fuel c ≡ (ok a, e)) × Connected c q e
    unfolding Buffer.fill on_received
    loop-Answers (arrives front [] split answer pos fits more rest) c fuel o r at_p enough whole =
        absurd (omega (arith, more))
    loop-Answers (arrives front back split answer pos fits more rest) c zero o r at_p enough whole =
        absurd (omega (arith, pos, enough, ap length split, length-append front back))
    loop-Answers (arrived answer pos fits) c zero o r at_p enough whole =
        absurd (omega (arith, pos, enough))
    loop-Answers {q = q} {all = all} (arrived answer pos fits) c (suc fuel) o r at_p enough whole =
        let (held, valid, size) =
          advance-fill c.rx_buffer all o.fits (omega (arith, o.fits, r, fits)) in
        let d = stored plat all q c in
        let opened : Opened d = record { fits = valid; state = o.state; limit = o.limit } in
        let (e, done, (s, empty, v, same, at_q)) = last_round fuel d opened (held ∙ whole) in
        (
          e,
          round fuel c q all o.fits (rw (at_p, ← r) answer) pos ∙ done,
          (s, empty, v, same ∙ size, at_q),
        )
    loop-Answers {q = q} (arrives {p2 = p2} front (y ∷ back) split answer pos fits more rest) c
          (suc fuel) o r at_p enough whole =
        let (held, valid, size) =
          advance-fill c.rx_buffer front o.fits (omega (arith, o.fits, r, fits)) in
        let d = stored plat front p2 c in
        let opened : Opened d = record { fits = valid; state = o.state; limit = o.limit } in
        let cut : (contents c.rx_buffer ++ front) ++ (y ∷ back) ≡ bytes_of =
          append_assoc (contents c.rx_buffer) front (y ∷ back)
          ∙ ap (λ l. contents c.rx_buffer ++ l) (sym split)
          ∙ whole in
        let waits = receive-eq plat d (contents c.rx_buffer ++ front) none d.transport valid held (
          conn_ack_pieces d.transport a (contents c.rx_buffer ++ front) y back o.state o.limit
            (sym cut)) in
        let (e, done, (s, empty, v, same, at_q)) =
          loop-Answers rest d fuel opened (omega (arith, r, size)) refl
            (omega (arith, pos, enough, ap length split, length-append front (y ∷ back)))
            (rw held cut) in
        (
          e,
          round fuel c p2 front o.fits (rw (at_p, ← r) answer) pos
              ∙ bind_ok (receive plat) (on_received plat (connack_loop plat fuel)) waits
              ∙ done,
          (s, empty, v, same ∙ size, at_q),
        )
