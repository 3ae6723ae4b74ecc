-- ===== src/Nano/Client/Delivery.antt =====
-- nano_client.rs: a packet that arrives in pieces while `next_notification` waits.
use umqtt.Base.{
  ℕ, zero, suc, ◌-◌, ◌≤◌, ◌<◌, ◌≡◌, refl, sym, ap, ◌∙◌, arith, Bool, true, false, List, [], ◌∷◌,
  ◌++◌, length, append_assoc, append-nil, length-append, some, inr, if◌then◌else◌,
}
use umqtt.Base.Outcome.{ok, pure, bind_ok}
use umqtt.Time.{Instant}
use umqtt.PacketView.Header.{check, max_remaining_len}
use umqtt.PacketView.Header.Prefix.{check-prefix}
use umqtt.PacketView.Header.RoundTrip.{frame, check-frame}
use umqtt.PacketView.Publish
use umqtt.PacketView.Publish.{Publish, first_byte}
use umqtt.PacketView.Header.Encoding.{length_bytes}
use umqtt.Transport.Delivery.{on_bytes_received-encoding}
use umqtt.PacketView.Publish.RoundTrip.{IsWritable, encoding, body, length-body}
use umqtt.Transport.{TransportClient, Notification, connected, next_ping_in, is_disconnected}
use umqtt.Nano.Buffer
use umqtt.Nano.Buffer.{Buffer, capacity}
use umqtt.Nano.Buffer.Queue.{IsValid, contents, advance-fill, used_slice_lem}
use umqtt.Nano.Platform.{Platform}
use umqtt.Nano.Client.{Client, Error, transport_notification, receive}
use umqtt.Nano.Client.Receiving.{
  is_ok, framed, on_wait, wait, notification_loop, notification_of, on_framed, next_notification,
}
use umqtt.Nano.Client.Storing.{stored, wait-stored, receive-eq}
use umqtt.Nano.Client.Reads.{Fits}

module _ {P E : Type 0} (plat : Platform P E) (transport : TransportClient) where
  -- From the state `p` to the state `q` the platform gives the bytes `all`, in as many reads as it
  -- likes and none of them empty, to a client that has `room` bytes of its buffer left; the timeout
  -- of each read is the time to the next ping.
  pub data Feeds : ℕ → P → List ℕ → P → Type 0 where
    arrived :
        {room : ℕ} {p p1 q : P} {all : List ℕ} (t : Instant)
        → plat.now p ≡ (t, p1)
        → plat.read_some room (next_ping_in t transport) p1 ≡ (inr (some all), q)
        → 0 < length all
        → length all ≤ room
        → Feeds room p all q
    arrives :
        {room : ℕ} {p p1 p2 q : P} {all : List ℕ} (t : Instant) (front back : List ℕ)
        → all ≡ front ++ back
        → plat.now p ≡ (t, p1)
        → plat.read_some room (next_ping_in t transport) p1 ≡ (inr (some front), p2)
        → 0 < length front
        → length front ≤ room
        → 0 < length back
        → Feeds (room - length front) p2 back q
        → Feeds room p all q

  -- No more bytes come than there is room for.
  Feeds-bound : {room : ℕ} {p q : P} {all : List ℕ} → Feeds room p all q → length all ≤ room
  Feeds-bound (arrived t clock answer pos fits) = fits
  Feeds-bound (arrives t front back split clock answer pos fits more rest) =
      omega (arith, ap length split, length-append front back, Feeds-bound rest, fits)

module _ {P E : Type 0} (plat : Platform P E) where
  framed-eq :
      (c : Client P) (b : Bool)
      → Fits plat c
      → is_ok plat (check (contents c.rx_buffer) (capacity c.rx_buffer)) ≡ ok b
      → framed plat c ≡ (ok b, c)
  unfolding framed
  framed-eq c b v e = rw (used_slice_lem {E = Error E} c.rx_buffer v) (ap (λ r. (r, c)) e)

  module _ (byte1 : ℕ) (packet : List ℕ) (small : length packet ≤ max_remaining_len) where
    one_round :
        (c : Client P) (t : Instant) (p q : P) (bytes : List ℕ) (fuel : ℕ) (b : Bool)
        → Fits plat c
        → plat.now c.platform ≡ (t, p)
        → plat.read_some (capacity c.rx_buffer - c.rx_buffer.used) (next_ping_in t c.transport) p
          ≡ (inr (some bytes), q)
        → 0 < length bytes
        → length bytes ≤ capacity c.rx_buffer - c.rx_buffer.used
        → is_ok plat (check (contents c.rx_buffer ++ bytes) (capacity c.rx_buffer)) ≡ ok b
        → notification_loop plat (suc fuel) c
          ≡ (if b then pure true else notification_loop plat fuel) (stored plat bytes q c)
    unfolding notification_loop on_wait
    one_round c t p q bytes fuel b v clock answer pos room e =
        let (same, valid, size) = advance-fill c.rx_buffer bytes v (omega (arith, v, room)) in
        let d = stored plat bytes q c in
        bind_ok (wait plat) (on_wait plat (notification_loop plat fuel))
          (wait-stored plat c t p q bytes v clock answer pos)
        ∙ bind_ok (framed plat) (λ done. if done then pure true else notification_loop plat fuel)
            (framed-eq d b valid (rw (same, size) e))

    loop-Feeds :
        (transport : TransportClient) {room : ℕ} {p q : P} {all : List ℕ}
        → Feeds plat transport room p all q
        → (c : Client P) (fuel : ℕ) → c.transport ≡ transport
        → Fits plat c
        → room ≡ capacity c.rx_buffer - c.rx_buffer.used
        → c.platform ≡ p
        → length all ≤ fuel
        → length packet ≤ capacity c.rx_buffer
        → contents c.rx_buffer ++ all ≡ frame byte1 packet
        → (b : Buffer) × (notification_loop plat fuel c
            ≡ (ok true, record c { rx_buffer = b; platform = q }))
          × (contents b ≡ frame byte1 packet)
          × IsValid b
          × (capacity b ≡ capacity c.rx_buffer)
    unfolding is_ok Buffer.fill
    loop-Feeds transport (arrives t front [] split clock answer pos fits more rest) c fuel same v r
          at_p enough limit whole =
        absurd (omega (arith, more))
    loop-Feeds transport (arrives {all = all} t front back split clock answer pos fits more rest) c
          zero same v r at_p enough limit whole =
        absurd (omega (arith, pos, enough, ap length split, length-append front back))
    loop-Feeds transport (arrived t clock answer pos fits) c zero same v r at_p enough limit whole =
        absurd (omega (arith, pos, enough))
    loop-Feeds transport {q = q} {all = all} (arrived {p1 = p1} t clock answer pos fits) c
          (suc fuel) same v r at_p enough limit whole =
        let (held, valid, size) = advance-fill c.rx_buffer all v (omega (arith, v, r, fits)) in
        let complete =
          rw append-nil at (check-frame byte1 packet [] (capacity c.rx_buffer) small limit) in
        (
          (stored plat all q c).rx_buffer,
          one_round c t p1 q all fuel true v (rw at_p clock) (rw (same, ← r) answer) pos
              (omega (arith, r, fits)) (rw (whole, complete) refl),
          held ∙ whole,
          valid,
          size,
        )
    loop-Feeds transport {q = q} {all = all}
          (arrives {p1 = p1} {p2 = p2} t front (y ∷ back) split clock answer pos fits more rest) c
          (suc fuel) same v r at_p enough limit whole =
        let (held, valid, size) = advance-fill c.rx_buffer front v (omega (arith, v, r, fits)) in
        let cut : (contents c.rx_buffer ++ front) ++ (y ∷ back) ≡ frame byte1 packet =
          append_assoc (contents c.rx_buffer) front (y ∷ back)
          ∙ ap (λ l. contents c.rx_buffer ++ l) (sym split)
          ∙ whole in
        let (k, short, _, _) =
          check-prefix byte1 packet (contents c.rx_buffer ++ front) y back (capacity c.rx_buffer)
            small limit (sym cut) in
        let waited =
          one_round c t p1 p2 front fuel false v (rw at_p clock) (rw (same, ← r) answer) pos
            (omega (arith, r, fits)) (rw short refl) in
        let (b, done, all_held, b_valid, b_size) =
          loop-Feeds transport rest (stored plat front p2 c) fuel same valid
            (omega (arith, r, size)) refl
            (omega (arith, pos, enough, ap length split, length-append front (y ∷ back)))
            (omega (arith, size, limit)) (rw held cut) in
        (b, waited ∙ done, all_held, b_valid, b_size ∙ size)

  receive-publish :
      (m : Publish) (c : Client P)
      → IsWritable m
      → Publish.len m ≤ c.transport.max_packet_size
      → c.transport.state ≡ connected
      → Fits plat c
      → contents c.rx_buffer ≡ encoding m
      → receive plat c ≡ (ok (some (Notification.publish m, length (encoding m))), c)
  receive-publish m c w limit online v held =
      let back = length_bytes (length (body m)) ++ body m in
      let (_, whole) =
        on_bytes_received-encoding c.transport m [] (first_byte m.dup m.quality m.retain) back []
          online w limit refl in
      receive-eq plat c (encoding m) _ c.transport v held (rw append-nil at whole)

  -- A publish that is within the limits of a connected client is delivered by one call of
  -- `next_notification` however its bytes are cut into reads: the bytes that are in the receive
  -- buffer and those that the platform gives from then on, in reads that are not empty and fit the
  -- buffer, and of which there is one at least, are together the encoding of the publish. The call
  -- returns that publish and the number of its bytes, the receive buffer is valid, as large as it
  -- was and holds exactly the encoding, and nothing else changes but the platform, which is in the
  -- state after the last read.
  pub next_notification-Feeds :
      (m : Publish) (c : Client P) (q : P) (bytes : List ℕ)
      → IsWritable m
      → Publish.len m ≤ c.transport.max_packet_size
      → Publish.len m ≤ capacity c.rx_buffer
      → c.transport.state ≡ connected
      → Fits plat c
      → contents c.rx_buffer ++ bytes ≡ encoding m
      → Feeds plat c.transport (capacity c.rx_buffer - c.rx_buffer.used) c.platform bytes q
      → (b : Buffer) × (next_notification plat c ≡ (
        ok (transport_notification (Notification.publish m) (length (encoding m))),
        record c { rx_buffer = b; platform = q },
      ))
        × (contents b ≡ encoding m)
        × IsValid b
        × (capacity b ≡ capacity c.rx_buffer)
  unfolding next_notification on_framed notification_of
  next_notification-Feeds m c q bytes w limit fits online v whole feeds =
      let size = length-body m w in
      let (b, looped, held, valid, same) =
        loop-Feeds (first_byte m.dup m.quality m.retain) (body m) (omega (arith, size, w.len_fits))
          c.transport feeds c (suc (capacity c.rx_buffer)) refl v refl refl
          (omega (arith, Feeds-bound plat c.transport feeds)) (omega (arith, size, fits)) whole in
      let d = record c { rx_buffer = b; platform = q } in
      let here : is_disconnected c.transport ≡ false = rw online refl in
      (
        b,
        rw here (
            bind_ok (notification_loop plat (suc (capacity c.rx_buffer))) (on_framed plat) looped
            ∙ bind_ok (receive plat) (notification_of plat)
                (receive-publish m d w limit online valid held)),
        held,
        valid,
        same,
      )
