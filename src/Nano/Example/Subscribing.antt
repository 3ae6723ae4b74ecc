-- ===== src/Nano/Example/Subscribing.antt =====
-- nano_client.rs: what a `connect_subscribe` that answers has sent.
use umqtt.Base.{
  ℕ, ◌≤◌, ◌≡◌, refl, sym, ap, ◌∙◌, arith, true, Bool-cases, inl, inr, ◌⊎◌, List, [], ◌++◌, length,
  drop, append_assoc,
}
use umqtt.Base.Outcome.{ok, bind_ok, pure}
use umqtt.Base.Slice.{slice_to, slice_to-append}
use umqtt.Base.Meets.{Ends, Meets, Ends-bind, Ends-weaken, Ends-and, Ends-always, Ends-ok}
use mathlib.Core.Path.{subst}
use umqtt.PacketView.WriteCursor.Emits.{Wrote-fits}
use umqtt.PacketView.BorrowedBuf.{Fill}
use umqtt.PacketView.BorrowedBuf.Adds.{Adds}
use umqtt.PacketView.ConnAck.{ConnAck, is_success}
use umqtt.PacketView.Connect
use umqtt.PacketView.Connect.{ConnectOptions, as_connect}
use umqtt.PacketView.Connect.Encoding
use umqtt.PacketView.Connect.Encoding.{Connect_written}
use umqtt.PacketView.Header.RoundTrip.{frame}
use umqtt.PacketView.Subscribe.{SubscribeFilter}
use umqtt.PacketView.Subscribe
use umqtt.PacketView.Subscribe.RoundTrip.{filters_bytes}
use umqtt.Transport.{connected, is_disconnected, on_transport_opened}
use umqtt.Nano.Buffer
use umqtt.Nano.Buffer.{capacity}
use umqtt.Nano.Buffer.Queue.{IsValid}
use umqtt.Nano.Platform.{Platform, ReadFits}
use umqtt.Nano.Client.{Client, Error, write_buffer, write_all, encode, after_write}
use umqtt.Nano.Client.Connecting.{open_with, connect}
use umqtt.Nano.Client.Accepting.Accepted.{connect_bytes}
use umqtt.Nano.Client.Sending.{write_filters, send_subscribe, write_subscribe, connect_subscribe}
use umqtt.Nano.Client.Sending.Subscribing.{
  subscription, header_of, subscribe_header-eq, small, pieces,
}
use umqtt.Nano.Session.Keeps.{Keeps-connect}
use umqtt.Nano.Serving.Recorded.{Recorded, recorded, record_write, recorded-ReadFits}
use umqtt.Nano.Example.Greeting.{Welcomed}
use umqtt.Nano.Example.Opening.{start_from, SameLimit, connect-Welcomed, connect-sent}
use umqtt.Nano.Example.Stream.{connect_subscribe-Welcomed}

-- The bytes of the subscribe that the filters stand for.
abbrev pub subscribe_bytes : List SubscribeFilter → List ℕ
subscribe_bytes fs = frame 0x82 (Subscribe.RoundTrip.body (subscription fs))

module _ {P E : Type 0} (plat : Platform P E) where
  abbrev Anything : Client (Recorded P) → Type 0
  Anything c = Unit {0}

  -- These bytes were sent, and the transmit buffer is this.
  abbrev Said : List ℕ → List ℕ → Client (Recorded P) → Type 0
  Said bytes tx c = (c.platform.sent ≡ bytes) × (c.tx_buffer ≡ tx)

  after_write-Said :
      (before tx bytes : List ℕ) (r : (E ⊎ Unit {0}) × P) (c : Client (Recorded P))
      → Said before tx c
      → Ends
          (λ u. Said (before ++ bytes) tx)
          Anything
          (after_write (recorded plat) (record_write c.platform bytes r) c)
  unfolding after_write
  after_write-Said before tx bytes (inl e, p) c s = tt
  after_write-Said before tx bytes (inr done, p) c (s, t) = (ap (λ l. l ++ bytes) s, t)

  write_buffer-Said :
      (before tx bytes : List ℕ)
      → Meets
          (Said before tx)
          (write_buffer (recorded plat) bytes)
          (λ u. Said (before ++ bytes) tx)
          Anything
  unfolding write_buffer
  write_buffer-Said before tx bytes c s = elim (Bool-cases (is_disconnected c.transport)) [
    | inl off ↦ rw off tt
    | inr on ↦ rw on (after_write-Said before tx bytes (plat.write_all bytes c.platform.inner) c s)
  ]

  -- The front of the transmit buffer is written.
  front-Said :
      (before bytes rest : List ℕ)
      → Meets
          (Said before (bytes ++ rest))
          (write_all (recorded plat) (length bytes))
          (λ u. Said (before ++ bytes) (bytes ++ rest))
          Anything
  unfolding write_all
  front-Said before bytes rest c (s, t) =
      let sliced : slice_to {E = Error E} (length bytes) c.tx_buffer ≡ ok bytes =
        ap (slice_to (length bytes)) t ∙ slice_to-append bytes rest (length bytes) refl in
      subst (Ends (λ u. Said (before ++ bytes) (bytes ++ rest)) Anything)
        (sym (
          bind_ok (λ d. (slice_to (length bytes) d.tx_buffer, d)) (write_buffer (recorded plat))
            (ap (λ r. (r, c)) sliced)))
        (write_buffer-Said before (bytes ++ rest) bytes c (s, t))

  open_with-sent :
      (options : ConnectOptions) (c : Client (Recorded P))
      → Connect.Encoding.IsWritable (as_connect options)
      → length (connect_bytes options) ≤ length c.tx_buffer
      → Ends
          (λ u d. d.platform.sent ≡ c.platform.sent ++ connect_bytes options)
          Anything
          (open_with (recorded plat) options c)
  unfolding open_with
  open_with-sent options c w room =
      let bytes = connect_bytes options in
      let write = Connect.write (as_connect options) in
      let rest = drop (length bytes) c.tx_buffer in
      let opened = record c {
        transport = on_transport_opened options c.transport;
        rx_buffer = Buffer.reset c.rx_buffer;
      } in
      let d = record opened { tx_buffer = bytes ++ rest } in
      let stored =
        Wrote-fits bytes c.tx_buffer (write c.tx_buffer)
          (Connect_written (as_connect options) c.tx_buffer w) room in
      let encoded : encode (recorded plat) write opened ≡ (ok (length bytes), d) = rw stored refl in
      subst (Ends (λ u e. e.platform.sent ≡ c.platform.sent ++ bytes) Anything)
        (sym (bind_ok (encode (recorded plat) write) (write_all (recorded plat)) encoded))
        (Ends-weaken (λ u. Said (c.platform.sent ++ bytes) (bytes ++ rest))
          (λ u e. e.platform.sent ≡ c.platform.sent ++ bytes) Anything Anything _ (λ u e h. h.0)
          (λ e h. h) (front-Said c.platform.sent bytes rest d (refl, refl)))

  module _ (fs : List SubscribeFilter) (w : Subscribe.RoundTrip.IsWritable (subscription fs))
      (subscriptions : Fill (Unit {0})) (adds : Adds subscriptions (filters_bytes fs)) where
    send_subscribe-Said :
        (before rest : List ℕ)
        → Meets
            (Said before (filters_bytes fs ++ rest))
            (send_subscribe (recorded plat) (length (filters_bytes fs)))
            (λ u d. d.platform.sent ≡ before ++ subscribe_bytes fs)
            Anything
    unfolding send_subscribe write_all
    send_subscribe-Said before rest c s =
        let tx = filters_bytes fs ++ rest in
        rw (subscribe_header-eq (length (filters_bytes fs)) (small fs w)) (
          Ends-bind (λ u. Said (before ++ header_of fs) tx)
            (λ u d. d.platform.sent ≡ before ++ subscribe_bytes fs) Anything _
            (write_buffer (recorded plat) (header_of fs)) c
            (write_buffer-Said before tx (header_of fs) c s)
            (λ u d h.
              Ends-weaken (λ u. Said ((before ++ header_of fs) ++ filters_bytes fs) tx)
                (λ u e. e.platform.sent ≡ before ++ subscribe_bytes fs) Anything Anything _
                (λ u e k.
                  k.0
                  ∙ append_assoc before (header_of fs) (filters_bytes fs)
                  ∙ ap (λ l. before ++ l) (pieces fs w))
                (λ e k. k) (front-Said (before ++ header_of fs) (filters_bytes fs) rest d h)))

    write_subscribe-sent :
        (before : List ℕ) (c : Client (Recorded P))
        → c.platform.sent ≡ before
        → length (filters_bytes fs) ≤ length c.tx_buffer
        → Ends
            (λ u d. d.platform.sent ≡ before ++ subscribe_bytes fs)
            Anything
            (write_subscribe (recorded plat) subscriptions c)
    unfolding write_subscribe write_filters
    write_subscribe-sent before c s room =
        let rest = drop (length (filters_bytes fs)) c.tx_buffer in
        let d = record c { tx_buffer = filters_bytes fs ++ rest } in
        let written : write_filters (recorded plat) subscriptions c
            ≡ (ok (length (filters_bytes fs)), d) =
          rw (adds [] c.tx_buffer room) refl in
        subst (Ends (λ u e. e.platform.sent ≡ before ++ subscribe_bytes fs) Anything)
          (sym (
            bind_ok (write_filters (recorded plat) subscriptions) (send_subscribe (recorded plat))
              written))
          (send_subscribe-Said before rest d (s, refl))

    module _ (fits : ReadFits plat) (options : ConnectOptions)
        (writable : Connect.Encoding.IsWritable (as_connect options)) where
      -- The client that has been connected, and has sent the connect.
      abbrev Connected : Client (Recorded P) → ConnAck → Client (Recorded P) → Type 0
      Connected c a d =
          (d.platform.sent ≡ c.platform.sent ++ connect_bytes options)
          × ((length d.tx_buffer ≡ length c.tx_buffer) × Welcomed (start_from c) a d)

      connect-Connected :
          (c : Client (Recorded P))
          → IsValid c.rx_buffer
          → length (connect_bytes options) ≤ length c.tx_buffer
          → Ends (Connected c) Anything (connect (recorded plat) options c)
      connect-Connected c v room =
          let q = connect (recorded plat) options c in
          let kept =
            Keeps-connect (recorded plat) (capacity c.rx_buffer) (length c.tx_buffer)
              (recorded-ReadFits plat fits) options c (v, refl, refl) in
          Ends-and _ _ Anything Anything q
            (connect-sent plat fits options c _ (open_with-sent options c writable room))
            (Ends-and _ _ Anything (SameLimit plat fits c) q
              (Ends-weaken _ _ _ Anything q (λ a d h. h) (λ d h. tt)
                (Ends-always (λ d. length d.tx_buffer ≡ length c.tx_buffer) q kept.2))
              (connect-Welcomed plat fits options c))

      sent :
          (c : Client (Recorded P))
          → IsValid c.rx_buffer
          → length (connect_bytes options) ≤ length c.tx_buffer
          → length (filters_bytes fs) ≤ length c.tx_buffer
          → Ends
              (λ a d.
                d.platform.sent ≡ (c.platform.sent ++ connect_bytes options) ++ subscribe_bytes fs)
              Anything
              (connect_subscribe (recorded plat) options subscriptions c)
      unfolding connect_subscribe
      sent c v room more =
          let before = c.platform.sent ++ connect_bytes options in
          Ends-bind (Connected c) (λ a d. d.platform.sent ≡ before ++ subscribe_bytes fs) Anything _
            (connect (recorded plat) options) c (connect-Connected c v room)
            (λ a d (s, (size, welcomed)). rw welcomed.success (
              Ends-bind (λ u e. e.platform.sent ≡ before ++ subscribe_bytes fs)
                (λ b e. e.platform.sent ≡ before ++ subscribe_bytes fs) Anything (λ u. pure a)
                (write_subscribe (recorded plat) subscriptions) d
                (write_subscribe-sent before d s (omega (arith, more, size))) (λ u e h. h)))

      -- A `connect_subscribe` that returns a connack has sent the connect and the subscriptions, and
      -- nothing else: what it sent, on a platform whose reads fit the buffer that they are given, is
      -- exactly the bytes of the connect that the options stand for, and then those of a subscribe
      -- with the packet identifier 1 and the filters; the client is connected, and the code of the
      -- connack is success. The receive buffer is valid, the connect and the subscribe can be
      -- written, the function writes the filters, and the connect and the filters each fit the
      -- transmit buffer.
      pub connect_subscribe-sends :
          (c : Client (Recorded P)) (a : ConnAck)
          → IsValid c.rx_buffer
          → length (connect_bytes options) ≤ length c.tx_buffer
          → length (filters_bytes fs) ≤ length c.tx_buffer
          → (connect_subscribe (recorded plat) options subscriptions c).0 ≡ ok a
          → ((connect_subscribe (recorded plat) options subscriptions c).1.platform.sent
              ≡ (c.platform.sent ++ connect_bytes options) ++ subscribe_bytes fs)
            × ((connect_subscribe (recorded plat) options subscriptions c).1.transport.state
                ≡ connected)
            × (is_success a.code ≡ true)
      connect_subscribe-sends c a v room more e =
          let q = connect_subscribe (recorded plat) options subscriptions c in
          let (said, welcomed) =
            Ends-ok _ Anything q a
              (Ends-and _ _ Anything (SameLimit plat fits c) q (sent c v room more)
                (connect_subscribe-Welcomed plat fits options subscriptions c))
              e in
          (said, welcomed.online, welcomed.success)
