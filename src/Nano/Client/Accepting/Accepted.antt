-- ===== src/Nano/Client/Accepting/Accepted.antt =====
-- nano_client.rs: the whole of a `connect` that the broker accepts.
use umqtt.Base.{
  ℕ, suc, ◌≤◌, ◌≡◌, refl, ◌∙◌, arith, true, List, [], ◌++◌, length, drop, inr, inl, Bool-cases, ltb,
}
use umqtt.Base.Outcome.{ok, bind_ok, ◌>>=◌}
use umqtt.Time.{Instant}
use umqtt.PacketView.ConnAck.{ConnAck, is_success}
use umqtt.PacketView.Connect
use umqtt.PacketView.Connect.{ConnectOptions, as_connect}
use umqtt.PacketView.Connect.Encoding
use umqtt.PacketView.Connect.Encoding.{IsWritable, Connect_written}
use umqtt.PacketView.Header.RoundTrip.{frame}
use umqtt.Transport.{TransportClient, connected, on_transport_opened, on_packet_sent}
use umqtt.Nano.Buffer
use umqtt.Nano.Buffer.{Buffer, capacity}
use umqtt.Nano.Buffer.Queue.{contents}
use umqtt.Nano.Platform.{Platform}
use umqtt.Nano.Client.{Client, send}
use umqtt.Nano.Client.Connecting.{read_connack, open_with, on_connack, connect}
use umqtt.Nano.Client.Reads.{Fits}
use umqtt.Nano.Client.Replies.{send-Wrote}
use umqtt.Nano.Client.Accepting.{Answers, Answers-bound, Opened, Connected, bytes_of, loop-Answers}

on_packet_sent-keeps :
    (t : Instant) (c : TransportClient)
    → ((on_packet_sent t c).state ≡ c.state)
      × ((on_packet_sent t c).max_packet_size ≡ c.max_packet_size)
unfolding on_packet_sent
on_packet_sent-keeps t c = elim (Bool-cases (ltb 0 c.keep_alive)) [
  | inl e ↦ rw e (refl, refl)
  | inr e ↦ rw e (refl, refl)
]

-- The bytes of the connect that the options stand for.
abbrev pub connect_bytes : ConnectOptions → List ℕ
connect_bytes options = frame 0x10 (Connect.Encoding.body (as_connect options))

module _ {P E : Type 0} (plat : Platform P E) where
  module _ (a : ConnAck) (success : is_success a.code ≡ true) where
    read_connack-Answers :
        {q : P} (c : Client P)
        → Opened plat c
        → c.rx_buffer.used ≡ 0
        → Answers plat (capacity c.rx_buffer) c.platform (bytes_of plat a success) q
        → (e : Client P) × (read_connack plat c ≡ (ok a, e)) × Connected plat c q e
    unfolding read_connack
    read_connack-Answers c o fresh answers =
        loop-Answers plat a success answers c (suc (capacity c.rx_buffer)) o (omega (arith, fresh))
          refl (omega (arith, Answers-bound plat answers)) (rw fresh refl)

    -- The client behind `open_with`.
    abbrev opened_with : ConnectOptions → Instant → P → Client P → Client P
    opened_with options t p c = record c {
      transport = on_packet_sent t (on_transport_opened options c.transport);
      tx_buffer = connect_bytes options ++ drop (length (connect_bytes options)) c.tx_buffer;
      rx_buffer = Buffer.reset c.rx_buffer;
      platform = p;
    }

    open_with-encoding :
        (options : ConnectOptions) (c : Client P) (p1 p2 : P) (t : Instant)
        → IsWritable (as_connect options)
        → length (connect_bytes options) ≤ length c.tx_buffer
        → plat.write_all (connect_bytes options) c.platform ≡ (inr tt, p1)
        → plat.now p1 ≡ (t, p2)
        → open_with plat options c ≡ (ok tt, opened_with options t p2 c)
    unfolding open_with on_transport_opened
    open_with-encoding options c p1 p2 t w room written clock =
        unfold send in
        send-Wrote plat (Connect.write (as_connect options)) (connect_bytes options)
          (record c {
            transport = on_transport_opened options c.transport;
            rx_buffer = Buffer.reset c.rx_buffer;
          })
          p1 p2 t (Connect_written (as_connect options) c.tx_buffer w) room refl written clock

    opened_with-Opened :
        (options : ConnectOptions) (c : Client P) (p : P) (t : Instant)
        → 2 ≤ c.transport.max_packet_size
        → Opened plat (opened_with options t p c)
    unfolding on_transport_opened
    opened_with-Opened options c p t limit =
        let (state, size) = on_packet_sent-keeps t (on_transport_opened options c.transport) in
        record { fits = omega arith; state = state; limit = omega (arith, size, limit) }

    -- A broker that accepts gets its client connected: `connect` sends exactly the bytes of the
    -- connect that the options stand for, and when the platform then gives the bytes of a connack
    -- whose code is success, in as many reads as it likes and none of them empty, `connect` returns
    -- that connack, and the client is connected with an empty and valid receive buffer as large as
    -- it was; whatever the state of the client was. The connect can be written and fits the
    -- transmit buffer, the platform writes it, and the client's limit is two bytes at least.
    pub connect-Answers :
        (options : ConnectOptions) (c : Client P) (p1 p2 q : P) (t : Instant)
        → IsWritable (as_connect options)
        → length (connect_bytes options) ≤ length c.tx_buffer
        → plat.write_all (connect_bytes options) c.platform ≡ (inr tt, p1)
        → plat.now p1 ≡ (t, p2)
        → 2 ≤ c.transport.max_packet_size
        → Answers plat (capacity c.rx_buffer) p2 (bytes_of plat a success) q
        → (d : Client P) × (connect plat options c ≡ (ok a, d))
          × (d.transport.state ≡ connected)
          × (contents d.rx_buffer ≡ [])
          × Fits plat d
          × (capacity d.rx_buffer ≡ capacity c.rx_buffer)
          × (d.platform ≡ q)
    unfolding connect on_connack
    connect-Answers options c p1 p2 q t w room written clock limit answers =
        let c1 = opened_with options t p2 c in
        let (d, done, (s, empty, v, same, at_q)) =
          read_connack-Answers c1 (opened_with-Opened options c p2 t limit) refl answers in
        (
          d,
          bind_ok (open_with plat options) (λ x. read_connack plat >>= on_connack plat)
                (open_with-encoding options c p1 p2 t w room written clock)
              ∙ bind_ok (read_connack plat) (on_connack plat) done
              ∙ rw success refl,
          s,
          empty,
          v,
          same,
          at_q,
        )
