-- ===== src/Nano/Serving/Sending.antt =====
-- nano_client.rs: what a call that sends bytes leaves, on a recorded platform.
use umqtt.Base.{
  ℕ, ◌≡◌, refl, sym, ap, ◌∙◌, arith, leb, tests, false, Bool-cases, inl, inr, ◌⊎◌, List, [], ◌++◌,
  length, drop, append-nil,
}
use umqtt.Base.Outcome.{Outcome, ok, err, bind_ok, bind_err}
use umqtt.Base.Slice.{slice_to, slice_to-append}
use umqtt.Base.Meets.{Ends}
use mathlib.Core.Path.{subst}
use umqtt.PacketView.{WriteError, not_enough_capacity}
use umqtt.PacketView.WriteCursor.Emits.{Wrote, Wrote-fits}
use umqtt.Time.{Instant}
use umqtt.Transport.{
  TransportClient, connected, on_packet_sent, on_transport_closed, is_disconnected,
}
use umqtt.Nano.Buffer.Queue.{IsValid, contents}
use umqtt.Nano.Platform.{Platform}
use umqtt.Nano.Client.{
  Client, Error, write_error, send, encode, write_all, write_buffer, after_write,
}
use umqtt.Nano.Serving.Reading.{Start}
use umqtt.Nano.Serving.Recorded.{Recorded, recorded, record_write}

pub on_packet_sent-same :
    (t : Instant) (c : TransportClient)
    → ((on_packet_sent t c).state ≡ c.state)
      × ((on_packet_sent t c).max_packet_size ≡ c.max_packet_size)
unfolding on_packet_sent
on_packet_sent-same t c = ground arith

module _ {P : Type 0} where
  -- Since `o`, exactly `bytes` were sent, and the data in the receive buffer is that without the
  -- first `size` bytes.
  pub record Gone (o : Start) (size : ℕ) (bytes : List ℕ) (d : Client (Recorded P)) : Type 0 where
    pub left : contents d.rx_buffer ≡ drop size o.data_held
    pub valid : IsValid d.rx_buffer
    pub received : d.platform.received ≡ o.received
    pub sent : d.platform.sent ≡ o.sent ++ bytes
    pub limit : d.transport.max_packet_size ≡ o.max

  abbrev pub Answered : Start → ℕ → List ℕ → Client (Recorded P) → Type 0
  Answered o size bytes d = Gone o size bytes d × (d.transport.state ≡ connected)

  abbrev pub start_of : Client (Recorded P) → Start
  start_of c = record {
    received = c.platform.received;
    sent = c.platform.sent;
    data_held = contents c.rx_buffer;
    max = c.transport.max_packet_size;
  }

module _ {P E : Type 0} where
  -- The end of a call that sends `bytes`: it fails, and then nothing was sent.
  abbrev pub Sends :
      Start → ℕ → List ℕ → Outcome (Error E) (Unit {0}) × Client (Recorded P) → Type 0
  Sends o size bytes = Ends (λ done. Answered o size bytes) (Gone o size [])

module _ {P E : Type 0} (plat : Platform P E) where
  pub nothing : (c : Client (Recorded P)) → IsValid c.rx_buffer → Gone (start_of c) 0 [] c
  nothing c v = record {
    left = refl;
    valid = v;
    received = refl;
    sent = sym (append-nil _);
    limit = refl;
  }

  after_write-Sends :
      (bytes : List ℕ) (r : (E ⊎ Unit {0}) × P) (c : Client (Recorded P))
      → IsValid c.rx_buffer
      → c.transport.state ≡ connected
      → Sends (start_of c) 0 bytes (after_write (recorded plat) (record_write c.platform bytes r) c)
  unfolding after_write on_transport_closed on_packet_sent
  after_write-Sends bytes (inl e, p) c v online = record {
    left = refl;
    valid = v;
    received = refl;
    sent = sym (append-nil _);
    limit = refl;
  }
  after_write-Sends bytes (inr done, p) c v online =
      let sent_on = on_packet_sent-same (plat.now p).0 c.transport in
      (
        record { left = refl; valid = v; received = refl; sent = refl; limit = sent_on.1 },
        sent_on.0 ∙ online,
      )

  write_buffer-Sends :
      (bytes : List ℕ) (c : Client (Recorded P))
      → IsValid c.rx_buffer
      → c.transport.state ≡ connected
      → Sends (start_of c) 0 bytes (write_buffer (recorded plat) bytes c)
  unfolding write_buffer
  write_buffer-Sends bytes c v online =
      let here : is_disconnected c.transport ≡ false = rw online refl in
      rw here (after_write-Sends bytes (plat.write_all bytes c.platform.inner) c v online)

  pub send-Sends :
      (write : List ℕ → Outcome WriteError ℕ × List ℕ) (bytes : List ℕ) (c : Client (Recorded P))
      → Wrote bytes c.tx_buffer (write c.tx_buffer)
      → IsValid c.rx_buffer
      → c.transport.state ≡ connected
      → Sends (start_of c) 0 bytes (send (recorded plat) write c)
  unfolding send write_all
  send-Sends write bytes c w v online =
      elim (Bool-cases (leb (length bytes) (length c.tx_buffer))) [
        | inl le ↦
            let tx = bytes ++ drop (length bytes) c.tx_buffer in
            let d = record c { tx_buffer = tx } in
            let e = Wrote-fits bytes c.tx_buffer (write c.tx_buffer) w (omega tests) in
            let encoded : encode (recorded plat) write c ≡ (ok (length bytes), d) = rw e refl in
            let sliced =
              ap (λ r. (r, d))
                (slice_to-append {E = Error E} bytes (drop (length bytes) c.tx_buffer)
                  (length bytes) refl) in
            subst (Sends (start_of c) 0 bytes)
              (sym (
                bind_ok (encode (recorded plat) write) (write_all (recorded plat)) encoded
                ∙ bind_ok (λ s. (slice_to (length bytes) s.tx_buffer, s))
                    (write_buffer (recorded plat)) sliced))
              (write_buffer-Sends bytes d v online)
        | inr gt ↦
            let full : (write c.tx_buffer).0 ≡ err not_enough_capacity = rw gt at w in
            let d = record c { tx_buffer = (write c.tx_buffer).1 } in
            subst (Sends (start_of c) 0 bytes)
              (sym (
                bind_err (encode (recorded plat) write) (write_all (recorded plat)) {t = d}
                  {e = write_error not_enough_capacity} (rw full refl)))
              (nothing d v)
      ]
