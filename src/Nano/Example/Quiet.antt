-- ===== src/Nano/Example/Quiet.antt =====
-- nano_client.rs: calls that only write leave the data that was received as it is.
use umqtt.Base.{ℕ, ◌≡◌, ◌∙◌, Bool-cases, inl, inr, ◌⊎◌, List}
use umqtt.Base.Outcome.{Outcome, ok, map_err, and_then, lift, ◌>>=◌}
use umqtt.Base.Slice.{slice_to}
use umqtt.Base.Meets.{Ends, Ends-look, Meets, Ends-bind}
use umqtt.PacketView.{WriteError}
use umqtt.PacketView.BorrowedBuf
use umqtt.PacketView.BorrowedBuf.{Fill}
use umqtt.Transport.{State, is_disconnected, on_transport_closed}
use umqtt.Nano.Buffer.{Buffer}
use umqtt.Nano.Platform.{Platform}
use umqtt.Nano.Client.{Client, Error, write_error, write_buffer, write_all, after_write, encode}
use umqtt.Nano.Client.Sending.{send_subscribe, subscribe_header, write_filters, write_subscribe}
use umqtt.Nano.Serving.Recorded.{Recorded, recorded, record_write}
use umqtt.Nano.Serving.Sending.{on_packet_sent-same}

-- What was received, the receive buffer, the state and the largest packet are these.
abbrev pub Quiet : {P : Type 0} → List ℕ → Buffer → State → ℕ → Client (Recorded P) → Type 0
Quiet received b state max c =
    (c.platform.received ≡ received)
    × (c.rx_buffer ≡ b)
    × (c.transport.state ≡ state)
    × (c.transport.max_packet_size ≡ max)

module _ {P E : Type 0} (plat : Platform P E) (received : List ℕ) (b : Buffer) (state : State)
    (max : ℕ) where
  abbrev Q : Client (Recorded P) → Type 0
  Q c = Quiet received b state max c

  abbrev SameLimit : Client (Recorded P) → Type 0
  SameLimit c = c.transport.max_packet_size ≡ max

  -- A call that answers leaves them so.
  abbrev pub IsQuiet :
      {A : Type 0} → (Client (Recorded P) → Outcome (Error E) A × Client (Recorded P)) → Type 0
  IsQuiet m = Meets Q m (λ a. Q) SameLimit

  IsQuiet-bind :
      {A B : Type 0} (m : Client (Recorded P) → Outcome (Error E) A × Client (Recorded P))
      (f : A → Client (Recorded P) → Outcome (Error E) B × Client (Recorded P))
      → IsQuiet m
      → ((a : A) → IsQuiet (f a))
      → IsQuiet (m >>= f)
  IsQuiet-bind m f hm hf c q = Ends-bind (λ a. Q) (λ a. Q) SameLimit f m c (hm c q) hf

  IsQuiet-look :
      {A : Type 0} (f : Client (Recorded P) → Outcome (Error E) A) → IsQuiet (λ c. (f c, c))
  IsQuiet-look f c q = Ends-look (λ a. Q) SameLimit (f c) c (λ a e. q) q.3

  after_write-IsQuiet :
      (bytes : List ℕ) (r : (E ⊎ Unit {0}) × P) (c : Client (Recorded P))
      → Q c
      → Ends (λ a. Q) SameLimit (after_write (recorded plat) (record_write c.platform bytes r) c)
  unfolding after_write on_transport_closed
  after_write-IsQuiet bytes (inl e, p) c q = q.3
  after_write-IsQuiet bytes (inr done, p) c (r, s, t, m) =
      let same = on_packet_sent-same (plat.now p).0 c.transport in (r, s, same.0 ∙ t, same.1 ∙ m)

  write_buffer-IsQuiet : (bytes : List ℕ) → IsQuiet (write_buffer (recorded plat) bytes)
  unfolding write_buffer
  write_buffer-IsQuiet bytes c q = elim (Bool-cases (is_disconnected c.transport)) [
    | inl off ↦ rw off q.3
    | inr on ↦ rw on (after_write-IsQuiet bytes (plat.write_all bytes c.platform.inner) c q)
  ]

  pub write_all-IsQuiet : (size : ℕ) → IsQuiet (write_all (recorded plat) size)
  unfolding write_all
  write_all-IsQuiet size =
      IsQuiet-bind (λ c. (slice_to size c.tx_buffer, c)) (write_buffer (recorded plat))
        (IsQuiet-look (λ c. slice_to size c.tx_buffer)) write_buffer-IsQuiet

  pub encode-IsQuiet :
      (write : List ℕ → Outcome WriteError ℕ × List ℕ) → IsQuiet (encode (recorded plat) write)
  encode-IsQuiet write c q =
      Ends-look (λ a. Q) SameLimit (map_err write_error (write c.tx_buffer).0)
        (record c { tx_buffer = (write c.tx_buffer).1 }) (λ a e. q) q.3

  pub encode_all-IsQuiet :
      (write : List ℕ → Outcome WriteError ℕ × List ℕ)
      → IsQuiet (encode (recorded plat) write >>= write_all (recorded plat))
  encode_all-IsQuiet write =
      IsQuiet-bind (encode (recorded plat) write) (write_all (recorded plat)) (encode-IsQuiet write)
        write_all-IsQuiet

  write_filters-IsQuiet :
      (subscriptions : Fill (Unit {0})) → IsQuiet (write_filters (recorded plat) subscriptions)
  unfolding write_filters
  write_filters-IsQuiet subscriptions c q =
      let (r, w) = subscriptions (BorrowedBuf.new c.tx_buffer) in
      Ends-look (λ a. Q) SameLimit (and_then (map_err write_error r) (λ u. ok w.len))
        (record c { tx_buffer = w.buffer }) (λ a e. q) q.3

  send_subscribe-IsQuiet : (len : ℕ) → IsQuiet (send_subscribe (recorded plat) len)
  unfolding send_subscribe
  send_subscribe-IsQuiet len =
      IsQuiet-bind (lift (map_err write_error (subscribe_header len))) _
        (IsQuiet-look (λ c. map_err write_error (subscribe_header len)))
        (λ header.
          IsQuiet-bind (write_buffer (recorded plat) header) _ (write_buffer-IsQuiet header)
            (λ done.
              IsQuiet-bind (λ c. (slice_to len c.tx_buffer, c)) (write_buffer (recorded plat))
                (IsQuiet-look (λ c. slice_to len c.tx_buffer)) write_buffer-IsQuiet))

  pub write_subscribe-IsQuiet :
      (subscriptions : Fill (Unit {0})) → IsQuiet (write_subscribe (recorded plat) subscriptions)
  unfolding write_subscribe
  write_subscribe-IsQuiet subscriptions =
      IsQuiet-bind (write_filters (recorded plat) subscriptions) (send_subscribe (recorded plat))
        (write_filters-IsQuiet subscriptions) send_subscribe-IsQuiet
