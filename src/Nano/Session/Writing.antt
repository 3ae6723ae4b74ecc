-- ===== src/Nano/Session/Writing.antt =====
-- nano_client.rs: publishing and subscribing keep the buffers of the client and do not panic.
use umqtt.Base.{
  ℕ, ◌≤◌, ◌≡◌, refl, ap, sym, ◌∙◌, arith, Bool-cases, inl, inr, List, length, take, ◌⊎◌,
  if◌then◌else◌, le→leb,
}
use umqtt.Base.Outcome.{
  Outcome, ok, err, panic, NoPanic, resume, and_then, map_err, map_err_no_panic, bind_no_panic,
  pure, lift,
}
use umqtt.Base.Slice.{slice_to}
use umqtt.PacketView.{WriteError}
use umqtt.PacketView.BorrowedBuf
use umqtt.PacketView.BorrowedBuf.{BorrowedBuf, Fill}
use umqtt.PacketView.BorrowedBuf.Adds.{IsTame}
use umqtt.PacketView.ConnAck.{is_success}
use umqtt.PacketView.Connect.{ConnectOptions}
use umqtt.PacketView.OutPublish.{OutPublish}
use umqtt.PacketView.OutPublish.Size.{write-length, write-NoPanic}
use umqtt.Transport.{is_disconnected}
use umqtt.Nano.Platform.{Platform, ReadFits}
use umqtt.PacketView.WriteCursor.Safe.{Within, SafeWrite}
use umqtt.Nano.Client.{Client, write_error, write_buffer, write_all, send, after_write}
use umqtt.Nano.Client.Connecting.{connect}
use umqtt.Nano.Client.Sending.{
  subscribe_header, write_publish, send_publish, write_filters, send_subscribe, write_subscribe,
  connect_subscribe,
}
use umqtt.Nano.Client.Sending.Subscribing.{subscribe_header-NoPanic}
use umqtt.Nano.Session.Keeps.{
  Keeps, Keeps-bind, Keeps-look, Keeps-if, Keeps-write_buffer, Keeps-connect,
}

module _ {P E : Type 0} (plat : Platform P E) (k n : ℕ) where
  pub Keeps-send_publish :
      (p : OutPublish) (topic payload : Fill (Unit {0}))
      → IsTame topic
      → IsTame payload
      → Keeps plat k n (send_publish plat p topic payload)
  unfolding send_publish write_publish
  Keeps-send_publish p topic payload ht hp =
      Keeps-bind plat k n (write_publish plat p topic payload) (write_buffer plat)
        (λ c g. (g.0, g.1, write-length p topic payload c.tx_buffer ht hp ∙ g.2))
        (Keeps-write_buffer plat k n)

  pub Keeps-write_subscribe :
      (subscriptions : Fill (Unit {0}))
      → IsTame subscriptions
      → Keeps plat k n (write_subscribe plat subscriptions)
  unfolding write_subscribe write_filters send_subscribe
  Keeps-write_subscribe subscriptions h =
      Keeps-bind plat k n (write_filters plat subscriptions) (send_subscribe plat)
        (λ c g. (g.0, g.1, (h (BorrowedBuf.new c.tx_buffer) (omega arith)).1.2 ∙ g.2))
        λ len.
          Keeps-bind plat k n (lift (map_err write_error (subscribe_header len))) _
            (Keeps-look plat k n (List ℕ) (λ c. map_err write_error (subscribe_header len)))
            λ header.
              Keeps-bind plat k n (write_buffer plat header) _ (Keeps-write_buffer plat k n header)
                λ done.
                  Keeps-bind plat k n (λ c. (slice_to len c.tx_buffer, c)) (write_buffer plat)
                    (Keeps-look plat k n (List ℕ) (λ c. slice_to len c.tx_buffer))
                    (Keeps-write_buffer plat k n)

  pub Keeps-connect_subscribe :
      (options : ConnectOptions) (subscriptions : Fill (Unit {0}))
      → ReadFits plat
      → IsTame subscriptions
      → Keeps plat k n (connect_subscribe plat options subscriptions)
  unfolding connect_subscribe
  Keeps-connect_subscribe options subscriptions fits h =
      Keeps-bind plat k n (connect plat options) _ (Keeps-connect plat k n fits options) λ a.
        Keeps-bind plat k n
          (if is_success a.code then write_subscribe plat subscriptions else pure tt)
          (λ done. pure a)
          (Keeps-if plat k n (is_success a.code) (write_subscribe plat subscriptions) (pure tt)
            (Keeps-write_subscribe subscriptions h) (λ c g. g))
          (λ done c g. g)

module _ {P E : Type 0} (plat : Platform P E) where
  after_write_no_panic : (q : (E ⊎ Unit {0}) × P) (c : Client P) → NoPanic (after_write plat q c).0
  unfolding after_write
  after_write_no_panic (inl e, p) c = tt
  after_write_no_panic (inr done, p) c = tt

  pub write_buffer-NoPanic : (bytes : List ℕ) (c : Client P) → NoPanic (write_buffer plat bytes c).0
  unfolding write_buffer
  write_buffer-NoPanic bytes c = elim (Bool-cases (is_disconnected c.transport)) [
    | inl off ↦ rw off tt
    | inr on ↦ rw on (after_write_no_panic (plat.write_all bytes c.platform) c)
  ]

  write_all_no_panic :
      (size : ℕ) (c : Client P) → size ≤ length c.tx_buffer → NoPanic (write_all plat size c).0
  unfolding write_all
  write_all_no_panic size c h =
      rw (le→leb size (length c.tx_buffer) h) (write_buffer-NoPanic (take size c.tx_buffer) c)

  -- What `send` does once the packet is in the transmit buffer.
  sent_no_panic :
      (size : ℕ) (c : Client P) (r : Outcome WriteError ℕ)
      → Within size r
      → length c.tx_buffer ≡ size
      → NoPanic (resume (map_err write_error r) (write_all plat) c).0
  sent_no_panic size c (ok m) h e = write_all_no_panic m c (omega (arith, h, e))
  sent_no_panic size c (err x) h e = tt
  sent_no_panic size c panic h e = h

  pub send-NoPanic :
      (write : List ℕ → Outcome WriteError ℕ × List ℕ) (c : Client P)
      → SafeWrite c.tx_buffer (write c.tx_buffer)
      → NoPanic (send plat write c).0
  unfolding send
  send-NoPanic write c h =
      sent_no_panic (length c.tx_buffer) (record c { tx_buffer = (write c.tx_buffer).1 })
        (write c.tx_buffer).0 h.0 h.1

  pub send_publish-NoPanic :
      (p : OutPublish) (topic payload : Fill (Unit {0})) (c : Client P)
      → IsTame topic
      → IsTame payload
      → 5 ≤ length c.tx_buffer
      → NoPanic (send_publish plat p topic payload c).0
  unfolding send_publish write_publish
  send_publish-NoPanic p topic payload c ht hp room =
      bind_no_panic (write_publish plat p topic payload) (write_buffer plat) c
        (map_err_no_panic write_error _ (write-NoPanic p topic payload c.tx_buffer ht hp room))
        (λ bytes d e. write_buffer-NoPanic bytes d)

  after_write_tx :
      (q : (E ⊎ Unit {0}) × P) (c : Client P) → (after_write plat q c).1.tx_buffer ≡ c.tx_buffer
  unfolding after_write
  after_write_tx (inl e, p) c = refl
  after_write_tx (inr done, p) c = refl

  write_buffer_tx :
      (bytes : List ℕ) (c : Client P) → (write_buffer plat bytes c).1.tx_buffer ≡ c.tx_buffer
  unfolding write_buffer
  write_buffer_tx bytes c = elim (Bool-cases (is_disconnected c.transport)) [
    | inl off ↦ rw off refl
    | inr on ↦ rw on (after_write_tx (plat.write_all bytes c.platform) c)
  ]

  send_subscribe_no_panic :
      (len : ℕ) (c : Client P) → len ≤ length c.tx_buffer → NoPanic (send_subscribe plat len c).0
  unfolding send_subscribe
  send_subscribe_no_panic len c h =
      bind_no_panic (lift (map_err write_error (subscribe_header len))) _ c
        (map_err_no_panic write_error _ (subscribe_header-NoPanic len))
        λ header d e.
          bind_no_panic (write_buffer plat header) _ d (write_buffer-NoPanic header d) λ done u f.
            let same : length u.tx_buffer ≡ length c.tx_buffer =
              ap (λ q. length q.1.tx_buffer) (sym f)
              ∙ ap length (write_buffer_tx header d)
              ∙ ap (λ q. length q.1.tx_buffer) (sym e) in
            bind_no_panic (λ v. (slice_to len v.tx_buffer, v)) (write_buffer plat) u
              (rw (le→leb len (length u.tx_buffer) (omega (arith, h, same))) tt)
              (λ bytes v g. write_buffer-NoPanic bytes v)

  -- What `write_subscribe` does once the filters are in the transmit buffer.
  filters_written :
      (c : Client P) (q : Outcome WriteError (Unit {0}) × BorrowedBuf)
      → NoPanic q.0
      → q.1.len ≤ length q.1.buffer
      → NoPanic
          (resume
            (and_then (map_err write_error q.0) (λ done. ok q.1.len))
            (send_subscribe plat)
            (record c { tx_buffer = q.1.buffer })).0
  filters_written c (ok done, b) h v =
      send_subscribe_no_panic b.len (record c { tx_buffer = b.buffer }) v
  filters_written c (err e, b) h v = tt
  filters_written c (panic, b) h v = h

  pub write_subscribe-NoPanic :
      (subscriptions : Fill (Unit {0})) (c : Client P)
      → IsTame subscriptions
      → NoPanic (write_subscribe plat subscriptions c).0
  unfolding write_subscribe write_filters
  write_subscribe-NoPanic subscriptions c h =
      let (safe, grown) = h (BorrowedBuf.new c.tx_buffer) (omega arith) in
      filters_written c (subscriptions (BorrowedBuf.new c.tx_buffer)) safe grown.1
