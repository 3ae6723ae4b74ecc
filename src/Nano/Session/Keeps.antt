-- ===== src/Nano/Session/Keeps.antt =====
-- nano_client.rs: what every call leaves as it is, also where it fails.
use umqtt.Base.{
  ℕ, zero, suc, ◌+◌, ◌≤◌, ◌≡◌, refl, sym, ap, ◌∙◌, arith, Bool, true, false, ◌==◌, Bool-cases, inl,
  inr, ◌⊎◌, if◌then◌else◌, List, length, Option, none, some,
}
use umqtt.Base.Outcome.{Outcome, ok, err, panic, resume, pure, fail, ◌>>=◌, bind_ok}
use umqtt.Base.Slice.{slice_to}
use umqtt.Time.{Duration}
use umqtt.PacketView.{WriteError}
use umqtt.PacketView.WriteCursor.Safe.{SafeWrite}
use umqtt.Transport.{Notification, is_disconnected}
use umqtt.Nano.Buffer
use umqtt.Nano.Buffer.{capacity}
use umqtt.Nano.Buffer.Queue.{advance-fill, remove_prefix_lem}
use umqtt.Nano.Platform.{Platform, ReadFits}
use umqtt.Nano.Client.{
  Client, Error, connection_closed, unexpected_packet, after_write, write_buffer, write_all, encode,
  send, after_read, read_into, unused, read_some_with_timeout, handle_bytes, used, receive,
  remove_prefix,
}
use umqtt.Nano.Client.Reads.{Fits, unused_lem}
use umqtt.Nano.Client.Connecting.{
  expect_connack, on_received, on_read, connack_loop, read_connack, open_with, on_connack, connect,
}
use umqtt.PacketView.ConnAck.{ConnAck, is_success}
use umqtt.PacketView.Connect
use umqtt.PacketView.Connect.{ConnectOptions, as_connect}
use umqtt.PacketView.Packet.Writers.{connect-SafeWrite}
use umqtt.Nano.Client.Receiving.{}
use mathlib.Core.Path.{subst}

module _ {P E : Type 0} (plat : Platform P E) (k n : ℕ) where
  -- The receive buffer is valid, and the buffers have these sizes.
  abbrev pub Good : Client P → Type 0
  Good c = Fits plat c × (capacity c.rx_buffer ≡ k) × (length c.tx_buffer ≡ n)

  abbrev pub Keeps : {A : Type 0} → (Client P → Outcome (Error E) A × Client P) → Type 0
  Keeps f = (c : Client P) → Good c → Good (f c).1

  resume-Keeps :
      {A B : Type 0} (q : Outcome (Error E) A × Client P)
      (f : A → Client P → Outcome (Error E) B × Client P)
      → Good q.1
      → ((a : A) → Keeps (f a))
      → Good (resume q.0 f q.1).1
  resume-Keeps (ok a, d) f g h = h a d g
  resume-Keeps (err e, d) f g h = g
  resume-Keeps (panic, d) f g h = g

  pub Keeps-bind :
      {A B : Type 0} (m : Client P → Outcome (Error E) A × Client P)
      (f : A → Client P → Outcome (Error E) B × Client P)
      → Keeps m
      → ((a : A) → Keeps (f a))
      → Keeps (m >>= f)
  Keeps-bind m f hm hf c g = resume-Keeps (m c) f (hm c g) hf

  -- A call that only looks at the client.
  pub Keeps-look : (A : Type 0) (f : Client P → Outcome (Error E) A) → Keeps (λ c. (f c, c))
  Keeps-look A f c g = g

  pub Keeps-if :
      {A : Type 0} (b : Bool) (f h : Client P → Outcome (Error E) A × Client P)
      → Keeps f
      → Keeps h
      → Keeps (if b then f else h)
  Keeps-if true f h kf kh = kf
  Keeps-if false f h kf kh = kh

  after_write-Keeps : (q : (E ⊎ Unit {0}) × P) → Keeps (after_write plat q)
  unfolding after_write
  after_write-Keeps (inl e, p) c g = g
  after_write-Keeps (inr done, p) c g = g

  pub Keeps-write_buffer : (bytes : List ℕ) → Keeps (write_buffer plat bytes)
  unfolding write_buffer
  Keeps-write_buffer bytes c g = elim (Bool-cases (is_disconnected c.transport)) [
    | inl off ↦ rw off g
    | inr on ↦ rw on (after_write-Keeps (plat.write_all bytes c.platform) c g)
  ]

  pub Keeps-write_all : (size : ℕ) → Keeps (write_all plat size)
  unfolding write_all
  Keeps-write_all size =
      Keeps-bind (λ c. (slice_to size c.tx_buffer, c)) (write_buffer plat)
        (Keeps-look (List ℕ) (λ c. slice_to size c.tx_buffer)) Keeps-write_buffer

  module _ (write : List ℕ → Outcome WriteError ℕ × List ℕ)
      (safe : (buffer : List ℕ) → SafeWrite buffer (write buffer)) where
    pub Keeps-encode : Keeps (encode plat write)
    Keeps-encode c g = (g.0, g.1, (safe c.tx_buffer).1 ∙ g.2)

    pub Keeps-send : Keeps (send plat write)
    unfolding send
    Keeps-send = Keeps-bind (encode plat write) (write_all plat) Keeps-encode Keeps-write_all

  after_read-Keeps :
      (q : (E ⊎ Option (List ℕ)) × P) (c : Client P)
      → ((bytes : List ℕ)
          → q.0 ≡ inr (some bytes)
          → c.rx_buffer.used + length bytes ≤ capacity c.rx_buffer)
      → Good c
      → Good (after_read plat q c).1
  unfolding after_read Buffer.fill
  after_read-Keeps (inl e, p) c room g = g
  after_read-Keeps (inr none, p) c room g = g
  after_read-Keeps (inr (some bytes), p) c room g =
      let (_, valid, same) = advance-fill c.rx_buffer bytes g.0 (room bytes refl) in
      elim (Bool-cases (length bytes == 0)) [
        | inl z ↦ rw z (omega (arith, g.0, same), same ∙ g.1, g.2)
        | inr z ↦ rw z (valid, same ∙ g.1, g.2)
      ]

  pub Keeps-read_some :
      ReadFits plat → (t : Option Duration) → Keeps (read_some_with_timeout plat t)
  unfolding read_some_with_timeout read_into
  Keeps-read_some fits t c g =
      let (buf, e, size) = unused_lem plat c g.0 in
      let q = plat.read_some (length buf) t c.platform in
      let kept =
        after_read-Keeps q c
          (λ bytes h.
            omega (arith, size, fits (length buf) t c.platform q.1 bytes (ap (λ r. (r, q.1)) h)))
          g in
      subst Good (sym (ap (λ r. r.1) (bind_ok (unused plat) (read_into plat t) e))) kept

  pub Keeps-receive : Keeps (receive plat)
  unfolding receive handle_bytes
  Keeps-receive =
      Keeps-bind (used plat) (handle_bytes plat)
        (Keeps-look (List ℕ) (λ c. Buffer.used_slice c.rx_buffer)) (λ bytes c g. g)

  pub Keeps-remove_prefix : (size : ℕ) → Keeps (remove_prefix plat size)
  Keeps-remove_prefix size c g =
      let (_, valid, same) = remove_prefix_lem c.rx_buffer size g.0 in (valid, same ∙ g.1, g.2)

  -- Reading a connack.
  expect_connack-Keeps : (m : Notification) (taken : ℕ) → Keeps (expect_connack plat m taken)
  unfolding expect_connack
  expect_connack-Keeps (Notification.conn_ack ack) taken =
      Keeps-bind (remove_prefix plat taken) (λ done. pure ack) (Keeps-remove_prefix taken)
        (λ done c g. g)
  expect_connack-Keeps m taken = Keeps-look ConnAck (λ c. err unexpected_packet)

  on_received-Keeps :
      (again : Client P → Outcome (Error E) ConnAck × Client P) (r : Option (Notification × ℕ))
      → Keeps again
      → Keeps (on_received plat again r)
  unfolding on_received
  on_received-Keeps again none h = h
  on_received-Keeps again (some (m, taken)) h = expect_connack-Keeps m taken

  on_read-Keeps :
      (again : Client P → Outcome (Error E) ConnAck × Client P) (r : Option ℕ)
      → Keeps again
      → Keeps (on_read plat again r)
  unfolding on_read
  on_read-Keeps again none h = Keeps-look ConnAck (λ c. panic)
  on_read-Keeps again (some size) h =
      Keeps-if (size == 0) (fail connection_closed) (receive plat >>= on_received plat again)
        (λ c g. g)
        (Keeps-bind (receive plat) (on_received plat again) Keeps-receive
          (λ r. on_received-Keeps again r h))

  connack_loop-Keeps : ReadFits plat → (fuel : ℕ) → Keeps (connack_loop plat fuel)
  unfolding connack_loop
  connack_loop-Keeps fits zero = Keeps-look ConnAck (λ c. panic)
  connack_loop-Keeps fits (suc fuel) =
      let again = connack_loop plat fuel in
      let step = connack_loop-Keeps fits fuel in
      Keeps-bind (read_some_with_timeout plat none) (on_read plat again) (Keeps-read_some fits none)
        (λ r. on_read-Keeps again r step)

  pub Keeps-open_with : (options : ConnectOptions) → Keeps (open_with plat options)
  unfolding open_with
  Keeps-open_with options c g =
      Keeps-bind (encode plat (Connect.write (as_connect options))) (write_all plat)
        (Keeps-encode (Connect.write (as_connect options)) (connect-SafeWrite (as_connect options)))
        Keeps-write_all _ (omega arith, g.1, g.2)

  on_connack-Keeps : (a : ConnAck) → Keeps (on_connack plat a)
  unfolding on_connack
  on_connack-Keeps a c g = elim (Bool-cases (is_success a.code)) [ inl e ↦ rw e g | inr e ↦ rw e g ]

  pub Keeps-connect : ReadFits plat → (options : ConnectOptions) → Keeps (connect plat options)
  unfolding connect read_connack
  Keeps-connect fits options =
      Keeps-bind (open_with plat options) (λ done. read_connack plat >>= on_connack plat)
        (Keeps-open_with options)
        (λ done.
          Keeps-bind (read_connack plat) (on_connack plat) (λ c g. connack_loop-Keeps fits _ c g)
            on_connack-Keeps)
