-- ===== src/Nano/Serving/Reading.antt =====
-- nano_client.rs: while `next_notification` waits, the bytes that are read go to the end of the data
-- in the receive buffer, and nothing else changes.
use umqtt.Base.{
  ℕ, zero, suc, ◌+◌, ◌≤◌, ◌≡◌, refl, sym, ap, ◌∙◌, arith, Bool, true, ne→==, inl, inr, ◌⊎◌,
  if◌then◌else◌, List, [], ◌∷◌, ◌++◌, length, append_assoc, Option, none, some,
}
use umqtt.Base.Outcome.{Outcome, pure, bind_ok}
use umqtt.Base.Meets.{Ends, Ends-look, Meets, Ends-bind, Meets-if}
use mathlib.Core.Path.{subst}
use umqtt.Time.{Duration}
use umqtt.Transport.{State, connected, next_ping_in, on_transport_closed}
use umqtt.Nano.Buffer
use umqtt.Nano.Buffer.{Buffer, capacity}
use umqtt.Nano.Buffer.Queue.{IsValid, contents, advance-fill}
use umqtt.Nano.Platform.{Platform, ReadFits}
use umqtt.Nano.Client.{Client, Error, unused, read_into, after_read, read_some_with_timeout}
use umqtt.Nano.Client.Receiving.{framed, on_wait, wait, notification_loop}
use umqtt.Nano.Client.Reads.{unused_lem}
use umqtt.Nano.Serving.Recorded.{Recorded, recorded, record_read}

-- Where a call began: what was received and sent until then, the data in the receive buffer, and the
-- largest packet.
pub record Start : Type 0 where
  pub received : List ℕ
  pub sent : List ℕ
  pub data_held : List ℕ
  pub max : ℕ

-- Since then the bytes `fresh` were received, which are behind that data, and nothing was sent.
pub record Fed {P : Type 0} (o : Start) (c : Client (Recorded P)) : Type 0 where
  pub fresh : List ℕ
  pub logged : c.platform.received ≡ o.received ++ fresh
  pub held : contents c.rx_buffer ≡ o.data_held ++ fresh
  pub valid : IsValid c.rx_buffer
  pub unsent : c.platform.sent ≡ o.sent
  pub limit : c.transport.max_packet_size ≡ o.max

abbrev pub LiveIn : {P : Type 0} → State → Start → Client (Recorded P) → Type 0
LiveIn state o c = Fed o c × (c.transport.state ≡ state)

abbrev pub Live : {P : Type 0} → Start → Client (Recorded P) → Type 0
Live o c = LiveIn connected o c

module _ {P : Type 0} (o : Start) where
  -- A client with the same data and the same record.
  pub Fed-same :
      (c d : Client (Recorded P))
      → d.rx_buffer ≡ c.rx_buffer
      → d.platform.received ≡ c.platform.received
      → d.platform.sent ≡ c.platform.sent
      → d.transport.max_packet_size ≡ c.transport.max_packet_size
      → Fed o c
      → Fed o d
  Fed-same c d b r s m f = record {
    fresh = f.fresh;
    logged = r ∙ f.logged;
    held = ap contents b ∙ f.held;
    valid = rw b f.valid;
    unsent = s ∙ f.unsent;
    limit = m ∙ f.limit;
  }

  -- A client that has stored the bytes that it received.
  Fed-more :
      (c d : Client (Recorded P)) (bytes : List ℕ)
      → contents d.rx_buffer ≡ contents c.rx_buffer ++ bytes
      → IsValid d.rx_buffer
      → d.platform.received ≡ c.platform.received ++ bytes
      → d.platform.sent ≡ c.platform.sent
      → d.transport.max_packet_size ≡ c.transport.max_packet_size
      → Fed o c
      → Fed o d
  Fed-more c d bytes h v r s m f = record {
    fresh = f.fresh ++ bytes;
    logged = r ∙ ap (λ l. l ++ bytes) f.logged ∙ append_assoc o.received f.fresh bytes;
    held = h ∙ ap (λ l. l ++ bytes) f.held ∙ append_assoc o.data_held f.fresh bytes;
    valid = v;
    unsent = s ∙ f.unsent;
    limit = m ∙ f.limit;
  }

fill-nil :
    (b : Buffer)
    → IsValid b
    → (contents (Buffer.fill [] b) ≡ contents b ++ []) × IsValid (Buffer.fill [] b)
unfolding Buffer.fill
fill-nil b v =
    let more : b.used + 0 ≡ b.used = omega arith in
    let (held, valid, _) = rw more at (advance-fill b [] v (omega (arith, v))) in (held, valid)

module _ {P E : Type 0} (plat : Platform P E) (fits : ReadFits plat) (state : State)
    (o : Start) where
  after_read-Fed :
      (r : (E ⊎ Option (List ℕ)) × P) (c : Client (Recorded P))
      → ((bytes : List ℕ)
          → r.0 ≡ inr (some bytes)
          → c.rx_buffer.used + length bytes ≤ capacity c.rx_buffer)
      → LiveIn state o c
      → Ends (λ n. LiveIn state o) (Fed o) (after_read (recorded plat) (record_read c.platform r) c)
  unfolding after_read Buffer.fill on_transport_closed
  after_read-Fed (inl e, p) c room (f, s) =
      let d = record c {
        transport = on_transport_closed c.transport;
        platform = record c.platform { inner = p };
      } in
      Fed-same o c d refl refl refl refl f
  after_read-Fed (inr none, p) c room (f, s) = (
    Fed-same o c (record c { platform = record c.platform { inner = p } }) refl refl refl refl f,
    s,
  )
  after_read-Fed (inr (some []), p) c room (f, s) =
      let (held, valid) = fill-nil c.rx_buffer f.valid in
      let d = record c {
        transport = on_transport_closed c.transport;
        rx_buffer = Buffer.fill [] c.rx_buffer;
        platform = record c.platform { inner = p; received = c.platform.received ++ [] };
      } in
      Fed-more o c d [] held valid refl refl refl f
  after_read-Fed (inr (some (b ∷ bytes)), p) c room (f, s) =
      let (held, valid, _) = advance-fill c.rx_buffer (b ∷ bytes) f.valid (room _ refl) in
      let d = record c {
        rx_buffer = Buffer.advance (length (b ∷ bytes)) (Buffer.fill (b ∷ bytes) c.rx_buffer);
        platform = record c.platform { inner = p; received = c.platform.received ++ (b ∷ bytes) };
      } in
      rw (ne→== (suc (length bytes)) 0 (λ z. omega arith))
        (Fed-more o c d (b ∷ bytes) held valid refl refl refl f, s)

  pub read-Fed :
      (t : Option Duration)
      → Meets
          (LiveIn state o)
          (read_some_with_timeout (recorded plat) t)
          (λ n. LiveIn state o)
          (Fed o)
  unfolding read_some_with_timeout read_into
  read-Fed t c (f, s) =
      let (buf, e, size) = unused_lem (recorded plat) c f.valid in
      let r = plat.read_some (length buf) t c.platform.inner in
      let ends =
        after_read-Fed r c
          (λ bytes h.
            omega
              (arith, size, fits (length buf) t c.platform.inner r.1 bytes (ap (λ x. (x, r.1)) h)))
          (f, s) in
      subst (Ends (λ n. LiveIn state o) (Fed o))
        (sym (bind_ok (unused (recorded plat)) (read_into (recorded plat) t) e)) ends

  wait-Fed : Meets (LiveIn state o) (wait (recorded plat)) (λ n. LiveIn state o) (Fed o)
  unfolding wait
  wait-Fed c (f, s) =
      let (t, p) = plat.now c.platform.inner in
      let d = record c { platform = record c.platform { inner = p } } in
      read-Fed (next_ping_in t c.transport) d (Fed-same o c d refl refl refl refl f, s)

  framed-Fed : Meets (LiveIn state o) (framed (recorded plat)) (λ b. LiveIn state o) (Fed o)
  unfolding framed
  framed-Fed c live = Ends-look (λ b. LiveIn state o) (Fed o) _ c (λ b e. live) live.0

  on_wait-Fed :
      (again : Client (Recorded P) → Outcome (Error E) Bool × Client (Recorded P)) (r : Option ℕ)
      → Meets (LiveIn state o) again (λ b. LiveIn state o) (Fed o)
      → Meets (LiveIn state o) (on_wait (recorded plat) again r) (λ b. LiveIn state o) (Fed o)
  unfolding on_wait
  on_wait-Fed again none h c live = live
  on_wait-Fed again (some n) h c live =
      Ends-bind (λ b. LiveIn state o) (λ b. LiveIn state o) (Fed o)
        (λ done. if done then pure true else again) (framed (recorded plat)) c (framed-Fed c live)
        (λ done.
          Meets-if (LiveIn state o) (λ b. LiveIn state o) (Fed o) done (pure true) again (λ d l. l)
            h)

  -- The loop of `next_notification`.
  pub notification_loop-Fed :
      (fuel : ℕ)
      → Meets
          (LiveIn state o)
          (notification_loop (recorded plat) fuel)
          (λ b. LiveIn state o)
          (Fed o)
  unfolding notification_loop
  notification_loop-Fed zero c live = live.0
  notification_loop-Fed (suc fuel) c live =
      let step = notification_loop-Fed fuel in
      Ends-bind (λ n. LiveIn state o) (λ b. LiveIn state o) (Fed o)
        (on_wait (recorded plat) (notification_loop (recorded plat) fuel)) (wait (recorded plat)) c
        (wait-Fed c live) (λ r. on_wait-Fed (notification_loop (recorded plat) fuel) r step)
