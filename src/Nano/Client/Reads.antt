-- ===== src/Nano/Client/Reads.antt =====
-- nano_client.rs: reading into the receive buffer and handling what it holds, on a platform that
-- keeps its contract.
use umqtt.Base.{
  ℕ, ◌+◌, ◌≤◌, ◌<◌, ◌≡◌, ◌≢◌, refl, ap, sym, ◌∙◌, arith, ◌==◌, List, length, Option, none, some,
  Bool-cases, inl, inr, ◌⊎◌, le→leb, length-drop, drop,
}
use umqtt.Base.Outcome.{ok, NoPanic, bind_inv, bind_ok, bind_no_panic, map_err_no_panic}
use mathlib.Core.Path.{subst}
use umqtt.Time.{Duration}
use umqtt.Transport.{Notification, on_bytes_received}
use umqtt.Transport.States.{
  Step, idle, waiting, accepted, refused, delivered, failed, on_bytes_received-Step,
}
use umqtt.Nano.Buffer
use umqtt.Nano.Buffer.{Buffer, capacity, unused_slice}
use umqtt.Nano.Buffer.Queue.{IsValid, advance-fill, used_slice_lem}
use umqtt.Nano.Platform.{Platform, ReadFits, ReadWaits}
use umqtt.Nano.Client.{
  Client, Error, read_error, after_read, read_into, unused, used, handle_bytes, receive,
  read_some_with_timeout,
}

module _ {P E : Type 0} (plat : Platform P E) where
  abbrev pub Fits : Client P → Type 0
  Fits c = IsValid c.rx_buffer

  pub unused_lem :
      (c : Client P)
      → Fits c
      → (bytes : List ℕ) × (unused plat c ≡ (ok bytes, c))
        × (length bytes + c.rx_buffer.used ≡ capacity c.rx_buffer)
  unused_lem c v = (
    drop c.rx_buffer.used c.rx_buffer.buffer,
    rw (le→leb c.rx_buffer.used (length c.rx_buffer.buffer) v),
    omega (arith, length-drop c.rx_buffer.used c.rx_buffer.buffer, v),
  )

  after_read-no_panic :
      (q : (E ⊎ Option (List ℕ)) × P) (c : Client P) → NoPanic (after_read plat q c).0
  unfolding after_read
  after_read-no_panic (inr none, p) c = tt
  after_read-no_panic (inr (some bytes), p) c = elim (Bool-cases (length bytes == 0)) [
    | inl e ↦ rw e tt
    | inr e ↦ rw e tt
  ]
  after_read-no_panic (inl e, p) c = tt

  -- The state after a read that stored `n` bytes.
  abbrev pub Stored : Client P → ℕ → Client P → Type 0
  Stored c n d =
      (0 < n)
      × (d.rx_buffer.used ≡ c.rx_buffer.used + n)
      × Fits d
      × (capacity d.rx_buffer ≡ capacity c.rx_buffer)

  after_read-Stored :
      (q : (E ⊎ Option (List ℕ)) × P) (c d : Client P) (n : ℕ)
      → Fits c
      → ((bytes : List ℕ)
          → q.0 ≡ inr (some bytes)
          → length bytes + c.rx_buffer.used ≤ capacity c.rx_buffer)
      → after_read plat q c ≡ (ok (some n), d)
      → Stored c n d
  unfolding after_read Buffer.fill
  after_read-Stored (inr none, p) c d n v room h = cc
  after_read-Stored (inl e, p) c d n v room h = cc
  after_read-Stored (inr (some bytes), p) c d n v room h =
      let r = room bytes refl in
      let (_, valid, same) = advance-fill c.rx_buffer bytes v (omega (arith, r)) in
      ground (arith, valid, same, h)

  pub read_no_panic :
      (t : Option Duration) (c : Client P) → Fits c → NoPanic (read_some_with_timeout plat t c).0
  unfolding read_some_with_timeout read_into
  read_no_panic t c v =
      let (bytes, e, _) = unused_lem c v in
      bind_no_panic (unused plat) (read_into plat t) c (subst (λ q. NoPanic q.0) (sym e) tt)
        (λ b d _. after_read-no_panic (plat.read_some (length b) t d.platform) d)

  pub read-Stored :
      (t : Option Duration) (c d : Client P) (n : ℕ)
      → ReadFits plat
      → Fits c
      → read_some_with_timeout plat t c ≡ (ok (some n), d)
      → Stored c n d
  unfolding read_some_with_timeout read_into
  read-Stored t c d n fits v h =
      let (bytes, e, size) = unused_lem c v in
      after_read-Stored (plat.read_some (length bytes) t c.platform) c d n v
        (λ bs k. omega (
          arith,
          size,
          fits (length bytes) t c.platform _ bs
              (ap (λ x. (x, (plat.read_some (length bytes) t c.platform).1)) k),
        ))
        (sym (bind_ok (unused plat) (read_into plat t) e) ∙ h)

  after_read-waits :
      (q : (E ⊎ Option (List ℕ)) × P) (c d : Client P)
      → q.0 ≢ inr none
      → after_read plat q c ≢ (ok none, d)
  unfolding after_read
  after_read-waits (inr none, p) c d ne h = ne refl
  after_read-waits (inl e, p) c d ne h = cc
  after_read-waits (inr (some bytes), p) c d ne h = ground (arith, h)

  pub read-waits :
      (c d : Client P) → ReadWaits plat → Fits c → read_some_with_timeout plat none c ≢ (ok none, d)
  unfolding read_some_with_timeout read_into
  read-waits c d waits v h =
      let (bytes, e, size) = unused_lem c v in
      after_read-waits (plat.read_some (length bytes) none c.platform) c d
        (λ k.
          waits (length bytes) c.platform _
            (ap (λ x. (x, (plat.read_some (length bytes) none c.platform).1)) k))
        (sym (bind_ok (unused plat) (read_into plat none) e) ∙ h)

  handle_bytes-no_panic : (bytes : List ℕ) (c : Client P) → NoPanic (handle_bytes plat bytes c).0
  unfolding handle_bytes
  handle_bytes-no_panic bytes c =
      map_err_no_panic read_error _ (by_step (on_bytes_received-Step bytes c.transport))
    where
      by_step :
          Step c.transport (on_bytes_received bytes c.transport)
          → NoPanic (on_bytes_received bytes c.transport).0
      by_step (idle s r) = rw r tt
      by_step (waiting s r) = rw r tt
      by_step (accepted b n s success r) = rw r tt
      by_step (refused s r) = rw r tt
      by_step (delivered n k s message r) = rw r tt
      by_step (failed x s w r) = rw r tt

  pub receive_no_panic : (c : Client P) → Fits c → NoPanic (receive plat c).0
  unfolding receive
  receive_no_panic c v =
      bind_no_panic (used plat) (handle_bytes plat) c
        (rw (used_slice_lem {E = Error E} c.rx_buffer v) tt) (λ b d _. handle_bytes-no_panic b d)

  pub receive-rx_buffer :
      (c d : Client P) (r : Option (Notification × ℕ))
      → receive plat c ≡ (ok r, d)
      → d.rx_buffer ≡ c.rx_buffer
  unfolding receive handle_bytes
  receive-rx_buffer c d r h =
      let (bytes, u, e, k) = bind_inv (used plat) (handle_bytes plat) h in
      let same = ap (λ q. q.1.rx_buffer) e in
      let after = ap (λ q. q.1.rx_buffer) k in cc (same, after)
