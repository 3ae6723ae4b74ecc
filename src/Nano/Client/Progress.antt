-- ===== src/Nano/Client/Progress.antt =====
-- nano_client.rs: whether the loop of `read_connack` ends.
use umqtt.Base.{
  ℕ, zero, suc, ◌+◌, ◌<◌, ◌≡◌, sym, arith, ◌==◌, Option, none, some, Bool-cases, inl, inr,
}
use umqtt.Base.Outcome.{Outcome, ok, NoPanic, bind_no_panic, ◌>>=◌}
use mathlib.Core.Path.{subst}
use umqtt.PacketView.ConnAck.{ConnAck}
use umqtt.Transport.{Notification}
use umqtt.Transport.States.{}
use umqtt.Nano.Buffer.{capacity}
use umqtt.Nano.Buffer.Queue.{IsValid}
use umqtt.Nano.Platform.{Platform, ReadFits, ReadWaits}
use umqtt.Nano.Client.{Client, Error, used, receive, read_some_with_timeout}
use umqtt.Nano.Client.Connecting.{expect_connack, on_received, on_read, connack_loop, read_connack}
use umqtt.Nano.Client.Reads.{
  Fits, read_no_panic, read-Stored, read-waits, receive_no_panic, receive-rx_buffer,
}

module _ {P E : Type 0} (plat : Platform P E) where
  expect_connack-no_panic :
      (n : Notification) (taken : ℕ) (c : Client P) → NoPanic (expect_connack plat n taken c).0
  unfolding expect_connack
  expect_connack-no_panic (Notification.conn_ack a) taken c = tt
  expect_connack-no_panic n taken c = tt

  -- The bytes that the receive buffer still takes.
  abbrev pub Room : Client P → ℕ → Type 0
  Room c fuel = Fits plat c × (capacity c.rx_buffer < c.rx_buffer.used + fuel)

  received-no_panic :
      (again : Client P → Outcome (Error E) ConnAck × Client P) (fuel : ℕ) (c : Client P)
      → Room c fuel
      → ((d : Client P) → Room d fuel → NoPanic (again d).0)
      → NoPanic ((receive plat >>= on_received plat again) c).0
  unfolding on_received
  received-no_panic again fuel c (v, room) step =
      bind_no_panic (receive plat) (on_received plat again) c (receive_no_panic plat c v) rest
    where
      rest :
          (r : Option (Notification × ℕ)) (d : Client P)
          → receive plat c ≡ (ok r, d)
          → NoPanic (on_received plat again r d).0
      rest none d e = step d (
          subst (λ b. IsValid b × (capacity b < b.used + fuel))
            (sym (receive-rx_buffer plat c d none e)) (v, room))
      rest (some (n, taken)) d e = expect_connack-no_panic n taken d

  connack_loop-no_panic :
      (fuel : ℕ) (c : Client P)
      → ReadFits plat
      → ReadWaits plat
      → Room c fuel
      → NoPanic (connack_loop plat fuel c).0
  unfolding connack_loop on_read
  connack_loop-no_panic zero c fits waits (v, room) = absurd (omega (arith, v, room))
  connack_loop-no_panic (suc fuel) c fits waits (v, room) =
      bind_no_panic (read_some_with_timeout plat none) (on_read plat (connack_loop plat fuel)) c
        (read_no_panic plat none c v) (rest (λ u r. connack_loop-no_panic fuel u fits waits r))
    where
      rest :
          ((u : Client P) → Room u fuel → NoPanic (connack_loop plat fuel u).0)
          → (r : Option ℕ) (d : Client P) → read_some_with_timeout plat none c ≡ (ok r, d)
          → NoPanic (on_read plat (connack_loop plat fuel) r d).0
      rest step none d e = absurd (read-waits plat c d waits v e)
      rest step (some n) d e =
          let (positive, used, valid, same) = read-Stored plat none c d n fits v e in
          let on =
            received-no_panic (connack_loop plat fuel) fuel d
              (valid, omega (arith, positive, used, same, room)) step in
          elim (Bool-cases (n == 0)) [ inl z ↦ rw z tt | inr z ↦ rw z on ]

  -- On a platform whose reads fit the buffer that they are given, and wait where they have no
  -- timeout, `read_connack` ends without a panic from every valid receive buffer.
  pub read_connack_ends :
      (c : Client P)
      → ReadFits plat
      → ReadWaits plat
      → Fits plat c
      → NoPanic (read_connack plat c).0
  unfolding read_connack
  read_connack_ends c fits waits v = connack_loop-no_panic _ c fits waits (v, omega arith)
