-- ===== src/Nano/Client/Waiting.antt =====
-- nano_client.rs: whether the loop of `next_notification` ends.
use umqtt.Base.{
  ℕ, zero, suc, ◌≡◌, ◌≢◌, refl, ap, ◌∙◌, arith, Bool, true, false, Option, none, some, Bool-cases,
  inl, inr, if◌then◌else◌,
}
use umqtt.Base.Outcome.{Outcome, ok, err, panic, NoPanic, pure, bind_inv, bind_no_panic, ◌>>=◌}
use mathlib.Core.Path.{subst}
use umqtt.Transport.{is_disconnected, Notification}
use umqtt.Nano.Buffer.{capacity}
use umqtt.Nano.Buffer.Queue.{IsValid, used_slice_lem}
use umqtt.Nano.Platform.{Platform, ReadFits}
use umqtt.Nano.Client.{Client, Error, used, receive}
use umqtt.Nano.Client.Receiving.{
  is_ok, framed, on_wait, wait, notification_loop, notification_of, on_framed, next_notification,
}
use umqtt.PacketView
use umqtt.PacketView.Header.Bounds.{check-ne-panic}
use umqtt.Nano.Client.Reads.{Fits, Stored, read_no_panic, read-Stored, receive_no_panic}
use umqtt.Nano.Client.Progress.{Room}

module _ {P E : Type 0} (plat : Platform P E) where
  is_ok_no_panic :
      (r : Outcome PacketView.Error PacketView.FixedHeader) → r ≢ panic → NoPanic (is_ok plat r)
  unfolding is_ok
  is_ok_no_panic (ok h) ne = tt
  is_ok_no_panic (err e) ne = tt
  is_ok_no_panic panic ne = ne refl

  framed_no_panic : (c : Client P) → Fits plat c → NoPanic (framed plat c).0
  unfolding framed
  framed_no_panic c v =
      rw (used_slice_lem {E = Error E} c.rx_buffer v) (is_ok_no_panic _ (check-ne-panic _ _))

  wait-Stored :
      (c d : Client P) (n : ℕ)
      → ReadFits plat
      → Fits plat c
      → wait plat c ≡ (ok (some n), d)
      → Stored plat c n d
  unfolding wait
  wait-Stored c d n fits v h = read-Stored plat _ (record c { platform = _ }) d n fits v h

  after_framed :
      (fuel : ℕ) (d : Client P)
      → Fits plat d
      → NoPanic (notification_loop plat fuel d).0
      → NoPanic
          ((framed plat >>= λ done. if done then pure true else notification_loop plat fuel) d).0
  unfolding framed
  after_framed fuel d v h =
      bind_no_panic (framed plat) (λ done. if done then pure true else notification_loop plat fuel)
        d (framed_no_panic d v) rest
    where
      rest :
          (done : Bool) (u : Client P)
          → framed plat d ≡ (ok done, u)
          → NoPanic ((if done then pure true else notification_loop plat fuel) u).0
      rest true u e = tt
      rest false u e = subst (λ x. NoPanic (notification_loop plat fuel x).0) (ap (λ q. q.1) e) h

  notification_loop-no_panic :
      (fuel : ℕ) (c : Client P)
      → ReadFits plat
      → Room plat c fuel
      → NoPanic (notification_loop plat fuel c).0
  unfolding notification_loop on_wait wait
  notification_loop-no_panic zero c fits (v, room) = absurd (omega (arith, v, room))
  notification_loop-no_panic (suc fuel) c fits (v, room) =
      bind_no_panic (wait plat) (on_wait plat (notification_loop plat fuel)) c
        (read_no_panic plat _ (record c { platform = _ }) v)
        (rest (λ u r. notification_loop-no_panic fuel u fits r))
    where
      rest :
          ((u : Client P) → Room plat u fuel → NoPanic (notification_loop plat fuel u).0)
          → (r : Option ℕ) (d : Client P) → wait plat c ≡ (ok r, d)
          → NoPanic (on_wait plat (notification_loop plat fuel) r d).0
      rest step none d e = tt
      rest step (some n) d e =
          let (positive, used, valid, same) = wait-Stored c d n fits v e in
          let on = step d (valid, omega (arith, positive, used, same, room)) in
          after_framed fuel d valid on

  framed-Fits :
      (again : Client P → Outcome (Error E) Bool × Client P) (done b : Bool) (c u d : Client P)
      → Fits plat c
      → ((v : Client P) → Fits plat v → again v ≡ (ok b, d) → Fits plat d)
      → framed plat c ≡ (ok done, u)
      → (if done then pure true else again) u ≡ (ok b, d)
      → Fits plat d
  unfolding framed
  framed-Fits again true b c u d v step e h =
      let p = ap (λ q. q.1.rx_buffer) e in
      let r = ap (λ q. q.1.rx_buffer) h in subst IsValid (p ∙ r) v
  framed-Fits again false b c u d v step e h =
      step u (subst IsValid (ap (λ q. q.1.rx_buffer) e) v) h

  wait-Fits :
      (again : Client P → Outcome (Error E) Bool × Client P) (r : Option ℕ) (b : Bool)
      (c u d : Client P)
      → ReadFits plat
      → Fits plat c
      → ((v : Client P) → Fits plat v → again v ≡ (ok b, d) → Fits plat d)
      → wait plat c ≡ (ok r, u)
      → on_wait plat again r u ≡ (ok b, d)
      → b ≡ true
      → Fits plat d
  unfolding on_wait
  wait-Fits again none b c u d fits v step e h t = cc
  wait-Fits again (some n) b c u d fits v step e h t =
      let (_, _, valid, _) = wait-Stored c u n fits v e in
      let (done, w, k, l) = bind_inv (framed plat) (λ done. if done then pure true else again) h in
      framed-Fits again done b u w d valid step k l

  notification_loop-Fits :
      (fuel : ℕ) (c d : Client P)
      → ReadFits plat
      → Fits plat c
      → notification_loop plat fuel c ≡ (ok true, d)
      → Fits plat d
  unfolding notification_loop
  notification_loop-Fits zero c d fits v h = cc
  notification_loop-Fits (suc fuel) c d fits v h =
      let again = notification_loop plat fuel in
      let (r, u, e, k) = bind_inv (wait plat) (on_wait plat again) h in
      wait-Fits again r true c u d fits v (λ w x. notification_loop-Fits fuel w d fits x) e k refl

  notification_of-no_panic :
      (r : Option (Notification × ℕ)) (c : Client P) → NoPanic (notification_of plat r c).0
  unfolding notification_of
  notification_of-no_panic none c = tt
  notification_of-no_panic (some (n, taken)) c = tt

  -- On a platform whose reads fit the buffer that they are given, `next_notification` ends without
  -- a panic from every valid receive buffer, whatever the state of the client is.
  pub next_notification_ends :
      (c : Client P) → ReadFits plat → Fits plat c → NoPanic (next_notification plat c).0
  unfolding next_notification on_framed
  next_notification_ends c fits v = elim (Bool-cases (is_disconnected c.transport)) [
    | inl e ↦ rw e tt
    | inr e ↦ rw e (
        bind_no_panic (notification_loop plat _) (on_framed plat) c
          (notification_loop-no_panic _ c fits (v, omega arith)) rest)
  ]
    where
      rest :
          (b : Bool) (d : Client P)
          → notification_loop plat (suc (capacity c.rx_buffer)) c ≡ (ok b, d)
          → NoPanic (on_framed plat b d).0
      rest true d e =
          bind_no_panic (receive plat) (notification_of plat) d
            (receive_no_panic plat d (notification_loop-Fits _ c d fits v e))
            (λ r u _. notification_of-no_panic r u)
      rest false d e = tt
