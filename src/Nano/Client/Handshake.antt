-- ===== src/Nano/Client/Handshake.antt =====
-- nano_client.rs: what a `connect` that returns has done.
use umqtt.Base.{
  ℕ, zero, suc, ◌≡◌, arith, true, false, List, Option, none, some, ◌==◌, Bool, false, if◌then◌else◌,
  ap,
}
use umqtt.Base.Outcome.{Outcome, ok, fail, map_err_inv, ◌>>=◌, bind_inv}
use umqtt.PacketView.ConnAck.{ConnAck, is_success}
use umqtt.PacketView.Connect.{ConnectOptions}
use umqtt.Transport.{Notification, connected, TransportClient, on_bytes_received}
use umqtt.Transport.States.{
  Step, idle, waiting, accepted, refused, delivered, failed, on_bytes_received-Step,
}
use umqtt.Nano.Platform.{Platform}
use umqtt.Nano.Client.{
  Client, Error, read_error, connection_closed, used, handle_bytes, receive, read_some_with_timeout,
}
use umqtt.Nano.Client.Connecting.{
  expect_connack, on_received, on_read, connack_loop, read_connack, open_with, on_connack, connect,
}

-- A connack that the transport client passes on is a success.
conn_ack_success :
    (c t : TransportClient) (bytes : List ℕ) (a : ConnAck) (taken : ℕ)
    → on_bytes_received bytes c ≡ (ok (some (Notification.conn_ack a, taken)), t)
    → (is_success a.code ≡ true) × (t.state ≡ connected)
conn_ack_success c t bytes a taken e = by_step (on_bytes_received-Step bytes c)
  where
    by_step :
        Step c (on_bytes_received bytes c) → (is_success a.code ≡ true) × (t.state ≡ connected)
    by_step (idle s r) = cc (r, e)
    by_step (waiting s r) = cc (r, e)
    by_step (accepted b n s success r) = ground (arith, r, e, success)
    by_step (refused s r) = cc (r, e)
    by_step (delivered n k s message r) = ground (arith, r, e, message)
    by_step (failed x s w r) = cc (r, e)

module _ {P E : Type 0} (plat : Platform P E) where
  abbrev Accepted : Client P → ConnAck → Type 0
  Accepted c a = (is_success a.code ≡ true) × (c.transport.state ≡ connected)

  expect_connack-Accepted :
      (n : Notification) (taken : ℕ) (bytes : List ℕ) (t : TransportClient) (c d : Client P)
      (a : ConnAck)
      → on_bytes_received bytes t ≡ (ok (some (n, taken)), c.transport)
      → expect_connack plat n taken c ≡ (ok a, d)
      → Accepted d a
  unfolding expect_connack
  expect_connack-Accepted (Notification.conn_ack b) taken bytes t c d a h e =
      let s = conn_ack_success t c.transport bytes b taken h in ground (arith, s, e)
  expect_connack-Accepted n taken bytes t c d a h e = cc

  receive_inv :
      (c d : Client P) (n : Notification) (taken : ℕ)
      → receive plat c ≡ (ok (some (n, taken)), d)
      → (bytes : List ℕ) × (on_bytes_received bytes c.transport
          ≡ (ok (some (n, taken)), d.transport))
  unfolding receive handle_bytes
  receive_inv c d n taken h =
      let (bytes, u, e, k) = bind_inv (used plat) (handle_bytes plat) h in
      let r = on_bytes_received bytes u.transport in
      let same = ap (λ q. q.1.transport) e in
      let result = map_err_inv read_error r.0 (ap (λ q. q.0) k) in
      let after = ap (λ q. q.1.transport) k in (bytes, cc (same, result, after))

  received-Accepted :
      (again : Client P → Outcome (Error E) ConnAck × Client P) (r : Option (Notification × ℕ))
      (c u d : Client P) (a : ConnAck)
      → ((v : Client P) → again v ≡ (ok a, d) → Accepted d a)
      → receive plat c ≡ (ok r, u)
      → on_received plat again r u ≡ (ok a, d)
      → Accepted d a
  unfolding on_received
  received-Accepted again none c u d a step e h = step u h
  received-Accepted again (some (n, taken)) c u d a step e h =
      let (bytes, k) = receive_inv c u n taken e in
      expect_connack-Accepted n taken bytes c.transport u d a k h

  after_test :
      (b : Bool) (again : Client P → Outcome (Error E) ConnAck × Client P) (c d : Client P)
      (a : ConnAck)
      → ((v : Client P) → again v ≡ (ok a, d) → Accepted d a)
      → (if b then fail connection_closed else receive plat >>= on_received plat again) c
        ≡ (ok a, d)
      → Accepted d a
  after_test true again c d a step h = cc
  after_test false again c d a step h =
      let (r, u, e, k) = bind_inv (receive plat) (on_received plat again) h in
      received-Accepted again r c u d a step e k

  read-Accepted :
      (again : Client P → Outcome (Error E) ConnAck × Client P) (answer : Option ℕ) (c d : Client P)
      (a : ConnAck)
      → ((v : Client P) → again v ≡ (ok a, d) → Accepted d a)
      → on_read plat again answer c ≡ (ok a, d)
      → Accepted d a
  unfolding on_read
  read-Accepted again none c d a step h = cc
  read-Accepted again (some n) c d a step h = after_test (n == 0) again c d a step h

  connack_loop-Accepted :
      (fuel : ℕ) (c d : Client P) (a : ConnAck)
      → connack_loop plat fuel c ≡ (ok a, d)
      → Accepted d a
  unfolding connack_loop
  connack_loop-Accepted zero c d a h = cc
  connack_loop-Accepted (suc fuel) c d a h =
      let again = connack_loop plat fuel in
      let (answer, u, _, k) = bind_inv (read_some_with_timeout plat none) (on_read plat again) h in
      read-Accepted again answer u d a (λ v. connack_loop-Accepted fuel v d a) k

  on_connack-Accepted :
      (b : ConnAck) (c d : Client P) (a : ConnAck)
      → Accepted c b
      → on_connack plat b c ≡ (ok a, d)
      → Accepted d a
  unfolding on_connack
  on_connack-Accepted b c d a s h = ground (arith, s)

  -- A `connect` that returns a connack returns one whose code is success, and the client is
  -- connected. So the code of a connack that `connect` returns never reports an error.
  pub connect_lem :
      (options : ConnectOptions) (c d : Client P) (a : ConnAck)
      → connect plat options c ≡ (ok a, d)
      → (is_success a.code ≡ true) × (d.transport.state ≡ connected)
  unfolding connect read_connack
  connect_lem options c d a h =
      let (_, u, _, k) =
        bind_inv (open_with plat options) (λ done. read_connack plat >>= on_connack plat) h in
      let (b, v, e, l) = bind_inv (read_connack plat) (on_connack plat) k in
      on_connack-Accepted b v d a (connack_loop-Accepted _ u v b e) l
