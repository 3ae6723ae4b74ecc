-- ===== src/Transport/States.antt =====
-- The connection's state machine: what a call of `on_bytes_received` may answer in each state, and
-- the state that it leaves.
use umqtt.Base.{ℕ, ◌≡◌, ◌≢◌, refl, Bool, true, false, List, none, some, Bool-cases, inl, inr}
use umqtt.Base.Outcome.{Outcome, ok, err, panic, NoPanic}
use umqtt.PacketView.{Error, need_more_data}
use umqtt.PacketView.ConnAck.{ConnAck, is_success}
use umqtt.PacketView.Packet.{Packet}
use umqtt.PacketView.Packet.Safety.{read_safe}
use umqtt.Transport.{
  Notification, conn_ack, State, transport_connected, connected, TransportClient, Received,
  on_transport_closed, on_first_packet, on_packet, on_read_error, receive, in_state,
  on_bytes_received,
}

-- The notifications that pass a message of the broker on, other than a connack.
abbrev pub is_message : Notification → Bool
is_message (conn_ack a) = false
is_message Notification.disconnected = false
is_message _ = true

abbrev pub wants_more : Error → Bool
wants_more (need_more_data n) = true
wants_more e = false

-- The client `c` may answer `r`.
pub data Step (c : TransportClient) (r : Received) : Type 0 where
  idle : c.state ≡ State.disconnected → r ≡ (ok (some (Notification.disconnected, 0)), c) → Step c r
  waiting : c.state ≢ State.disconnected → r ≡ (ok none, c) → Step c r
  accepted :
      (a : ConnAck) (taken : ℕ)
      → c.state ≡ transport_connected
      → is_success a.code ≡ true
      → r ≡ (ok (some (conn_ack a, taken)), record c { state = connected })
      → Step c r
  refused :
      c.state ≡ transport_connected
      → r ≡ (ok (some (Notification.disconnected, 0)), on_transport_closed c)
      → Step c r
  delivered :
      (n : Notification) (taken : ℕ)
      → c.state ≡ connected
      → is_message n ≡ true
      → r ≡ (ok (some (n, taken)), c)
      → Step c r
  failed :
      (e : Error)
      → c.state ≢ State.disconnected
      → wants_more e ≡ false
      → r ≡ (err e, on_transport_closed c)
      → Step c r

on_read_error-Step :
    (e : Error) (c : TransportClient) → c.state ≢ State.disconnected → Step c (on_read_error e c)
unfolding on_read_error on_transport_closed
on_read_error-Step (need_more_data n) c ne = waiting ne refl
on_read_error-Step e c ne = failed e ne refl refl

on_first_packet-Step :
    (p : Packet) (taken : ℕ) (c : TransportClient)
    → c.state ≡ transport_connected
    → Step c (on_first_packet p taken c)
unfolding on_first_packet on_transport_closed
on_first_packet-Step (Packet.conn_ack a) taken c s = elim (Bool-cases (is_success a.code)) [
  | inl yes_code ↦ rw yes_code (accepted a taken s yes_code refl)
  | inr no_code ↦ rw no_code (refused s refl)
]
on_first_packet-Step p taken c s = failed _ (λ e. cc) refl refl

on_packet-Step :
    (p : Packet) (taken : ℕ) (c : TransportClient)
    → c.state ≡ connected
    → Step c (on_packet p taken c)
unfolding on_packet on_transport_closed
on_packet-Step (Packet.publish p) taken c s = delivered _ taken s refl refl
on_packet-Step (Packet.pub_ack p) taken c s = delivered _ taken s refl refl
on_packet-Step (Packet.pub_rec p) taken c s = delivered _ taken s refl refl
on_packet-Step (Packet.pub_rel p) taken c s = delivered _ taken s refl refl
on_packet-Step (Packet.pub_comp p) taken c s = delivered _ taken s refl refl
on_packet-Step (Packet.sub_ack p) taken c s = delivered _ taken s refl refl
on_packet-Step (Packet.unsub_ack p) taken c s = delivered _ taken s refl refl
on_packet-Step Packet.ping_resp taken c s = delivered _ taken s refl refl
on_packet-Step p taken c s = failed _ (λ e. cc) refl refl

receive-Step :
    (handle : Packet → ℕ → TransportClient → Received) (r : Outcome Error (Packet × ℕ))
    (c : TransportClient)
    → c.state ≢ State.disconnected
    → NoPanic r
    → ((p : Packet) (taken : ℕ) → Step c (handle p taken c))
    → Step c (receive handle r c)
unfolding receive
receive-Step handle (ok (p, taken)) c ne h step = step p taken
receive-Step handle (err e) c ne h step = on_read_error-Step e c ne
receive-Step handle panic c ne h step = absurd h

in_state-Step :
    (s : State) (bytes : List ℕ) (c : TransportClient) → c.state ≡ s → Step c (in_state s bytes c)
unfolding in_state
in_state-Step State.disconnected bytes c e = idle e refl
in_state-Step transport_connected bytes c e =
    receive-Step on_first_packet _ c (λ d. cc) (read_safe bytes c.max_packet_size)
      (λ p taken. on_first_packet-Step p taken c e)
in_state-Step connected bytes c e =
    receive-Step on_packet _ c (λ d. cc) (read_safe bytes c.max_packet_size)
      (λ p taken. on_packet-Step p taken c e)

-- On any bytes and in any state, `on_bytes_received` takes a step of the state machine: a
-- disconnected client reports that and changes nothing; an opened one waits, is accepted by a
-- connack whose code is success, is refused and disconnected, or fails and is disconnected; a
-- connected one waits, delivers a message other than a connack with its state unchanged, or fails
-- and is disconnected. No step panics, and no failure asks for more data.
pub on_bytes_received-Step :
    (bytes : List ℕ) (c : TransportClient) → Step c (on_bytes_received bytes c)
unfolding on_bytes_received
on_bytes_received-Step bytes c = in_state-Step c.state bytes c refl
