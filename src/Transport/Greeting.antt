-- ===== src/Transport/Greeting.antt =====
-- transport_client.rs: the packet that ends the opening of a connection.
use umqtt.Base.{ℕ, ◌≡◌, refl, true, Bool-cases, inl, inr, List, Option, none, some}
use umqtt.Base.Outcome.{Outcome, ok, err, panic}
use umqtt.Base.Meets.{Ends}
use umqtt.PacketView.{Error, need_more_data}
use umqtt.PacketView.ConnAck.{is_success}
use umqtt.PacketView.Packet.{Packet, read}
use umqtt.Transport.{
  Notification, State, transport_connected, connected, TransportClient, Received, on_first_packet,
  on_read_error, receive, in_state, on_bytes_received,
}

-- The client goes on waiting, or the bytes begin with the connack that it reports.
abbrev pub Greets : ℕ → List ℕ → State → Option (Notification × ℕ) → State → Type 0
Greets max bytes before none after = after ≡ before
Greets max bytes before (some (Notification.conn_ack a, taken)) after =
    (read bytes max ≡ ok (Packet.conn_ack a, taken))
    × (is_success a.code ≡ true)
    × (after ≡ connected)
Greets max bytes before (some (n, taken)) after = Unit

abbrev Greeted : List ℕ → TransportClient → Received → Type 0
Greeted bytes c =
    Ends
      (λ r d.
        Greets c.max_packet_size bytes c.state r d.state × (d.max_packet_size ≡ c.max_packet_size))
      (λ d. d.max_packet_size ≡ c.max_packet_size)

module _ (bytes : List ℕ) (c : TransportClient) where
  on_first_packet-Greeted :
      (p : Packet) (taken : ℕ)
      → read bytes c.max_packet_size ≡ ok (p, taken)
      → Greeted bytes c (on_first_packet p taken c)
  unfolding on_first_packet
  on_first_packet-Greeted (Packet.conn_ack a) taken e = elim (Bool-cases (is_success a.code)) [
    | inl accepted ↦ rw accepted ((e, accepted, refl), refl)
    | inr refused ↦ rw refused (tt, refl)
  ]
  on_first_packet-Greeted p taken e = refl

  on_read_error-Greeted : (e : Error) → Greeted bytes c (on_read_error e c)
  unfolding on_read_error
  on_read_error-Greeted (need_more_data n) = (refl, refl)
  on_read_error-Greeted e = refl

  receive-Greeted :
      (r : Outcome Error (Packet × ℕ))
      → read bytes c.max_packet_size ≡ r
      → Greeted bytes c (receive on_first_packet r c)
  unfolding receive
  receive-Greeted (ok (p, taken)) e = on_first_packet-Greeted p taken e
  receive-Greeted (err x) e = on_read_error-Greeted x
  receive-Greeted panic e = refl

  in_state-Greeted : (s : State) → s ≡ transport_connected → Greeted bytes c (in_state s bytes c)
  unfolding in_state
  in_state-Greeted transport_connected opened = receive-Greeted _ refl
  in_state-Greeted s opened = cc

  pub on_bytes_received-Greeted :
      c.state ≡ transport_connected → Greeted bytes c (on_bytes_received bytes c)
  unfolding on_bytes_received
  on_bytes_received-Greeted opened = in_state-Greeted c.state opened
