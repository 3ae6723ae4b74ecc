-- ===== src/Nano/Example/Reconnecting.antt =====
-- examples/basic.rs, `main`: the sessions of a client that connects again and again.
use umqtt.Base.{
  ℕ, ◌≡◌, sym, ap, ◌∙◌, true, Bool-cases, inl, inr, List, [], ◌∷◌, map, drop, Option, none, some,
}
use umqtt.Base.Outcome.{Outcome, ok, err, panic}
use umqtt.Base.Meets.{Ends}
use mathlib.Core.Path.{subst}
use mathlib.Core.List.{Memᴰ}
use mathlib.Core.List.Memᴰ.{head, tail}
use umqtt.PacketView.ConnAck.{ConnAck, is_success}
use umqtt.PacketView.Packet.{Packet, read}
use umqtt.Nano.Buffer.Queue.{contents}
use umqtt.Nano.Platform.{Platform, ReadFits}
use umqtt.Nano.Client.{Client, Error}
use umqtt.Nano.Serving.Recorded.{Recorded, recorded}
use umqtt.Nano.Serving.Decoding.{Decodes, messages}
use umqtt.Nano.Serving.Stream.{run_client-limit}
use umqtt.Nano.Example.{options, subscriptions, on_connected, session, comes_back, main, Session}
use umqtt.Nano.Example.Greeting.{Welcomed}
use umqtt.Nano.Example.Opening.{start_from, SameLimit}
use umqtt.Nano.Example.Stream.{connect_subscribe-Welcomed, session-Decodes}

-- A platform that `make_platform` answers, with nothing received and nothing sent.
abbrev pub untouched : {P : Type 0} → P → Recorded P
untouched p = record { inner = p; received = []; sent = [] }

abbrev pub recording : {P : Type 0} → Option P → Option (Recorded P)
recording none = none
recording (some p) = some (untouched p)

module _ {P E : Type 0} (plat : Platform P E) (fits : ReadFits plat) where
  -- Every session leaves the limit on the size of a packet as it is, also one that fails.
  on_connected-limit :
      (rounds : ℕ) (c : Client (Recorded P)) (q : Outcome (Error E) ConnAck × Client (Recorded P))
      → Ends (Welcomed (start_from c)) (SameLimit plat fits c) q
      → SameLimit plat fits c (on_connected (recorded plat) rounds q).1.2
  unfolding on_connected
  on_connected-limit rounds c (ok a, d) w =
      rw w.success (run_client-limit plat fits rounds d w.valid w.online ∙ w.limit)
  on_connected-limit rounds c (err e, d) same = same
  on_connected-limit rounds c (panic, d) same = same

  session-limit :
      (rounds : ℕ) (c : Client (Recorded P))
      → SameLimit plat fits c (session (recorded plat) rounds c).1.2
  unfolding session
  session-limit rounds c =
      on_connected-limit rounds c _ (connect_subscribe-Welcomed plat fits options subscriptions c)

  -- What a session received is the connack, and after it the packets of its notifications.
  abbrev InOrder : ℕ → ConnAck → Session (recorded plat) → Type 0
  InOrder max a s =
      (size : ℕ) × (read s.1.2.platform.received max ≡ ok (Packet.conn_ack a, size))
      × (is_success a.code ≡ true)
      × Decodes max (drop size s.1.2.platform.received) (messages s.1.0) (contents s.1.2.rx_buffer)

  session-InOrder :
      (rounds : ℕ) (p : P) (c : Client (Recorded P)) (a : ConnAck) (s : Session (recorded plat))
      → s ≡ session (recorded plat) rounds (record c { platform = untouched p })
      → s.0 ≡ ok a
      → InOrder c.transport.max_packet_size a s
  session-InOrder rounds p c a s same e =
      let c' = record c { platform = untouched p } in
      let (fresh, size, logged, opening, success, decoded) =
        session-Decodes plat fits rounds c' a (ap (λ r. r.0) (sym same) ∙ e) in
      let max = c.transport.max_packet_size in
      subst (InOrder max a) (sym same) (
        size,
        subst (λ l. read l max ≡ ok (Packet.conn_ack a, size)) (sym logged) opening,
        success,
        subst
            (λ l.
              Decodes max (drop size l) (messages (session (recorded plat) rounds c').1.0)
                (contents (session (recorded plat) rounds c').1.2.rx_buffer))
            (sym logged) decoded,
      )

  -- A client that connects again and again serves every session in order: in each session of main's
  -- loop in which `connect_subscribe` answers a connack, whatever the sessions before it left in the
  -- client, the bytes that the session received begin with that connack, whose code is a success,
  -- the notifications about packets that the inner loop reports are, one for one and in this order,
  -- the packets that follow it, and the data in the receive buffer at the end of the session is
  -- exactly what follows the last of them. The client that main starts with is arbitrary, and so
  -- are the platforms that it gets, the failures to get one, how the bytes are cut into reads and
  -- how many rounds a session has; the reads fit the buffer that they are given.
  pub main-Decodes :
      (rounds : ℕ) (made : List (Option P)) (c : Client (Recorded P)) (a : ConnAck)
      (s : Session (recorded plat))
      → Memᴰ s (main (recorded plat) rounds (map recording made) c)
      → s.0 ≡ ok a
      → (size : ℕ) × (read s.1.2.platform.received c.transport.max_packet_size
          ≡ ok (Packet.conn_ack a, size))
        × (is_success a.code ≡ true)
        × Decodes c.transport.max_packet_size
            (drop size s.1.2.platform.received)
            (messages s.1.0)
            (contents s.1.2.rx_buffer)
  unfolding main
  main-Decodes rounds [] c a s m e = elim m [ ]
  main-Decodes rounds (none ∷ made) c a s m e = main-Decodes rounds made c a s m e
  main-Decodes rounds (some p ∷ made) c a s (head same) e = session-InOrder rounds p c a s same e
  main-Decodes rounds (some p ∷ made) c a s (tail m) e =
      let c' = record c { platform = untouched p } in
      let later = session (recorded plat) rounds c' in
      elim (Bool-cases (comes_back (recorded plat) later)) [
        | inl back ↦
            subst (λ max. InOrder max a s) (session-limit rounds c')
              (main-Decodes rounds made later.1.2 a s (rw back at m) e)
        | inr over ↦ elim (rw over at m) [ ]
      ]
