-- ===== src/PacketView/Packet/Bare.antt =====
-- packetview/packet.rs: reading back the packets that are a fixed header alone.
use umqtt.Base.{
  ℕ, ◌/◌, ◌≤◌, ◌≡◌, refl, ap, ◌∙◌, arith, List, [], ◌∷◌, length, drop, leb, tests, Bool-cases, inl,
  inr,
}
use umqtt.Base.Outcome.{Outcome, ok, pure, ◌>>◌}
use umqtt.PacketView.{WriteError, PacketType, type_of_nibble}
use umqtt.PacketView.WriteCursor.{WriteCursor, put_slice, write_into}
use umqtt.PacketView.WriteCursor.Emits.{Emits-put_slice, Emits-pure, Emits-then, Wrote, Wrote-fits}
use umqtt.PacketView.Header.Encoding.{length_bytes}
use umqtt.PacketView.Header.RoundTrip.{frame, header_of}
use umqtt.PacketView.Ping.{write_ping_req, write_ping_resp, write_disconnect}
use umqtt.PacketView.Packet.{Packet, read, read_exact, no_payload, ping_req, ping_resp, disconnect}
use umqtt.PacketView.Packet.RoundTrip.{read-frame_append}

module _ (byte1 : ℕ) where
  read_exact-bare :
      {t : PacketType} {p : Packet}
      → type_of_nibble (byte1 / 16) ≡ ok t
      → no_payload t ≡ ok p
      → read_exact (header_of byte1 []) (frame byte1 []) ≡ ok p
  unfolding read_exact
  read_exact-bare kind e = rw kind e

  bare_written :
      (buffer : List ℕ)
      → Wrote
          (frame byte1 [])
          buffer
          (write_into {A = ℕ} (put_slice (byte1 ∷ 0x00 ∷ []) >> pure 2) buffer)
  unfolding length_bytes
  bare_written buffer =
      let emits = Emits-then (Emits-put_slice (byte1 ∷ 0x00 ∷ [])) (Emits-pure {A = ℕ} 2) in
      elim (Bool-cases (leb 2 (length buffer))) [
        | inl le ↦ rw le (
            ap (λ (q : Outcome WriteError ℕ × WriteCursor). (q.0, q.1.buffer))
              (emits.fits [] buffer (omega tests)))
        | inr gt ↦ rw gt (
            ap (λ (q : Outcome WriteError ℕ × WriteCursor). q.0)
              (emits.full [] buffer (omega tests)).1)
      ]

  -- A packet that is a fixed header alone, in front of a buffer, is read as the packet.
  read_back_bare :
      {t : PacketType} {p : Packet} (buffer : List ℕ) (max : ℕ)
      → 2 ≤ length buffer
      → type_of_nibble (byte1 / 16) ≡ ok t
      → no_payload t ≡ ok p
      → read (write_into {A = ℕ} (put_slice (byte1 ∷ 0x00 ∷ []) >> pure 2) buffer).1 max ≡ ok (p, 2)
  unfolding length_bytes
  read_back_bare buffer max room kind e =
      let read_as = read-frame_append byte1 [] (omega arith) (drop 2 buffer) max (omega arith) in
      let written = Wrote-fits (frame byte1 []) buffer _ (bare_written buffer) room in
      rw written (read_as ∙ rw (read_exact-bare kind e) refl)

pub ping_req_written : (buffer : List ℕ) → Wrote (0xc0 ∷ 0 ∷ []) buffer (write_ping_req buffer)
unfolding write_ping_req length_bytes
ping_req_written buffer = bare_written 0xc0 buffer

-- A ping request, a ping response and a disconnect, the three packets that are a fixed header
-- alone, written into a buffer of at least two bytes, are read back by `Packet::read` as the
-- same packet of two bytes under every size limit.
pub bare_round_trip :
    (buffer : List ℕ) (max : ℕ)
    → 2 ≤ length buffer
    → (read (write_ping_req buffer).1 max ≡ ok (ping_req, 2))
      × (read (write_ping_resp buffer).1 max ≡ ok (ping_resp, 2))
      × (read (write_disconnect buffer).1 max ≡ ok (disconnect, 2))
unfolding type_of_nibble no_payload write_ping_req write_ping_resp write_disconnect
bare_round_trip buffer max room = (
  read_back_bare 0xc0 buffer max room refl refl,
  read_back_bare 0xd0 buffer max room refl refl,
  read_back_bare 0xe0 buffer max room refl refl,
)
