-- ===== src/PacketView/Packet/RoundTrip.antt =====
-- packetview/packet.rs: reading a packet back from the buffer that it was written to.
use umqtt.Base.{ne→==, ℕ, ◌/◌, ◌≤◌, ◌<◌, ◌≡◌, refl, ◌∙◌, arith, List, ◌++◌, length, drop}
use umqtt.Base.Outcome.{Outcome, ok, and_then}
use umqtt.Base.Slice.{slice_to-append}
use umqtt.PacketView.{WriteError, PacketType, type_of_nibble}
use umqtt.PacketView.WriteCursor.Emits.{Wrote, Wrote-fits}
use umqtt.PacketView.Header.{max_remaining_len}
use umqtt.PacketView.Header.RoundTrip.{frame, header_of, check-frame, frame_length-header_of}
use umqtt.PacketView.Packet.{Packet, with_payload, read_exact, read, publish}
use umqtt.PacketView.Publish
use umqtt.PacketView.Publish.{Publish, first_byte}
use umqtt.PacketView.Publish.RoundTrip.{
  first_byte-Fields, read_exact-encoding, length-body, write-encoding, IsWritable, encoding, body,
}

module _ (byte1 : ℕ) (body : List ℕ) (h : length body ≤ max_remaining_len) where
  -- The first packet of a stream is read from its own bytes.
  pub read-frame_append :
      (rest : List ℕ) (max : ℕ)
      → length body ≤ max
      → read (frame byte1 body ++ rest) max
        ≡ and_then
            (read_exact (header_of byte1 body) (frame byte1 body))
            (λ parsed. ok (parsed, length (frame byte1 body)))
  unfolding read
  read-frame_append rest max hm =
      rw
        (
          check-frame byte1 body rest max h hm,
          slice_to-append (frame byte1 body) rest _ (frame_length-header_of byte1 body),
        )
        refl

  with_payload_eq :
      {t : PacketType}
      → type_of_nibble (byte1 / 16) ≡ ok t
      → 0 < length body
      → read_exact (header_of byte1 body) (frame byte1 body)
        ≡ with_payload (header_of byte1 body) (frame byte1 body) t
  unfolding read_exact
  with_payload_eq kind pos = rw (kind, ne→== (length body) 0 (λ z. omega arith))

  -- The packet's own bytes in front of a buffer are read as the packet.
  pub read_back :
      {t : PacketType} {p : Packet} (r : Outcome WriteError ℕ × List ℕ) (buffer : List ℕ) (max : ℕ)
      → Wrote (frame byte1 body) buffer r
      → length (frame byte1 body) ≤ length buffer
      → length body ≤ max
      → 0 < length body
      → type_of_nibble (byte1 / 16) ≡ ok t
      → with_payload (header_of byte1 body) (frame byte1 body) t ≡ ok p
      → read r.1 max ≡ ok (p, length (frame byte1 body))
  read_back r buffer max w fits hm pos kind e =
      let written = Wrote-fits (frame byte1 body) buffer r w fits in
      let read_as = read-frame_append (drop (length (frame byte1 body)) buffer) max hm in
      rw written (read_as ∙ rw (with_payload_eq kind pos ∙ e))

-- A publish that can be written, into a buffer that has room for its encoding, is read back by
-- `Packet::read` as the same publish under every size limit that its remaining length keeps; the
-- bytes that are taken are those of the encoding.
pub publish_round_trip :
    (p : Publish) (buffer : List ℕ) (max : ℕ)
    → IsWritable p
    → length (encoding p) ≤ length buffer
    → Publish.len p ≤ max
    → read (Publish.write p buffer).1 max ≡ ok (publish p, length (encoding p))
unfolding with_payload
publish_round_trip p buffer max w fits hm =
    read_back (first_byte p.dup p.quality p.retain) (body p)
      (omega (arith, length-body p w, w.len_fits)) _ buffer max (write-encoding p buffer w) fits
      (omega (arith, length-body p w)) (omega arith)
      (first_byte-Fields p.dup p.quality p.retain).kind (rw (read_exact-encoding p w))

-- The encoding of a publish in front of a stream is read as the publish.
pub read-encoding_append :
    (p : Publish) (rest : List ℕ) (max : ℕ)
    → IsWritable p
    → Publish.len p ≤ max
    → read (encoding p ++ rest) max ≡ ok (publish p, length (encoding p))
unfolding with_payload
read-encoding_append p rest max w hm =
    let byte1 = first_byte p.dup p.quality p.retain in
    let kind = (first_byte-Fields p.dup p.quality p.retain).kind in
    read-frame_append byte1 (body p) (omega (arith, length-body p w, w.len_fits)) rest max
      (omega (arith, length-body p w))
    ∙ rw
        (
          with_payload_eq byte1 (body p) (omega (arith, length-body p w, w.len_fits)) kind
              (omega (arith, length-body p w)),
          read_exact-encoding p w,
        )
        refl
