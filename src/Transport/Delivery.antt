-- ===== src/Transport/Delivery.antt =====
-- transport_client.rs: publishes that arrive in pieces.
use umqtt.Base.{ℕ, ◌≤◌, ◌≡◌, refl, sym, ap, ◌∙◌, arith, List, ◌∷◌, ◌++◌, length, none, some}
use umqtt.Base.Outcome.{ok}
use umqtt.PacketView.Publish
use umqtt.PacketView.Publish.{Publish, first_byte}
use umqtt.PacketView.Publish.RoundTrip.{IsWritable, encoding, body, length-body}
use umqtt.PacketView.Packet.{read}
use umqtt.PacketView.Packet.RoundTrip.{read-encoding_append}
use umqtt.PacketView.Packet.Stream.{read-prefix}
use umqtt.Transport.{
  TransportClient, Notification, connected, on_bytes_received, in_state, receive, on_packet,
  on_read_error,
}

-- The encoding of a publish arrives at a connected client in two pieces, of which the second is
-- not empty and may have other data behind it. The first piece alone makes the client wait, with
-- its state unchanged; both together make it deliver that publish and the number of bytes of the
-- encoding, with its state unchanged. The publish can be written, and its remaining length is
-- within the client's limit.
pub on_bytes_received-encoding :
    (c : TransportClient) (p : Publish) (front : List ℕ) (x : ℕ) (back rest : List ℕ)
    → c.state ≡ connected
    → IsWritable p
    → Publish.len p ≤ c.max_packet_size
    → encoding p ≡ front ++ (x ∷ back)
    → (on_bytes_received front c ≡ (ok none, c))
      × (on_bytes_received ((front ++ (x ∷ back)) ++ rest) c
          ≡ (ok (some (Notification.publish p, length (encoding p))), c))
unfolding on_bytes_received in_state receive on_packet on_read_error
on_bytes_received-encoding c p front x back rest online w fits e =
    let byte1 = first_byte p.dup p.quality p.retain in
    let (k, short, _, _) =
      read-prefix byte1 (body p) front x back c.max_packet_size
        (omega (arith, length-body p w, w.len_fits)) (omega (arith, length-body p w)) e in
    let whole = read-encoding_append p rest c.max_packet_size w fits in
    (
      rw (online, short) refl,
      rw (online, ap (λ l. read (l ++ rest) c.max_packet_size) (sym e) ∙ whole) refl,
    )
