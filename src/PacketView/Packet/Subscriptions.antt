-- ===== src/PacketView/Packet/Subscriptions.antt =====
-- packetview/packet.rs: reading back the packets with lists of topics.
use umqtt.Base.{ℕ, ◌+◌, ◌<◌, ◌≤◌, ◌≡◌, refl, arith, List, length}
use umqtt.Base.Outcome.{ok}
use umqtt.PacketView.{type_of_nibble}
use umqtt.PacketView.Header.{max_remaining_len}
use umqtt.PacketView.Header.RoundTrip.{frame}
use umqtt.PacketView.Subscribe
use umqtt.PacketView.Subscribe.{Subscribe}
use umqtt.PacketView.Unsubscribe
use umqtt.PacketView.Unsubscribe.{Unsubscribe}
use umqtt.PacketView.SubAck
use umqtt.PacketView.SubAck.{SubAck, SubscribeReasonCode, slice}
use umqtt.PacketView.Packet.{subscribe, unsubscribe, sub_ack, read, with_payload}
use umqtt.PacketView.Packet.RoundTrip.{read_back}

-- A subscribe that can be written (it has a filter, each filter is a `&str` of at most 65535 bytes,
-- and the remaining length is at most 268435455), into a buffer that has room for it, is read back
-- by `Packet::read` as a subscribe with the same packet identifier and the same filters in the
-- same order, under every size limit that its remaining length keeps.
pub subscribe_round_trip :
    (p : Subscribe) (buffer : List ℕ) (max : ℕ)
    → Subscribe.RoundTrip.IsWritable p
    → length (frame 0x82 (Subscribe.RoundTrip.body p)) ≤ length buffer
    → Subscribe.len p ≤ max
    → (q : Subscribe) × (read (Subscribe.write p buffer).1 max
        ≡ ok (subscribe q, length (frame 0x82 (Subscribe.RoundTrip.body p))))
      × (q.pkid ≡ p.pkid)
      × (Subscribe.iter q.filters ≡ Subscribe.iter p.filters)
unfolding with_payload type_of_nibble
subscribe_round_trip p buffer max w fits hm =
    let size = Subscribe.RoundTrip.length-body p in
    (
      Subscribe.RoundTrip.on_wire p,
      read_back 0x82 (Subscribe.RoundTrip.body p) (omega (arith, size, w.len_fits)) _ buffer max
          (Subscribe.RoundTrip.Subscribe_written p buffer w) fits (omega (arith, size))
          (omega arith) refl (rw (Subscribe.RoundTrip.read_exact-frame p w) refl),
      refl,
      Subscribe.RoundTrip.iter-on_wire p w,
    )

-- An unsubscribe that can be written (each topic is a `&str` of at most 65535 bytes, and the
-- remaining length is at most 268435455), into a buffer that has room for it, is read back by
-- `Packet::read` as an unsubscribe with the same packet identifier and the same topics in the same
-- order, under every size limit that its remaining length keeps.
pub unsubscribe_round_trip :
    (p : Unsubscribe) (buffer : List ℕ) (max : ℕ)
    → Unsubscribe.RoundTrip.IsWritable p
    → length (frame 0xa2 (Unsubscribe.RoundTrip.body p)) ≤ length buffer
    → Unsubscribe.len p ≤ max
    → (q : Unsubscribe) × (read (Unsubscribe.write p buffer).1 max
        ≡ ok (unsubscribe q, length (frame 0xa2 (Unsubscribe.RoundTrip.body p))))
      × (q.pkid ≡ p.pkid)
      × (Unsubscribe.iter q.topics ≡ Unsubscribe.iter p.topics)
unfolding with_payload type_of_nibble
unsubscribe_round_trip p buffer max w fits hm =
    let size = Unsubscribe.RoundTrip.length-body p in
    (
      Unsubscribe.RoundTrip.on_wire p,
      read_back 0xa2 (Unsubscribe.RoundTrip.body p) (omega (arith, size, w.len_fits)) _ buffer max
          (Unsubscribe.RoundTrip.Unsubscribe_written p buffer w) fits (omega (arith, size))
          (omega arith) refl (rw (Unsubscribe.RoundTrip.read_exact-frame p w) refl),
      refl,
      Unsubscribe.RoundTrip.iter-on_wire p w,
    )

-- A suback with at least one return code and at most 268435453, into a buffer that has room for it,
-- is read back by `Packet::read` as a suback with the same packet identifier and the same return
-- codes in the same order, under every size limit that its remaining length keeps.
pub sub_ack_round_trip :
    (pkid : ℕ) (codes : List SubscribeReasonCode) (buffer : List ℕ) (max : ℕ)
    → 0 < length codes
    → length codes + 2 ≤ max_remaining_len
    → length (frame 0x90 (SubAck.RoundTrip.body pkid codes)) ≤ length buffer
    → length codes + 2 ≤ max
    → (q : SubAck) × (read
          (SubAck.write (record { pkid = pkid; return_codes = slice codes }) buffer).1
          max
        ≡ ok (sub_ack q, length (frame 0x90 (SubAck.RoundTrip.body pkid codes))))
      × (q.pkid ≡ pkid)
      × (SubAck.iter q.return_codes ≡ codes)
unfolding with_payload type_of_nibble
sub_ack_round_trip pkid codes buffer max pos small fits hm =
    let size = SubAck.RoundTrip.length-body pkid codes in
    (
      SubAck.RoundTrip.on_wire pkid codes,
      read_back 0x90 (SubAck.RoundTrip.body pkid codes) (omega (arith, size)) _ buffer max
          (SubAck.RoundTrip.SubAck_written pkid codes buffer small) fits (omega (arith, size))
          (omega arith) refl (rw (SubAck.RoundTrip.read_exact-frame pkid codes pos) refl),
      refl,
      SubAck.RoundTrip.iter-on_wire pkid codes,
    )
