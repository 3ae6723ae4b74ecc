-- ===== src/PacketView/Packet/Typed.antt =====
-- packetview/packet.rs: a packet that was read out of bytes has fields in the range of their types.
use umqtt.Base.{
  ℕ, ◌≤◌, ◌<◌, ◌≡◌, refl, arith, Bool-cases, inl, inr, ◌==◌, List, length, take, length-take,
  le→leb, if◌then◌else◌, All,
}
use umqtt.Base.Outcome.{Outcome, ok, err, panic, and_then}
use umqtt.Base.Slice.{slice_to}
use mathlib.Core.Path.{subst}
use umqtt.PacketView.{Error, FixedHeader, PacketType, frame_length, packet_type}
use umqtt.PacketView.Header.{check, max_remaining_len}
use umqtt.PacketView.Header.Bounds.{IsByte, check_bounds}
use umqtt.PacketView.Field.Typed.{Bytes, All-take}
use umqtt.PacketView.Publish
use umqtt.PacketView.Publish.{Publish}
use umqtt.PacketView.Publish.RoundTrip.{IsWritable}
use umqtt.PacketView.Publish.Typed.{read_exact-IsReadAs}
use umqtt.PacketView.Packet.{Packet, read, read_exact, with_payload, no_payload}
use umqtt.PacketView.Packet.Fields.{
  IsConnect, Answers, Connect_typed, PubAck_typed, PubRec_typed, PubRel_typed, PubComp_typed,
  Subscribe_typed, SubAck_typed, Unsubscribe_typed, UnsubAck_typed,
}

-- The values that the types of the source hold: an identifier and a keep-alive are a `u16`, a string
-- is UTF-8 and, like a field of bytes, not longer than its length says. A publish moreover can be
-- written, and is within the size limit.
abbrev pub IsTyped : ℕ → Packet → Type 0
IsTyped max (Packet.connect p) = IsConnect p
IsTyped max (Packet.publish p) = IsWritable p × (Publish.len p ≤ max)
IsTyped max (Packet.pub_ack p) = p.pkid < 65536
IsTyped max (Packet.pub_rec p) = p.pkid < 65536
IsTyped max (Packet.pub_rel p) = p.pkid < 65536
IsTyped max (Packet.pub_comp p) = p.pkid < 65536
IsTyped max (Packet.subscribe p) = p.pkid < 65536
IsTyped max (Packet.sub_ack p) = p.pkid < 65536
IsTyped max (Packet.unsubscribe p) = p.pkid < 65536
IsTyped max (Packet.unsub_ack p) = p.pkid < 65536
IsTyped max p = Unit

module _ (max : ℕ) where
  answered :
      {A : Type 0} (r : Outcome Error A) (c : A → Packet) (q : Packet)
      → Answers r (λ a. IsTyped max (c a))
      → and_then r (λ p. ok (c p)) ≡ ok q
      → IsTyped max q
  answered (ok a) c q h e = let same : c a ≡ q = cc e in subst (IsTyped max) same (h a refl)
  answered (err x) c q h e = cc
  answered panic c q h e = cc

  no_payload_typed : (t : PacketType) (q : Packet) → no_payload t ≡ ok q → IsTyped max q
  unfolding no_payload
  no_payload_typed PacketType.ping_req q e =
      let same : Packet.ping_req ≡ q = cc e in subst (IsTyped max) same tt
  no_payload_typed PacketType.ping_resp q e =
      let same : Packet.ping_resp ≡ q = cc e in subst (IsTyped max) same tt
  no_payload_typed PacketType.disconnect q e =
      let same : Packet.disconnect ≡ q = cc e in subst (IsTyped max) same tt
  no_payload_typed t q e = cc

  module _ (h : FixedHeader) (bytes : List ℕ) (all : Bytes bytes)
      (whole : length bytes ≡ frame_length h) (short : h.remaining_len ≤ max_remaining_len)
      (fits : h.remaining_len ≤ max) where
    Publish_typed : Answers (Publish.read_exact h bytes) (λ p. IsWritable p × (Publish.len p ≤ max))
    Publish_typed p e =
        let (size, took, (text, pkid, present, len)) =
          read_exact-IsReadAs h bytes p (omega (arith, whole)) all e in
        (
          record {
            topic_str = text.0;
            topic_fits = text.1;
            pkid_u16 = pkid;
            pkid_of_qos = present;
            len_fits = omega (arith, took, whole, len, short);
          },
          omega (arith, took, whole, len, fits),
        )

    with_payload_typed :
        (t : PacketType) (q : Packet) → with_payload h bytes t ≡ ok q → IsTyped max q
    unfolding with_payload
    with_payload_typed PacketType.connect q e =
        answered _ _ q (Connect_typed h bytes (omega (arith, whole)) all) e
    with_payload_typed PacketType.conn_ack q e = answered _ _ q (λ a z. tt) e
    with_payload_typed PacketType.publish q e = answered _ _ q Publish_typed e
    with_payload_typed PacketType.pub_ack q e =
        answered _ _ q (PubAck_typed h bytes (omega (arith, whole)) all) e
    with_payload_typed PacketType.pub_rec q e =
        answered _ _ q (PubRec_typed h bytes (omega (arith, whole)) all) e
    with_payload_typed PacketType.pub_rel q e =
        answered _ _ q (PubRel_typed h bytes (omega (arith, whole)) all) e
    with_payload_typed PacketType.pub_comp q e =
        answered _ _ q (PubComp_typed h bytes (omega (arith, whole)) all) e
    with_payload_typed PacketType.subscribe q e =
        answered _ _ q (Subscribe_typed h bytes (omega (arith, whole)) all) e
    with_payload_typed PacketType.sub_ack q e =
        answered _ _ q (SubAck_typed h bytes (omega (arith, whole)) all) e
    with_payload_typed PacketType.unsubscribe q e =
        answered _ _ q (Unsubscribe_typed h bytes (omega (arith, whole)) all) e
    with_payload_typed PacketType.unsub_ack q e =
        answered _ _ q (UnsubAck_typed h bytes (omega (arith, whole)) all) e
    with_payload_typed PacketType.ping_req q e =
        let same : Packet.ping_req ≡ q = cc e in subst (IsTyped max) same tt
    with_payload_typed PacketType.ping_resp q e =
        let same : Packet.ping_resp ≡ q = cc e in subst (IsTyped max) same tt
    with_payload_typed PacketType.disconnect q e =
        let same : Packet.disconnect ≡ q = cc e in subst (IsTyped max) same tt

    read_exact_typed : (q : Packet) → read_exact h bytes ≡ ok q → IsTyped max q
    unfolding read_exact
    read_exact_typed q e = by_type (packet_type h) e
      where
        by_type :
            (r : Outcome Error PacketType)
            → and_then r
                (λ t. if h.remaining_len == 0 then no_payload t else with_payload h bytes t)
              ≡ ok q
            → IsTyped max q
        by_type (ok t) e = elim (Bool-cases (h.remaining_len == 0)) [
          | inl z ↦ no_payload_typed t q (rw z at e)
          | inr p ↦ with_payload_typed t q (rw p at e)
        ]
        by_type (err x) e = cc
        by_type panic e = cc

-- Whatever bytes `Packet::read` accepts, the fields of the packet are values of their types: the
-- identifier of an acknowledgement, a subscribe, a suback, an unsubscribe or an unsuback and the
-- keep-alive of a connect are 16-bit numbers; the client identifier, the topic of a last will and
-- the username are UTF-8 of at most 65535 bytes, and the message of a will and the password are no
-- longer; and a publish can be written again (its topic is UTF-8 of at most 65535 bytes, its
-- identifier is a 16-bit number that is zero exactly where QoS is 0, and it is not too long) and is
-- within the size limit.
pub read-IsTyped :
    (stream : List ℕ) (max n : ℕ) (p : Packet)
    → All IsByte stream
    → read stream max ≡ ok (p, n)
    → IsTyped max p
unfolding read
read-IsTyped stream max n p all e = by_header (check stream max) refl e
  where
    by_packet :
        (h : FixedHeader) (packet : List ℕ) (r : Outcome Error Packet)
        → Answers r (IsTyped max)
        → and_then {B = Packet × ℕ} r (λ parsed. ok (parsed, length packet)) ≡ ok (p, n)
        → IsTyped max p
    by_packet h packet (ok q) typed e =
        let same : q ≡ p = cc e in subst (IsTyped max) same (typed q refl)
    by_packet h packet (err x) typed e = cc
    by_packet h packet panic typed e = cc

    by_header :
        (r : Outcome Error FixedHeader)
        → check stream max ≡ r
        → and_then {B = Packet × ℕ} r (λ h.
          and_then {B = Packet × ℕ}
            (slice_to (frame_length h) stream)
            (λ packet. and_then (read_exact h packet) (λ parsed. ok (parsed, length packet))))
          ≡ ok (p, n)
        → IsTyped max p
    by_header (ok h) c e =
        let (_, _, short, fits, within) = check_bounds stream max h all c in
        let packet = take (frame_length h) stream in
        by_packet h packet (read_exact h packet)
          (read_exact_typed max h packet (All-take (frame_length h) stream all)
            (length-take (frame_length h) stream within) short fits)
          (rw (le→leb (frame_length h) (length stream) within) at e)
    by_header (err x) c e = cc
    by_header panic c e = cc
