-- ===== src/PacketView/Packet/Acks.antt =====
-- packetview/packet.rs: reading back the acknowledgements.
use umqtt.Base.{
  ℕ, ◌≤◌, ◌≡◌, refl, arith, Bool, true, false, List, [], ◌∷◌, length, if◌then◌else◌, ◌==◌, bit_and,
}
use umqtt.Base.Outcome.{ok}
use umqtt.PacketView.{type_of_nibble}
use umqtt.PacketView.WriteCursor.{be_bytes}
use umqtt.PacketView.WriteCursor.Emits.{
  Emits-then, Emits-last, Emits-put_u8, Emits-put_u16, Emits-put_slice, EmitsTo-Wrote, Wrote-fits,
  Wrote, Wrote-fits,
}
use umqtt.PacketView.Field.RoundTrip.{read_u16-be_bytes, read_u8-cons}
use umqtt.PacketView.Header.Encoding.{Emits-write_remaining_length, length_bytes}
use umqtt.PacketView.Header.RoundTrip.{frame, header_of}
use umqtt.PacketView.Header.Framing.{advance-frame}
use umqtt.PacketView.PubAck
use umqtt.PacketView.PubAck.{PubAck}
use umqtt.PacketView.PubRec
use umqtt.PacketView.PubRec.{PubRec}
use umqtt.PacketView.PubRel
use umqtt.PacketView.PubRel.{PubRel}
use umqtt.PacketView.PubComp
use umqtt.PacketView.PubComp.{PubComp}
use umqtt.PacketView.UnsubAck
use umqtt.PacketView.UnsubAck.{UnsubAck}
use umqtt.PacketView.ConnAck
use umqtt.PacketView.ConnAck.{
  ConnAck, ConnectReturnCode, code_byte, connect_return, success, refused_protocol_version,
  bad_client_id, service_unavailable, bad_user_name_password, not_authorized,
}
use umqtt.PacketView.Packet.{
  read, with_payload, conn_ack, pub_ack, pub_rec, pub_rel, pub_comp, unsub_ack,
}
use umqtt.PacketView.Packet.RoundTrip.{read_back}

-- A packet that is a first byte and a packet identifier.
abbrev pub pkid_frame : ℕ → ℕ → List ℕ
pkid_frame byte1 pkid = frame byte1 (be_bytes pkid)

pub PubAck_written :
    (p : PubAck) (buffer : List ℕ) → Wrote (pkid_frame 0x40 p.pkid) buffer (PubAck.write p buffer)
unfolding PubAck.write
PubAck_written p buffer =
    EmitsTo-Wrote
      (Emits-then (Emits-put_u8 0x40) (
        Emits-then (Emits-write_remaining_length 2 (omega arith))
          (Emits-last (Emits-put_u16 p.pkid))))
      buffer

PubAck_read :
    (p : PubAck)
    → PubAck.read_exact (header_of 0x40 (be_bytes p.pkid)) (pkid_frame 0x40 p.pkid) ≡ ok p
unfolding PubAck.read_exact
PubAck_read p = ground (arith, advance-frame 0x40 (be_bytes p.pkid), read_u16-be_bytes p.pkid [])

pub PubRec_written :
    (p : PubRec) (buffer : List ℕ) → Wrote (pkid_frame 0x50 p.pkid) buffer (PubRec.write p buffer)
unfolding PubRec.write
PubRec_written p buffer =
    EmitsTo-Wrote
      (Emits-then (Emits-put_u8 0x50) (
        Emits-then (Emits-write_remaining_length 2 (omega arith))
          (Emits-last (Emits-put_u16 p.pkid))))
      buffer

PubRec_read :
    (p : PubRec)
    → PubRec.read_exact (header_of 0x50 (be_bytes p.pkid)) (pkid_frame 0x50 p.pkid) ≡ ok p
unfolding PubRec.read_exact
PubRec_read p = ground (arith, advance-frame 0x50 (be_bytes p.pkid), read_u16-be_bytes p.pkid [])

PubRel_written :
    (p : PubRel) (buffer : List ℕ) → Wrote (pkid_frame 0x62 p.pkid) buffer (PubRel.write p buffer)
unfolding PubRel.write
PubRel_written p buffer =
    EmitsTo-Wrote
      (Emits-then (Emits-put_u8 0x62) (
        Emits-then (Emits-write_remaining_length 2 (omega arith))
          (Emits-last (Emits-put_u16 p.pkid))))
      buffer

PubRel_read :
    (p : PubRel)
    → PubRel.read_exact (header_of 0x62 (be_bytes p.pkid)) (pkid_frame 0x62 p.pkid) ≡ ok p
unfolding PubRel.read_exact
PubRel_read p = ground (arith, advance-frame 0x62 (be_bytes p.pkid), read_u16-be_bytes p.pkid [])

pub PubComp_written :
    (p : PubComp) (buffer : List ℕ) → Wrote (pkid_frame 0x70 p.pkid) buffer (PubComp.write p buffer)
unfolding PubComp.write
PubComp_written p buffer =
    EmitsTo-Wrote
      (Emits-then (Emits-put_u8 0x70) (
        Emits-then (Emits-write_remaining_length 2 (omega arith))
          (Emits-last (Emits-put_u16 p.pkid))))
      buffer

PubComp_read :
    (p : PubComp)
    → PubComp.read_exact (header_of 0x70 (be_bytes p.pkid)) (pkid_frame 0x70 p.pkid) ≡ ok p
unfolding PubComp.read_exact
PubComp_read p = ground (arith, advance-frame 0x70 (be_bytes p.pkid), read_u16-be_bytes p.pkid [])

UnsubAck_written :
    (p : UnsubAck) (buffer : List ℕ)
    → Wrote (pkid_frame 0xb0 p.pkid) buffer (UnsubAck.write p buffer)
unfolding UnsubAck.write length_bytes
UnsubAck_written p buffer =
    EmitsTo-Wrote
      (Emits-then (Emits-put_slice (0xb0 ∷ 0x02 ∷ [])) (Emits-last (Emits-put_u16 p.pkid))) buffer

UnsubAck_read :
    (p : UnsubAck)
    → UnsubAck.read_exact (header_of 0xb0 (be_bytes p.pkid)) (pkid_frame 0xb0 p.pkid) ≡ ok p
unfolding UnsubAck.read_exact
UnsubAck_read p = ground (arith, advance-frame 0xb0 (be_bytes p.pkid), read_u16-be_bytes p.pkid [])

-- Each of the five packets that hold a packet identifier only, written into a buffer of at least
-- four bytes, is read back by `Packet::read` as the same packet of four bytes under every size
-- limit of at least two.
pub acks_round_trip :
    (pkid : ℕ) (buffer : List ℕ) (max : ℕ)
    → 4 ≤ length buffer
    → 2 ≤ max
    → (read (PubAck.write (record { pkid = pkid }) buffer).1 max
        ≡ ok (pub_ack (record { pkid = pkid }), 4))
      × (read (PubRec.write (record { pkid = pkid }) buffer).1 max
          ≡ ok (pub_rec (record { pkid = pkid }), 4))
      × (read (PubRel.write (record { pkid = pkid }) buffer).1 max
          ≡ ok (pub_rel (record { pkid = pkid }), 4))
      × (read (PubComp.write (record { pkid = pkid }) buffer).1 max
          ≡ ok (pub_comp (record { pkid = pkid }), 4))
      × (read (UnsubAck.write (record { pkid = pkid }) buffer).1 max
          ≡ ok (unsub_ack (record { pkid = pkid }), 4))
unfolding with_payload type_of_nibble length_bytes
acks_round_trip pkid buffer max room hm = (
  read_back 0x40 (be_bytes pkid) (omega arith) _ buffer max (PubAck_written _ buffer) room hm
      (omega arith) refl (rw (PubAck_read (record { pkid = pkid }))),
  read_back 0x50 (be_bytes pkid) (omega arith) _ buffer max (PubRec_written _ buffer) room hm
      (omega arith) refl (rw (PubRec_read (record { pkid = pkid }))),
  read_back 0x62 (be_bytes pkid) (omega arith) _ buffer max (PubRel_written _ buffer) room hm
      (omega arith) refl (rw (PubRel_read (record { pkid = pkid }))),
  read_back 0x70 (be_bytes pkid) (omega arith) _ buffer max (PubComp_written _ buffer) room hm
      (omega arith) refl (rw (PubComp_read (record { pkid = pkid }))),
  read_back 0xb0 (be_bytes pkid) (omega arith) _ buffer max (UnsubAck_written _ buffer) room hm
      (omega arith) refl (rw (UnsubAck_read (record { pkid = pkid }))),
)

abbrev pub conn_ack_body : ConnAck → List ℕ
conn_ack_body p = (if p.session_present then 1 else 0) ∷ code_byte p.code ∷ []

connect_return-code_byte : (c : ConnectReturnCode) → connect_return (code_byte c) ≡ ok c
unfolding connect_return
connect_return-code_byte success = refl
connect_return-code_byte _ = refl

ConnAck_written :
    (p : ConnAck) (buffer : List ℕ)
    → Wrote (frame 0x20 (conn_ack_body p)) buffer (ConnAck.write p buffer)
unfolding ConnAck.write
ConnAck_written p buffer =
    EmitsTo-Wrote
      (Emits-then (Emits-put_u8 0x20) (
        Emits-then (Emits-write_remaining_length 2 (omega arith))
          (Emits-then (Emits-put_u8 _) (Emits-last (Emits-put_u8 (code_byte p.code))))))
      buffer

session_flag : (b : Bool) → (bit_and (if b then 1 else 0) 0x01 == 1) ≡ b
session_flag true = refl
session_flag false = refl

ConnAck_read :
    (p : ConnAck)
    → ConnAck.read_exact (header_of 0x20 (conn_ack_body p)) (frame 0x20 (conn_ack_body p)) ≡ ok p
unfolding ConnAck.read_exact
ConnAck_read p = ground (
  arith,
  advance-frame 0x20 (conn_ack_body p),
  read_u8-cons (if p.session_present then 1 else 0) (code_byte p.code ∷ []),
  read_u8-cons (code_byte p.code) [],
  connect_return-code_byte p.code,
  session_flag p.session_present,
)

-- A connack with any return code and session flag, written into a buffer of at least four bytes,
-- is read back by `Packet::read` as the same packet of four bytes under every size limit of at
-- least two.
pub conn_ack_round_trip :
    (p : ConnAck) (buffer : List ℕ) (max : ℕ)
    → 4 ≤ length buffer
    → 2 ≤ max
    → read (ConnAck.write p buffer).1 max ≡ ok (conn_ack p, 4)
unfolding with_payload type_of_nibble length_bytes
conn_ack_round_trip p buffer max room hm =
    read_back 0x20 (conn_ack_body p) (omega arith) _ buffer max (ConnAck_written p buffer) room hm
      (omega arith) refl (rw (ConnAck_read p))

-- The bytes of a connack are read as it.
pub read-conn_ack :
    (p : ConnAck) (max : ℕ) → 2 ≤ max → read (frame 0x20 (conn_ack_body p)) max ≡ ok (conn_ack p, 4)
unfolding length_bytes
read-conn_ack p max hm =
    let four : List ℕ = 0 ∷ 0 ∷ 0 ∷ 0 ∷ [] in
    let written =
      Wrote-fits (frame 0x20 (conn_ack_body p)) four _ (ConnAck_written p four) (omega arith) in
    rw written at (conn_ack_round_trip p four max (omega arith) hm)
