-- ===== src/PacketView/Publish/RoundTrip.antt =====
-- packetview/publish.rs: writing a publish and reading it back.
use umqtt.Base.{
  ℕ, ◌/◌, ◌≤◌, ◌<◌, ◌≡◌, refl, inl, inr, Bool-cases, arith, ◌==◌, if◌then◌else◌, Bool, true, false,
  not, List, [], ◌++◌, length, bit_and, length-append,
}
use umqtt.Base.Outcome.{ok}
use umqtt.PacketView.{type_of_nibble, publish, QoS, qos, has_pkid, at_most_once, at_least_once}
use umqtt.PacketView.Utf8.{IsStr}
use umqtt.PacketView.WriteCursor.{be_bytes}
use umqtt.PacketView.WriteCursor.Emits.{
  Emits, EmitsTo, Emits-pure, Emits-then, Emits-put_u8, Emits-put_u16, Emits-put_slice, Emits-last,
  EmitsTo-Wrote, Wrote,
}
use umqtt.PacketView.Field.RoundTrip.{
  mqtt_bytes, Emits-write_mqtt_string, read_u16-be_bytes, read_mqtt_string-mqtt_bytes,
}
use umqtt.PacketView.Header.{max_remaining_len}
use umqtt.PacketView.Header.Encoding.{Emits-write_remaining_length}
use umqtt.PacketView.Header.RoundTrip.{frame, header_of}
use umqtt.PacketView.Header.Framing.{advance-frame}
use umqtt.PacketView.Publish.{Publish, first_byte, read_exact, len, write_pkid, writer, write}

-- A publish that the source can hold and write: the topic is a `&str` of at most 65535 bytes, the
-- identifier is a `u16` that is there exactly where QoS > 0, and the packet is not too long.
pub record IsWritable (p : Publish) : Type 0 where
  pub topic_str : IsStr p.topic
  pub topic_fits : length p.topic < 65536
  pub pkid_u16 : p.pkid < 65536
  pub pkid_of_qos : (p.pkid == 0) ≡ not (has_pkid p.quality)
  pub len_fits : len p ≤ max_remaining_len

abbrev pub pkid_bytes : Publish → List ℕ
pkid_bytes p = if has_pkid p.quality then be_bytes p.pkid else []

abbrev pub body : Publish → List ℕ
body p = mqtt_bytes p.topic ++ (pkid_bytes p ++ p.payload)

pub length-body : (p : Publish) → IsWritable p → length (body p) ≡ len p
unfolding len
length-body p w = ground (arith, length-append p.topic (pkid_bytes p ++ p.payload))

Emits-write_pkid : (p : Publish) → IsWritable p → Emits (write_pkid p) (pkid_bytes p) tt
unfolding write_pkid
Emits-write_pkid p w = elim (Bool-cases (has_pkid p.quality)) [
  | inl some_qos ↦
      let ne : (p.pkid == 0) ≡ false = rw some_qos at w.pkid_of_qos in
      rw (some_qos, ne) (Emits-put_u16 p.pkid)
  | inr no_qos ↦ rw no_qos (Emits-pure tt)
]

abbrev pub encoding : Publish → List ℕ
encoding p = frame (first_byte p.dup p.quality p.retain) (body p)

-- A publish that can be written is written as its encoding: the first byte, the remaining length
-- and the body at the front of the buffer with the rest unchanged, and the number of bytes is
-- answered; or `NotEnoughCapacity` is, if the buffer is shorter than the encoding.
pub write-encoding :
    (p : Publish) (buffer : List ℕ) → IsWritable p → Wrote (encoding p) buffer (write p buffer)
unfolding write writer
write-encoding p buffer w = EmitsTo-Wrote emits buffer
  where
    emits : EmitsTo (writer p) (encoding p) (length {A = ℕ})
    emits = rw (length-body p w) (
        Emits-then (Emits-put_u8 _) (
          Emits-then (Emits-write_remaining_length (len p) w.len_fits) (
            Emits-then (Emits-write_mqtt_string p.topic w.topic_fits)
              (Emits-then (Emits-write_pkid p w) (Emits-last (Emits-put_slice p.payload))))))

-- The type and the flags of the first byte, as they are taken out of it.
pub record Fields (dup : Bool) (q : QoS) (retain : Bool) (byte : ℕ) : Type 0 where
  pub kind : type_of_nibble (byte / 16) ≡ ok publish
  pub quality : qos (bit_and byte 0x06 / 2) ≡ ok q
  pub dup_flag : not (bit_and byte 0x08 == 0) ≡ dup
  pub retain_flag : not (bit_and byte 0x01 == 0) ≡ retain

pub first_byte-Fields :
    (dup : Bool) (q : QoS) (retain : Bool) → Fields dup q retain (first_byte dup q retain)
unfolding qos type_of_nibble
first_byte-Fields true at_most_once true = record {
  kind = refl;
  quality = refl;
  dup_flag = refl;
  retain_flag = refl;
}
first_byte-Fields true at_most_once false = record {
  kind = refl;
  quality = refl;
  dup_flag = refl;
  retain_flag = refl;
}
first_byte-Fields false at_most_once true = record {
  kind = refl;
  quality = refl;
  dup_flag = refl;
  retain_flag = refl;
}
first_byte-Fields false at_most_once false = record {
  kind = refl;
  quality = refl;
  dup_flag = refl;
  retain_flag = refl;
}
first_byte-Fields true at_least_once true = record {
  kind = refl;
  quality = refl;
  dup_flag = refl;
  retain_flag = refl;
}
first_byte-Fields true at_least_once false = record {
  kind = refl;
  quality = refl;
  dup_flag = refl;
  retain_flag = refl;
}
first_byte-Fields false at_least_once true = record {
  kind = refl;
  quality = refl;
  dup_flag = refl;
  retain_flag = refl;
}
first_byte-Fields false at_least_once false = record {
  kind = refl;
  quality = refl;
  dup_flag = refl;
  retain_flag = refl;
}
first_byte-Fields _ _ true = record {
  kind = refl;
  quality = refl;
  dup_flag = refl;
  retain_flag = refl;
}
first_byte-Fields _ _ false = record {
  kind = refl;
  quality = refl;
  dup_flag = refl;
  retain_flag = refl;
}

pub read_exact-encoding :
    (p : Publish)
    → IsWritable p
    → read_exact (header_of (first_byte p.dup p.quality p.retain) (body p)) (encoding p) ≡ ok p
unfolding read_exact
read_exact-encoding p w =
    let f = first_byte-Fields p.dup p.quality p.retain in
    ground (
      arith,
      f.quality,
      f.dup_flag,
      f.retain_flag,
      advance-frame (first_byte p.dup p.quality p.retain) (body p),
      read_mqtt_string-mqtt_bytes p.topic (pkid_bytes p ++ p.payload) w.topic_str,
      read_u16-be_bytes p.pkid p.payload,
    )
