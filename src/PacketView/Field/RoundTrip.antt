-- ===== src/PacketView/Field/RoundTrip.antt =====
-- packetview/mod.rs: reading back the fields of a packet.
use umqtt.Base.{
  length-take, length-drop, [], take, drop, ◌≤◌, ◌∙◌, ◌*◌, ◌+◌, ℕ, ◌%◌, ◌<◌, ◌≡◌, arith, List, ◌∷◌,
  ◌++◌, length, length-append, take-append, drop-append,
}
use umqtt.Base.Outcome.{ok}
use umqtt.PacketView.Cursor.{advance, split_to}
use umqtt.PacketView.WriteCursor.{be_bytes}
use umqtt.PacketView.WriteCursor.Emits.{Emits, Emits-then, Emits-put_u16, Emits-put_slice}
use umqtt.PacketView.Utf8.{IsStr}
use umqtt.PacketView.Field.{
  read_u8, read_u16, read_mqtt_bytes, read_mqtt_string, write_mqtt_bytes, write_mqtt_string,
}

-- A length-prefixed field.
abbrev pub mqtt_bytes : List ℕ → List ℕ
mqtt_bytes bytes = be_bytes (length bytes) ++ bytes

pub Emits-write_mqtt_bytes :
    (bytes : List ℕ) → length bytes < 65536 → Emits (write_mqtt_bytes bytes) (mqtt_bytes bytes) tt
unfolding write_mqtt_bytes
Emits-write_mqtt_bytes bytes h =
    let e : length bytes % 65536 ≡ length bytes = omega arith in
    rw e (Emits-then (Emits-put_u16 (length bytes)) (Emits-put_slice bytes))

pub Emits-write_mqtt_string :
    (s : List ℕ) → length s < 65536 → Emits (write_mqtt_string s) (mqtt_bytes s) tt
unfolding write_mqtt_string
Emits-write_mqtt_string s h = Emits-write_mqtt_bytes s h

pub read_u8-cons : (b : ℕ) (rest : List ℕ) → read_u8 (b ∷ rest) ≡ (ok b, rest)
unfolding read_u8
read_u8-cons b rest = ground arith

pub read_u16-be_bytes : (v : ℕ) (rest : List ℕ) → read_u16 (be_bytes v ++ rest) ≡ (ok v, rest)
unfolding read_u16
read_u16-be_bytes v rest = ground arith

pub read_u16-cons :
    (hi lo : ℕ) (rest : List ℕ) → read_u16 (hi ∷ lo ∷ rest) ≡ (ok (hi * 256 + lo), rest)
unfolding read_u16
read_u16-cons hi lo rest = ground arith

pub advance_lem : (n : ℕ) (s : List ℕ) → n ≤ length s → advance n s ≡ (ok tt, drop n s)
unfolding advance
advance_lem n s h = ground arith

pub split_to_lem : (n : ℕ) (s : List ℕ) → n ≤ length s → split_to n s ≡ (ok (take n s), drop n s)
unfolding split_to
split_to_lem n s h = ground arith

split_to-append : (bs rest : List ℕ) → split_to (length bs) (bs ++ rest) ≡ (ok bs, rest)
split_to-append bs rest =
    split_to_lem (length bs) (bs ++ rest) (omega (arith, length-append bs rest))
    ∙ rw (take-append bs rest, drop-append bs rest)

pub read_mqtt_bytes-mqtt_bytes :
    (bs rest : List ℕ) → read_mqtt_bytes (mqtt_bytes bs ++ rest) ≡ (ok bs, rest)
unfolding read_mqtt_bytes
read_mqtt_bytes-mqtt_bytes bs rest = ground (
  arith,
  read_u16-be_bytes (length bs) (bs ++ rest),
  split_to-append bs rest,
  length-append bs rest,
)

pub read_mqtt_string-mqtt_bytes :
    (s rest : List ℕ) → IsStr s → read_mqtt_string (mqtt_bytes s ++ rest) ≡ (ok s, rest)
unfolding read_mqtt_string
read_mqtt_string-mqtt_bytes s rest h = ground (arith, h, read_mqtt_bytes-mqtt_bytes s rest)

-- Reading a string moves the cursor forward.
pub read_mqtt_string-shorter :
    (s a t : List ℕ) → read_mqtt_string s ≡ (ok a, t) → length t < length s
unfolding read_mqtt_string read_mqtt_bytes
read_mqtt_string-shorter [] a t e = unfold read_u16 in cc
read_mqtt_string-shorter (b ∷ []) a t e = unfold read_u16 in cc
read_mqtt_string-shorter (b ∷ c ∷ s) a t e =
    ground (arith, read_u16-cons b c s, split_to_lem (b * 256 + c) s, length-drop (b * 256 + c) s)

-- A string takes two bytes more than it has.
pub read_mqtt_string-length :
    (s a t : List ℕ) → read_mqtt_string s ≡ (ok a, t) → length s ≡ 2 + length a + length t
unfolding read_mqtt_string read_mqtt_bytes
read_mqtt_string-length [] a t e = unfold read_u16 in cc
read_mqtt_string-length (b ∷ []) a t e = unfold read_u16 in cc
read_mqtt_string-length (b ∷ c ∷ s) a t e = ground (
  arith,
  read_u16-cons b c s,
  split_to_lem (b * 256 + c) s,
  length-drop (b * 256 + c) s,
  length-take (b * 256 + c) s,
)
