-- ===== src/PacketView/Field/Tame.antt =====
-- packetview/mod.rs: writing the fields of a packet without a panic.
use umqtt.Base.{
  ℕ, zero, suc, ◌+◌, ◌*◌, ◌/◌, ◌<◌, ◌≡◌, arith, tests, List, ltb, ◌==◌, Bool-cases, inl, inr, ◌%◌,
  length,
}
use umqtt.Base.Outcome.{◌>>◌}
use umqtt.PacketView.{payload_too_long}
use umqtt.PacketView.WriteCursor.{Write, WriteCursor, put_u8, put_u16, put_slice}
use umqtt.PacketView.WriteCursor.Safe.{
  Tame, TameTo, TameTo-bind, Tame-pure, Tame-fail, Tame-if, Tame-put_u8, Tame-put_u16,
  Tame-put_slice,
}
use umqtt.PacketView.Header.{write_length_loop, write_remaining_length, max_remaining_len}
use umqtt.PacketView.Field.{write_mqtt_bytes, write_mqtt_string}

-- One call after the other.
pub Tame-then :
    {A B : Type 0} (k : ℕ) (P : B → WriteCursor → Type 0) (m : Write A) (n : Write B)
    → Tame k m
    → TameTo k n P
    → TameTo k (m >> n) P
Tame-then k P m n hm hn = TameTo-bind k P m (λ _. n) hm (λ _. hn)

-- So many rounds are enough for a number below this one.
reach : ℕ → ℕ
reach zero = 128
reach (suc rounds) = 128 * reach rounds

Tame-write_length_loop :
    (k rounds x count : ℕ) → x < reach rounds → Tame k (write_length_loop (suc rounds) x count)
unfolding write_length_loop reach
Tame-write_length_loop k zero x count h =
    let done : x / 128 ≡ 0 = omega arith in
    rw done (Tame-then k _ (put_u8 _) _ (Tame-put_u8 k _) (Tame-pure k (count + 1)))
Tame-write_length_loop k (suc rounds) x count h = Tame-then k _ (put_u8 _) _ (Tame-put_u8 k _) (
    Tame-if k (x / 128 == 0) _ _ (Tame-pure k (count + 1))
      (Tame-write_length_loop k rounds (x / 128) (count + 1) (omega arith)))

pub Tame-write_remaining_length : (k n : ℕ) → Tame k (write_remaining_length n)
unfolding write_remaining_length reach
Tame-write_remaining_length k n = elim (Bool-cases (ltb max_remaining_len n)) [
  | inl long ↦ rw long (Tame-fail ℕ k payload_too_long)
  | inr fits ↦ rw fits (Tame-write_length_loop k 3 n 0 (omega tests))
]

pub Tame-write_mqtt_bytes : (k : ℕ) (bytes : List ℕ) → Tame k (write_mqtt_bytes bytes)
unfolding write_mqtt_bytes
Tame-write_mqtt_bytes k bytes =
    Tame-then k _ (put_u16 (length bytes % 65536)) (put_slice bytes) (Tame-put_u16 k _)
      (Tame-put_slice k bytes)

pub Tame-write_mqtt_string : (k : ℕ) (s : List ℕ) → Tame k (write_mqtt_string s)
unfolding write_mqtt_string
Tame-write_mqtt_string k s = Tame-write_mqtt_bytes k s
