-- ===== src/PacketView/SubAck/RoundTrip.antt =====
-- packetview/suback.rs: reading back a suback that was written.
use umqtt.Base.{ℕ, ◌+◌, ◌≤◌, ◌<◌, ◌≡◌, refl, arith, List, [], ◌∷◌, length, ◌++◌}
use umqtt.Base.Outcome.{ok}
use umqtt.PacketView.{at_most_once, at_least_once, exactly_once}
use umqtt.PacketView.WriteCursor.{be_bytes}
use umqtt.PacketView.WriteCursor.Emits.{
  Emits, EmitsTo, Emits-pure, Emits-then, Emits-put_u8, Emits-put_u16, Emits-last, EmitsTo-Wrote,
  Wrote,
}
use umqtt.PacketView.Field.RoundTrip.{read_u16-be_bytes}
use umqtt.PacketView.Header.{max_remaining_len}
use umqtt.PacketView.Header.Encoding.{Emits-write_remaining_length}
use umqtt.PacketView.Header.RoundTrip.{frame, header_of}
use umqtt.PacketView.Header.Framing.{advance-frame}
use umqtt.PacketView.SubAck.{
  SubscribeReasonCode, success, failure, try_from, slice, wire_bytes, codes_of, iter, SubAck, len,
  check_codes, read_exact, code_byte, write_codes, writer, write,
}

try_from-code_byte : (c : SubscribeReasonCode) → try_from (code_byte c) ≡ ok c
unfolding try_from
try_from-code_byte (success at_most_once) = refl
try_from-code_byte (success at_least_once) = refl
try_from-code_byte (success exactly_once) = refl
try_from-code_byte failure = refl

unfoldable pub codes_bytes : List SubscribeReasonCode → List ℕ
codes_bytes [] = []
codes_bytes (c ∷ cs) = code_byte c ∷ codes_bytes cs

length-codes_bytes : (cs : List SubscribeReasonCode) → length (codes_bytes cs) ≡ length cs
unfolding codes_bytes
length-codes_bytes [] = refl
length-codes_bytes (c ∷ cs) = omega (arith, length-codes_bytes cs)

codes_of-codes_bytes : (cs : List SubscribeReasonCode) → codes_of (codes_bytes cs) ≡ cs
unfolding codes_of codes_bytes
codes_of-codes_bytes [] = refl
codes_of-codes_bytes (c ∷ cs) = ground (arith, try_from-code_byte c, codes_of-codes_bytes cs)

check_codes-codes_bytes : (cs : List SubscribeReasonCode) → check_codes (codes_bytes cs) ≡ ok tt
unfolding check_codes codes_bytes
check_codes-codes_bytes [] = refl
check_codes-codes_bytes (c ∷ cs) = rw (try_from-code_byte c) (check_codes-codes_bytes cs)

Emits-write_codes : (cs : List SubscribeReasonCode) → Emits (write_codes cs) (codes_bytes cs) tt
unfolding write_codes codes_bytes
Emits-write_codes [] = Emits-pure tt
Emits-write_codes (c ∷ cs) = Emits-then (Emits-put_u8 (code_byte c)) (Emits-write_codes cs)

-- A suback made by `SubAck::new`.
abbrev pub of : ℕ → List SubscribeReasonCode → SubAck
of pkid codes = record { pkid = pkid; return_codes = slice codes }

-- The suback that is read: its return codes are the bytes of the packet.
abbrev pub on_wire : ℕ → List SubscribeReasonCode → SubAck
on_wire pkid codes = record { pkid = pkid; return_codes = wire_bytes (codes_bytes codes) }

abbrev pub body : ℕ → List SubscribeReasonCode → List ℕ
body pkid codes = be_bytes pkid ++ codes_bytes codes

module _ (pkid : ℕ) (codes : List SubscribeReasonCode) where
  pub length-body : length (body pkid codes) ≡ length codes + 2
  length-body = omega (arith, length-codes_bytes codes)

  pub SubAck_written :
      (buffer : List ℕ)
      → length codes + 2 ≤ max_remaining_len
      → Wrote (frame 0x90 (body pkid codes)) buffer (write (of pkid codes) buffer)
  unfolding write writer len iter
  SubAck_written buffer fits = EmitsTo-Wrote emits buffer
    where
      emits : EmitsTo (writer (of pkid codes)) (frame 0x90 (body pkid codes)) (length {A = ℕ})
      emits =
          let size : length (body pkid codes) ≡ 2 + length codes = omega (arith, length-body) in
          rw size (
            Emits-then (Emits-put_u8 0x90) (
              Emits-then (Emits-write_remaining_length (2 + length codes) (omega arith))
                (Emits-then (Emits-put_u16 pkid) (Emits-last (Emits-write_codes codes)))))

  pub iter-on_wire : iter (on_wire pkid codes).return_codes ≡ codes
  unfolding iter
  iter-on_wire = codes_of-codes_bytes codes

  pub read_exact-frame :
      0 < length codes
      → read_exact (header_of 0x90 (body pkid codes)) (frame 0x90 (body pkid codes))
        ≡ ok (on_wire pkid codes)
  unfolding read_exact
  read_exact-frame pos = ground (
    arith,
    pos,
    advance-frame 0x90 (body pkid codes),
    read_u16-be_bytes pkid (codes_bytes codes),
    check_codes-codes_bytes codes,
    length-codes_bytes codes,
  )
