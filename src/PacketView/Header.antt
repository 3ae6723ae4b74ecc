-- ===== src/PacketView/Header.antt =====
-- packetview/mod.rs: `check`, `parse_fixed_header`, `length` and `write_remaining_length`. A `usize`
-- has at least 32 bits: `length` stays below 2 ^ 28, so its sums do not wrap.
pub mod Encoding
pub mod RoundTrip
pub mod Framing
pub mod Prefix
pub mod Bounds
use umqtt.Base.{
  ℕ, zero, suc, ◌+◌, ◌-◌, ◌*◌, ◌/◌, ◌%◌, ◌^◌, List, [], ◌∷◌, length, ltb, ◌==◌, if◌then◌else◌,
  bit_and, bit_or,
}
use umqtt.Base.Outcome.{Outcome, ok, err, panic, pure, fail, lift, ◌>>=◌, ◌>>◌, and_then}
use umqtt.PacketView.{
  Error, FixedHeader, new_header, frame_length, need_more_data, malformed_remaining_length,
  payload_size_limit_exceeded, payload_too_long,
}
use umqtt.PacketView.WriteCursor.{Write, put_u8}

-- The loop of `length`: what the stream has left, and the variables `len`, `len_len` and `shift`.
-- The stream's end is the one way to leave it with `done` false.
unfoldable pub length_loop : List ℕ → ℕ → ℕ → ℕ → Outcome Error (ℕ × ℕ)
length_loop [] len len_len shift = err (need_more_data 1)
length_loop (byte ∷ stream) len len_len shift =
    let len' = len + bit_and byte 0x7f * 2 ^ shift in
    let more = length_loop stream len' (len_len + 1) (shift + 7) in
    if bit_and byte 0x80 == 0
    then ok (len_len + 1, len')
    else if ltb 21 (shift + 7)
    then err malformed_remaining_length
    else more

-- `length`: the number of length bytes, and the length.
unfoldable pub remaining_length : List ℕ → Outcome Error (ℕ × ℕ)
unfolding length_loop
remaining_length stream = length_loop stream 0 0 0

-- The first byte comes by `stream.next().unwrap()`.
unfoldable pub header_from : List ℕ → Outcome Error FixedHeader
header_from [] = panic
header_from (byte1 ∷ stream) =
    and_then (remaining_length stream) (λ (len_len, len). ok (new_header byte1 len_len len))

unfoldable pub parse_fixed_header : List ℕ → Outcome Error FixedHeader
parse_fixed_header stream =
    if ltb (length stream) 2 then err (need_more_data (2 - length stream)) else header_from stream

unfoldable pub check_header : FixedHeader → ℕ → ℕ → Outcome Error FixedHeader
check_header h stream_len max_packet_size =
    if ltb max_packet_size h.remaining_len
    then err (payload_size_limit_exceeded h.remaining_len)
    else if ltb stream_len (frame_length h)
    then err (need_more_data (frame_length h - stream_len))
    else ok h

-- The fixed header, if the data holds a whole packet.
unfoldable pub check : List ℕ → ℕ → Outcome Error FixedHeader
check stream max_packet_size =
    and_then (parse_fixed_header stream) (λ h. check_header h (length stream) max_packet_size)

-- The loop of `write_remaining_length` over `x` and `count`. Four rounds use up any length that
-- the guard lets through; the clause for no fuel stands for a loop that goes on.
unfoldable pub write_length_loop : ℕ → ℕ → ℕ → Write ℕ
write_length_loop zero x count = lift panic
write_length_loop (suc fuel) x count = do
  let x' = x / 128
  put_u8 (if ltb 0 x' then bit_or (x % 128) 128 else x % 128)
  if x' == 0 then pure (count + 1) else write_length_loop fuel x' (count + 1)

abbrev pub max_remaining_len : ℕ
max_remaining_len = 268435455

unfoldable pub write_remaining_length : ℕ → Write ℕ
write_remaining_length len =
    if ltb max_remaining_len len then fail payload_too_long else write_length_loop 4 len 0
