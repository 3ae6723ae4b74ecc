-- ===== src/PacketView/OutPublish.antt =====
-- packetview/publish.rs, `OutPublish`: a publish whose topic and payload are written in place by
-- functions of the application, in front of which the fixed header is put afterwards.
pub mod InPlace
pub mod Panics
pub mod Size
use umqtt.Base.{
  ℕ, ◌+◌, ◌-◌, ltb, leb, ◌==◌, if◌then◌else◌, Bool, List, [], ◌∷◌, ◌++◌, length, take, drop,
}
use umqtt.Base.Outcome.{
  Outcome, ok, err, panic, Act, pure, fail, lift, resume, and_then, map_err, ◌>>=◌, ◌>>◌,
}
use umqtt.Base.Slice.{set_index, copy_to_end, slice_range}
use umqtt.PacketView.{WriteError, payload_too_long, QoS, qos_byte, has_pkid}
use umqtt.PacketView.WriteCursor
use umqtt.PacketView.WriteCursor.{be_bytes}
use umqtt.PacketView.BorrowedBuf
use umqtt.PacketView.BorrowedBuf.{BorrowedBuf, Fill, get_len, add_slice, copy_at}
use umqtt.PacketView.Header.{write_remaining_length}
use umqtt.PacketView.Publish.{first_byte}

pub record OutPublish : Type 0 where
  pub dup : Bool
  pub quality : QoS
  pub retain : Bool
  pub pkid : ℕ

-- What the writers offer to the application's functions; a `TopicWriter` and a `PayloadWriter` are a
-- borrowed buffer.
abbrev pub is_full : BorrowedBuf → Bool
is_full b = b.len == BorrowedBuf.capacity b

-- `TopicWriter::add_str` and `PayloadWriter::add_str`
abbrev pub add_str : List ℕ → Fill (Unit {0})
add_str string = add_slice string

abbrev pub add_u8 : ℕ → Fill (Unit {0})
add_u8 byte = add_slice (byte ∷ [])

-- `core::fmt::Write::write_str`, whose error says nothing.
abbrev pub write_str : List ℕ → Act BorrowedBuf (Unit {0}) (Unit {0})
write_str s b = let (r, b') = add_str s b in (map_err (λ e. tt) r, b')

-- `buffer.len() - len_before_topic_string`, which is checked.
abbrev len_since : ℕ → Fill ℕ
len_since start b = (if leb start b.len then ok (b.len - start) else panic, b)

unfoldable pub store_topic_len : ℕ → ℕ → Fill (Unit {0})
store_topic_len start topic_len =
    if ltb 65535 topic_len then fail payload_too_long else copy_at start (be_bytes topic_len)

unfoldable pub write_topic : Fill (Unit {0}) → Fill (Unit {0})
write_topic topic = do
  topic_len_start_index ← get_len
  add_slice (0 ∷ 0 ∷ [])
  len_before_topic_string ← get_len
  topic
  topic_len ← len_since len_before_topic_string
  store_topic_len topic_len_start_index topic_len

unfoldable pub write_pkid : OutPublish → Fill (Unit {0})
write_pkid p =
    if has_pkid p.quality
    then (if p.pkid == 0 then fail WriteError.malformed_packet else add_slice (be_bytes p.pkid))
    else pure tt

-- On the borrowed buffer that `write_var_header_and_payload` makes of the output buffer.
unfoldable pub write_var_header_and_payload :
    OutPublish → Fill (Unit {0}) → Fill (Unit {0}) → Fill ℕ
write_var_header_and_payload p topic payload = do write_topic topic; write_pkid p; payload; get_len

-- The remaining length, written into an array of four bytes.
unfoldable pub remaining_len_bytes : ℕ → Outcome WriteError (List ℕ)
remaining_len_bytes value =
    let (r, c) = write_remaining_length value (WriteCursor.new (0 ∷ 0 ∷ 0 ∷ 0 ∷ [])) in
    and_then r (λ count. (WriteCursor.finish c).0)

-- The fixed header at the end of the five bytes in front of `remaining`; the index that it starts at.
unfoldable pub fixed_header : ℕ → List ℕ → List ℕ → Outcome WriteError (ℕ × List ℕ)
fixed_header byte1 remaining_len header =
    if leb (length remaining_len) 4
    then and_then (set_index (4 - length remaining_len) byte1 header) (λ h.
      and_then (copy_to_end (4 - length remaining_len + 1) remaining_len h)
        (λ h'. ok (4 - length remaining_len, h')))
    else panic

-- `write` after the remaining bytes are written, on the two parts of the output buffer.
unfoldable pub finish : OutPublish → ℕ → Act (List ℕ × List ℕ) WriteError (List ℕ)
finish p value (header, remaining) =
    let result = and_then (remaining_len_bytes value) λ remaining_len.
      and_then (fixed_header (first_byte p.dup p.quality p.retain) remaining_len header)
        λ (start, h). ok (start, 1 + start + length remaining_len + value, h) in
    finished result header remaining
  where
    finished :
        Outcome WriteError (ℕ × ℕ × List ℕ)
        → List ℕ
        → List ℕ
        → Outcome WriteError (List ℕ) × (List ℕ × List ℕ)
    finished (ok (start, end, h)) header remaining =
        (slice_range start end (h ++ remaining), (h, remaining))
    finished (err e) header remaining = (err e, (header, remaining))
    finished panic header remaining = (panic, (header, remaining))

-- The bytes of the packet, as a slice of the output buffer, and the output buffer.
unfoldable pub write :
    OutPublish → Fill (Unit {0}) → Fill (Unit {0}) → List ℕ → Outcome WriteError (List ℕ) × List ℕ
write p topic payload output =
    if leb 5 (length output)
    then (let (r, b) =
          write_var_header_and_payload p topic payload (BorrowedBuf.new (drop 5 output)) in
        let (result, (header, remaining)) = resume r (finish p) (take 5 output, b.buffer) in
        (result, header ++ remaining))
    else (panic, output)
