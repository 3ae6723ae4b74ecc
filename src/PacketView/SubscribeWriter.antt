-- ===== src/PacketView/SubscribeWriter.antt =====
-- packetview/subscribe.rs, `SubscribeWriter`: filters that are written into a borrowed buffer in place.
pub mod Filters
pub mod Tame
use umqtt.Base.{ℕ, ◌+◌, ◌-◌, ◌/◌, ◌%◌, leb, ltb, ◌==◌, Bool, if◌then◌else◌, List, [], ◌∷◌, length}
use umqtt.Base.Outcome.{Outcome, ok, err, panic, Act, pure, fail, ◌>>=◌, ◌>>◌}
use umqtt.Base.Slice.{copy_from_slice, index, set_index}
use umqtt.PacketView.{WriteError, not_enough_capacity, payload_too_long, QoS, qos_byte}
use umqtt.PacketView.WriteCursor.{be_bytes}
use umqtt.PacketView.BorrowedBuf.{BorrowedBuf, Fill, get_len, add_slice, set_byte}

-- `SubscribeWriter::add_str`
unfoldable pub add_str : List ℕ → QoS → Fill (Unit {0})
add_str topic q =
    if ltb 65535 (length topic)
    then fail payload_too_long
    else do add_slice (be_bytes (length topic)); add_slice topic; add_slice (qos_byte q ∷ [])

-- The loop of `add_separated`: the separator follows every part but the last.
add_parts : List (List ℕ) → List ℕ → Fill (Unit {0})
add_parts [] separator = pure tt
add_parts (part ∷ []) separator = add_slice part
add_parts (part ∷ parts) separator = do
  add_slice part
  add_slice separator
  add_parts parts separator

finish_separated : ℕ → ℕ → QoS → Fill (Unit {0})
finish_separated start_len len q = if ltb 65535 len then fail payload_too_long else do
  set_byte start_len (len / 256)
  set_byte (start_len + 1) (len % 256)
  add_slice (qos_byte q ∷ [])

-- `SubscribeWriter::add_separated`
unfoldable pub add_separated : List (List ℕ) → List ℕ → QoS → Fill (Unit {0})
unfolding add_parts finish_separated
add_separated parts separator q = do
  start_len ← get_len
  add_slice (0 ∷ 0 ∷ [])
  add_parts parts separator
  len ← get_len
  finish_separated start_len (len - start_len - 2) q
