-- ===== src/PacketView/BorrowedBuf.antt =====
-- packetview/borrowed_buf.rs: a borrowed buffer that is filled from the front, and in which bytes that
-- are stored already may be overwritten.
pub mod Adds
use umqtt.Base.{ℕ, ◌+◌, ◌-◌, ◌/◌, ◌%◌, leb, ltb, ◌==◌, Bool, if◌then◌else◌, List, [], ◌∷◌, length}
use umqtt.Base.Outcome.{Outcome, ok, err, panic, Act, pure, fail, ◌>>=◌, ◌>>◌}
use umqtt.Base.Slice.{copy_from_slice, slice_range, index, set_index}
use umqtt.PacketView.{WriteError, not_enough_capacity, payload_too_long, QoS, qos_byte}
use umqtt.PacketView.WriteCursor.{be_bytes}

pub record BorrowedBuf : Type 0 where
  pub buffer : List ℕ
  pub len : ℕ

abbrev pub Fill : Type 0 → Type 0
Fill A = Act BorrowedBuf WriteError A

abbrev pub new : List ℕ → BorrowedBuf
new buffer = record { buffer = buffer; len = 0 }

abbrev pub capacity : BorrowedBuf → ℕ
capacity b = length b.buffer

abbrev store : ℕ → Outcome WriteError (List ℕ) → Fill (Unit {0})
store n (ok l) b = (ok tt, record { buffer = l; len = b.len + n })
store n (err e) b = (err e, b)
store n panic b = (panic, b)

-- `self.capacity() - self.len` is checked arithmetic.
unfoldable pub spare_capacity : Fill ℕ
spare_capacity b = (if leb b.len (capacity b) then ok (capacity b - b.len) else panic, b)

unfoldable pub add_slice : List ℕ → Fill (Unit {0})
unfolding spare_capacity
add_slice bytes = do
  spare ← spare_capacity
  if leb (length bytes) spare
      then (λ b. store (length bytes) (copy_from_slice b.len bytes b.buffer) b)
      else fail not_enough_capacity

abbrev pub is_empty : BorrowedBuf → Bool
is_empty b = b.len == 0

-- `buffer[i]`
abbrev pub byte_at : ℕ → Fill ℕ
byte_at i b = (index b.buffer i, b)

-- `&buffer[i..j]`
abbrev pub bytes_at : ℕ → ℕ → Fill (List ℕ)
bytes_at i j b = (slice_range i j b.buffer, b)

abbrev pub get_len : Fill ℕ
get_len b = (ok b.len, b)

-- `buffer[i] = byte`
abbrev pub set_byte : ℕ → ℕ → Fill (Unit {0})
set_byte i byte b = store 0 (set_index i byte b.buffer) b

-- `buffer[i..i + bytes.len()].copy_from_slice(bytes)`
abbrev pub copy_at : ℕ → List ℕ → Fill (Unit {0})
copy_at i bytes b = store 0 (copy_from_slice i bytes b.buffer) b
