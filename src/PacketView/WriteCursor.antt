-- ===== src/PacketView/WriteCursor.antt =====
-- packetview/cursor.rs, `WriteCursor`: a borrowed buffer and the index of the next write. Checked
-- arithmetic panics, as `remaining_capacity` would with the index past the end.
pub mod Emits
pub mod Patched
pub mod Safe
use umqtt.Base.{
  ℕ, ◌+◌, ◌-◌, ◌/◌, ◌%◌, List, [], ◌∷◌, leb, ltb, ◌==◌, length, if◌then◌else◌, take, drop,
}
use umqtt.Base.Outcome.{Outcome, ok, err, panic, Act, pure, fail, lift, ◌>>=◌, ◌>>◌}
use umqtt.Base.Slice.{index, slice_to, slice_from, copy_from_slice, set_index}
use umqtt.PacketView.{WriteError, not_enough_capacity}

pub record WriteCursor : Type 0 where
  pub buffer : List ℕ
  pub next_write_index : ℕ

abbrev pub Write : Type 0 → Type 0
Write A = Act WriteCursor WriteError A

-- `WriteCursor::new`
abbrev pub new : List ℕ → WriteCursor
new buffer = record { buffer = buffer; next_write_index = 0 }

abbrev pub capacity : WriteCursor → ℕ
capacity c = length c.buffer

abbrev pub bytes_written : Write ℕ
bytes_written c = (ok c.next_write_index, c)

unfoldable pub remaining_capacity : Write ℕ
remaining_capacity c =
    (if leb c.next_write_index (capacity c) then ok (capacity c - c.next_write_index) else panic, c)

-- What is stored by a write into the buffer that moves the index by `n`.
abbrev store : ℕ → Outcome WriteError (List ℕ) → Write (Unit {0})
store n (ok b) c = (ok tt, record { buffer = b; next_write_index = c.next_write_index + n })
store n (err e) c = (err e, c)
store n panic c = (panic, c)

unfoldable pub put_u8 : ℕ → Write (Unit {0})
put_u8 byte c =
    if c.next_write_index == capacity c
    then (err not_enough_capacity, c)
    else store 1 (set_index c.next_write_index byte c.buffer) c

unfoldable pub put_slice : List ℕ → Write (Unit {0})
unfolding remaining_capacity
put_slice slice = do
  remaining ← remaining_capacity
  if ltb remaining (length slice) then fail not_enough_capacity else λ c.
      store (length slice) (copy_from_slice c.next_write_index slice c.buffer) c

-- `value.to_be_bytes()`
abbrev pub be_bytes : ℕ → List ℕ
be_bytes value = value / 256 ∷ value % 256 ∷ []

unfoldable pub put_u16 : ℕ → Write (Unit {0})
unfolding remaining_capacity
put_u16 value = do
  remaining ← remaining_capacity
  if ltb remaining 2 then fail not_enough_capacity else put_slice (be_bytes value)

-- `buffer[i] = byte`
unfoldable pub set_byte : ℕ → ℕ → Write (Unit {0})
set_byte i byte c = store 0 (set_index i byte c.buffer) c

-- `finish`: the bytes written, and the rest of the buffer.
unfoldable pub finish : WriteCursor → Outcome WriteError (List ℕ) × Outcome WriteError (List ℕ)
finish c = (slice_to c.next_write_index c.buffer, slice_from c.next_write_index c.buffer)

abbrev pub written_slice : WriteCursor → Outcome WriteError (List ℕ)
written_slice c = slice_to c.next_write_index c.buffer

-- The sum is within the range of `usize` for every index of a buffer in memory.
abbrev pub advance : ℕ → Write (Unit {0})
advance n c = (ok tt, record c { next_write_index = c.next_write_index + n })

abbrev pub unused_capacity : WriteCursor → Outcome WriteError (List ℕ)
unused_capacity c = slice_from c.next_write_index c.buffer

-- `buffer[i]`
abbrev pub byte_at : ℕ → Write ℕ
byte_at i c = (index c.buffer i, c)

-- A method `write(&self, buffer: &mut [u8])`: it makes a cursor, and the caller keeps the buffer.
abbrev pub write_into : {A : Type 0} → Write A → List ℕ → Outcome WriteError A × List ℕ
write_into m buffer = let (r, c) = m (new buffer) in (r, c.buffer)
