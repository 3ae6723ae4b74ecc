-- ===== src/Nano/Buffer.antt =====
-- nano_client/buffer.rs: the receive buffer, whose first `used` bytes are data.
pub mod Queue
use umqtt.Base.{ℕ, ◌+◌, ◌-◌, leb, if◌then◌else◌, List, ◌++◌, length, take, drop}
use umqtt.Base.Outcome.{Outcome}
use umqtt.Base.Slice.{slice_from, slice_to}

pub record Buffer : Type 0 where
  pub buffer : List ℕ
  pub used : ℕ

abbrev pub new : List ℕ → Buffer
new buffer = record { buffer = buffer; used = 0 }

abbrev pub capacity : Buffer → ℕ
capacity b = length b.buffer

abbrev pub reset : Buffer → Buffer
reset b = record b { used = 0 }

abbrev pub advance : ℕ → Buffer → Buffer
advance n b = record b { used = b.used + n }

-- `&self.buffer[..self.used]`
abbrev pub used_slice : {E : Type 0} → Buffer → Outcome E (List ℕ)
used_slice b = slice_to b.used b.buffer

-- Where the unused slice starts.
abbrev pub unused_start : Buffer → ℕ
unused_start b = b.used

-- `&mut self.buffer[self.used..]`
abbrev pub unused_slice : {E : Type 0} → Buffer → Outcome E (List ℕ)
unused_slice b = slice_from (unused_start b) b.buffer

-- The buffer after a read stored `bytes` at the front of the unused slice, which it was given.
unfoldable pub fill : List ℕ → Buffer → Buffer
fill bytes b = record b {
  buffer =
      take (unused_start b) b.buffer
      ++ (bytes ++ drop (length bytes) (drop (unused_start b) b.buffer));
}

-- `copy_within(len..used, 0)` moves the data behind the prefix to the front.
unfoldable pub remove_prefix : ℕ → Buffer → Buffer
remove_prefix len b = if leb b.used len then record b { used = 0 } else record {
  buffer = drop len (take b.used b.buffer) ++ drop (b.used - len) b.buffer;
  used = b.used - len;
}
