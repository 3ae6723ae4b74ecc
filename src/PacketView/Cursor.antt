-- ===== src/PacketView/Cursor.antt =====
-- packetview/cursor.rs, `Cursor`: the bytes that are still to be read.
use umqtt.Base.{ℕ, ◌+◌, ◌*◌, List}
use umqtt.Base.Outcome.{Outcome, ok, err, panic, Act, pure, ◌>>=◌, ◌>>◌}
use umqtt.Base.Slice.{index, slice_from, slice_to}
use umqtt.PacketView.{Error}

abbrev pub Cursor : Type 0
Cursor = List ℕ

abbrev pub Read : Type 0 → Type 0
Read A = Act Cursor Error A

-- `self.as_slice()`
abbrev pub as_slice : Read Cursor
as_slice s = (ok s, s)

abbrev observe : {A : Type 0} → (Cursor → Outcome Error A) → Read A
observe f s = (f s, s)

abbrev move_to : Outcome Error Cursor → Read (Unit {0})
move_to (ok s') s = (ok tt, s')
move_to (err e) s = (err e, s)
move_to panic s = (panic, s)

unfoldable pub advance : ℕ → Read (Unit {0})
advance n s = move_to (slice_from n s) s

unfoldable pub take_u8 : Read ℕ
unfolding advance
take_u8 = do ret ← observe (λ s. index s 0); advance 1; pure ret

-- `u16::from_be_bytes`
unfoldable pub take_u16 : Read ℕ
unfolding advance
take_u16 = do
  hi ← observe (λ s. index s 0)
  lo ← observe (λ s. index s 1)
  advance 2
  pure (hi * 256 + lo)

unfoldable pub split_to : ℕ → Read (List ℕ)
unfolding advance
split_to n = do ret ← observe (slice_to n); advance n; pure ret
