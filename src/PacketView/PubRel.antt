-- ===== src/PacketView/PubRel.antt =====
-- packetview/pubrel.rs: the release of a QoS 2 publish.
use umqtt.Base.{ℕ, List, ltb, ◌==◌, if◌then◌else◌}
use umqtt.Base.Outcome.{Outcome, run_on, pure, ◌>>=◌, ◌>>◌}
use umqtt.PacketView.{Error, WriteError, FixedHeader}
use umqtt.PacketView.Cursor.{advance}
use umqtt.PacketView.WriteCursor.{put_u8, put_u16, bytes_written, write_into}
use umqtt.PacketView.Field.{read_u16}
use umqtt.PacketView.Header.{write_remaining_length}

pub record PubRel : Type 0 where
  pub pkid : ℕ

unfoldable pub read_exact : FixedHeader → List ℕ → Outcome Error PubRel
read_exact h bytes = run_on bytes do
  advance h.fixed_header_len
  pkid ← read_u16
  if h.remaining_len == 2
      then pure (record { pkid = pkid })
      else if ltb h.remaining_len 4
      then pure (record { pkid = pkid })
      else pure (record { pkid = pkid })

abbrev len : PubRel → ℕ
len p = 2

unfoldable pub write : PubRel → List ℕ → Outcome WriteError ℕ × List ℕ
write p = write_into do put_u8 0x62; write_remaining_length (len p); put_u16 p.pkid; bytes_written
