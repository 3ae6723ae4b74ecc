-- ===== src/PacketView/UnsubAck.antt =====
-- packetview/unsuback.rs: the acknowledgement of an unsubscribe.
use umqtt.Base.{ℕ, List, [], ◌∷◌, ◌==◌, if◌then◌else◌}
use umqtt.Base.Outcome.{Outcome, run_on, pure, err, ◌>>=◌, ◌>>◌}
use umqtt.PacketView.{Error, WriteError, FixedHeader}
use umqtt.PacketView.Cursor.{advance}
use umqtt.PacketView.WriteCursor.{put_u16, put_slice, bytes_written, write_into}
use umqtt.PacketView.Field.{read_u16}

pub record UnsubAck : Type 0 where
  pub pkid : ℕ

unfoldable pub read_exact : FixedHeader → List ℕ → Outcome Error UnsubAck
read_exact h bytes =
    if h.remaining_len == 2
    then run_on bytes
        (do advance h.fixed_header_len; pkid ← read_u16; pure (record { pkid = pkid }))
    else err Error.malformed_packet

unfoldable pub write : UnsubAck → List ℕ → Outcome WriteError ℕ × List ℕ
write p = write_into (do put_slice (0xb0 ∷ 0x02 ∷ []); put_u16 p.pkid; bytes_written)
