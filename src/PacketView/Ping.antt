-- ===== src/PacketView/Ping.antt =====
-- packetview/ping.rs and packetview/disconnect.rs: the packets that are a fixed header alone.
use umqtt.Base.{ℕ, List, [], ◌∷◌}
use umqtt.Base.Outcome.{Outcome, pure, ◌>>◌}
use umqtt.PacketView.{WriteError}
use umqtt.PacketView.WriteCursor.{put_slice, write_into}

unfoldable pub write_ping_req : List ℕ → Outcome WriteError ℕ × List ℕ
write_ping_req = write_into (do put_slice (0xc0 ∷ 0x00 ∷ []); pure 2)

unfoldable pub write_ping_resp : List ℕ → Outcome WriteError ℕ × List ℕ
write_ping_resp = write_into (do put_slice (0xd0 ∷ 0x00 ∷ []); pure 2)

unfoldable pub write_disconnect : List ℕ → Outcome WriteError ℕ × List ℕ
write_disconnect = write_into (do put_slice (0xe0 ∷ 0x00 ∷ []); pure 2)
