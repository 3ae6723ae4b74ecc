-- ===== src/PacketView/Packet/Opening.antt =====
-- packetview/packet.rs: reading back the packets that open, keep and end a session.
use umqtt.Base.{ℕ, ◌≤◌, ◌≡◌, refl, arith, List, length}
use umqtt.Base.Outcome.{ok}
use umqtt.PacketView.{type_of_nibble}
use umqtt.PacketView.Header.RoundTrip.{frame}
use umqtt.PacketView.Connect
use umqtt.PacketView.Connect.{Connect}
use umqtt.PacketView.Connect.Encoding.{IsWritable, body, length-body, Connect_written}
use umqtt.PacketView.Connect.RoundTrip.{read_exact-frame}
use umqtt.PacketView.Packet.{connect, read, with_payload}
use umqtt.PacketView.Packet.RoundTrip.{read_back}

-- A connect that can be written (its protocol is version 4, the client identifier, the will's topic
-- and the username are UTF-8 strings, each field has at most 65535 bytes, a login has a username or
-- a password that is not empty, and the remaining length is at most 268435455), into a buffer that
-- has room for it, is read back by `Packet::read` as the same connect, with its will, its login, its
-- keep-alive and its clean session flag, under every size limit that its remaining length keeps.
pub connect_round_trip :
    (p : Connect) (buffer : List ℕ) (max : ℕ)
    → IsWritable p
    → length (frame 0x10 (body p)) ≤ length buffer
    → Connect.len p ≤ max
    → read (Connect.write p buffer).1 max ≡ ok (connect p, length (frame 0x10 (body p)))
unfolding with_payload type_of_nibble
connect_round_trip p buffer max w fits hm =
    let size = length-body p in
    read_back 0x10 (body p) (omega (arith, size, w.len_fits)) _ buffer max
      (Connect_written p buffer w) fits (omega (arith, size)) (omega arith) refl
      (rw (read_exact-frame p w) refl)
