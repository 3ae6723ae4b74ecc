-- ===== src/PacketView/Packet.antt =====
-- packetview/packet.rs: one type for all packets, and reading the first packet of a stream.
pub mod RoundTrip
pub mod Stream
pub mod Subscriptions
pub mod Opening
pub mod Safety
pub mod Writers
pub mod Acks
pub mod Bare
pub mod Fields
pub mod Typed
use umqtt.Base.{ℕ, ◌==◌, if◌then◌else◌, List, length}
use umqtt.Base.Outcome.{Outcome, ok, err, and_then}
use umqtt.Base.Slice.{slice_to}
use umqtt.PacketView.{Error, FixedHeader, PacketType, packet_type, frame_length, malformed_packet}
use umqtt.PacketView.Header.{check}
use umqtt.PacketView.Connect
use umqtt.PacketView.Connect.{Connect}
use umqtt.PacketView.ConnAck
use umqtt.PacketView.ConnAck.{ConnAck}
use umqtt.PacketView.Publish
use umqtt.PacketView.Publish.{Publish}
use umqtt.PacketView.PubAck
use umqtt.PacketView.PubAck.{PubAck}
use umqtt.PacketView.PubRec
use umqtt.PacketView.PubRec.{PubRec}
use umqtt.PacketView.PubRel
use umqtt.PacketView.PubRel.{PubRel}
use umqtt.PacketView.PubComp
use umqtt.PacketView.PubComp.{PubComp}
use umqtt.PacketView.Subscribe
use umqtt.PacketView.Subscribe.{Subscribe}
use umqtt.PacketView.SubAck
use umqtt.PacketView.SubAck.{SubAck}
use umqtt.PacketView.Unsubscribe
use umqtt.PacketView.Unsubscribe.{Unsubscribe}
use umqtt.PacketView.UnsubAck
use umqtt.PacketView.UnsubAck.{UnsubAck}

pub data Packet : Type 0 where
  connect : Connect → Packet
  conn_ack : ConnAck → Packet
  publish : Publish → Packet
  pub_ack : PubAck → Packet
  pub_rec : PubRec → Packet
  pub_rel : PubRel → Packet
  pub_comp : PubComp → Packet
  subscribe : Subscribe → Packet
  sub_ack : SubAck → Packet
  unsubscribe : Unsubscribe → Packet
  unsub_ack : UnsubAck → Packet
  ping_req ping_resp disconnect : Packet

-- The packets with nothing behind the fixed header.
unfoldable pub no_payload : PacketType → Outcome Error Packet
no_payload PacketType.ping_req = ok ping_req
no_payload PacketType.ping_resp = ok ping_resp
no_payload PacketType.disconnect = ok disconnect
no_payload _ = err malformed_packet

module _ (h : FixedHeader) (bytes : List ℕ) where
  unfoldable pub with_payload : PacketType → Outcome Error Packet
  with_payload PacketType.connect = and_then (Connect.read_exact h bytes) (λ p. ok (connect p))
  with_payload PacketType.conn_ack = and_then (ConnAck.read_exact h bytes) (λ p. ok (conn_ack p))
  with_payload PacketType.publish = and_then (Publish.read_exact h bytes) (λ p. ok (publish p))
  with_payload PacketType.pub_ack = and_then (PubAck.read_exact h bytes) (λ p. ok (pub_ack p))
  with_payload PacketType.pub_rec = and_then (PubRec.read_exact h bytes) (λ p. ok (pub_rec p))
  with_payload PacketType.pub_rel = and_then (PubRel.read_exact h bytes) (λ p. ok (pub_rel p))
  with_payload PacketType.pub_comp = and_then (PubComp.read_exact h bytes) (λ p. ok (pub_comp p))
  with_payload PacketType.subscribe =
      and_then (Subscribe.read_exact h bytes) (λ p. ok (subscribe p))
  with_payload PacketType.sub_ack = and_then (SubAck.read_exact h bytes) (λ p. ok (sub_ack p))
  with_payload PacketType.unsubscribe =
      and_then (Unsubscribe.read_exact h bytes) (λ p. ok (unsubscribe p))
  with_payload PacketType.unsub_ack = and_then (UnsubAck.read_exact h bytes) (λ p. ok (unsub_ack p))
  with_payload PacketType.ping_req = ok ping_req
  with_payload PacketType.ping_resp = ok ping_resp
  with_payload PacketType.disconnect = ok disconnect

-- `Packet::read_exact`
unfoldable pub read_exact : FixedHeader → List ℕ → Outcome Error Packet
read_exact h bytes =
    and_then (packet_type h)
      λ t. if h.remaining_len == 0 then no_payload t else with_payload h bytes t

-- `Packet::read`: the first packet of the stream and its length in bytes.
unfoldable pub read : List ℕ → ℕ → Outcome Error (Packet × ℕ)
read stream max_size = and_then (check stream max_size) λ h.
    and_then (slice_to (frame_length h) stream)
      λ packet. and_then (read_exact h packet) λ parsed. ok (parsed, length packet)

-- `Packet::packet_type`
unfoldable pub type_of : Packet → PacketType
type_of (connect p) = PacketType.connect
type_of (conn_ack p) = PacketType.conn_ack
type_of (publish p) = PacketType.publish
type_of (pub_ack p) = PacketType.pub_ack
type_of (pub_rec p) = PacketType.pub_rec
type_of (pub_rel p) = PacketType.pub_rel
type_of (pub_comp p) = PacketType.pub_comp
type_of (subscribe p) = PacketType.subscribe
type_of (sub_ack p) = PacketType.sub_ack
type_of (unsubscribe p) = PacketType.unsubscribe
type_of (unsub_ack p) = PacketType.unsub_ack
type_of ping_req = PacketType.ping_req
type_of ping_resp = PacketType.ping_resp
type_of disconnect = PacketType.disconnect
