-- ===== src/PacketView/SubscribeWriter/Tame.antt =====
-- packetview/subscribe.rs: the functions of a `SubscribeWriter` do not panic and only append.
use umqtt.PacketView.BorrowedBuf.{BorrowedBuf}
