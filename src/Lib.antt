-- ===== src/Lib.antt =====
-- umqtt: an MQTT 3.1.1 client for embedded systems.
--
-- The program has three layers, each of which uses the one before it.
--
-- * src/packetview/ reads packets out of a borrowed slice of bytes and writes them into one.
-- * src/transport_client.rs keeps the state of a connection without input or output: it is handed
--   the bytes that were received and answers what they mean.
-- * src/nano_client.rs joins a platform (a transport and a clock that the application supplies), a
--   receive buffer, a transmit buffer and a transport client.
--
-- Base holds what all of them share: lists measured by native numbers, Rust's slices, and the outcome
-- of a call (a value, an error, or a panic) together with the state that the call borrows mutably;
-- Base/Meets is what such a call promises of its answer and of that state.
-- A method that takes `&mut self` is a function from the state to an outcome and the state after it;
-- what was stored before an error stays stored.
--
--   PacketView              packetview/mod.rs: the errors, QoS, FixedHeader
--   PacketView/Cursor       packetview/cursor.rs: Cursor
--   PacketView/WriteCursor  packetview/cursor.rs: WriteCursor; Emits is the promise of a method that
--                           writes, and the rules to compose it; Patched is a byte that is
--                           overwritten later, and Safe the promise not to panic
--   PacketView/Utf8         core::str::from_utf8; a `&str` is the list of its bytes
--   PacketView/Header       packetview/mod.rs: length, parse_fixed_header, check and
--                           write_remaining_length; Encoding, RoundTrip, Framing, Bounds and Prefix
--                           hold the theorems
--   PacketView/Field        packetview/mod.rs: read_u8, read_u16, read_mqtt_bytes, write_mqtt_bytes
--                           and the like; Tame and Typed hold theorems
--   PacketView/Publish, PubAck, PubRec, PubRel, PubComp, ConnAck, SubAck, UnsubAck, Subscribe,
--   Unsubscribe, Connect    the file of packetview/ with that name: a record, read_exact, len, write;
--                           RoundTrip below some of them holds theorems
--   PacketView/Ping         packetview/ping.rs and packetview/disconnect.rs
--   PacketView/Connect      Flags and Encoding, below it, are the flags and the bytes of a connect
--   PacketView/BorrowedBuf  packetview/borrowed_buf.rs; Adds is the promise of a function that appends
--                           to the buffer, and of one that does not panic
--   PacketView/OutPublish   packetview/publish.rs: OutPublish, TopicWriter and PayloadWriter; InPlace,
--                           Panics and Size hold the theorems
--   PacketView/SubscribeWriter
--                           packetview/subscribe.rs: SubscribeWriter; Filters and Tame hold the
--                           theorems
--   PacketView/TopicIterator
--                           packetview/topic_iterator.rs; Items holds the theorems
--   PacketView/Packet       packetview/packet.rs: Packet::read; RoundTrip, Acks, Bare, Opening,
--                           Subscriptions, Safety, Writers, Stream, and Typed with Fields hold
--                           the theorems
--   Time                    time.rs
--   Transport               transport_client.rs; States is its state machine, KeepAlive its
--                           timer, Delivery the publishes that it passes on, Messages
--                           and Greeting the packets of a stream that it reports
--   Nano/Buffer             nano_client/buffer.rs; Queue is its view as a queue of bytes
--   Nano/Platform           nano_client/platform.rs: a parameter of the model
--   Nano/Client             nano_client.rs and nano_client/notification.rs: the client, writing and
--                           reading; Connecting is `connect`, Receiving is `next_notification` and
--                           `complete_notification`, Sending is `send_publish` and
--                           `write_subscribe`; Reads, Progress, Waiting, Timeouts, Handshake,
--                           Replies, Storing, Delivery, Accepting with Accepted, and Publishing and
--                           Subscribing below Sending hold the theorems
--   Nano/Session            sequences of calls of a NanoClient; Keeps, Waiting, Writing and Safe hold
--                           the theorems
--   Nano/Serving            examples/basic.rs, run_client: the loop that takes notifications and
--                           completes them. Recorded is a platform with a record of the bytes that
--                           went through it; Reading, Reporting, Sending and Answering are what
--                           waiting, next_notification and complete_notification do to that record,
--                           Decoding the notifications as the packets of a byte stream, Events a
--                           round with a publish or a silence; Stream, Publishes and Delivered
--                           hold the theorems
--   Nano/Example            examples/basic.rs, main: a session, from the connection to the end of the
--                           loop, and the sessions that follow one another; Quiet is what writing
--                           leaves as it is, Greeting and Opening what connect has received, Stream
--                           holds the theorem on one session, Reconnecting that on all of them, and
--                           Subscribing that on what connecting and subscribing send
--   Tests                   runs at concrete inputs
--
-- Paths above are below src/. A `usize` is an unbounded number: the lengths that occur are lengths of
-- slices, and a remaining length has 28 bits. Checked arithmetic, indices and slices out of range
-- panic as they do in a debug build. A `u8`, a `u16` and a `u64` are numbers; a cast that drops bits
-- and the saturating clock are written out. A theorem names the range of its numbers where it needs
-- it.
--
-- Loops that end by their data run on fuel. write_remaining_length has four rounds, which is enough
-- for every length that its guard lets through. The iterators over topics and filters, and the loop of
-- Unsubscribe::read_exact, have as many rounds as there are bytes, of which each round takes one at
-- least. The loops of read_connack and next_notification have one round more than the receive buffer
-- has bytes, of which each round fills one at least or ends the loop. A loop without fuel panics in the
-- model, so a theorem that excludes a panic says that the fuel is enough.
--
-- The loop of run_client has no end but an error: it runs for a number of rounds, over which its
-- theorems quantify. The outer loop of main takes what make_platform answers from a list of any length;
-- a session that panics, or still runs after all its rounds, is its last.
--
-- The platform is a record of three operations over a state and an error type of its own. ReadFits
-- and ReadWaits are what the trait documents: a read stores no more than the buffer takes, and a read
-- without a timeout does not expire. Futures run to completion: a cancelled call is not modelled.
--
-- A function of the application that writes a topic, a payload or filters is a function on a borrowed
-- buffer. Adds says what such a function stores, IsTame that it does not panic and only appends. A
-- write of a slice (add_slice) has both; add_str and add_separated of a SubscribeWriter have IsTame,
-- and Adds for a filter of at most 65535 bytes. The conversion of its error into a WriteError is part
-- of the function.
--
-- Not modelled: the Debug and Clone implementations; src/mqttbytes, a copy of another project's
-- library, and src/uclient.rs, which src/lib.rs leaves out; src/publish_state.rs, which has no
-- operation; of the example, printing, the TCP connection and the pause between two of them.
pub mod Base
pub mod PacketView
pub mod Time
pub mod Transport
pub mod Nano
pub mod Tests
