-- ===== src/Tests/Safety.antt =====
-- Runs of the writers and of sequences of calls at concrete inputs.
use umqtt.Base.{ℕ, ◌≡◌, arith, false, List, [], ◌∷◌, length, All}
use umqtt.Base.Outcome.{NoPanic}
use umqtt.PacketView.BorrowedBuf.{add_slice}
use umqtt.PacketView.BorrowedBuf.Adds.{IsTame-add_slice}
use umqtt.PacketView.WriteCursor.Safe.{SafeWrite}
use umqtt.PacketView.Publish
use umqtt.PacketView.Subscribe
use umqtt.PacketView.Unsubscribe
use umqtt.PacketView.SubAck
use umqtt.PacketView.ConnAck
use umqtt.PacketView.PubAck
use umqtt.PacketView.PubRec
use umqtt.PacketView.PubRel
use umqtt.PacketView.PubComp
use umqtt.PacketView.UnsubAck
use umqtt.PacketView.Connect
use umqtt.PacketView.Ping.{write_ping_req, write_ping_resp, write_disconnect}
use umqtt.PacketView.OutPublish.InPlace.{out}
use umqtt.PacketView.Packet.Writers.{writers_safe}
use umqtt.Nano.Buffer.{capacity}
use umqtt.Nano.Client
use umqtt.Nano.Client.Reads.{Fits}
use umqtt.Nano.Session.{Call, connect_subscribe, next_notification, publish, ping, perform_all}
use umqtt.Nano.Session.Safe.{perform_all_safe}
use umqtt.Tests.{hello, options}
use umqtt.Tests.Writers.{session, filters}
use umqtt.Tests.Sessions.{script, client, script_fits, script_waits}

-- Three bytes are too few for most of the packets.
abbrev few : List ℕ
few = 0 ∷ 0 ∷ 0 ∷ []

writers_safe_example :
    SafeWrite few (Connect.write session few)
    × SafeWrite few (ConnAck.write (record { session_present = false; code = ConnAck.success }) few)
    × SafeWrite few (Publish.write hello few)
    × SafeWrite few (PubAck.write (record { pkid = 1 }) few)
    × SafeWrite few (PubRec.write (record { pkid = 2 }) few)
    × SafeWrite few (PubRel.write (record { pkid = 3 }) few)
    × SafeWrite few (PubComp.write (record { pkid = 4 }) few)
    × SafeWrite few (Subscribe.write (record { pkid = 5; filters = Subscribe.slice filters }) few)
    × SafeWrite few (SubAck.write (record { pkid = 6; return_codes = SubAck.slice [] }) few)
    × SafeWrite few (Unsubscribe.write (record { pkid = 7; topics = Unsubscribe.slice [] }) few)
    × SafeWrite few (UnsubAck.write (record { pkid = 8 }) few)
    × SafeWrite few (write_ping_req few)
    × SafeWrite few (write_ping_resp few)
    × SafeWrite few (write_disconnect few)
writers_safe_example =
    writers_safe few session (record { session_present = false; code = ConnAck.success }) hello
      (record { pkid = 1 }) (record { pkid = 2 }) (record { pkid = 3 }) (record { pkid = 4 })
      (record { pkid = 5; filters = Subscribe.slice filters })
      (record { pkid = 6; return_codes = SubAck.slice [] })
      (record { pkid = 7; topics = Unsubscribe.slice [] }) (record { pkid = 8 })

-- A session that goes on after the broker has closed the connection.
abbrev calls : List Call
calls =
    connect_subscribe options (add_slice (0 ∷ 1 ∷ 0x61 ∷ 0 ∷ []))
    ∷ publish (out hello) (add_slice hello.topic) (add_slice hello.payload)
    ∷ next_notification
    ∷ ping
    ∷ []

perform_all_safe_example :
    All NoPanic (perform_all script calls client).0
    × Fits script (perform_all script calls client).1
    × (capacity (perform_all script calls client).1.rx_buffer ≡ 20)
    × (length (perform_all script calls client).1.tx_buffer ≡ 20)
unfolding Client.new
perform_all_safe_example =
    perform_all_safe script script_fits script_waits calls client
      (
        IsTame-add_slice (0 ∷ 1 ∷ 0x61 ∷ 0 ∷ []),
        ((IsTame-add_slice hello.topic, IsTame-add_slice hello.payload), (tt, (tt, tt))),
      )
      (omega arith) (omega arith)
