-- ===== src/Tests/Topics.antt =====
-- Runs of the packets with lists of topics, and of those with nothing behind the header, at
-- concrete inputs.
use umqtt.Base.{◌≡◌, arith, refl, List, [], ◌∷◌}
use umqtt.Base.Outcome.{ok}
use umqtt.PacketView.{at_least_once, exactly_once}
use umqtt.PacketView.Utf8.{is_utf8}
use umqtt.PacketView.Header.Encoding.{length_bytes}
use umqtt.PacketView.Subscribe
use umqtt.PacketView.Subscribe.{Subscribe, SubscribeFilter}
use umqtt.PacketView.Subscribe.RoundTrip.{filters_bytes}
use umqtt.PacketView.Unsubscribe
use umqtt.PacketView.Unsubscribe.{Unsubscribe}
use umqtt.PacketView.Unsubscribe.RoundTrip.{topics_bytes}
use umqtt.PacketView.SubAck
use umqtt.PacketView.SubAck.{SubAck, SubscribeReasonCode}
use umqtt.PacketView.SubAck.RoundTrip.{codes_bytes}
use umqtt.PacketView.Ping.{write_ping_req, write_ping_resp, write_disconnect}
use umqtt.PacketView.Packet.{Packet, read}
use umqtt.PacketView.Packet.Bare.{bare_round_trip}
use umqtt.PacketView.Packet.Subscriptions.{
  subscribe_round_trip, unsubscribe_round_trip, sub_ack_round_trip,
}
use umqtt.Tests.{zeros}

abbrev request : Subscribe
request = record {
  pkid = 7;
  filters = Subscribe.slice (
      record { path = 0x61 ∷ []; quality = at_least_once }
      ∷ record { path = 0x62 ∷ 0x2f ∷ 0x23 ∷ []; quality = exactly_once }
      ∷ []);
}

request-IsWritable : Subscribe.RoundTrip.IsWritable request
unfolding is_utf8 Subscribe.iter Subscribe.len Subscribe.fold_len
request-IsWritable = record {
  filters_fit = ((refl, omega arith), ((refl, omega arith), tt));
  some_filter = omega arith;
  len_fits = omega arith;
}

subscribe_round_trip_example :
    (q : Subscribe) × (read (Subscribe.write request zeros).1 12 ≡ ok (Packet.subscribe q, 14))
    × (q.pkid ≡ 7)
    × (Subscribe.iter q.filters ≡ Subscribe.iter request.filters)
unfolding length_bytes Subscribe.iter Subscribe.len Subscribe.fold_len filters_bytes
subscribe_round_trip_example =
    subscribe_round_trip request zeros 12 request-IsWritable (omega arith) (omega arith)

abbrev withdrawal : Unsubscribe
withdrawal = record {
  pkid = 8;
  topics = Unsubscribe.slice ((0x61 ∷ []) ∷ (0x62 ∷ 0x2f ∷ 0x23 ∷ []) ∷ []);
}

withdrawal-IsWritable : Unsubscribe.RoundTrip.IsWritable withdrawal
unfolding is_utf8 Unsubscribe.iter Unsubscribe.len Unsubscribe.fold_len
withdrawal-IsWritable = record {
  topics_fit = ((refl, omega arith), ((refl, omega arith), tt));
  len_fits = omega arith;
}

unsubscribe_round_trip_example :
    (q : Unsubscribe) × (read (Unsubscribe.write withdrawal zeros).1 10
      ≡ ok (Packet.unsubscribe q, 12))
    × (q.pkid ≡ 8)
    × (Unsubscribe.iter q.topics ≡ Unsubscribe.iter withdrawal.topics)
unfolding length_bytes Unsubscribe.iter Unsubscribe.len Unsubscribe.fold_len topics_bytes
unsubscribe_round_trip_example =
    unsubscribe_round_trip withdrawal zeros 10 withdrawal-IsWritable (omega arith) (omega arith)

abbrev granted : List SubscribeReasonCode
granted = SubAck.success at_least_once ∷ SubAck.failure ∷ []

sub_ack_round_trip_example :
    (q : SubAck) × (read
        (SubAck.write (record { pkid = 7; return_codes = SubAck.slice granted }) zeros).1
        4
      ≡ ok (Packet.sub_ack q, 6))
    × (q.pkid ≡ 7)
    × (SubAck.iter q.return_codes ≡ granted)
unfolding length_bytes codes_bytes
sub_ack_round_trip_example =
    sub_ack_round_trip 7 granted zeros 4 (omega arith) (omega arith) (omega arith) (omega arith)

bare_round_trip_example :
    (read (write_ping_req zeros).1 0 ≡ ok (Packet.ping_req, 2))
    × (read (write_ping_resp zeros).1 0 ≡ ok (Packet.ping_resp, 2))
    × (read (write_disconnect zeros).1 0 ≡ ok (Packet.disconnect, 2))
bare_round_trip_example = bare_round_trip zeros 0 (omega arith)
