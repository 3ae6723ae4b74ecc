-- ===== src/Tests/Writers.antt =====
-- Runs of the in-place writers and of what sends with them at concrete inputs.
use umqtt.Base.{ℕ, ◌≡◌, refl, arith, ltb, List, [], ◌∷◌, ◌++◌, length, take, drop, true, some}
use mathlib.Core.Option
use umqtt.Base.Outcome.{ok}
use umqtt.PacketView.{v4, at_least_once, exactly_once}
use umqtt.PacketView.Utf8.{is_utf8}
use umqtt.PacketView.BorrowedBuf.{Fill, add_slice}
use umqtt.PacketView.BorrowedBuf.Adds.{at, Adds, Adds-add_slice, IsTame-add_slice}
use umqtt.PacketView.SubscribeWriter.{add_str, add_separated}
use umqtt.PacketView.SubscribeWriter.Filters.{join, add_separated-eq}
use umqtt.PacketView.TopicIterator.{new, items, separator}
use umqtt.PacketView.TopicIterator.Items.{concat, items-join}
use umqtt.PacketView.Header.Encoding.{length_bytes}
use umqtt.PacketView.Header.RoundTrip.{frame}
use umqtt.PacketView.Publish
use umqtt.PacketView.Publish.RoundTrip.{encoding}
use umqtt.PacketView.OutPublish
use umqtt.PacketView.OutPublish.InPlace.{out, write_in_place}
use umqtt.PacketView.OutPublish.Panics.{is_panic, write-is_panic}
use umqtt.PacketView.Subscribe
use umqtt.PacketView.Subscribe.{Subscribe, SubscribeFilter}
use umqtt.PacketView.Subscribe.RoundTrip.{filters_bytes}
use umqtt.PacketView.Connect
use umqtt.PacketView.Connect.{Connect}
use umqtt.PacketView.Connect.Encoding
use umqtt.PacketView.Packet.{Packet, read}
use umqtt.PacketView.Packet.Opening.{connect_round_trip}
use umqtt.Transport.{on_packet_sent}
use umqtt.Nano.Client.Sending.{send_publish, write_subscribe}
use umqtt.Nano.Client.Sending.Publishing.{sent_from, send_publish-encoding}
use umqtt.Nano.Client.Sending.Subscribing.{subscription, header_of, write_subscribe-pieces}
use umqtt.Tests.{hello, hello-IsWritable, zeros}
use umqtt.Tests.Replies.{silent, receiver, dawn}

abbrev topic : Fill (Unit {0})
topic = add_slice hello.topic

abbrev payload : Fill (Unit {0})
payload = add_slice hello.payload

write_in_place_example :
    (n : ℕ) × ((Publish.write hello zeros).0 ≡ ok n)
    × ((OutPublish.write (out hello) topic payload zeros).0
        ≡ ok (take n (Publish.write hello zeros).1))
unfolding length_bytes
write_in_place_example =
    write_in_place hello hello-IsWritable topic payload (Adds-add_slice hello.topic)
      (Adds-add_slice hello.payload) zeros zeros (omega arith) (omega arith)

write-is_panic_example :
    is_panic (OutPublish.write (out hello) topic payload (0 ∷ 0 ∷ 0 ∷ [])).0 ≡ ltb 3 5
write-is_panic_example =
    write-is_panic (out hello) topic payload (0 ∷ 0 ∷ 0 ∷ []) (IsTame-add_slice hello.topic)
      (IsTame-add_slice hello.payload)

abbrev parts : List (List ℕ)
parts = (0x61 ∷ []) ∷ (0x62 ∷ 0x63 ∷ []) ∷ (0x2b ∷ []) ∷ []

add_separated-eq_example :
    add_separated parts separator exactly_once (at (9 ∷ []) zeros)
    ≡ add_str (join parts separator) exactly_once (at (9 ∷ []) zeros)
unfolding join
add_separated-eq_example =
    add_separated-eq parts separator exactly_once (9 ∷ []) zeros (omega arith) (omega arith)

items-join_example : Option.map concat (items 7 (new parts)) ≡ some (join parts separator)
items-join_example = items-join parts 7 (omega arith)

send_publish-encoding_example : send_publish silent (out hello) topic payload receiver ≡ (
  ok tt,
  sent_from silent
      (OutPublish.write (out hello) topic payload zeros).1
      dawn
      (encoding hello ∷ [])
      receiver,
)
send_publish-encoding_example =
    send_publish-encoding silent hello topic payload receiver (encoding hello ∷ [])
      (encoding hello ∷ []) dawn hello-IsWritable (Adds-add_slice hello.topic)
      (Adds-add_slice hello.payload) (omega arith) refl refl refl

abbrev pub filters : List SubscribeFilter
filters = record { path = 0x61 ∷ 0x2f ∷ 0x23 ∷ []; quality = at_least_once } ∷ []

pub filters-IsWritable : Subscribe.RoundTrip.IsWritable (subscription filters)
unfolding is_utf8 Subscribe.iter Subscribe.len Subscribe.fold_len
filters-IsWritable = record {
  filters_fit = ((refl, omega arith), tt);
  some_filter = omega arith;
  len_fits = omega arith;
}

pub subscriptions-Adds :
    Adds (add_slice (0 ∷ 3 ∷ 0x61 ∷ 0x2f ∷ 0x23 ∷ 1 ∷ [])) (filters_bytes filters)
unfolding filters_bytes
subscriptions-Adds = Adds-add_slice (0 ∷ 3 ∷ 0x61 ∷ 0x2f ∷ 0x23 ∷ 1 ∷ [])

write_subscribe-pieces_example :
    (write_subscribe silent (add_slice (0 ∷ 3 ∷ 0x61 ∷ 0x2f ∷ 0x23 ∷ 1 ∷ [])) receiver ≡ (
      ok tt,
      record receiver {
        transport = on_packet_sent dawn (on_packet_sent dawn receiver.transport);
        tx_buffer = filters_bytes filters ++ drop (length (filters_bytes filters)) zeros;
        platform = filters_bytes filters ∷ header_of filters ∷ [];
      },
    ))
    × ((n : ℕ) × ((Subscribe.write (subscription filters) zeros).0 ≡ ok n)
        × (header_of filters ++ filters_bytes filters
            ≡ take n (Subscribe.write (subscription filters) zeros).1))
unfolding filters_bytes length_bytes
write_subscribe-pieces_example =
    write_subscribe-pieces filters filters-IsWritable silent _ subscriptions-Adds receiver zeros
      (header_of filters ∷ []) (header_of filters ∷ [])
      (filters_bytes filters ∷ header_of filters ∷ [])
      (filters_bytes filters ∷ header_of filters ∷ []) dawn dawn (omega arith) (omega arith) refl
      refl refl refl refl

abbrev pub session : Connect
session = record {
  protocol = v4;
  keep_alive = 60;
  client_id = 0x61 ∷ [];
  clean_session = true;
  last_will =
      some (record { topic = 0x77 ∷ []; message = 7 ∷ []; quality = exactly_once; retain = true });
  login = some (record { username = 0x75 ∷ []; password = [] });
}

session-IsWritable : Connect.Encoding.IsWritable session
unfolding is_utf8 Connect.len
session-IsWritable = record {
  is_v4 = refl;
  client_id_str = refl;
  client_id_fits = omega arith;
  will_fits = (refl, omega arith, omega arith);
  login_fits = (refl, omega arith, omega arith, refl);
  len_fits = omega arith;
}

connect_round_trip_example :
    read (Connect.write session (zeros ++ zeros)).1 22
    ≡ ok (Packet.connect session, length (frame 0x10 (Connect.Encoding.body session)))
unfolding length_bytes Connect.len
connect_round_trip_example =
    connect_round_trip session (zeros ++ zeros) 22 session-IsWritable (omega arith) (omega arith)
