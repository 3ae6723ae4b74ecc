-- ===== src/Tests/Events.antt =====
-- A run of the loop over publishes and silences.
use umqtt.Base.{ℕ, ◌≡◌, refl, arith, List, [], ◌∷◌, take, drop, map, inr, ◌⊎◌, Option, none, some}
use umqtt.Base.Outcome.{ok}
use umqtt.PacketView
use umqtt.PacketView.Utf8.{is_utf8}
use umqtt.PacketView.Header.Encoding.{length_bytes}
use umqtt.PacketView.Publish
use umqtt.PacketView.Publish.{Publish}
use umqtt.PacketView.Publish.RoundTrip.{IsWritable, encoding}
use umqtt.Nano.Buffer
use umqtt.Nano.Buffer.Queue.{contents}
use umqtt.Nano.Platform.{Platform}
use umqtt.Nano.Client.{Client}
use umqtt.Nano.Client.Delivery.{arrived, arrives}
use umqtt.Nano.Client.Replies.{publish_reply}
use umqtt.Nano.Serving.{run_client}
use umqtt.Nano.Serving.Events.{Event, sends, waits, told, Brings, over, quiet, acknowledged, pinged}
use umqtt.Nano.Serving.Delivered.{run_client-Brings}
use umqtt.Tests.{hello, hello-IsWritable, zeros}
use umqtt.Tests.Replies.{online, dawn}

-- A platform that takes its turns, one for each read: bytes, or a timeout.
abbrev turn : List (Option (List ℕ)) → (Unit {0} ⊎ Option (List ℕ)) × List (Option (List ℕ))
turn [] = (inr none, [])
turn (answer ∷ rest) = (inr answer, rest)

abbrev turns : Platform (List (Option (List ℕ))) (Unit {0})
turns = record {
  write_all = λ bytes s. (inr tt, s);
  read_some = λ n t s. turn s;
  now = λ s. (dawn, s);
}

abbrev plain : Publish
plain = record hello { quality = PacketView.at_most_once; pkid = 0 }

-- A publish with QoS 1 in two reads, a silence, and a publish with QoS 0 in one read.
abbrev news : List Event
news = sends hello ∷ waits ∷ sends plain ∷ []

abbrev subscriber : Client (List (Option (List ℕ)))
subscriber = record {
  transport = online;
  tx_buffer = zeros;
  rx_buffer = Buffer.new zeros;
  platform =
      some (take 5 (encoding hello))
      ∷ some (drop 5 (encoding hello))
      ∷ none
      ∷ some (encoding plain)
      ∷ [];
}

news-Brings : Brings turns 20 online subscriber.platform news
unfolding length_bytes publish_reply
news-Brings =
    acknowledged (0x40 ∷ 2 ∷ 0 ∷ 10 ∷ []) dawn refl
      (arrives dawn (take 5 (encoding hello)) (drop 5 (encoding hello)) refl refl refl (omega arith)
        (omega arith) (omega arith) (arrived dawn refl refl (omega arith) (omega arith)))
      refl refl
      (pinged dawn dawn refl refl refl refl
        (quiet refl (arrived dawn refl refl (omega arith) (omega arith)) over))

plain-IsWritable : IsWritable plain
unfolding is_utf8 Publish.len
plain-IsWritable = record {
  topic_str = refl;
  topic_fits = omega arith;
  pkid_u16 = omega arith;
  pkid_of_qos = refl;
  len_fits = omega arith;
}

run_client-Brings_example :
    ((run_client turns 3 subscriber).0 ≡ map told news)
    × ((run_client turns 3 subscriber).1 ≡ ok tt)
    × (contents (run_client turns 3 subscriber).2.rx_buffer ≡ [])
unfolding Publish.len
run_client-Brings_example =
    run_client-Brings turns subscriber news refl (omega arith) (omega arith) refl (omega arith)
      (hello-IsWritable, omega arith, (plain-IsWritable, omega arith, tt)) news-Brings
