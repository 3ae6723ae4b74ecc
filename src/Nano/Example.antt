-- ===== src/Nano/Example.antt =====
-- examples/basic.rs, `main`: a session, from the connection to the end of the loop, and the sessions
-- that follow one another.
pub mod Quiet
pub mod Greeting
pub mod Opening
pub mod Stream
pub mod Reconnecting
pub mod Subscribing
use umqtt.Base.{ℕ, Bool, true, false, not, if◌then◌else◌, List, [], ◌∷◌, ◌++◌, Option, none, some}
use umqtt.Base.Outcome.{Outcome, ok, err, panic, ◌>>=◌, ◌>>◌}
use umqtt.PacketView.{at_most_once}
use umqtt.PacketView.BorrowedBuf.{Fill}
use umqtt.PacketView.ConnAck.{ConnAck, is_success}
use umqtt.PacketView.Connect.{ConnectOptions}
use umqtt.PacketView.SubscribeWriter.{add_str, add_separated}
use umqtt.Nano.Platform.{Platform}
use umqtt.Nano.Client.{Client, Error}
use umqtt.Nano.Client.Sending.{connect_subscribe}
use umqtt.Nano.Serving.{Served, run_client}

-- The bytes of "umqttbasicclient".
abbrev pub client_id : List ℕ
client_id =
    0x75 ∷ 0x6d ∷ 0x71 ∷ 0x74 ∷ 0x74 ∷ 0x62 ∷ 0x61 ∷ 0x73 ∷ 0x69 ∷ 0x63 ∷ 0x63 ∷ 0x6c ∷ 0x69 ∷ 0x65
    ∷ 0x6e ∷ 0x74 ∷ []

abbrev pub options : ConnectOptions
options = record {
  client_id = client_id;
  last_will = none;
  login = none;
  keep_alive = 10;
  clean_session = true;
}

-- The bytes of "umqtt", "hello" and "world".
abbrev pub umqtt_str : List ℕ
umqtt_str = 0x75 ∷ 0x6d ∷ 0x71 ∷ 0x74 ∷ 0x74 ∷ []

abbrev pub hello_str : List ℕ
hello_str = 0x68 ∷ 0x65 ∷ 0x6c ∷ 0x6c ∷ 0x6f ∷ []

abbrev pub world_str : List ℕ
world_str = 0x77 ∷ 0x6f ∷ 0x72 ∷ 0x6c ∷ 0x64 ∷ []

-- The subscriptions to "umqtt/hello" and "umqtt/world".
unfoldable pub subscriptions : Fill (Unit {0})
subscriptions = do
  add_str (umqtt_str ++ (0x2f ∷ hello_str)) at_most_once
  add_separated (umqtt_str ∷ world_str ∷ []) (0x2f ∷ []) at_most_once

module _ {P E : Type 0} (plat : Platform P E) where
  -- The answer of `connect_subscribe`, and the loop that is run if it is a success.
  abbrev pub Session : Type 0
  Session = Outcome (Error E) ConnAck × Served plat

  unfoldable pub on_connected : ℕ → Outcome (Error E) ConnAck × Client P → Session
  on_connected rounds (ok connack, c) =
      (ok connack, if is_success connack.code then run_client plat rounds c else ([], ok tt, c))
  on_connected rounds (err e, c) = (err e, ([], ok tt, c))
  on_connected rounds (panic, c) = (panic, ([], ok tt, c))

  unfoldable pub session : ℕ → Client P → Session
  session rounds c = on_connected rounds (connect_subscribe plat options subscriptions c)

  -- Does the session come back to the outer loop? Not where it panics, nor where the inner loop
  -- has used all its rounds and still runs.
  unfoldable pub comes_back : Session → Bool
  comes_back (err e, s) = true
  comes_back (panic, s) = false
  comes_back (ok connack, (ns, err e, c)) = true
  comes_back (ok connack, (ns, panic, c)) = false
  comes_back (ok connack, (ns, ok done, c)) = not (is_success connack.code)

  -- The outer loop, whose rounds take what `make_platform` answers: nothing where it fails. One
  -- client goes through all of them, from the session that failed last to the next one.
  unfoldable pub main : ℕ → List (Option P) → Client P → List Session
  main rounds [] c = []
  main rounds (none ∷ made) c = main rounds made c
  main rounds (some platform ∷ made) c =
      let s = session rounds (record c { platform = platform }) in
      let rest = main rounds made s.1.2 in s ∷ (if comes_back s then rest else [])
