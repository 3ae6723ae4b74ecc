-- ===== src/Nano/Serving.antt =====
-- examples/basic.rs, `run_client`: a client whose notifications are taken and completed one after the
-- other.
pub mod Recorded
pub mod Reading
pub mod Reporting
pub mod Sending
pub mod Answering
pub mod Decoding
pub mod Stream
pub mod Publishes
pub mod Events
pub mod Delivered
use umqtt.Base.{ℕ, zero, suc, List, [], ◌∷◌}
use umqtt.Base.Outcome.{Outcome, ok, err, panic}
use umqtt.Nano.Platform.{Platform}
use umqtt.Nano.Client.{Client, Error, ClientNotification, complete}
use umqtt.Nano.Client.Receiving.{next_notification, complete_notification}

module _ {P E : Type 0} (plat : Platform P E) where
  -- What the loop prints, which is a line for each notification, what it returns, and the client.
  abbrev pub Served : Type 0
  Served = List ClientNotification × Outcome (Error E) (Unit {0}) × Client P

  -- What follows `complete_notification`, in the loop that goes on with `again`.
  unfoldable pub on_completed :
      (Client P → Served) → Outcome (Error E) (Unit {0}) × Client P → Served
  on_completed again (ok done, c) = again c
  on_completed again (err e, c) = ([], err e, c)
  on_completed again (panic, c) = ([], panic, c)

  -- What follows `next_notification`.
  unfoldable pub on_notified :
      (Client P → Served) → Outcome (Error E) ClientNotification × Client P → Served
  on_notified again (ok tick_result, c) =
      let (ns, r, d) = on_completed again (complete_notification plat (complete tick_result) c) in
      (tick_result ∷ ns, r, d)
  on_notified again (err e, c) = ([], err e, c)
  on_notified again (panic, c) = ([], panic, c)

  -- So many rounds of the loop, which no answer of a client ends but an error.
  unfoldable pub run_client : ℕ → Client P → Served
  run_client zero c = ([], ok tt, c)
  run_client (suc rounds) c = on_notified (run_client rounds) (next_notification plat c)
