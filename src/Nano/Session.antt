-- ===== src/Nano/Session.antt =====
-- nano_client.rs: any sequence of calls that an application makes of a `NanoClient`.
pub mod Keeps
pub mod Waiting
pub mod Writing
pub mod Safe
use umqtt.Base.{ℕ, List, [], ◌∷◌}
use umqtt.Base.Outcome.{Outcome, Act, pure, ◌>>=◌, ◌>>◌}
use umqtt.PacketView.BorrowedBuf.{Fill}
use umqtt.PacketView.BorrowedBuf.Adds.{IsTame}
use umqtt.PacketView.Connect.{ConnectOptions}
use umqtt.PacketView.OutPublish.{OutPublish}
use umqtt.Nano.Platform.{Platform}
use umqtt.Nano.Client.{
  Client, Error, NotificationCompletion, send_ping_request, send_pub_ack, send_pub_rec,
  send_pub_comp,
}
use umqtt.Nano.Client.Connecting
use umqtt.Nano.Client.Receiving
use umqtt.Nano.Client.Sending

-- A call with its arguments. What it returns is left out.
pub data Call : Type 0 where
  connect : ConnectOptions → Call
  connect_subscribe : ConnectOptions → Fill (Unit {0}) → Call
  next_notification ping : Call
  complete : NotificationCompletion → Call
  pub_ack pub_rec pub_comp : ℕ → Call
  publish : OutPublish → Fill (Unit {0}) → Fill (Unit {0}) → Call

-- The functions that are handed over do not panic and only append.
abbrev pub IsTameCall : Call → Type 0
IsTameCall (connect_subscribe options subscriptions) = IsTame subscriptions
IsTameCall (publish p topic payload) = IsTame topic × IsTame payload
IsTameCall _ = Unit {0}

module _ {P E : Type 0} (plat : Platform P E) where
  unfoldable pub perform : Call → Act (Client P) (Error E) (Unit {0})
  perform (connect options) = Connecting.connect plat options >> pure tt
  perform (connect_subscribe options subscriptions) =
      Sending.connect_subscribe plat options subscriptions >> pure tt
  perform next_notification = Receiving.next_notification plat >> pure tt
  perform ping = send_ping_request plat
  perform (complete completion) = Receiving.complete_notification plat completion
  perform (pub_ack packet_id) = send_pub_ack plat packet_id
  perform (pub_rec packet_id) = send_pub_rec plat packet_id
  perform (pub_comp packet_id) = send_pub_comp plat packet_id
  perform (publish p topic payload) = Sending.send_publish plat p topic payload

  -- What each of the calls comes to, and the client after the last; after an error the application
  -- goes on with the next call.
  unfoldable pub perform_all : List Call → Client P → List (Outcome (Error E) (Unit {0})) × Client P
  perform_all [] c = ([], c)
  perform_all (call ∷ calls) c =
      let (r, d) = perform call c in let (rs, e) = perform_all calls d in (r ∷ rs, e)
