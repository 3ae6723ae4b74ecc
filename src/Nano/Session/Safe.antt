-- ===== src/Nano/Session/Safe.antt =====
-- nano_client.rs: sequences of calls that do not panic.
use umqtt.Base.{
  ℕ, ◌≤◌, ◌≡◌, refl, ap, arith, Bool, Bool-cases, inl, inr, true, false, if◌then◌else◌, List, [],
  ◌∷◌, length, All, ltb,
}
use mathlib.Core.Path.{subst}
use umqtt.Base.Outcome.{Outcome, NoPanic, bind_no_panic, pure, ◌>>=◌, ◌>>◌}
use umqtt.PacketView.Connect
use umqtt.PacketView.Connect.{ConnectOptions, as_connect}
use umqtt.PacketView.ConnAck.{ConnAck, is_success}
use umqtt.PacketView.BorrowedBuf.{Fill}
use umqtt.PacketView.BorrowedBuf.Adds.{IsTame}
use umqtt.PacketView.Packet.Writers.{
  connect-SafeWrite, pub_ack-SafeWrite, pub_rec-SafeWrite, pub_comp-SafeWrite, ping_req-SafeWrite,
}
use umqtt.Transport.{on_transport_opened}
use umqtt.Nano.Buffer
use umqtt.Nano.Buffer.{capacity}
use umqtt.Nano.Platform.{Platform, ReadFits, ReadWaits}
use umqtt.Nano.Client.{
  Client, Error, send, remove_prefix, NotificationAction, no_action, ping_req, send_ping_request,
  send_pub_ack, send_pub_rec, send_pub_comp,
}
use umqtt.Nano.Client
use umqtt.Nano.Client.Connecting.{read_connack, open_with, on_connack, connect}
use umqtt.Nano.Client.Receiving.{next_notification, run_action, complete_notification}
use umqtt.Nano.Client.Sending.{write_subscribe, connect_subscribe}
use umqtt.Nano.Client.Reads.{Fits}
use umqtt.Nano.Client.Progress.{read_connack_ends}
use umqtt.Nano.Client.Waiting.{next_notification_ends}
use umqtt.Nano.Session.{Call, IsTameCall, perform, perform_all}
use umqtt.Nano.Session.Keeps.{Good, Keeps, Keeps-bind, Keeps-send, Keeps-open_with, Keeps-connect}
use umqtt.Nano.Session.Waiting.{Keeps-next_notification, Keeps-complete}
use umqtt.Nano.Session.Writing.{
  Keeps-send_publish, Keeps-connect_subscribe, send-NoPanic, send_publish-NoPanic,
  write_subscribe-NoPanic,
}

module _ {P E : Type 0} (plat : Platform P E) where
  open_with_no_panic :
      (options : ConnectOptions) (c : Client P) → NoPanic (open_with plat options c).0
  unfolding open_with
  open_with_no_panic options c =
      unfold send in
      send-NoPanic plat (Connect.write (as_connect options))
        (record c {
          transport = on_transport_opened options c.transport;
          rx_buffer = Buffer.reset c.rx_buffer;
        })
        (connect-SafeWrite (as_connect options) c.tx_buffer)

  on_connack_no_panic : (a : ConnAck) (c : Client P) → NoPanic (on_connack plat a c).0
  unfolding on_connack
  on_connack_no_panic a c = elim (Bool-cases (is_success a.code)) [
    | inl e ↦ rw e tt
    | inr e ↦ rw e tt
  ]

  connect-NoPanic :
      (options : ConnectOptions) (c : Client P)
      → ReadFits plat
      → ReadWaits plat
      → Fits plat c
      → NoPanic (connect plat options c).0
  unfolding connect
  connect-NoPanic options c fits waits v =
      let k = capacity c.rx_buffer in
      let n = length c.tx_buffer in
      let opened = Keeps-open_with plat k n options c (v, refl, refl) in
      bind_no_panic (open_with plat options) (λ done. read_connack plat >>= on_connack plat) c
        (open_with_no_panic options c)
        λ done d e.
          let valid = (subst (Good plat k n) (ap (λ q. q.1) e) opened).0 in
          bind_no_panic (read_connack plat) (on_connack plat) d
            (read_connack_ends plat d fits waits valid) (λ a u f. on_connack_no_panic a u)

  -- A call whose answer is left out.
  then_nothing :
      {A : Type 0} (m : Client P → Outcome (Error E) A × Client P) (c : Client P)
      → NoPanic (m c).0
      → NoPanic ((m >> pure tt) c).0
  then_nothing m c h = bind_no_panic m (λ a. pure tt) c h (λ a d e. tt)

  subscribed_no_panic :
      (b : Bool) (a : ConnAck) (subscriptions : Fill (Unit {0})) (c : Client P)
      → IsTame subscriptions
      → NoPanic (((if b then write_subscribe plat subscriptions else pure tt) >> pure a) c).0
  subscribed_no_panic true a subscriptions c h =
      bind_no_panic (write_subscribe plat subscriptions) (λ done. pure a) c
        (write_subscribe-NoPanic plat subscriptions c h) (λ done d e. tt)
  subscribed_no_panic false a subscriptions c h = tt

  send_no_panic :
      (action : NotificationAction) (c : Client P) → NoPanic (run_action plat action c).0
  unfolding run_action send_ping_request send_pub_ack send_pub_rec send_pub_comp
  send_no_panic no_action c = tt
  send_no_panic ping_req c = send-NoPanic plat _ c (ping_req-SafeWrite c.tx_buffer)
  send_no_panic (NotificationAction.pub_ack id) c =
      send-NoPanic plat _ c (pub_ack-SafeWrite (record { pkid = id }) c.tx_buffer)
  send_no_panic (NotificationAction.pub_rec id) c =
      send-NoPanic plat _ c (pub_rec-SafeWrite (record { pkid = id }) c.tx_buffer)
  send_no_panic (NotificationAction.pub_comp id) c =
      send-NoPanic plat _ c (pub_comp-SafeWrite (record { pkid = id }) c.tx_buffer)

  complete_no_panic :
      (completion : Client.NotificationCompletion) (c : Client P)
      → NoPanic (complete_notification plat completion c).0
  unfolding complete_notification
  complete_no_panic completion c = elim (Bool-cases (ltb 0 completion.taken)) [
    | inl some ↦ rw some (send_no_panic completion.action _)
    | inr none ↦ rw none (send_no_panic completion.action c)
  ]

  module _ (fits : ReadFits plat) (waits : ReadWaits plat) where
    perform-NoPanic :
        (call : Call) (c : Client P)
        → IsTameCall call
        → Fits plat c
        → 5 ≤ length c.tx_buffer
        → NoPanic (perform plat call c).0
    unfolding perform connect_subscribe
    perform-NoPanic (Call.connect options) c tame v room =
        then_nothing (connect plat options) c (connect-NoPanic options c fits waits v)
    perform-NoPanic (Call.connect_subscribe options subscriptions) c tame v room =
        then_nothing (connect_subscribe plat options subscriptions) c (
          bind_no_panic (connect plat options) _ c (connect-NoPanic options c fits waits v)
            (λ a d e. subscribed_no_panic (is_success a.code) a subscriptions d tame))
    perform-NoPanic Call.next_notification c tame v room =
        then_nothing (next_notification plat) c (next_notification_ends plat c fits v)
    perform-NoPanic Call.ping c tame v room = unfold run_action in send_no_panic ping_req c
    perform-NoPanic (Call.complete completion) c tame v room = complete_no_panic completion c
    perform-NoPanic (Call.pub_ack id) c tame v room =
        unfold run_action in send_no_panic (NotificationAction.pub_ack id) c
    perform-NoPanic (Call.pub_rec id) c tame v room =
        unfold run_action in send_no_panic (NotificationAction.pub_rec id) c
    perform-NoPanic (Call.pub_comp id) c tame v room =
        unfold run_action in send_no_panic (NotificationAction.pub_comp id) c
    perform-NoPanic (Call.publish p topic payload) c tame v room =
        send_publish-NoPanic plat p topic payload c tame.0 tame.1 room

    perform-Keeps : (k n : ℕ) (call : Call) → IsTameCall call → Keeps plat k n (perform plat call)
    unfolding perform send_ping_request send_pub_ack send_pub_rec send_pub_comp
    perform-Keeps k n (Call.connect options) tame =
        Keeps-bind plat k n (connect plat options) (λ a. pure tt)
          (Keeps-connect plat k n fits options) (λ a c g. g)
    perform-Keeps k n (Call.connect_subscribe options subscriptions) tame =
        Keeps-bind plat k n (connect_subscribe plat options subscriptions) (λ a. pure tt)
          (Keeps-connect_subscribe plat k n options subscriptions fits tame) (λ a c g. g)
    perform-Keeps k n Call.next_notification tame =
        Keeps-bind plat k n (next_notification plat) (λ a. pure tt)
          (Keeps-next_notification plat k n fits) (λ a c g. g)
    perform-Keeps k n Call.ping tame = Keeps-send plat k n _ ping_req-SafeWrite
    perform-Keeps k n (Call.complete completion) tame = Keeps-complete plat k n completion
    perform-Keeps k n (Call.pub_ack id) tame =
        Keeps-send plat k n _ (pub_ack-SafeWrite (record { pkid = id }))
    perform-Keeps k n (Call.pub_rec id) tame =
        Keeps-send plat k n _ (pub_rec-SafeWrite (record { pkid = id }))
    perform-Keeps k n (Call.pub_comp id) tame =
        Keeps-send plat k n _ (pub_comp-SafeWrite (record { pkid = id }))
    perform-Keeps k n (Call.publish p topic payload) tame =
        Keeps-send_publish plat k n p topic payload tame.0 tame.1

    calls-Good :
        (k n : ℕ) (calls : List Call) (c : Client P)
        → All IsTameCall calls
        → 5 ≤ n
        → Good plat k n c
        → All NoPanic (perform_all plat calls c).0 × Good plat k n (perform_all plat calls c).1
    unfolding perform_all
    calls-Good k n [] c tame room g = (tt, g)
    calls-Good k n (call ∷ calls) c tame room g =
        let safe = perform-NoPanic call c tame.0 g.0 (omega (arith, g.2, room)) in
        let kept = perform-Keeps k n call tame.0 c g in
        let (rest, last) = calls-Good k n calls (perform plat call c).1 tame.1 room kept in
        ((safe, rest), last)

    -- Whatever calls an application makes, in any order and also after errors, from any client with
    -- a valid receive buffer and a transmit buffer of at least five bytes, on a platform whose reads
    -- fit the buffer that they are given and wait where they have no timeout, with functions that do
    -- not panic and only append: no call panics, and in the end the receive buffer is valid and both
    -- buffers are as large as they were.
    pub perform_all_safe :
        (calls : List Call) (c : Client P)
        → All IsTameCall calls
        → Fits plat c
        → 5 ≤ length c.tx_buffer
        → All NoPanic (perform_all plat calls c).0
          × Fits plat (perform_all plat calls c).1
          × (capacity (perform_all plat calls c).1.rx_buffer ≡ capacity c.rx_buffer)
          × (length (perform_all plat calls c).1.tx_buffer ≡ length c.tx_buffer)
    perform_all_safe calls c tame v room =
        let (safe, g) =
          calls-Good (capacity c.rx_buffer) (length c.tx_buffer) calls c tame room
            (v, refl, refl) in
        (safe, g.0, g.1, g.2)
