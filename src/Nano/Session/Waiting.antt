-- ===== src/Nano/Session/Waiting.antt =====
-- nano_client.rs: waiting for a notification and completing it keep the buffers of the client.
use umqtt.Base.{
  ℕ, zero, suc, Bool, true, false, Bool-cases, inl, inr, if◌then◌else◌, Option, none, some, ltb,
}
use umqtt.Base.Outcome.{Outcome, ok, panic, pure}
use umqtt.Transport.{Notification, is_disconnected}
use umqtt.Nano.Platform.{Platform, ReadFits}
use umqtt.Nano.Client.{
  Client, Error, NotificationAction, no_action, ping_req, pub_ack, pub_rec, pub_comp,
  NotificationCompletion, ClientNotification, send_ping, send_ping_request, send_pub_ack,
  send_pub_rec, send_pub_comp, receive, remove_prefix,
}
use umqtt.Nano.Client.Connecting.{}
use umqtt.PacketView.Packet.Writers.{
  pub_ack-SafeWrite, pub_rec-SafeWrite, pub_comp-SafeWrite, ping_req-SafeWrite,
}
use umqtt.Nano.Client.Receiving.{
  framed, on_wait, wait, notification_loop, notification_of, on_framed, next_notification,
  run_action, complete_notification,
}
use umqtt.Nano.Session.Keeps.{
  Keeps, Keeps-bind, Keeps-look, Keeps-if, Keeps-read_some, Keeps-receive, Keeps-send,
  Keeps-remove_prefix,
}

module _ {P E : Type 0} (plat : Platform P E) (k n : ℕ) where
  -- Waiting for a notification.
  framed-Keeps : Keeps plat k n (framed plat)
  unfolding framed
  framed-Keeps c g = g

  on_wait-Keeps :
      (again : Client P → Outcome (Error E) Bool × Client P) (r : Option ℕ)
      → Keeps plat k n again
      → Keeps plat k n (on_wait plat again r)
  unfolding on_wait
  on_wait-Keeps again none h = Keeps-look plat k n Bool (λ c. ok false)
  on_wait-Keeps again (some size) h =
      Keeps-bind plat k n (framed plat) (λ done. if done then pure true else again) framed-Keeps
        (λ done. Keeps-if plat k n done (pure true) again (λ c g. g) h)

  notification_loop-Keeps :
      ReadFits plat → (fuel : ℕ) → Keeps plat k n (notification_loop plat fuel)
  unfolding notification_loop wait
  notification_loop-Keeps fits zero = Keeps-look plat k n Bool (λ c. panic)
  notification_loop-Keeps fits (suc fuel) =
      let again = notification_loop plat fuel in
      let step = notification_loop-Keeps fits fuel in
      Keeps-bind plat k n (wait plat) (on_wait plat again)
        (λ c g. Keeps-read_some plat k n fits _ (record c { platform = _ }) g)
        (λ r. on_wait-Keeps again r step)

  notification_of-Keeps : (r : Option (Notification × ℕ)) → Keeps plat k n (notification_of plat r)
  unfolding notification_of
  notification_of-Keeps none c g = g
  notification_of-Keeps (some (m, taken)) c g = g

  on_framed-Keeps : (b : Bool) → Keeps plat k n (on_framed plat b)
  unfolding on_framed
  on_framed-Keeps true =
      Keeps-bind plat k n (receive plat) (notification_of plat) (Keeps-receive plat k n)
        notification_of-Keeps
  on_framed-Keeps false = Keeps-look plat k n ClientNotification (λ c. ok send_ping)

  pub Keeps-next_notification : ReadFits plat → Keeps plat k n (next_notification plat)
  unfolding next_notification
  Keeps-next_notification fits c g = elim (Bool-cases (is_disconnected c.transport)) [
    | inl off ↦ rw off g
    | inr on ↦ rw on (
        Keeps-bind plat k n (notification_loop plat _) (on_framed plat)
          (notification_loop-Keeps fits _) on_framed-Keeps c g)
  ]

  run_action-Keeps : (action : NotificationAction) → Keeps plat k n (run_action plat action)
  unfolding run_action send_ping_request send_pub_ack send_pub_rec send_pub_comp
  run_action-Keeps no_action = Keeps-look plat k n (Unit {0}) (λ c. ok tt)
  run_action-Keeps ping_req = Keeps-send plat k n _ ping_req-SafeWrite
  run_action-Keeps (pub_ack id) = Keeps-send plat k n _ (pub_ack-SafeWrite (record { pkid = id }))
  run_action-Keeps (pub_rec id) = Keeps-send plat k n _ (pub_rec-SafeWrite (record { pkid = id }))
  run_action-Keeps (pub_comp id) = Keeps-send plat k n _ (pub_comp-SafeWrite (record { pkid = id }))

  pub Keeps-complete :
      (completion : NotificationCompletion) → Keeps plat k n (complete_notification plat completion)
  unfolding complete_notification
  Keeps-complete completion =
      Keeps-bind plat k n
        (if ltb 0 completion.taken then remove_prefix plat completion.taken else pure tt)
        (λ done. run_action plat completion.action)
        (Keeps-if plat k n (ltb 0 completion.taken) (remove_prefix plat completion.taken) (pure tt)
          (Keeps-remove_prefix plat k n completion.taken) (λ c g. g))
        (λ done. run_action-Keeps completion.action)
