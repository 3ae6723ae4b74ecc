-- ===== src/Nano/Client/Receiving.antt =====
-- nano_client.rs: `next_notification` and `complete_notification`.
use umqtt.Base.{ℕ, zero, suc, ltb, if◌then◌else◌, Bool, true, false, Option, none, some}
use umqtt.Base.Outcome.{Outcome, and_then, ok, err, panic, Act, pure, fail, lift, ◌>>=◌, ◌>>◌}
use umqtt.PacketView
use umqtt.PacketView.{WriteError, QoS, at_most_once, at_least_once, exactly_once, malformed_packet}
use umqtt.PacketView.Header.{check}
use umqtt.Transport.{Notification, next_ping_in, is_disconnected}
use umqtt.Nano.Buffer
use umqtt.Nano.Buffer.{Buffer}
use umqtt.Nano.Platform.{Platform}
use umqtt.Nano.Client.{
  Error, connection_closed, read_error, Client, NotificationAction, no_action, ping_req, pub_ack,
  pub_rec, pub_comp, NotificationCompletion, ClientNotification, transport_notification, send_ping,
  send_ping_request, send_pub_ack, send_pub_rec, send_pub_comp, read_some_with_timeout, receive,
  remove_prefix,
}

module _ {P E : Type 0} (plat : Platform P E) where
  abbrev Run : Type 0 → Type 0
  Run A = Act (Client P) (Error E) A

  -- `is_ok`
  unfoldable pub is_ok : Outcome PacketView.Error PacketView.FixedHeader → Outcome (Error E) Bool
  is_ok (ok h) = ok true
  is_ok (err e) = ok false
  is_ok panic = panic

  -- Whether `check(used_slice, capacity)` is `Ok`.
  unfoldable pub framed : Run Bool
  framed c = (
    and_then (Buffer.used_slice c.rx_buffer)
        (λ bytes. is_ok (check bytes (Buffer.capacity c.rx_buffer))),
    c,
  )

  -- What follows the wait: nothing came, or bytes did; the loop goes on with `again`.
  unfoldable pub on_wait : Run Bool → Option ℕ → Run Bool
  on_wait again none = pure false
  on_wait again (some n) = framed >>= λ done. if done then pure true else again

  -- `read_some_with_timeout(next_ping_in(now))`
  unfoldable pub wait : Run (Option ℕ)
  wait c =
      let (now, p) = plat.now c.platform in
      read_some_with_timeout plat (next_ping_in now c.transport) (record c { platform = p })

  -- The loop of `next_notification`: whether a packet is framed, or else a ping is due.
  unfoldable pub notification_loop : ℕ → Run Bool
  notification_loop zero = lift panic
  notification_loop (suc fuel) = wait >>= on_wait (notification_loop fuel)

  -- The match on what was received.
  unfoldable pub notification_of : Option (Notification × ℕ) → Run ClientNotification
  notification_of none = fail (read_error PacketView.Error.malformed_packet)
  notification_of (some (n, taken)) = pure (transport_notification n taken)

  unfoldable pub on_framed : Bool → Run ClientNotification
  on_framed true = receive plat >>= notification_of
  on_framed false = pure send_ping

  unfoldable pub next_notification : Run ClientNotification
  next_notification c =
      if is_disconnected c.transport
      then (err connection_closed, c)
      else (notification_loop (suc (Buffer.capacity c.rx_buffer)) >>= on_framed) c

  unfoldable pub run_action : NotificationAction → Run (Unit {0})
  run_action no_action = pure tt
  run_action ping_req = send_ping_request plat
  run_action (pub_ack packet_id) = send_pub_ack plat packet_id
  run_action (pub_rec packet_id) = send_pub_rec plat packet_id
  run_action (pub_comp packet_id) = send_pub_comp plat packet_id

  unfoldable pub complete_notification : NotificationCompletion → Run (Unit {0})
  complete_notification completion = do
    if ltb 0 completion.taken then remove_prefix plat completion.taken else pure tt
    run_action completion.action
