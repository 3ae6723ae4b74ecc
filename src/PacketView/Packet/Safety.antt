-- ===== src/PacketView/Packet/Safety.antt =====
-- packetview/packet.rs: the indices, slices and loops of the readers, on any data.
use umqtt.Base.{
  ℕ, zero, suc, ◌≤◌, ◌<◌, ◌≡◌, ◌≢◌, refl, arith, List, [], ◌∷◌, length, if◌then◌else◌, ◌==◌, take,
  length-take, Bool-cases, inl, inr, le→leb,
}
use umqtt.Base.Outcome.{Outcome, ok, err, panic, resume, and_then, NoPanic}
use umqtt.PacketView.{Error, FixedHeader, frame_length, PacketType, qos, type_of_nibble}
use umqtt.PacketView.Cursor.{Cursor}
use umqtt.PacketView.PubAck
use umqtt.PacketView.PubRec
use umqtt.PacketView.PubRel
use umqtt.PacketView.PubComp
use umqtt.PacketView.UnsubAck
use umqtt.PacketView.ConnAck
use umqtt.PacketView.SubAck
use umqtt.PacketView.Publish
use umqtt.PacketView.Connect
use umqtt.PacketView.Subscribe
use umqtt.PacketView.Unsubscribe
use umqtt.PacketView.ConnAck.{connect_return}
use umqtt.PacketView.SubAck.{try_from, check_codes}
use umqtt.PacketView.Connect.{read_will, read_login}
use umqtt.PacketView.Subscribe.{SubscribeFilter, subscribe_of}
use umqtt.PacketView.Unsubscribe.{skip_topics}
use umqtt.PacketView.Packet.{Packet, read, read_exact, with_payload, no_payload}
use umqtt.PacketView.Header.{check}
use umqtt.PacketView.Header.Bounds.{check-ne-panic, check_within}
use umqtt.Base.Slice.{slice_to}
use umqtt.PacketView.Field.RoundTrip.{read_mqtt_string-shorter}
use umqtt.PacketView.Field.{read_mqtt_string}
use umqtt.PacketView.Field.Safe.{
  Safe, NoPanic-of, Safe-pure, Safe-answer, Safe-as_slice, resume_safe, Safe-bind, Safe-read_u16,
  Safe-read_mqtt_string, safe_rules, run_on_safe, and_then_safe,
}

qos_safe : (n : ℕ) → NoPanic (qos n)
unfolding qos
qos_safe n = NoPanic-of (qos n) (λ e. ground arith)

connect_return_safe : (n : ℕ) → NoPanic (connect_return n)
unfolding connect_return
connect_return_safe n = NoPanic-of (connect_return n) (λ e. ground arith)

try_from_safe : (n : ℕ) → NoPanic (try_from n)
unfolding try_from
try_from_safe n = NoPanic-of (try_from n) (λ e. ground arith)

type_of_nibble_safe : (n : ℕ) → NoPanic (type_of_nibble n)
unfolding type_of_nibble
type_of_nibble_safe n = NoPanic-of (type_of_nibble n) (λ e. ground arith)

check_codes_safe : (bs : List ℕ) → NoPanic (check_codes bs)
unfolding check_codes
check_codes_safe [] = tt
check_codes_safe (b ∷ bs) =
    and_then_safe (try_from b) _ (try_from_safe b) (λ _. check_codes_safe bs)

Safe-read_will : (flags : ℕ) → Safe (read_will flags)
unfolding read_will
Safe-read_will flags = search (safe_rules, qos_safe) depth 12

Safe-read_login : (flags : ℕ) → Safe (read_login flags)
unfolding read_login
Safe-read_login flags = search safe_rules depth 12

subscribe_of_safe :
    (pkid : ℕ) (bytes : List ℕ) (r : List SubscribeFilter × List ℕ)
    → NoPanic (subscribe_of pkid bytes r)
unfolding subscribe_of
subscribe_of_safe pkid bytes ([], left) = tt
subscribe_of_safe pkid bytes (f ∷ fs, []) = tt
subscribe_of_safe pkid bytes (f ∷ fs, b ∷ left) = tt

-- The loop over the topics of an unsubscribe ends: each round takes two bytes or more.
skip_topics_safe : (fuel : ℕ) (s : Cursor) → length s ≤ fuel → NoPanic (skip_topics fuel s).0
unfolding skip_topics
skip_topics_safe zero [] h = tt
skip_topics_safe zero (b ∷ s) h = absurd (omega arith)
skip_topics_safe (suc fuel) [] h = tt
skip_topics_safe (suc fuel) (b ∷ s) h =
    rest (read_mqtt_string (b ∷ s)) (Safe-read_mqtt_string.at (b ∷ s))
      (read_mqtt_string-shorter (b ∷ s)) (skip_topics_safe fuel)
  where
    rest :
        (p : Outcome Error (List ℕ) × Cursor)
        → NoPanic p.0
        → ((a t : List ℕ) → p ≡ (ok a, t) → length t < suc (length s))
        → ((t : Cursor) → length t ≤ fuel → NoPanic (skip_topics fuel t).0)
        → NoPanic (let (r, t) = p in resume r (λ _. skip_topics fuel) t).0
    rest (ok a, t) hr shorter ih = ih t (omega (arith, shorter a t refl))
    rest (err e, t) hr shorter ih = tt
    rest (panic, t) hr shorter ih = hr

no_payload_safe : (t : PacketType) → NoPanic (no_payload t)
unfolding no_payload
no_payload_safe PacketType.ping_req = tt
no_payload_safe _ = tt

module _ (h : FixedHeader) (bytes : List ℕ) (within : h.fixed_header_len ≤ length bytes) where
  PubAck_safe : NoPanic (PubAck.read_exact h bytes)
  unfolding PubAck.read_exact
  PubAck_safe = run_on_safe _ bytes _ within (search safe_rules depth 12)

  PubRec_safe : NoPanic (PubRec.read_exact h bytes)
  unfolding PubRec.read_exact
  PubRec_safe = run_on_safe _ bytes _ within (search safe_rules depth 12)

  PubRel_safe : NoPanic (PubRel.read_exact h bytes)
  unfolding PubRel.read_exact
  PubRel_safe = run_on_safe _ bytes _ within (search safe_rules depth 12)

  PubComp_safe : NoPanic (PubComp.read_exact h bytes)
  unfolding PubComp.read_exact
  PubComp_safe = run_on_safe _ bytes _ within (search safe_rules depth 12)

  ConnAck_safe : NoPanic (ConnAck.read_exact h bytes)
  unfolding ConnAck.read_exact
  ConnAck_safe = run_on_safe _ bytes _ within (search (safe_rules, connect_return_safe) depth 12)

  SubAck_safe : NoPanic (SubAck.read_exact h bytes)
  unfolding SubAck.read_exact
  SubAck_safe = run_on_safe _ bytes _ within (search (safe_rules, check_codes_safe) depth 12)

  Publish_safe : NoPanic (Publish.read_exact h bytes)
  unfolding Publish.read_exact
  Publish_safe =
      and_then_safe (qos _) _ (qos_safe _)
        (λ q. run_on_safe _ bytes _ within (search safe_rules depth 12))

  Connect_safe : NoPanic (Connect.read_exact h bytes)
  unfolding Connect.read_exact
  Connect_safe =
      run_on_safe _ bytes _ within (search (safe_rules, Safe-read_will, Safe-read_login) depth 14)

  UnsubAck_safe : NoPanic (UnsubAck.read_exact h bytes)
  unfolding UnsubAck.read_exact
  UnsubAck_safe = elim (Bool-cases (h.remaining_len == 2)) [
    | inl two ↦ rw two (run_on_safe _ bytes _ within (search safe_rules depth 12))
    | inr other ↦ rw other tt
  ]

  Subscribe_safe : NoPanic (Subscribe.read_exact h bytes)
  unfolding Subscribe.read_exact
  Subscribe_safe = run_on_safe _ bytes _ within (
      Safe-bind _ _ Safe-read_u16 (λ pkid.
        Safe-bind _ _ Safe-as_slice (λ filters. Safe-answer (subscribe_of_safe pkid filters _))))

  Unsubscribe_safe : NoPanic (Unsubscribe.read_exact h bytes)
  unfolding Unsubscribe.read_exact
  Unsubscribe_safe = run_on_safe _ bytes _ within (
      Safe-bind _ _ Safe-read_u16 (λ pkid. record {
        at = λ s.
            let (r, s') = skip_topics (length s) s in
            resume_safe r _ s' (skip_topics_safe (length s) s (omega arith)) (λ _. Safe-pure _);
      }))

  with_payload_safe : (t : PacketType) → NoPanic (with_payload h bytes t)
  unfolding with_payload
  with_payload_safe PacketType.connect = and_then_safe _ _ Connect_safe (λ p. tt)
  with_payload_safe PacketType.conn_ack = and_then_safe _ _ ConnAck_safe (λ p. tt)
  with_payload_safe PacketType.publish = and_then_safe _ _ Publish_safe (λ p. tt)
  with_payload_safe PacketType.pub_ack = and_then_safe _ _ PubAck_safe (λ p. tt)
  with_payload_safe PacketType.pub_rec = and_then_safe _ _ PubRec_safe (λ p. tt)
  with_payload_safe PacketType.pub_rel = and_then_safe _ _ PubRel_safe (λ p. tt)
  with_payload_safe PacketType.pub_comp = and_then_safe _ _ PubComp_safe (λ p. tt)
  with_payload_safe PacketType.subscribe = and_then_safe _ _ Subscribe_safe (λ p. tt)
  with_payload_safe PacketType.sub_ack = and_then_safe _ _ SubAck_safe (λ p. tt)
  with_payload_safe PacketType.unsubscribe = and_then_safe _ _ Unsubscribe_safe (λ p. tt)
  with_payload_safe PacketType.unsub_ack = and_then_safe _ _ UnsubAck_safe (λ p. tt)
  with_payload_safe _ = tt

  read_exact_safe : NoPanic (read_exact h bytes)
  unfolding read_exact
  read_exact_safe = and_then_safe _ _ (type_of_nibble_safe _) branches
    where
      branches :
          (t : PacketType)
          → NoPanic (if h.remaining_len == 0 then no_payload t else with_payload h bytes t)
      branches t = elim (Bool-cases (h.remaining_len == 0)) [
        | inl z ↦ rw z (no_payload_safe t)
        | inr p ↦ rw p (with_payload_safe t)
      ]

-- For all data and under every size limit, `Packet::read` does not panic.
pub read_safe : (stream : List ℕ) (max_size : ℕ) → NoPanic (read stream max_size)
unfolding read
read_safe stream max_size =
    framed (check stream max_size) (check-ne-panic stream max_size) (check_within stream max_size)
  where
    framed :
        (r : Outcome Error FixedHeader)
        → r ≢ panic
        → ((h : FixedHeader)
            → r ≡ ok h
            → (frame_length h ≤ length stream) × (h.remaining_len ≤ max_size))
        → NoPanic {A = Packet × ℕ} (
            and_then r λ h.
              and_then
                (slice_to (frame_length h) stream)
                λ packet. and_then (read_exact h packet) λ parsed. ok (parsed, length packet))
    framed (ok h) ne within =
        let fits = (within h refl).0 in
        rw (le→leb (frame_length h) (length stream) fits) (
          and_then_safe (read_exact h _) _
            (read_exact_safe h (take (frame_length h) stream)
              (omega (arith, fits, length-take (frame_length h) stream)))
            (λ parsed. tt))
    framed (err e) ne within = tt
    framed panic ne within = ne refl
