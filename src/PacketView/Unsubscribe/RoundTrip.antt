-- ===== src/PacketView/Unsubscribe/RoundTrip.antt =====
-- packetview/unsubscribe.rs: reading back an unsubscribe that was written.
use umqtt.Base.{
  ℕ, zero, suc, ◌+◌, ◌≤◌, ◌<◌, ◌≡◌, refl, ◌∙◌, arith, List, [], ◌∷◌, ◌++◌, length, some, All,
  length-append, drop-append_add,
}
use umqtt.Base.Outcome.{ok, bind_ok}
use umqtt.PacketView.Utf8.{IsStr}
use umqtt.PacketView.WriteCursor.{be_bytes}
use umqtt.PacketView.WriteCursor.Emits.{
  Emits, EmitsTo, Emits-pure, Emits-then, Emits-put_u8, Emits-put_u16, Emits-last, EmitsTo-Wrote,
  Wrote,
}
use umqtt.PacketView.Field.{read_u16, read_mqtt_bytes, read_mqtt_string}
use umqtt.PacketView.Field.RoundTrip.{
  mqtt_bytes, Emits-write_mqtt_string, read_u16-be_bytes, read_mqtt_string-mqtt_bytes,
}
use umqtt.PacketView.Header.{max_remaining_len}
use umqtt.PacketView.Header.Encoding.{Emits-write_remaining_length}
use umqtt.PacketView.Header.RoundTrip.{frame, header_of}
use umqtt.PacketView.Header.Framing.{advance-frame}
use umqtt.PacketView.Unsubscribe.{
  topic_of, next_topic, all_topics, wire_bytes, iter, Unsubscribe, fold_len, len, skip_topics,
  read_exact, write_topics, writer, write,
}

-- A topic that the source can hold and write.
abbrev pub IsTopic : List ℕ → Type 0
IsTopic t = IsStr t × (length t < 65536)

unfoldable pub topics_bytes : List (List ℕ) → List ℕ
topics_bytes [] = []
topics_bytes (t ∷ ts) = mqtt_bytes t ++ topics_bytes ts

Emits-write_topics :
    (ts : List (List ℕ)) → All IsTopic ts → Emits (write_topics ts) (topics_bytes ts) tt
unfolding write_topics topics_bytes
Emits-write_topics [] h = Emits-pure tt
Emits-write_topics (t ∷ ts) h =
    Emits-then (Emits-write_mqtt_string t h.0.1) (Emits-write_topics ts h.1)

fold_len-topics_bytes : (n : ℕ) (ts : List (List ℕ)) → fold_len n ts ≡ n + length (topics_bytes ts)
unfolding fold_len topics_bytes
fold_len-topics_bytes n [] = omega arith
fold_len-topics_bytes n (t ∷ ts) = omega (
  arith,
  fold_len-topics_bytes (n + length t + 2) ts,
  length-append (mqtt_bytes t) (topics_bytes ts),
)

next_topic-mqtt_bytes :
    (t rest : List ℕ) → IsTopic t → next_topic (mqtt_bytes t ++ rest) ≡ some (t, rest)
unfolding next_topic topic_of
next_topic-mqtt_bytes t rest h =
    ground (arith, read_mqtt_string-mqtt_bytes t rest h.0, drop-append_add (mqtt_bytes t) rest 0)

all_topics_step :
    (fuel : ℕ) (bytes rest t : List ℕ) (ts : List (List ℕ))
    → next_topic bytes ≡ some (t, rest)
    → all_topics fuel rest ≡ ts
    → all_topics (suc fuel) bytes ≡ t ∷ ts
unfolding all_topics
all_topics_step fuel bytes rest t ts e more = ground (arith, e, more)

all_topics-topics_bytes :
    (fuel : ℕ) (ts : List (List ℕ))
    → All IsTopic ts
    → length (topics_bytes ts) ≤ fuel
    → all_topics fuel (topics_bytes ts) ≡ ts
unfolding all_topics topics_bytes next_topic
all_topics-topics_bytes zero [] h le = refl
all_topics-topics_bytes (suc fuel) [] h le =
    unfold read_mqtt_string read_mqtt_bytes read_u16 topic_of in refl
all_topics-topics_bytes zero (t ∷ ts) h le = absurd (omega arith)
all_topics-topics_bytes (suc fuel) (t ∷ ts) h le =
    let more =
      all_topics-topics_bytes fuel ts h.1
        (omega (arith, length-append (mqtt_bytes t) (topics_bytes ts))) in
    all_topics_step fuel (mqtt_bytes t ++ topics_bytes ts) (topics_bytes ts) t ts
      (next_topic-mqtt_bytes t (topics_bytes ts) h.0) more

skip_topics_step :
    (fuel x : ℕ) (bytes rest t : List ℕ)
    → read_mqtt_string (x ∷ bytes) ≡ (ok t, rest)
    → skip_topics fuel rest ≡ (ok tt, [])
    → skip_topics (suc fuel) (x ∷ bytes) ≡ (ok tt, [])
unfolding skip_topics
skip_topics_step fuel x bytes rest t e more =
    bind_ok read_mqtt_string (λ _. skip_topics fuel) e ∙ more

skip_topics-topics_bytes :
    (fuel : ℕ) (ts : List (List ℕ))
    → All IsTopic ts
    → length (topics_bytes ts) ≤ fuel
    → skip_topics fuel (topics_bytes ts) ≡ (ok tt, [])
unfolding skip_topics topics_bytes
skip_topics-topics_bytes zero [] h le = refl
skip_topics-topics_bytes (suc fuel) [] h le = refl
skip_topics-topics_bytes zero (t ∷ ts) h le = absurd (omega arith)
skip_topics-topics_bytes (suc fuel) (t ∷ ts) h le =
    let more =
      skip_topics-topics_bytes fuel ts h.1
        (omega (arith, length-append (mqtt_bytes t) (topics_bytes ts))) in
    skip_topics_step fuel _ _ (topics_bytes ts) t
      (read_mqtt_string-mqtt_bytes t (topics_bytes ts) h.0.0) more

-- An unsubscribe that the source can hold and write: each topic is a `&str` of at most 65535
-- bytes, and the packet is not too long.
pub record IsWritable (p : Unsubscribe) : Type 0 where
  pub topics_fit : All IsTopic (iter p.topics)
  pub len_fits : len p ≤ max_remaining_len

abbrev pub body : Unsubscribe → List ℕ
body p = be_bytes p.pkid ++ topics_bytes (iter p.topics)

pub length-body : (p : Unsubscribe) → length (body p) ≡ len p
unfolding len
length-body p = omega (arith, fold_len-topics_bytes 0 (iter p.topics))

pub Unsubscribe_written :
    (p : Unsubscribe) (buffer : List ℕ)
    → IsWritable p
    → Wrote (frame 0xa2 (body p)) buffer (write p buffer)
unfolding write writer
Unsubscribe_written p buffer w = EmitsTo-Wrote emits buffer
  where
    emits : EmitsTo (writer p) (frame 0xa2 (body p)) (length {A = ℕ})
    emits = rw (length-body p) (
        Emits-then (Emits-put_u8 0xa2) (
          Emits-then (Emits-write_remaining_length (len p) w.len_fits) (
            Emits-then (Emits-put_u16 p.pkid)
              (Emits-last (Emits-write_topics (iter p.topics) w.topics_fit)))))

-- The unsubscribe that is read: its topics are the bytes of the packet.
abbrev pub on_wire : Unsubscribe → Unsubscribe
on_wire p = record { pkid = p.pkid; topics = wire_bytes (topics_bytes (iter p.topics)) }

pub iter-on_wire : (p : Unsubscribe) → IsWritable p → iter (on_wire p).topics ≡ iter p.topics
unfolding iter
iter-on_wire p w = all_topics-topics_bytes _ (iter p.topics) w.topics_fit (omega arith)

pub read_exact-frame :
    (p : Unsubscribe)
    → IsWritable p
    → read_exact (header_of 0xa2 (body p)) (frame 0xa2 (body p)) ≡ ok (on_wire p)
unfolding read_exact
read_exact-frame p w = ground (
  arith,
  advance-frame 0xa2 (body p),
  read_u16-be_bytes p.pkid (topics_bytes (iter p.topics)),
  skip_topics-topics_bytes (length (topics_bytes (iter p.topics))) (iter p.topics) w.topics_fit
      (omega arith),
)
