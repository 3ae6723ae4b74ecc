-- ===== src/PacketView/Unsubscribe.antt =====
-- packetview/unsubscribe.rs: the topics to unsubscribe from, a slice or the bytes of a packet.
pub mod RoundTrip
use umqtt.Base.{
  ℕ, zero, suc, ◌+◌, if◌then◌else◌, List, [], ◌∷◌, length, is_nil, drop, Option, none, some,
}
use umqtt.Base.Outcome.{Outcome, ok, err, panic, run_on, pure, lift, ◌>>=◌, ◌>>◌}
use umqtt.PacketView.{Error, WriteError, FixedHeader}
use umqtt.PacketView.Cursor.{Read, as_slice, advance}
use umqtt.PacketView.WriteCursor.{Write, put_u8, put_u16, bytes_written, write_into}
use umqtt.PacketView.Field.{read_u16, read_mqtt_string, write_mqtt_string}
use umqtt.PacketView.Header.{write_remaining_length}

topic_of : List ℕ → Outcome Error (List ℕ) → Option (List ℕ × List ℕ)
topic_of bytes (ok res) = some (res, drop (2 + length res) bytes)
topic_of bytes (err e) = none
topic_of bytes panic = none

-- `WireBytesIter::next`: the topic and what is left; at `None` the iterator stays where it is.
unfoldable pub next_topic : List ℕ → Option (List ℕ × List ℕ)
unfolding topic_of
next_topic bytes = topic_of bytes (run_on bytes read_mqtt_string)

-- All topics that the iterator yields. A topic takes two bytes or more, so as many rounds as there
-- are bytes reach the end.
unfoldable pub all_topics : ℕ → List ℕ → List (List ℕ)
all_topics zero bytes = []
all_topics (suc fuel) bytes = elim (next_topic bytes) [
  | none ↦ []
  | some (t, rest) ↦ t ∷ all_topics fuel rest
]

pub data Storage : Type 0 where
  slice : List (List ℕ) → Storage
  wire_bytes : List ℕ → Storage

unfoldable pub iter : Storage → List (List ℕ)
iter (slice s) = s
iter (wire_bytes b) = all_topics (length b) b

pub record Unsubscribe : Type 0 where
  pub pkid : ℕ
  pub topics : Storage

-- `fold(0, |s, t| s + t.len() + 2)`
unfoldable pub fold_len : ℕ → List (List ℕ) → ℕ
fold_len s [] = s
fold_len s (t ∷ ts) = fold_len (s + length t + 2) ts

unfoldable pub len : Unsubscribe → ℕ
len p = 2 + fold_len 0 (iter p.topics)

-- `while !bytes.is_empty() { read_mqtt_string(&mut bytes)?; }`, with fuel; no fuel stands for a
-- loop that goes on.
unfoldable pub skip_topics : ℕ → Read (Unit {0})
skip_topics zero = do bytes ← as_slice; if is_nil bytes then pure tt else lift panic
skip_topics (suc fuel) = do
  bytes ← as_slice
  if is_nil bytes then pure tt else do read_mqtt_string; skip_topics fuel

unfoldable pub read_exact : FixedHeader → List ℕ → Outcome Error Unsubscribe
read_exact h bytes = run_on bytes do
  advance h.fixed_header_len
  pkid ← read_u16
  topics ← as_slice
  skip_topics (length topics)
  pure (record { pkid = pkid; topics = wire_bytes topics })

unfoldable pub write_topics : List (List ℕ) → Write (Unit {0})
write_topics [] = pure tt
write_topics (t ∷ ts) = do write_mqtt_string t; write_topics ts

unfoldable pub writer : Unsubscribe → Write ℕ
unfolding write_topics
writer p = do
  put_u8 0xa2
  write_remaining_length (len p)
  put_u16 p.pkid
  write_topics (iter p.topics)
  bytes_written

unfoldable pub write : Unsubscribe → List ℕ → Outcome WriteError ℕ × List ℕ
write p = write_into (writer p)
