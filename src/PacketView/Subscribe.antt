-- ===== src/PacketView/Subscribe.antt =====
-- packetview/subscribe.rs: a subscription to topic filters. The filters are a slice, or the bytes
-- of a packet that was read, which `BytesIterator` takes apart.
pub mod RoundTrip
use umqtt.Base.{
  ℕ, zero, suc, ◌+◌, ◌*◌, ltb, if◌then◌else◌, List, [], ◌∷◌, length, is_nil, take, drop, get_elem?,
  Option, none, some,
}
use umqtt.Base.Outcome.{Outcome, ok, err, panic, run_on, pure, ◌>>=◌, ◌>>◌}
use umqtt.PacketView.{Error, WriteError, FixedHeader, QoS, qos, qos_byte, empty_subscription}
use umqtt.PacketView.Utf8.{is_utf8}
use umqtt.PacketView.Cursor.{as_slice, advance}
use umqtt.PacketView.WriteCursor.{Write, put_u8, put_u16, bytes_written, write_into}
use umqtt.PacketView.Field.{read_u16, write_mqtt_string}
use umqtt.PacketView.Header.{write_remaining_length}

pub record SubscribeFilter : Type 0 where
  pub path : List ℕ
  pub quality : QoS

abbrev pub filter_len : SubscribeFilter → ℕ
filter_len f = 2 + length f.path + 1

-- The filter of a path, with the quality byte and the bytes after it.
filter_of : List ℕ → Outcome Error QoS → List ℕ → Option (SubscribeFilter × List ℕ)
filter_of path (ok q) rest = some (record { path = path; quality = q }, rest)
filter_of path (err e) rest = none
filter_of path panic rest = none

-- `data_slice[topic_len]` is within the slice, by the test on its length.
quality_at : List ℕ → ℕ → Outcome Error QoS
quality_at data_slice i = elim (get_elem? data_slice i) [ none ↦ panic | some b ↦ qos b ]

next_in : ℕ → List ℕ → Option (SubscribeFilter × List ℕ)
next_in topic_len data_slice =
    if ltb (length data_slice) (1 + topic_len)
    then none
    else if is_utf8 (take topic_len data_slice)
    then filter_of (take topic_len data_slice) (quality_at data_slice topic_len)
        (drop (topic_len + 1) data_slice)
    else none

-- `BytesIterator::next`: the filter and what is left; at `None` the iterator stays where it is.
unfoldable pub next_filter : List ℕ → Option (SubscribeFilter × List ℕ)
unfolding next_in filter_of quality_at
next_filter [] = none
next_filter (hi ∷ []) = none
next_filter (hi ∷ lo ∷ data_slice) = next_in (hi * 256 + lo) data_slice

-- All filters that the iterator yields, and where it stops. A filter takes three bytes or more, so
-- as many rounds as there are bytes reach the end.
unfoldable pub all_filters : ℕ → List ℕ → List SubscribeFilter × List ℕ
all_filters zero bytes = ([], bytes)
all_filters (suc fuel) bytes = elim (next_filter bytes) [
  | none ↦ ([], bytes)
  | some (f, rest) ↦ let (fs, left) = all_filters fuel rest in (f ∷ fs, left)
]

pub data Storage : Type 0 where
  slice : List SubscribeFilter → Storage
  wire_bytes : List ℕ → Storage

unfoldable pub iter : Storage → List SubscribeFilter
iter (slice s) = s
iter (wire_bytes b) = (all_filters (length b) b).0

pub record Subscribe : Type 0 where
  pub pkid : ℕ
  pub filters : Storage

-- `fold(0, |s, t| s + t.len())`
unfoldable pub fold_len : ℕ → List SubscribeFilter → ℕ
fold_len s [] = s
fold_len s (t ∷ ts) = fold_len (s + filter_len t) ts

unfoldable pub len : Subscribe → ℕ
len p = 2 + fold_len 0 (iter p.filters)

unfoldable pub subscribe_of : ℕ → List ℕ → List SubscribeFilter × List ℕ → Outcome Error Subscribe
subscribe_of pkid bytes (filters, left) =
    if is_nil filters
    then err empty_subscription
    else if is_nil left
    then ok (record { pkid = pkid; filters = wire_bytes bytes })
    else err Error.malformed_packet

unfoldable pub read_exact : FixedHeader → List ℕ → Outcome Error Subscribe
read_exact h bytes = run_on bytes do
  advance h.fixed_header_len
  pkid ← read_u16
  filters ← as_slice
  λ s. (subscribe_of pkid filters (all_filters (length filters) filters), s)

unfoldable pub write_filter : SubscribeFilter → Write (Unit {0})
write_filter f = do write_mqtt_string f.path; put_u8 (qos_byte f.quality)

unfoldable pub write_filters : List SubscribeFilter → Write (Unit {0})
write_filters [] = pure tt
write_filters (f ∷ fs) = do write_filter f; write_filters fs

unfoldable pub writer : Subscribe → Write ℕ
unfolding write_filters write_filter
writer p = do
  put_u8 0x82
  write_remaining_length (len p)
  put_u16 p.pkid
  write_filters (iter p.filters)
  bytes_written

unfoldable pub write : Subscribe → List ℕ → Outcome WriteError ℕ × List ℕ
write p = write_into (writer p)
