-- ===== src/PacketView/Subscribe/RoundTrip.antt =====
-- packetview/subscribe.rs: reading back a subscribe that was written.
use umqtt.Base.{
  ℕ, zero, suc, ◌+◌, ◌*◌, ◌/◌, ◌%◌, ◌≤◌, ◌<◌, ◌≡◌, refl, ap, arith, List, [], ◌∷◌, ◌++◌, length,
  some, All, length-append, take-append, drop-append_add, append_assoc, get_elem?,
}
use umqtt.Base.Outcome.{ok}
use umqtt.PacketView.{QoS, at_most_once, qos, qos_byte}
use umqtt.PacketView.Utf8.{IsStr}
use umqtt.PacketView.WriteCursor.{be_bytes}
use umqtt.PacketView.WriteCursor.Emits.{
  Emits, EmitsTo, Emits-pure, Emits-then, Emits-put_u8, Emits-put_u16, Emits-last, EmitsTo-Wrote,
  Wrote,
}
use umqtt.PacketView.Field.RoundTrip.{mqtt_bytes, Emits-write_mqtt_string, read_u16-be_bytes}
use umqtt.PacketView.Header.{max_remaining_len}
use umqtt.PacketView.Header.Encoding.{Emits-write_remaining_length}
use umqtt.PacketView.Header.RoundTrip.{frame, header_of}
use umqtt.PacketView.Header.Framing.{advance-frame}
use umqtt.PacketView.Subscribe.{
  SubscribeFilter, filter_len, filter_of, quality_at, next_in, next_filter, all_filters, wire_bytes,
  iter, Subscribe, fold_len, len, subscribe_of, read_exact, write_filter, write_filters, writer,
  write,
}

-- A filter that the source can hold and write.
abbrev pub IsFilter : SubscribeFilter → Type 0
IsFilter f = (IsStr f.path) × (length f.path < 65536)

abbrev pub filter_bytes : SubscribeFilter → List ℕ
filter_bytes f = mqtt_bytes f.path ++ (qos_byte f.quality ∷ [])

unfoldable pub filters_bytes : List SubscribeFilter → List ℕ
filters_bytes [] = []
filters_bytes (f ∷ fs) = filter_bytes f ++ filters_bytes fs

Emits-write_filters :
    (fs : List SubscribeFilter) → All IsFilter fs → Emits (write_filters fs) (filters_bytes fs) tt
unfolding write_filters write_filter filters_bytes
Emits-write_filters [] h = Emits-pure tt
Emits-write_filters (f ∷ fs) h =
    Emits-then
      (Emits-then (Emits-write_mqtt_string f.path h.0.1) (Emits-put_u8 (qos_byte f.quality)))
      (Emits-write_filters fs h.1)

fold_len-filters_bytes :
    (n : ℕ) (fs : List SubscribeFilter) → fold_len n fs ≡ n + length (filters_bytes fs)
unfolding fold_len filters_bytes
fold_len-filters_bytes n [] = omega arith
fold_len-filters_bytes n (f ∷ fs) = omega (
  arith,
  fold_len-filters_bytes (n + filter_len f) fs,
  length-append (filter_bytes f) (filters_bytes fs),
  length-append (mqtt_bytes f.path) (qos_byte f.quality ∷ []),
)

pub qos-qos_byte : (q : QoS) → qos (qos_byte q) ≡ ok q
unfolding qos
qos-qos_byte at_most_once = refl
qos-qos_byte _ = refl

get_elem-append : (xs ys : List ℕ) (y : ℕ) → get_elem? (xs ++ (y ∷ ys)) (length xs) ≡ some y
get_elem-append [] ys y = refl
get_elem-append (x ∷ xs) ys y = get_elem-append xs ys y

next_in-path :
    (f : SubscribeFilter) (rest : List ℕ)
    → IsFilter f
    → next_in (length f.path) (f.path ++ (qos_byte f.quality ∷ rest)) ≡ some (f, rest)
unfolding next_in filter_of quality_at
next_in-path f rest h = ground (
  arith,
  h.0,
  length-append f.path (qos_byte f.quality ∷ rest),
  take-append f.path (qos_byte f.quality ∷ rest),
  get_elem-append f.path rest (qos_byte f.quality),
  qos-qos_byte f.quality,
  drop-append_add f.path (qos_byte f.quality ∷ rest) 1,
)

next_filter-filter_bytes :
    (f : SubscribeFilter) (rest : List ℕ)
    → IsFilter f
    → next_filter (filter_bytes f ++ rest) ≡ some (f, rest)
unfolding next_filter
next_filter-filter_bytes f rest h =
    let hi : length f.path / 256 * 256 + length f.path % 256 ≡ length f.path = omega arith in
    rw (hi, append_assoc f.path (qos_byte f.quality ∷ []) rest) (next_in-path f rest h)

all_filters_step :
    (fuel : ℕ) (bytes rest : List ℕ) (f : SubscribeFilter) (fs : List SubscribeFilter)
    → next_filter bytes ≡ some (f, rest)
    → all_filters fuel rest ≡ (fs, [])
    → all_filters (suc fuel) bytes ≡ (f ∷ fs, [])
unfolding all_filters
all_filters_step fuel bytes rest f fs e more = ground (arith, e, more)

all_filters-filters_bytes :
    (fuel : ℕ) (fs : List SubscribeFilter)
    → All IsFilter fs
    → length (filters_bytes fs) ≤ fuel
    → all_filters fuel (filters_bytes fs) ≡ (fs, [])
unfolding all_filters filters_bytes next_filter
all_filters-filters_bytes zero [] h le = refl
all_filters-filters_bytes (suc fuel) [] h le = refl
all_filters-filters_bytes zero (f ∷ fs) h le = absurd (omega arith)
all_filters-filters_bytes (suc fuel) (f ∷ fs) h le =
    let more = all_filters-filters_bytes fuel fs h.1 (
      omega (
        arith,
        length-append (filter_bytes f) (filters_bytes fs),
        length-append (mqtt_bytes f.path) (qos_byte f.quality ∷ []),
      )) in
    all_filters_step fuel (filter_bytes f ++ filters_bytes fs) (filters_bytes fs) f fs
      (next_filter-filter_bytes f (filters_bytes fs) h.0) more

-- A subscribe that the source can hold and write: it has a filter, each filter is a `&str` of at
-- most 65535 bytes, and the packet is not too long.
pub record IsWritable (p : Subscribe) : Type 0 where
  pub filters_fit : All IsFilter (iter p.filters)
  pub some_filter : 0 < length (iter p.filters)
  pub len_fits : len p ≤ max_remaining_len

abbrev pub body : Subscribe → List ℕ
body p = be_bytes p.pkid ++ filters_bytes (iter p.filters)

pub length-body : (p : Subscribe) → length (body p) ≡ len p
unfolding len
length-body p = omega (arith, fold_len-filters_bytes 0 (iter p.filters))

pub Subscribe_written :
    (p : Subscribe) (buffer : List ℕ)
    → IsWritable p
    → Wrote (frame 0x82 (body p)) buffer (write p buffer)
unfolding write writer
Subscribe_written p buffer w = EmitsTo-Wrote emits buffer
  where
    emits : EmitsTo (writer p) (frame 0x82 (body p)) (length {A = ℕ})
    emits = rw (length-body p) (
        Emits-then (Emits-put_u8 0x82) (
          Emits-then (Emits-write_remaining_length (len p) w.len_fits) (
            Emits-then (Emits-put_u16 p.pkid)
              (Emits-last (Emits-write_filters (iter p.filters) w.filters_fit)))))

-- The subscribe that is read: its filters are the bytes of the packet.
abbrev pub on_wire : Subscribe → Subscribe
on_wire p = record { pkid = p.pkid; filters = wire_bytes (filters_bytes (iter p.filters)) }

pub iter-on_wire : (p : Subscribe) → IsWritable p → iter (on_wire p).filters ≡ iter p.filters
unfolding iter
iter-on_wire p w =
    ap (λ r. r.0) (all_filters-filters_bytes _ (iter p.filters) w.filters_fit (omega arith))

pub read_exact-frame :
    (p : Subscribe)
    → IsWritable p
    → read_exact (header_of 0x82 (body p)) (frame 0x82 (body p)) ≡ ok (on_wire p)
unfolding read_exact subscribe_of
read_exact-frame p w = ground (
  arith,
  w.some_filter,
  advance-frame 0x82 (body p),
  read_u16-be_bytes p.pkid (filters_bytes (iter p.filters)),
  all_filters-filters_bytes (length (filters_bytes (iter p.filters))) (iter p.filters) w.filters_fit
      (omega arith),
)
