-- ===== src/PacketView/SubscribeWriter/Filters.antt =====
-- packetview/subscribe.rs: the bytes that a `SubscribeWriter` stores.
use umqtt.Base.{
  ℕ, ◌+◌, ◌-◌, ◌/◌, ◌%◌, ◌≤◌, ◌<◌, ◌≡◌, refl, sym, ap, ◌∙◌, arith, List, [], ◌∷◌, ◌++◌, length,
  drop, le→ltb, set, length-append, length-drop, append_assoc, drop-drop,
}
use umqtt.Base.Outcome.{ok, ◌>>=◌, ◌>>◌, bind_ok}
use umqtt.PacketView.{QoS, qos_byte}
use umqtt.PacketView.WriteCursor.{be_bytes}
use umqtt.PacketView.BorrowedBuf.{Fill, get_len, add_slice, set_byte}
use umqtt.PacketView.BorrowedBuf.Adds.{at, Adds, Adds-pure, Adds-then, Adds-add_slice}
use umqtt.PacketView.Field.RoundTrip.{mqtt_bytes}
use umqtt.PacketView.Subscribe.RoundTrip.{filter_bytes}
use umqtt.PacketView.SubscribeWriter.{add_str, add_parts, finish_separated, add_separated}

-- The parts with the separator between them.
unfoldable pub join : List (List ℕ) → List ℕ → List ℕ
join [] separator = []
join (part ∷ []) separator = part
join (part ∷ parts) separator = part ++ (separator ++ join parts separator)

add_parts-Adds :
    (parts : List (List ℕ)) (separator : List ℕ)
    → Adds (add_parts parts separator) (join parts separator)
unfolding add_parts join
add_parts-Adds [] separator = Adds-pure
add_parts-Adds (part ∷ []) separator = Adds-add_slice part
add_parts-Adds (part ∷ next ∷ parts) separator =
    Adds-then _ (add_slice part) _ part _ (Adds-add_slice part) (
      Adds-then _ (add_slice separator) _ separator _ (Adds-add_slice separator)
        (add_parts-Adds (next ∷ parts) separator))

module _ (topic : List ℕ) (q : QoS) (small : length topic < 65536) where
  pub add_str-Adds : Adds (add_str topic q) (filter_bytes (record { path = topic; quality = q }))
  unfolding add_str
  add_str-Adds = rw (le→ltb 65535 (length topic) (omega arith)) (
      Adds-then _ (add_slice (be_bytes (length topic))) _ (be_bytes (length topic))
        (topic ++ (qos_byte q ∷ [])) (Adds-add_slice (be_bytes (length topic)))
        (Adds-then _ (add_slice topic) _ topic (qos_byte q ∷ []) (Adds-add_slice topic)
          (Adds-add_slice (qos_byte q ∷ []))))

set-append : (w r : List ℕ) (x v : ℕ) → set (w ++ (x ∷ r)) (length w) v ≡ w ++ (v ∷ r)
set-append [] r x v = refl
set-append (y ∷ w) r x v = ap (λ (l : List ℕ). y ∷ l) (set-append w r x v)

set_byte-middle :
    (w t r : List ℕ) (x v : ℕ)
    → set_byte (length w) v (at (w ++ (x ∷ t)) r) ≡ (ok tt, at (w ++ (v ∷ t)) r)
set_byte-middle w t r x v = ground (
  arith,
  stored,
  length-append (w ++ (x ∷ t)) r,
  length-append w (x ∷ t),
  length-append w (v ∷ t),
)
  where
    stored : set ((w ++ (x ∷ t)) ++ r) (length w) v ≡ (w ++ (v ∷ t)) ++ r
    stored = rw (append_assoc w (x ∷ t) r, append_assoc w (v ∷ t) r) (set-append w (t ++ r) x v)

-- The second of the two bytes that were left free.
set_byte-next :
    (w t r : List ℕ) (x y : ℕ)
    → set_byte (length w + 1) y (at (w ++ (x ∷ 0 ∷ t)) r) ≡ (ok tt, at (w ++ (x ∷ y ∷ t)) r)
set_byte-next w t r x y =
    let next : length w + 1 ≡ length (w ++ (x ∷ [])) = omega (arith, length-append w (x ∷ [])) in
    rw (next, ← append_assoc w (x ∷ []) (0 ∷ t), ← append_assoc w (x ∷ []) (y ∷ t))
      (set_byte-middle (w ++ (x ∷ [])) t r 0 y)

finish_separated_lem :
    (q : QoS) (w t r : List ℕ)
    → length t < 65536
    → 1 ≤ length r
    → finish_separated (length w) (length t) q (at (w ++ (0 ∷ 0 ∷ t)) r)
      ≡ (ok tt, at ((w ++ (be_bytes (length t) ++ t)) ++ (qos_byte q ∷ [])) (drop 1 r))
unfolding finish_separated
finish_separated_lem q w t r small room =
    let hi = length t / 256 in
    let lo = length t % 256 in
    rw (le→ltb 65535 (length t) (omega arith)) (
      bind_ok (set_byte (length w) hi) _ (set_byte-middle w (0 ∷ t) r 0 hi)
      ∙ bind_ok (set_byte (length w + 1) lo) _ (set_byte-next w t r hi lo)
      ∙ Adds-add_slice (qos_byte q ∷ []) (w ++ (be_bytes (length t) ++ t)) r room)

-- What `add_separated` does from the loop on.
from_parts : List (List ℕ) → List ℕ → QoS → ℕ → Fill (Unit {0})
from_parts parts separator q start =
    add_parts parts separator >> (get_len >>= λ len. finish_separated start (len - start - 2) q)

from_parts_lem :
    (parts : List (List ℕ)) (separator : List ℕ) (q : QoS) (w r : List ℕ)
    → length (join parts separator) < 65536
    → length (join parts separator) + 1 ≤ length r
    → from_parts parts separator q (length w) (at (w ++ (0 ∷ 0 ∷ [])) r) ≡ (
      ok tt,
      at
          ((w ++ mqtt_bytes (join parts separator)) ++ (qos_byte q ∷ []))
          (drop 1 (drop (length (join parts separator)) r)),
    )
unfolding from_parts
from_parts_lem parts separator q w r small room =
    let t = join parts separator in
    let zeros : List ℕ = 0 ∷ 0 ∷ [] in
    let measured : length (w ++ (0 ∷ 0 ∷ t)) - length w - 2 ≡ length t =
      omega (arith, length-append w (0 ∷ 0 ∷ t)) in
    bind_ok (add_parts parts separator) _
      (add_parts-Adds parts separator (w ++ zeros) r (omega arith))
    ∙ rw (append_assoc w zeros t, measured)
        (finish_separated_lem q w t (drop (length t) r) small
          (omega (arith, length-drop (length t) r)))

-- A filter that is written in parts is stored as `add_str` stores the filter that the parts and the
-- separators make: for parts of at most 65535 bytes with their separators, and a buffer that has
-- room for the filter behind what it holds.
pub add_separated-eq :
    (parts : List (List ℕ)) (separator : List ℕ) (q : QoS) (w r : List ℕ)
    → length (join parts separator) < 65536
    → length (join parts separator) + 3 ≤ length r
    → add_separated parts separator q (at w r) ≡ add_str (join parts separator) q (at w r)
unfolding add_separated from_parts
add_separated-eq parts separator q w r small room =
    let t = join parts separator in
    let zeros : List ℕ = 0 ∷ 0 ∷ [] in
    let fits : length (filter_bytes (record { path = t; quality = q })) ≤ length r =
      omega (arith, length-append t (qos_byte q ∷ [])) in
    let count : 2 + (length t + 1) ≡ length (filter_bytes (record { path = t; quality = q })) =
      omega (arith, length-append t (qos_byte q ∷ [])) in
    bind_ok (add_slice zeros) (λ _. from_parts parts separator q (length w))
      (Adds-add_slice zeros w r (omega arith))
    ∙ from_parts_lem parts separator q w (drop 2 r) small (omega (arith, length-drop 2 r))
    ∙ rw (append_assoc w (mqtt_bytes t) (qos_byte q ∷ []), drop-drop, drop-drop)
        (ap
          (λ (n : ℕ). (ok tt, at (w ++ filter_bytes (record { path = t; quality = q })) (drop n r)))
          count)
    ∙ sym (add_str-Adds t q small w r fits)
