-- ===== src/PacketView/Publish/Typed.antt =====
-- packetview/publish.rs: a publish that was read out of bytes.
use umqtt.Base.{
  ℕ, ◌+◌, ◌*◌, ◌≤◌, ◌<◌, ◌≡◌, refl, sym, ap, ◌∙◌, arith, Bool, true, not, ◌&&◌, ◌==◌, Bool-cases,
  inl, inr, List, [], ◌∷◌, length, drop, if◌then◌else◌, bit_and, ◌/◌, length-drop,
}
use umqtt.Base.Outcome.{Outcome, ok, err, panic, pure, fail, and_then, bind_ok, ◌>>=◌, ◌>>◌}
use umqtt.Base.Meets.{Ends, Ends-bind, Ends-both, Ends-ok, Ends-weaken}
use umqtt.PacketView.{
  Error, packet_id_zero, FixedHeader, QoS, qos, has_pkid, at_most_once, at_least_once, exactly_once,
}
use umqtt.PacketView.Cursor.{Cursor, as_slice, advance}
use umqtt.PacketView.Field.{read_u16, read_mqtt_string}
use umqtt.PacketView.Field.RoundTrip.{read_u16-cons, advance_lem, read_mqtt_string-length}
use umqtt.PacketView.Field.Typed.{IsText, Bytes, All-drop, Yields-read_mqtt_string}
use umqtt.PacketView.Publish.{Publish, read_exact, read_pkid, len}

-- What the fields are, and that the packet takes so many bytes.
abbrev pub IsReadAs : ℕ → Publish → Type 0
IsReadAs size p =
    IsText p.topic × (p.pkid < 65536) × ((p.pkid == 0) ≡ not (has_pkid p.quality)) × (len p ≡ size)

-- What follows the topic.
abbrev after_topic : Bool → Bool → QoS → List ℕ → ℕ → Cursor → Outcome Error Publish × Cursor
after_topic dup retain q topic pkid =
    if has_pkid q && pkid == 0
    then fail packet_id_zero
    else (as_slice >>= λ payload. pure (record {
      dup = dup;
      quality = q;
      retain = retain;
      topic = topic;
      pkid = pkid;
      payload = payload;
    }))

module _ (dup retain : Bool) (topic : List ℕ) (text : IsText topic) where
  abbrev Rest : Cursor → Outcome Error Publish × Cursor → Type 0
  Rest s = Ends (λ p t. IsReadAs (2 + length topic + length s) p) (λ t. Unit {0})

  -- With a packet identifier.
  identified :
      (q : QoS)
      → has_pkid q ≡ true
      → (s : Cursor) → Bytes s
      → Rest s ((read_u16 >>= after_topic dup retain q topic) s)
  unfolding len
  identified q some_qos [] h = unfold read_u16 in tt
  identified q some_qos (b ∷ []) h = unfold read_u16 in tt
  identified q some_qos (b ∷ c ∷ s) h = elim (Bool-cases (b * 256 + c == 0)) [
    | inl zero_id ↦ rw (read_u16-cons b c s, some_qos, zero_id) tt
    | inr some_id ↦
        rw (read_u16-cons b c s, some_qos, some_id)
          (
            text,
            omega (arith, h.0, h.1.0),
            some_id ∙ sym (ap not some_qos),
            rw (some_qos, some_id) (omega arith),
          )
  ]

  of_pkid :
      (q : QoS) (s : Cursor) → Bytes s → Rest s ((read_pkid q >>= after_topic dup retain q topic) s)
  unfolding read_pkid len
  of_pkid at_most_once s h = (text, omega arith, refl, refl)
  of_pkid at_least_once s h = identified at_least_once refl s h
  of_pkid exactly_once s h = identified exactly_once refl s h

-- The publish that `read_exact` answers on the bytes of a packet.
pub read_exact-IsReadAs :
    (h : FixedHeader) (bytes : List ℕ) (p : Publish)
    → h.fixed_header_len ≤ length bytes
    → Bytes bytes
    → read_exact h bytes ≡ ok p
    → (size : ℕ) × (size + h.fixed_header_len ≡ length bytes) × IsReadAs size p
unfolding read_exact
read_exact-IsReadAs h bytes p within all e = of_quality (qos (bit_and h.byte1 0x06 / 2)) e
  where
    dup : Bool
    dup = not (bit_and h.byte1 0x08 == 0)

    retain : Bool
    retain = not (bit_and h.byte1 0x01 == 0)

    from_topic : QoS → Cursor → Outcome Error Publish × Cursor
    from_topic q = read_mqtt_string >>= λ topic. read_pkid q >>= after_topic dup retain q topic

    Whole : Publish → Cursor → Type 0
    Whole a t = (size : ℕ) × (size + h.fixed_header_len ≡ length bytes) × IsReadAs size a

    read_from :
        (q : QoS) → Ends Whole (λ t. Unit {0}) (from_topic q (drop h.fixed_header_len bytes))
    read_from q =
        let s = drop h.fixed_header_len bytes in
        let read =
          Ends-both (λ t u. IsText t × Bytes u) (λ t u. length s ≡ 2 + length t + length u)
            (λ u. Unit {0}) (read_mqtt_string s) (λ t u. read_mqtt_string-length s t u)
            (Yields-read_mqtt_string.at s (All-drop h.fixed_header_len bytes all)) in
        Ends-bind (λ t u. (IsText t × Bytes u) × (length s ≡ 2 + length t + length u)) Whole
          (λ u. Unit {0}) (λ t. read_pkid q >>= after_topic dup retain q t) read_mqtt_string s read
          (λ t u got.
            Ends-weaken (λ a v. IsReadAs (2 + length t + length u) a) Whole (λ v. Unit {0})
              (λ v. Unit {0}) ((read_pkid q >>= after_topic dup retain q t) u)
              (λ a v typed. (
                2 + length t + length u,
                omega (arith, got.1, length-drop h.fixed_header_len bytes, within),
                typed,
              ))
              (λ v x. x) (of_pkid dup retain t got.0.0 q u got.0.1))

    of_quality :
        (r : Outcome Error QoS)
        → and_then r (λ q. ((advance h.fixed_header_len >> from_topic q) bytes).0) ≡ ok p
        → (size : ℕ) × (size + h.fixed_header_len ≡ length bytes) × IsReadAs size p
    of_quality (ok q) e =
        let moved =
          bind_ok (advance h.fixed_header_len) (λ _. from_topic q)
            (advance_lem h.fixed_header_len bytes within) in
        Ends-ok Whole (λ t. Unit {0}) (from_topic q (drop h.fixed_header_len bytes)) p (read_from q)
          (sym (ap (λ r. r.0) moved) ∙ e)
    of_quality (err x) e = cc
    of_quality panic e = cc
