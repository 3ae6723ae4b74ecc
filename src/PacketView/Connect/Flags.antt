-- ===== src/PacketView/Connect/Flags.antt =====
-- packetview/connect.rs: the connect flags, which `write` patches into the packet.
use umqtt.Base.{
  ℕ, ◌+◌, ◌*◌, ◌/◌, ◌%◌, ◌<◌, ◌≡◌, refl, ap, ◌∙◌, arith, List, Bool, true, false, not, ◌==◌,
  if◌then◌else◌, is_nil, Option, none, some, bit_and, bit_or, Bool-cases, inl, inr,
}
use umqtt.Base.Bits.{
  top_bit, bit_1, bit_2, bit_5, bit_6, bits_3_4, bits_3_5, or_disjoint_low, or_disjoint_high,
}
use umqtt.Base.Outcome.{ok}
use umqtt.PacketView.{QoS, at_most_once, at_least_once, exactly_once, qos, qos_byte}
use umqtt.PacketView.Subscribe.RoundTrip.{qos-qos_byte}
use umqtt.PacketView.Connect.{Login, LastWill, will_flags}

abbrev pub clean_flag : Bool → ℕ
clean_flag clean = if clean then 0x02 else 0

abbrev pub with_will : Option LastWill → ℕ → ℕ
with_will none flags = flags
with_will (some w) flags = bit_or flags (will_flags w)

abbrev pub login_flags : Login → ℕ
login_flags l =
    let username_flag = if is_nil l.username then 0 else 0x80 in
    if is_nil l.password then username_flag else bit_or username_flag 0x40

abbrev pub with_login : Option Login → ℕ → ℕ
with_login none flags = flags
with_login (some l) flags = bit_or flags (login_flags l)

unfoldable pub flags : Bool → Option LastWill → Option Login → ℕ
flags clean will login = with_login login (with_will will (clean_flag clean))

-- The same flags as a number: bit 1, the bits from 2 on, and the bits 6 and 7.
abbrev retain_bit : Bool → ℕ
retain_bit retain = if retain then 8 else 0

abbrev will_bits : Option LastWill → ℕ
will_bits none = 0
will_bits (some w) = 1 + qos_byte w.quality * 2 + retain_bit w.retain

abbrev login_bits : Option Login → ℕ
login_bits none = 0
login_bits (some l) = (if is_nil l.username then 0 else 2) + (if is_nil l.password then 0 else 1)

will_flags_table :
    (topic message : List ℕ) (q : QoS) (retain : Bool)
    → let w : LastWill = record {
      topic = topic;
      message = message;
      quality = q;
      retain = retain;
    } in
      (will_flags w ≡ will_bits (some w) * 4) × (will_bits (some w) < 16)
will_flags_table topic message at_most_once true = (refl, omega arith)
will_flags_table topic message at_most_once false = (refl, omega arith)
will_flags_table topic message at_least_once true = (refl, omega arith)
will_flags_table topic message at_least_once false = (refl, omega arith)
will_flags_table topic message exactly_once true = (refl, omega arith)
will_flags_table topic message exactly_once false = (refl, omega arith)

will_bits_bound : (will : Option LastWill) → will_bits will < 16
will_bits_bound none = omega arith
will_bits_bound (some w) = (will_flags_table w.topic w.message w.quality w.retain).1

with_will-sum : (will : Option LastWill) (a : ℕ) → a < 4 → with_will will a ≡ a + will_bits will * 4
with_will-sum none a h = omega arith
with_will-sum (some w) a h =
    let (same, small) = will_flags_table w.topic w.message w.quality w.retain in
    rw same (or_disjoint_low a (will_bits (some w)) h (omega arith))

login_flags_table :
    (l : Login) → (login_flags l ≡ login_bits (some l) * 64) × (login_bits (some l) < 4)
login_flags_table l = elim (Bool-cases (is_nil l.username)) [
  | inl u ↦ elim (Bool-cases (is_nil l.password)) [
    | inl p ↦ rw (u, p) (refl, omega arith)
    | inr p ↦ rw (u, p) (refl, omega arith)
  ]
  | inr u ↦ elim (Bool-cases (is_nil l.password)) [
    | inl p ↦ rw (u, p) (refl, omega arith)
    | inr p ↦ rw (u, p) (refl, omega arith)
  ]
]

login_bits_bound : (login : Option Login) → login_bits login < 4
login_bits_bound none = omega arith
login_bits_bound (some l) = (login_flags_table l).1

with_login-sum :
    (login : Option Login) (a : ℕ) → a < 64 → with_login login a ≡ a + login_bits login * 64
with_login-sum none a h = omega arith
with_login-sum (some l) a h =
    let (same, small) = login_flags_table l in
    rw same (or_disjoint_high a (login_bits (some l)) h small)

qos_byte_bound : (q : QoS) → qos_byte q < 3
qos_byte_bound at_most_once = omega arith
qos_byte_bound at_least_once = omega arith
qos_byte_bound exactly_once = omega arith

module _ (clean : Bool) (will : Option LastWill) (login : Option Login) where
  clean_flag_bound : clean_flag clean < 4
  clean_flag_bound = ground arith

  flags-sum : flags clean will login ≡ clean_flag clean + will_bits will * 4 + login_bits login * 64
  unfolding flags
  flags-sum =
      let small = with_will-sum will (clean_flag clean) clean_flag_bound in
      with_login-sum login (with_will will (clean_flag clean))
        (omega (arith, small, will_bits_bound will, clean_flag_bound))
      ∙ ap (λ (n : ℕ). n + login_bits login * 64) small

  flags-byte : flags clean will login < 256
  flags-byte =
      omega (arith, flags-sum, clean_flag_bound, will_bits_bound will, login_bits_bound login)

  pub flags-clean : not (bit_and (flags clean will login) 0x02 == 0) ≡ clean
  flags-clean =
      rw (bit_1 (flags clean will login) flags-byte)
        (ground (arith, flags-sum, will_bits_bound will))

  pub flags-no_will :
      will ≡ none
      → ((bit_and (flags clean will login) 0x04 == 0) ≡ true)
        × ((bit_and (flags clean will login) 0x38 == 0) ≡ true)
  flags-no_will e =
      let b = flags clean will login in
      let no : will_bits will ≡ 0 = rw e refl in
      let low : b / 4 % 2 * 4 ≡ 0 = omega (arith, flags-sum, clean_flag_bound, no) in
      let high : b / 8 % 8 * 8 ≡ 0 = omega (arith, flags-sum, clean_flag_bound, no) in
      (rw (bit_2 b flags-byte, low) refl, rw (bits_3_5 b flags-byte, high) refl)

  pub flags-will :
      (w : LastWill)
      → will ≡ some w
      → ((bit_and (flags clean will login) 0x04 == 0) ≡ false)
        × (qos (bit_and (flags clean will login) 0x18 / 8) ≡ ok w.quality)
        × (not (bit_and (flags clean will login) 0x20 == 0) ≡ w.retain)
  flags-will w e =
      let b = flags clean will login in
      let k : will_bits will ≡ will_bits (some w) = rw e refl in
      let some_bit : b / 4 % 2 * 4 ≡ 4 = ground (arith, flags-sum, clean_flag_bound, k) in
      let level : b / 8 % 4 * 8 / 8 ≡ qos_byte w.quality =
        ground (arith, flags-sum, clean_flag_bound, k, qos_byte_bound w.quality) in
      (
        rw (bit_2 b flags-byte, some_bit) refl,
        rw (bits_3_4 b flags-byte, level) (qos-qos_byte w.quality),
        rw (bit_5 b flags-byte)
            (ground (arith, flags-sum, clean_flag_bound, k, qos_byte_bound w.quality)),
      )

  pub flags-no_login :
      login ≡ none
      → ((bit_and (flags clean will login) 0x80 == 0) ≡ true)
        × ((bit_and (flags clean will login) 0x40 == 0) ≡ true)
  flags-no_login e =
      let b = flags clean will login in
      let no : login_bits login ≡ 0 = rw e refl in
      let user : b / 128 * 128 ≡ 0 =
        omega (arith, flags-sum, clean_flag_bound, no, will_bits_bound will) in
      let pass : b / 64 % 2 * 64 ≡ 0 =
        omega (arith, flags-sum, clean_flag_bound, no, will_bits_bound will) in
      (rw (top_bit b flags-byte, user) refl, rw (bit_6 b flags-byte, pass) refl)

  pub flags-login :
      (l : Login)
      → login ≡ some l
      → ((bit_and (flags clean will login) 0x80 == 0) ≡ is_nil l.username)
        × ((bit_and (flags clean will login) 0x40 == 0) ≡ is_nil l.password)
  flags-login l e =
      let b = flags clean will login in
      let k : login_bits login ≡ login_bits (some l) = rw e refl in
      let wb = will_bits_bound will in
      (
        rw (top_bit b flags-byte) (ground (arith, flags-sum, clean_flag_bound, k, wb)),
        rw (bit_6 b flags-byte) (ground (arith, flags-sum, clean_flag_bound, k, wb)),
      )
