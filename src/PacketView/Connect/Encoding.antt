-- ===== src/PacketView/Connect/Encoding.antt =====
-- packetview/connect.rs: the bytes that `Connect::write` stores.
use mathlib.Core.Path.{subst, fun_ext}
use umqtt.Base.{
  ℕ, ◌≤◌, ◌<◌, ◌≡◌, refl, ap, ◌∙◌, arith, false, Bool-cases, inl, inr, if◌then◌else◌, is_nil, List,
  [], ◌∷◌, ◌++◌, length, length-append, Option, none, some, bit_or, ◌&&◌,
}
use umqtt.Base.Outcome.{pure, ◌>>=◌, ◌>>◌, bind_assoc}
use umqtt.PacketView.{v4}
use umqtt.PacketView.Utf8.{IsStr}
use umqtt.PacketView.WriteCursor.{Write, be_bytes, put_u8, put_u16, bytes_written}
use umqtt.PacketView.WriteCursor.Emits.{
  Emits, EmitsTo, EmitsTo-bind, Emits-pure, Emits-then, Emits-put_u8, Emits-put_u16, Wrote,
  EmitsTo-Wrote,
}
use umqtt.PacketView.WriteCursor.Patched.{Emits-map, EmitsTo-patched, patch}
use umqtt.PacketView.Field.{write_mqtt_bytes, write_mqtt_string}
use umqtt.PacketView.Field.RoundTrip.{mqtt_bytes, Emits-write_mqtt_bytes, Emits-write_mqtt_string}
use umqtt.PacketView.Header.{max_remaining_len}
use umqtt.PacketView.Header.Encoding.{Emits-write_remaining_length}
use umqtt.PacketView.Header.RoundTrip.{frame}
use umqtt.PacketView.Connect.{
  Connect, Login, LastWill, will_flags, write_will, write_login, write_opt_will, write_opt_login,
  opt_will_len, opt_login_len, protocol_name, level_byte, len, writer, write,
}
use umqtt.PacketView.Connect.Flags.{clean_flag, with_will, with_login, login_flags, flags}

-- A will and a login that the source can hold and that fit their length fields. A login without a
-- username and a password is written as none.
abbrev pub WillFits : Option LastWill → Type 0
WillFits none = Unit {0}
WillFits (some w) = (IsStr w.topic) × (length w.topic < 65536) × (length w.message < 65536)

abbrev pub LoginFits : Option Login → Type 0
LoginFits none = Unit {0}
LoginFits (some l) =
    (IsStr l.username)
    × (length l.username < 65536)
    × (length l.password < 65536)
    × ((is_nil l.username && is_nil l.password) ≡ false)

-- A connect that the source can write.
pub record IsWritable (p : Connect) : Type 0 where
  pub is_v4 : p.protocol ≡ v4
  pub client_id_str : IsStr p.client_id
  pub client_id_fits : length p.client_id < 65536
  pub will_fits : WillFits p.last_will
  pub login_fits : LoginFits p.login
  pub len_fits : len p ≤ max_remaining_len

abbrev pub will_bytes : Option LastWill → List ℕ
will_bytes none = []
will_bytes (some w) = mqtt_bytes w.topic ++ mqtt_bytes w.message

-- A field that is left out where it is empty.
abbrev pub field_bytes : List ℕ → List ℕ
field_bytes field = if is_nil field then [] else mqtt_bytes field

abbrev pub login_bytes : Option Login → List ℕ
login_bytes none = []
login_bytes (some l) = field_bytes l.username ++ field_bytes l.password

abbrev pub connect_flags : Connect → ℕ
connect_flags p = flags p.clean_session p.last_will p.login

-- What follows the flags.
abbrev pub payload : Connect → List ℕ
payload p =
    be_bytes p.keep_alive
    ++ (mqtt_bytes p.client_id ++ (will_bytes p.last_will ++ login_bytes p.login))

abbrev pub body : Connect → List ℕ
body p = mqtt_bytes protocol_name ++ (level_byte p.protocol ∷ connect_flags p ∷ payload p)

length-will_bytes : (will : Option LastWill) → length (will_bytes will) ≡ opt_will_len will
unfolding opt_will_len
length-will_bytes none = refl
length-will_bytes (some w) =
    omega (arith, length-append (mqtt_bytes w.topic) (mqtt_bytes w.message))

length-login_bytes : (login : Option Login) → length (login_bytes login) ≡ opt_login_len login
unfolding opt_login_len
length-login_bytes none = refl
length-login_bytes (some l) =
    ground (arith, length-append (field_bytes l.username) (field_bytes l.password))

pub length-body : (p : Connect) → length (body p) ≡ len p
unfolding len
length-body p = omega (
  arith,
  length-append (mqtt_bytes p.client_id) (will_bytes p.last_will ++ login_bytes p.login),
  length-append (will_bytes p.last_will) (login_bytes p.login),
  length-will_bytes p.last_will,
  length-login_bytes p.login,
)

Emits-write_opt_will :
    (will : Option LastWill) (f : ℕ)
    → WillFits will
    → Emits (write_opt_will will f) (will_bytes will) (with_will will f)
unfolding write_opt_will write_will
Emits-write_opt_will none f h = Emits-pure f
Emits-write_opt_will (some w) f h = Emits-map (bit_or f) (
    Emits-then (Emits-write_mqtt_string w.topic h.1)
      (Emits-map (λ done. will_flags w) (Emits-write_mqtt_bytes w.message h.2)))

Emits-field :
    (write_field : List ℕ → Write (Unit {0})) (field : List ℕ)
    → Emits (write_field field) (mqtt_bytes field) tt
    → Emits (if is_nil field then pure tt else write_field field) (field_bytes field) tt
Emits-field write_field field e = elim (Bool-cases (is_nil field)) [
  | inl z ↦ rw z (Emits-pure tt)
  | inr z ↦ rw z e
]

Emits-write_opt_login :
    (login : Option Login) (f : ℕ)
    → LoginFits login
    → Emits (write_opt_login login f) (login_bytes login) (with_login login f)
unfolding write_opt_login write_login
Emits-write_opt_login none f h = Emits-pure f
Emits-write_opt_login (some l) f h = Emits-map (bit_or f) (
    Emits-then (Emits-field write_mqtt_string l.username (Emits-write_mqtt_string l.username h.1)) (
      Emits-map (λ done. login_flags l)
        (Emits-field write_mqtt_bytes l.password (Emits-write_mqtt_bytes l.password h.2))))

module _ (p : Connect) (w : IsWritable p) where
  -- What is written behind the byte of the flags, with the flags as the answer.
  behind_flags : Write ℕ
  behind_flags =
      put_u16 p.keep_alive
      >> (write_mqtt_string p.client_id
          >> (write_opt_will p.last_will (clean_flag p.clean_session) >>= write_opt_login p.login))

  Emits-behind_flags : Emits behind_flags (payload p) (connect_flags p)
  unfolding behind_flags flags
  Emits-behind_flags = Emits-then (Emits-put_u16 p.keep_alive) (
      Emits-then (Emits-write_mqtt_string p.client_id w.client_id_fits) (
        EmitsTo-bind (write_opt_login p.login)
          (Emits-write_opt_will p.last_will (clean_flag p.clean_session) w.will_fits)
          (λ l. Emits-write_opt_login p.login _ w.login_fits)))

  -- Where the flags are written to does not change how the calls are nested.
  regroup :
      (index : ℕ)
      → (put_u8 (clean_flag p.clean_session) >> behind_flags) >>= patch index
        ≡ put_u8 (clean_flag p.clean_session)
          >> (put_u16 p.keep_alive
              >> (write_mqtt_string p.client_id
                  >> (write_opt_will p.last_will (clean_flag p.clean_session) >>= λ f.
                      write_opt_login p.login f >>= patch index)))
  unfolding behind_flags
  regroup index =
      let flags_byte = put_u8 (clean_flag p.clean_session) in
      let keep_alive = put_u16 p.keep_alive in
      let client_id = write_mqtt_string p.client_id in
      let will = write_opt_will p.last_will (clean_flag p.clean_session) in
      let login = write_opt_login p.login in
      bind_assoc flags_byte (λ _. keep_alive >> (client_id >> (will >>= login))) (patch index)
      ∙ ap (λ (m : Write ℕ). flags_byte >> m)
          (bind_assoc keep_alive (λ _. client_id >> (will >>= login)) (patch index)
            ∙ ap (λ (m : Write ℕ). keep_alive >> m)
                (bind_assoc client_id (λ _. will >>= login) (patch index)
                  ∙ ap (λ (m : Write ℕ). client_id >> m) (bind_assoc will login (patch index))))

  emits : EmitsTo (writer p) (frame 0x10 (body p)) (length {A = ℕ})
  unfolding writer
  emits = rw (length-body p) (
      Emits-then (Emits-put_u8 0x10) (
        Emits-then (Emits-write_remaining_length (len p) w.len_fits) (
          Emits-then (Emits-write_mqtt_string protocol_name (omega arith)) (
            Emits-then (Emits-put_u8 (level_byte p.protocol)) (
              subst
                (λ (tail : ℕ → Write ℕ).
                  EmitsTo (bytes_written >>= tail) (connect_flags p ∷ payload p) (length {A = ℕ}))
                (fun_ext regroup)
                (EmitsTo-patched (clean_flag p.clean_session) Emits-behind_flags))))))

-- A connect that can be written is written as its encoding.
pub Connect_written :
    (p : Connect) (buffer : List ℕ)
    → IsWritable p
    → Wrote (frame 0x10 (body p)) buffer (write p buffer)
unfolding write
Connect_written p buffer w = EmitsTo-Wrote (emits p w) buffer
