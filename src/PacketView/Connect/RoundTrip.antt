-- ===== src/PacketView/Connect/RoundTrip.antt =====
-- packetview/connect.rs: reading a connect from the bytes that `Connect::write` stores.
use umqtt.Base.{
  ℕ, ◌≡◌, refl, sym, ap, ◌∙◌, Bool, not, ◌==◌, if◌then◌else◌, is_nil, List, [], ◌∷◌, ◌++◌, Option,
  none, some, bit_and, append_assoc, append-nil, bytes_eq,
}
use umqtt.Base.Outcome.{ok, pure, fail, bind_ok, ◌>>=◌}
use umqtt.PacketView.{v4, invalid_protocol, invalid_protocol_level}
use umqtt.PacketView.Utf8.{is_utf8}
use umqtt.PacketView.Cursor.{Read}
use umqtt.PacketView.Field.{read_u8, read_u16, read_mqtt_bytes, read_mqtt_string}
use umqtt.PacketView.Field.RoundTrip.{
  mqtt_bytes, read_u8-cons, read_u16-be_bytes, read_mqtt_bytes-mqtt_bytes,
  read_mqtt_string-mqtt_bytes,
}
use umqtt.PacketView.Header.RoundTrip.{frame, header_of}
use umqtt.PacketView.Header.Framing.{read-frame}
use umqtt.PacketView.Connect.{
  Connect, Login, LastWill, read_will, read_some_will, read_login, login_of, protocol_name,
  level_byte, read_exact,
}
use umqtt.PacketView.Connect.Flags.{
  flags, flags-clean, flags-no_will, flags-will, flags-no_login, flags-login,
}
use umqtt.PacketView.Connect.Encoding.{
  IsWritable, WillFits, LoginFits, will_bytes, field_bytes, login_bytes, connect_flags, payload,
  body,
}

read_some_will-will_bytes :
    (clean : Bool) (w : LastWill) (login : Option Login) (rest : List ℕ)
    → WillFits (some w)
    → read_some_will (flags clean (some w) login) (will_bytes (some w) ++ rest)
      ≡ (ok (some w), rest)
unfolding read_some_will
read_some_will-will_bytes clean w login rest h =
    let f = flags-will clean (some w) login w refl in
    rw (append_assoc (mqtt_bytes w.topic) (mqtt_bytes w.message) rest) (
      bind_ok read_mqtt_string _
        (read_mqtt_string-mqtt_bytes w.topic (mqtt_bytes w.message ++ rest) h.0)
      ∙ bind_ok read_mqtt_bytes _ (read_mqtt_bytes-mqtt_bytes w.message rest)
      ∙ rw (f.1, f.2) refl)

read_will-will_bytes :
    (clean : Bool) (will : Option LastWill) (login : Option Login) (rest : List ℕ)
    → WillFits will
    → read_will (flags clean will login) (will_bytes will ++ rest) ≡ (ok will, rest)
unfolding read_will
read_will-will_bytes clean none login rest h =
    let f = flags-no_will clean none login refl in rw (f.0, f.1) refl
read_will-will_bytes clean (some w) login rest h =
    rw (flags-will clean (some w) login w refl).0 (read_some_will-will_bytes clean w login rest h)

-- A field that is there if and only if its flag is set.
read_field :
    (read : Read (List ℕ)) (field rest : List ℕ)
    → read (mqtt_bytes field ++ rest) ≡ (ok field, rest)
    → (if is_nil field then pure [] else read) (field_bytes field ++ rest) ≡ (ok field, rest)
read_field read [] rest e = refl
read_field read (x ∷ xs) rest e = e

read_login-login_bytes :
    (clean : Bool) (will : Option LastWill) (login : Option Login) (rest : List ℕ)
    → LoginFits login
    → read_login (flags clean will login) (login_bytes login ++ rest) ≡ (ok login, rest)
unfolding read_login login_of
read_login-login_bytes clean will none rest h =
    let f = flags-no_login clean will none refl in rw (f.0, f.1) refl
read_login-login_bytes clean will (some l) rest h =
    let f = flags-login clean will (some l) l refl in
    rw (f.0, f.1, append_assoc (field_bytes l.username) (field_bytes l.password) rest)
      (bind_ok (if is_nil l.username then pure [] else read_mqtt_string) _ (
          read_field read_mqtt_string l.username (field_bytes l.password ++ rest)
            (read_mqtt_string-mqtt_bytes l.username (field_bytes l.password ++ rest) h.0))
        ∙ bind_ok (if is_nil l.password then pure [] else read_mqtt_bytes) _ (
            read_field read_mqtt_bytes l.password rest (read_mqtt_bytes-mqtt_bytes l.password rest))
        ∙ rw h.3 refl)

module _ (p : Connect) (w : IsWritable p) where
  -- What `read_exact` does behind the fixed header.
  read_body : Read Connect
  read_body = do
    name ← read_mqtt_string
    protocol_level ← read_u8
    if not (bytes_eq name protocol_name)
        then fail invalid_protocol
        else if not (protocol_level == 4)
        then fail (invalid_protocol_level protocol_level)
        else do
          connect_flags ← read_u8
          keep_alive ← read_u16
          client_id ← read_mqtt_string
          last_will ← read_will connect_flags
          login ← read_login connect_flags
          pure (record {
            protocol = v4;
            keep_alive = keep_alive;
            client_id = client_id;
            clean_session = not (bit_and connect_flags 0x02 == 0);
            last_will = last_will;
            login = login;
          })

  read_body-body : read_body (body p) ≡ (ok p, [])
  unfolding read_body is_utf8
  read_body-body =
      let fl = connect_flags p in
      let level : level_byte p.protocol ≡ 4 = ap level_byte w.is_v4 in
      let after_client_id = will_bytes p.last_will ++ login_bytes p.login in
      let login : read_login fl (login_bytes p.login) ≡ (ok p.login, []) =
        rw append-nil at
          (read_login-login_bytes p.clean_session p.last_will p.login [] w.login_fits) in
      let will =
        read_will-will_bytes p.clean_session p.last_will p.login (login_bytes p.login)
          w.will_fits in
      bind_ok read_mqtt_string _
        (read_mqtt_string-mqtt_bytes protocol_name (level_byte p.protocol ∷ fl ∷ payload p) refl)
      ∙ bind_ok read_u8 _ (read_u8-cons (level_byte p.protocol) (fl ∷ payload p))
      ∙ rw level (
          bind_ok read_u8 _ (read_u8-cons fl (payload p))
          ∙ bind_ok read_u16 _
              (read_u16-be_bytes p.keep_alive (mqtt_bytes p.client_id ++ after_client_id))
          ∙ bind_ok read_mqtt_string _
              (read_mqtt_string-mqtt_bytes p.client_id after_client_id w.client_id_str)
          ∙ bind_ok (read_will fl) _ will
          ∙ bind_ok (read_login fl) _ login
          ∙ rw (flags-clean p.clean_session p.last_will p.login)
              (λ i. (ok (record p { protocol = sym w.is_v4 i }), [])))

  pub read_exact-frame : read_exact (header_of 0x10 (body p)) (frame 0x10 (body p)) ≡ ok p
  unfolding read_exact read_body
  read_exact-frame = read-frame read_body 0x10 (body p) read_body-body
