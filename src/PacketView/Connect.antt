-- ===== src/PacketView/Connect.antt =====
-- packetview/connect.rs: the connect packet, with the last will and the login that it may carry.
pub mod Flags
pub mod Encoding
pub mod RoundTrip
use umqtt.Base.{
  ℕ, ◌+◌, ◌*◌, ◌/◌, ◌==◌, if◌then◌else◌, Bool, not, ◌&&◌, List, [], ◌∷◌, length, is_nil, bytes_eq,
  bit_and, bit_or, Option, none, some,
}
use umqtt.Base.Outcome.{Outcome, run_on, pure, fail, lift, ◌>>=◌, ◌>>◌}
use umqtt.PacketView.{
  Error, WriteError, FixedHeader, QoS, qos, qos_byte, Protocol, v4, v5, invalid_protocol,
  invalid_protocol_level,
}
use umqtt.PacketView.Cursor.{Read, advance}
use umqtt.PacketView.WriteCursor.{Write, put_u8, put_u16, set_byte, bytes_written, write_into}
use umqtt.PacketView.Field.{
  read_u8, read_u16, read_mqtt_bytes, read_mqtt_string, write_mqtt_bytes, write_mqtt_string,
}
use umqtt.PacketView.Header.{write_remaining_length}

pub record Login : Type 0 where
  pub username : List ℕ
  pub password : List ℕ

login_of : List ℕ → List ℕ → Option Login
login_of username password =
    if is_nil username && is_nil password
    then none
    else some (record { username = username; password = password })

-- `Login::read`
unfoldable pub read_login : ℕ → Read (Option Login)
unfolding login_of
read_login connect_flags = do
  username ← if bit_and connect_flags 0x80 == 0 then pure [] else read_mqtt_string
  password ← if bit_and connect_flags 0x40 == 0 then pure [] else read_mqtt_bytes
  pure (login_of username password)

abbrev pub field_len : List ℕ → ℕ
field_len field = if is_nil field then 0 else 2 + length field

abbrev pub login_len : Login → ℕ
login_len l = field_len l.username + field_len l.password

-- `Login::write`: the connect flags that it sets.
unfoldable pub write_login : Login → Write ℕ
write_login l = do
  if is_nil l.username then pure tt else write_mqtt_string l.username
  if is_nil l.password then pure tt else write_mqtt_bytes l.password
  let username_flag = if is_nil l.username then 0 else 0x80
  pure (if is_nil l.password then username_flag else bit_or username_flag 0x40)

pub record LastWill : Type 0 where
  pub topic : List ℕ
  pub message : List ℕ
  pub quality : QoS
  pub retain : Bool

read_some_will : ℕ → Read (Option LastWill)
read_some_will connect_flags = do
  will_topic ← read_mqtt_string
  will_message ← read_mqtt_bytes
  will_qos ← lift (qos (bit_and connect_flags 0x18 / 8))
  pure (
      some (record {
        topic = will_topic;
        message = will_message;
        quality = will_qos;
        retain = not (bit_and connect_flags 0x20 == 0);
      }))

-- `LastWill::read`
unfoldable pub read_will : ℕ → Read (Option LastWill)
unfolding read_some_will
read_will connect_flags =
    if bit_and connect_flags 0x04 == 0
    then (if bit_and connect_flags 0x38 == 0 then pure none else fail Error.malformed_packet)
    else read_some_will connect_flags

abbrev pub will_len : LastWill → ℕ
will_len w = 2 + length w.topic + 2 + length w.message

abbrev pub will_flags : LastWill → ℕ
will_flags w =
    let flags = bit_or 0x04 (qos_byte w.quality * 8) in
    if w.retain then bit_or flags 0x20 else flags

-- `LastWill::write`
unfoldable pub write_will : LastWill → Write ℕ
write_will w = do write_mqtt_string w.topic; write_mqtt_bytes w.message; pure (will_flags w)

pub record Connect : Type 0 where
  pub protocol : Protocol
  pub keep_alive : ℕ
  pub client_id : List ℕ
  pub clean_session : Bool
  pub last_will : Option LastWill
  pub login : Option Login

pub record ConnectOptions : Type 0 where
  pub client_id : List ℕ
  pub last_will : Option LastWill
  pub login : Option Login
  pub keep_alive : ℕ
  pub clean_session : Bool

unfoldable pub as_connect : ConnectOptions → Connect
as_connect o = record {
  clean_session = o.clean_session;
  keep_alive = o.keep_alive;
  client_id = o.client_id;
  login = o.login;
  last_will = o.last_will;
  protocol = v4;
}

-- "MQTT"
abbrev pub protocol_name : List ℕ
protocol_name = b'M' ∷ b'Q' ∷ b'T' ∷ b'T' ∷ []

unfoldable pub read_exact : FixedHeader → List ℕ → Outcome Error Connect
read_exact h bytes = run_on bytes do
  advance h.fixed_header_len
  name ← read_mqtt_string
  protocol_level ← read_u8
  if not (bytes_eq name protocol_name)
      then fail invalid_protocol
      else if not (protocol_level == 4)
      then fail (invalid_protocol_level protocol_level)
      else do
        connect_flags ← read_u8
        keep_alive ← read_u16
        client_id ← read_mqtt_string
        last_will ← read_will connect_flags
        login ← read_login connect_flags
        pure (record {
          protocol = v4;
          keep_alive = keep_alive;
          client_id = client_id;
          clean_session = not (bit_and connect_flags 0x02 == 0);
          last_will = last_will;
          login = login;
        })

opt_will_len : Option LastWill → ℕ
opt_will_len none = 0
opt_will_len (some w) = will_len w

opt_login_len : Option Login → ℕ
opt_login_len none = 0
opt_login_len (some l) = login_len l

unfoldable pub len : Connect → ℕ
unfolding opt_will_len opt_login_len
len p =
    2
    + length protocol_name
    + 1
    + 1
    + 2
    + (2 + length p.client_id)
    + opt_will_len p.last_will
    + opt_login_len p.login

abbrev pub level_byte : Protocol → ℕ
level_byte v4 = 0x04
level_byte v5 = 0x05

-- `connect_flags |= last_will.write(&mut buffer)?`, if there is one.
unfoldable pub write_opt_will : Option LastWill → ℕ → Write ℕ
write_opt_will none flags = pure flags
write_opt_will (some w) flags = do f ← write_will w; pure (bit_or flags f)

unfoldable pub write_opt_login : Option Login → ℕ → Write ℕ
write_opt_login none flags = pure flags
write_opt_login (some l) flags = do f ← write_login l; pure (bit_or flags f)

unfoldable pub writer : Connect → Write ℕ
unfolding write_opt_will write_opt_login
writer p = do
  put_u8 0x10
  write_remaining_length (len p)
  write_mqtt_string protocol_name
  put_u8 (level_byte p.protocol)
  let clean_flag = if p.clean_session then 0x02 else 0
  connect_flags_index ← bytes_written
  put_u8 clean_flag
  put_u16 p.keep_alive
  write_mqtt_string p.client_id
  with_will ← write_opt_will p.last_will clean_flag
  connect_flags ← write_opt_login p.login with_will
  set_byte connect_flags_index connect_flags
  bytes_written

unfoldable pub write : Connect → List ℕ → Outcome WriteError ℕ × List ℕ
write p = write_into (writer p)
