-- ===== src/PacketView/ConnAck.antt =====
-- packetview/connack.rs: the broker's answer to a connect.
use umqtt.Base.{ℕ, ◌+◌, ◌==◌, if◌then◌else◌, Bool, true, false, List, bit_and}
use umqtt.Base.Outcome.{Outcome, ok, err, run_on, pure, lift, ◌>>=◌, ◌>>◌}
use umqtt.PacketView.{Error, WriteError, FixedHeader, invalid_connect_return_code}
use umqtt.PacketView.Cursor.{advance}
use umqtt.PacketView.WriteCursor.{put_u8, bytes_written, write_into}
use umqtt.PacketView.Field.{read_u8}
use umqtt.PacketView.Header.{write_remaining_length}

pub data ConnectReturnCode : Type 0 where
  success refused_protocol_version bad_client_id : ConnectReturnCode
  service_unavailable bad_user_name_password not_authorized : ConnectReturnCode

abbrev pub is_success : ConnectReturnCode → Bool
is_success success = true
is_success _ = false

-- `code as u8`
abbrev pub code_byte : ConnectReturnCode → ℕ
code_byte success = 0
code_byte refused_protocol_version = 1
code_byte bad_client_id = 2
code_byte service_unavailable = 3
code_byte bad_user_name_password = 4
code_byte not_authorized = 5

unfoldable pub connect_return : ℕ → Outcome Error ConnectReturnCode
connect_return num =
    if num == 0
    then ok success
    else if num == 1
    then ok refused_protocol_version
    else if num == 2
    then ok bad_client_id
    else if num == 3
    then ok service_unavailable
    else if num == 4
    then ok bad_user_name_password
    else if num == 5
    then ok not_authorized
    else err (invalid_connect_return_code num)

pub record ConnAck : Type 0 where
  pub session_present : Bool
  pub code : ConnectReturnCode

unfoldable pub read_exact : FixedHeader → List ℕ → Outcome Error ConnAck
read_exact h bytes = run_on bytes do
  advance h.fixed_header_len
  flags ← read_u8
  return_code ← read_u8
  code ← lift (connect_return return_code)
  pure (record { session_present = bit_and flags 0x01 == 1; code = code })

abbrev len : ConnAck → ℕ
len p = 1 + 1

unfoldable pub write : ConnAck → List ℕ → Outcome WriteError ℕ × List ℕ
write p = write_into do
  put_u8 0x20
  write_remaining_length (len p)
  put_u8 (if p.session_present then 1 else 0)
  put_u8 (code_byte p.code)
  bytes_written
