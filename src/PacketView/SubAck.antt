-- ===== src/PacketView/SubAck.antt =====
-- packetview/suback.rs: the acknowledgement of a subscribe, with a return code for each filter.
pub mod RoundTrip
use umqtt.Base.{ℕ, ◌+◌, ◌==◌, if◌then◌else◌, List, [], ◌∷◌, length, is_nil}
use umqtt.Base.Outcome.{Outcome, ok, err, panic, run_on, pure, fail, lift, and_then, ◌>>=◌, ◌>>◌}
use umqtt.PacketView.{
  Error, WriteError, FixedHeader, QoS, at_most_once, at_least_once, exactly_once, qos_byte,
  invalid_subscribe_reason_code,
}
use umqtt.PacketView.Cursor.{as_slice, advance}
use umqtt.PacketView.WriteCursor.{Write, put_u8, put_u16, bytes_written, write_into}
use umqtt.PacketView.Field.{read_u16}
use umqtt.PacketView.Header.{write_remaining_length}

pub data SubscribeReasonCode : Type 0 where
  success : QoS → SubscribeReasonCode
  failure : SubscribeReasonCode

-- `SubscribeReasonCode::try_from`
unfoldable pub try_from : ℕ → Outcome Error SubscribeReasonCode
try_from value =
    if value == 0
    then ok (success at_most_once)
    else if value == 1
    then ok (success at_least_once)
    else if value == 2
    then ok (success exactly_once)
    else if value == 128
    then ok failure
    else err (invalid_subscribe_reason_code value)

pub data Storage : Type 0 where
  slice : List SubscribeReasonCode → Storage
  wire_bytes : List ℕ → Storage

-- What `BytesIterator` yields: the codes up to the first byte that is none.
unfoldable pub codes_of : List ℕ → List SubscribeReasonCode
codes_of [] = []
codes_of (b ∷ bs) = elim (try_from b) [ ok c ↦ c ∷ codes_of bs | err e ↦ [] | panic ↦ [] ]

unfoldable pub iter : Storage → List SubscribeReasonCode
iter (slice s) = s
iter (wire_bytes b) = codes_of b

abbrev storage_len : Storage → ℕ
storage_len (slice s) = length s
storage_len (wire_bytes b) = length b

pub record SubAck : Type 0 where
  pub pkid : ℕ
  pub return_codes : Storage

unfoldable pub len : SubAck → ℕ
len p = 2 + storage_len p.return_codes

-- `for byte in bytes { let _: SubscribeReasonCode = (*byte).try_into()?; }`
unfoldable pub check_codes : List ℕ → Outcome Error (Unit {0})
check_codes [] = ok tt
check_codes (b ∷ bs) = and_then (try_from b) (λ _. check_codes bs)

unfoldable pub read_exact : FixedHeader → List ℕ → Outcome Error SubAck
read_exact h bytes = run_on bytes do
  advance h.fixed_header_len
  pkid ← read_u16
  codes ← as_slice
  if is_nil codes then fail Error.malformed_packet else do
    lift (check_codes codes)
    pure (record { pkid = pkid; return_codes = wire_bytes codes })

abbrev pub code_byte : SubscribeReasonCode → ℕ
code_byte (success q) = qos_byte q
code_byte failure = 0x80

unfoldable pub write_codes : List SubscribeReasonCode → Write (Unit {0})
write_codes [] = pure tt
write_codes (c ∷ cs) = do put_u8 (code_byte c); write_codes cs

unfoldable pub writer : SubAck → Write ℕ
writer p = do
  put_u8 0x90
  write_remaining_length (len p)
  put_u16 p.pkid
  write_codes (iter p.return_codes)
  bytes_written

unfoldable pub write : SubAck → List ℕ → Outcome WriteError ℕ × List ℕ
write p = write_into (writer p)
