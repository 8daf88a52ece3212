-- ===== src/Modbus/Frame.antt =====
-- The frames of api/modbus.ts, and the write request of api/control/execute.ts. A Buffer is a list
-- of bytes. The accesses stand behind length checks, so those out of range do not arise; a write of
-- a number that does not fit throws a RangeError, which is `none`.
pub mod Crc
pub mod Parse
use Prim.Native.Nat.{bit_xor}
use gateway_monitoring_platf.Prelude.{
  ℕ, zero, suc, ◌+◌, ◌-◌, ◌*◌, ◌/◌, ◌%◌, Option, none, some, Bool, true, false, ◌&&◌, List, [], ◌∷◌,
  ◌++◌, ltb, leb, ◌==◌, if◌then◌else◌, length, take, drop, get_or,
}

-- crc & 1 ? (crc >> 1) ^ 0xa001 : crc >> 1
unfoldable pub crc_bit : ℕ → ℕ
crc_bit crc = if crc % 2 == 1 then bit_xor (crc / 2) 0xa001 else crc / 2

-- The inner loop, for the rounds left.
unfoldable pub crc_bits : ℕ → ℕ → ℕ
unfolding crc_bit
crc_bits zero crc = crc
crc_bits (suc n) crc = crc_bits n (crc_bit crc)

unfoldable pub crc_from : ℕ → List ℕ → ℕ
unfolding crc_bits
crc_from crc [] = crc
crc_from crc (byte ∷ bytes) = crc_from (crc_bits 8 (bit_xor crc byte)) bytes

unfoldable pub crc16 : List ℕ → ℕ
unfolding crc_from
crc16 bytes = crc_from 0xffff bytes

-- writeUInt16BE and writeUInt16LE of a number below 65536.
abbrev pub u16_be : ℕ → List ℕ
u16_be n = (n / 256) ∷ (n % 256) ∷ []

abbrev pub u16_le : ℕ → List ℕ
u16_le n = (n % 256) ∷ (n / 256) ∷ []

-- The body with its checksum behind it.
unfoldable pub with_crc : List ℕ → List ℕ
with_crc body = body ++ u16_le (crc16 body)

-- The checks that writeUInt8 and writeUInt16BE make of their arguments.
abbrev pub fits : ℕ → ℕ → ℕ → Bool
fits slave address n = ltb slave 256 && ltb address 65536 && ltb n 65536

unfoldable pub build_read_request : ℕ → ℕ → ℕ → ℕ → Option (List ℕ)
build_read_request slave function_code start_address quantity =
    if fits slave start_address quantity
    then some (with_crc (slave ∷ function_code ∷ u16_be start_address ++ u16_be quantity))
    else none

-- The value is masked by 0xffff, so only the slave and the address can fail to fit.
unfoldable pub build_write_request : ℕ → ℕ → ℕ → Option (List ℕ)
build_write_request slave address value =
    if fits slave address 0
    then some (with_crc (slave ∷ 6 ∷ u16_be address ++ u16_be (value % 65536)))
    else none

pub record ParsedResponse : Type 0 where
  pub slave : ℕ
  pub function_code : ℕ
  pub exception : Option ℕ
  pub payload : Option (List ℕ)

abbrev pub read_u16_le : List ℕ → ℕ
read_u16_le bytes = get_or bytes 0 0 + 256 * get_or bytes 1 0

-- The frame behind the checksum test: an exception, a register payload, or too short a frame.
unfoldable pub parse_checked : List ℕ → Option ParsedResponse
parse_checked frame =
    let slave = get_or frame 0 0 in
    let function_code = get_or frame 1 0 in
    let byte_count = get_or frame 2 0 in
    if leb 128 function_code
    then some (record {
      slave = slave;
      function_code = function_code % 128;
      exception = some byte_count;
      payload = none;
    })
    else if ltb (length frame) (3 + byte_count + 2)
    then none
    else some (record {
      slave = slave;
      function_code = function_code;
      exception = none;
      payload = some (take byte_count (drop 3 frame));
    })

unfoldable pub parse_response : List ℕ → Option ParsedResponse
parse_response frame =
    if ltb (length frame) 5
    then none
    else let body = take (length frame - 2) frame in
      let expected_crc = read_u16_le (drop (length frame - 2) frame) in
      if crc16 body == expected_crc then parse_checked frame else none
