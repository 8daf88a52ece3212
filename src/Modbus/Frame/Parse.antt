-- ===== src/Modbus/Frame/Parse.antt =====
-- Frames read back: what parseResponse accepts (api/modbus.ts).
use gateway_monitoring_platf.Prelude.{
  ℕ, ◌+◌, ◌-◌, ◌≡◌, ◌<◌, ◌≤◌, none, some, List, [], ◌∷◌, ◌++◌, length, arith, take, drop, get_or,
  length-append, take-length, drop-length, length-take_le, length-drop,
}
use gateway_monitoring_platf.Modbus.Frame.{
  crc16, u16_le, with_crc, ParsedResponse, read_u16_le, parse_checked, parse_response,
}

length-with_crc : (body : List ℕ) → length (with_crc body) ≡ length body + 2
unfolding with_crc
length-with_crc body = length-append {0} body (u16_le (crc16 body))

-- A frame of a body of three bytes or more passes the checksum test.
parse_response-with_crc :
    (body : List ℕ)
    → 3 ≤ length body
    → parse_response (with_crc body) ≡ parse_checked (with_crc body)
unfolding parse_response with_crc
parse_response-with_crc body h =
    let t = u16_le (crc16 body) in
    let size : length (body ++ t) ≡ length body + 2 = length-append {0} body t in
    let cut : length (body ++ t) - 2 ≡ length body = omega arith in
    rw (cut, take-length body t, drop-length body t) (ground arith)

-- A response with a register payload reads back as it was sent.
pub parse_response_payload :
    (slave function_code : ℕ) (payload : List ℕ)
    → function_code < 128
    → parse_response (with_crc (slave ∷ function_code ∷ length payload ∷ payload))
      ≡ some (record {
        slave = slave;
        function_code = function_code;
        exception = none;
        payload = some payload;
      })
unfolding parse_checked with_crc
parse_response_payload slave fc payload h =
    let body = slave ∷ fc ∷ length payload ∷ payload in
    let t = u16_le (crc16 body) in
    rw (parse_response-with_crc body (omega arith))
      (rw (take-length payload t) (ground (arith, length-append {0} payload t)))

-- An exception response reads back with the function code that was asked for.
pub parse_response_exception :
    (slave function_code code : ℕ)
    → function_code < 128
    → parse_response (with_crc (slave ∷ (function_code + 128) ∷ code ∷ []))
      ≡ some (record {
        slave = slave;
        function_code = function_code;
        exception = some code;
        payload = none;
      })
unfolding parse_checked with_crc
parse_response_exception slave fc code h =
    let body = slave ∷ (fc + 128) ∷ code ∷ [] in
    rw (parse_response-with_crc body (omega arith)) (ground arith)

length-slice : (n : ℕ) (frame : List ℕ) → n + 3 ≤ length frame → length (take n (drop 3 frame)) ≡ n
length-slice n frame h = length-take_le n (drop 3 frame) (omega (arith, length-drop {0} 3 frame))

-- What is accepted is long enough, ends in the checksum of what stands before it, and a payload
-- has as many bytes as the third byte says.
pub parse_response_sound :
    (frame : List ℕ) (r : ParsedResponse)
    → parse_response frame ≡ some r
    → (5 ≤ length frame)
      × (crc16 (take (length frame - 2) frame) ≡ read_u16_le (drop (length frame - 2) frame))
      × (r.slave ≡ get_or frame 0 0)
      × ((bytes : List ℕ) → r.payload ≡ some bytes → length bytes ≡ get_or frame 2 0)
unfolding parse_response parse_checked
parse_response_sound frame r h = (
  ground arith,
  ground arith,
  ground arith,
  λ bytes e. ground (arith, length-slice (get_or frame 2 0) frame),
)
