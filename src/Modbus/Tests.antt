-- ===== src/Modbus/Tests.antt =====
-- Runs of the frames, the blocks and the decoding of api/modbus.ts.
use mathlib.Core.List.{Perm}
use gateway_monitoring_platf.Prelude.{
  filter, IsOrdered, sort_by, ℕ, ◌*◌, ◌≡◌, Option, none, some, false, List, [], ◌∷◌, All, arith, ℤ,
  pos,
}
use gateway_monitoring_platf.Modbus.Frame.{with_crc, ParsedResponse, parse_response}
use gateway_monitoring_platf.Modbus.Frame.Parse.{parse_response_payload}
use gateway_monitoring_platf.Modbus.Registers.Decode.{
  IsEmitted, IsRejected, IsAccounted, decode_registers-IsSound,
}
use gateway_monitoring_platf.Modbus.Registers.{
  decode_registers, RegisterType, RegisterDef, Raw, int, sorted_defs, build_blocks,
}
use gateway_monitoring_platf.Modbus.Registers.Blocks.{defs_of, IsReadable, build_blocks-IsReadable}
use gateway_monitoring_platf.Modbus.Registers.Complete.{
  is_readable, IsReadBefore, HasOneCode, build_blocks-IsComplete,
}

abbrev payload_response : ParsedResponse
payload_response = record {
  slave = 1;
  function_code = 4;
  exception = none;
  payload = some (1 ∷ 44 ∷ []);
}

parse_response_payload_example :
    parse_response (with_crc (1 ∷ 4 ∷ 2 ∷ 1 ∷ 44 ∷ [])) ≡ some payload_response
parse_response_payload_example = parse_response_payload 1 4 (1 ∷ 44 ∷ []) (omega arith)

abbrev wide : RegisterDef
wide = record {
  key = "power";
  address = 10;
  function_code = 3;
  type = RegisterType.i32;
  scale = pos 1;
  offset = none;
  word_swap = false;
  min = none;
  max = some (pos 1_000_000);
  address_stride = none;
}

abbrev narrow : RegisterDef
narrow = record wide { key = "state"; type = RegisterType.u16; max = none }

abbrev next_one : RegisterDef
next_one = record narrow { address = 14 }

abbrev some_map : List RegisterDef
some_map = next_one ∷ record narrow { function_code = 4 } ∷ wide ∷ []

build_blocks-IsComplete_example :
    Perm (defs_of (build_blocks some_map)) (filter is_readable some_map)
    × IsOrdered IsReadBefore (defs_of (build_blocks some_map))
    × All HasOneCode (build_blocks some_map)
build_blocks-IsComplete_example = build_blocks-IsComplete some_map

build_blocks-IsReadable_example : All IsReadable (build_blocks some_map)
unfolding sorted_defs sort_by
build_blocks-IsReadable_example =
    build_blocks-IsReadable some_map (((omega arith, omega arith), tt), (tt, tt)) (tt, tt)

-- Registers that take no scaling, so that a unit is ten thousand ten-thousandths.
abbrev unscaled : RegisterDef → Raw → Option ℤ
unscaled def (int (pos n)) = some (pos (n * 10_000))
unscaled def _ = none

abbrev wide_bytes : List ℕ
wide_bytes = 0 ∷ 0 ∷ 1 ∷ 44 ∷ []

abbrev one_def : List RegisterDef
one_def = wide ∷ []

decode_registers-IsSound_example :
    let out = decode_registers unscaled one_def wide_bytes 10 in
    All (λ kv. IsEmitted unscaled one_def wide_bytes 10 kv) out.values
    × All (λ kv. IsRejected unscaled one_def wide_bytes 10 kv) out.rejected
    × All (λ d. IsAccounted unscaled one_def wide_bytes 10 out d) one_def
decode_registers-IsSound_example =
    decode_registers-IsSound unscaled one_def wide_bytes 10
      (omega arith, (omega arith, (omega arith, (omega arith, tt))))
