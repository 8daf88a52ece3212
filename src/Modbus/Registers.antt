-- ===== src/Modbus/Registers.antt =====
-- Register maps (contracts/modbus.ts), and the planning of read blocks and the decoding of a block
-- (api/modbus.ts).
pub mod Blocks
pub mod Complete
pub mod Values
pub mod Limits
pub mod Decode
use gateway_monitoring_platf.Prelude.{
  ℕ, zero, suc, ◌+◌, ◌-◌, ◌*◌, ◌/◌, ◌%◌, String, Option, none, some, Bool, true, false, ◌&&◌, ◌||◌,
  List, [], ◌∷◌, ◌++◌, ltb, leb, ◌==◌, if◌then◌else◌, length, take, drop, get_or, filter, sort_by,
  ℤ, pos, negsuc, ltb_ℤ, str_eq,
}

pub data RegisterType : Type 0 where
  float32 u32 i32 u16 i16 : RegisterType

pub record AddressStride : Type 0 where
  pub first_unit : ℕ
  pub stride : ℕ

-- `label` and `unit` are texts for people; `scale` and `offset` act in the arithmetic on doubles,
-- which is a parameter below. `min` and `max` count ten-thousandths, as decoded values do.
pub record RegisterDef : Type 0 where
  pub key : String
  pub address : ℕ
  pub function_code : ℕ
  pub type : RegisterType
  pub scale : ℤ
  pub offset : Option ℤ
  pub word_swap : Bool
  pub min : Option ℤ
  pub max : Option ℤ
  pub address_stride : Option AddressStride

unfoldable pub shifted_address : RegisterDef → Option ℕ → ℕ
shifted_address def none = def.address
shifted_address def (some unit_id) = elim def.address_stride [
  | none ↦ def.address
  | some s ↦
      if ltb unit_id s.first_unit
      then def.address
      else def.address + (unit_id - s.first_unit) * s.stride
]

abbrev pub words_of : RegisterType → ℕ
words_of float32 = 2
words_of u32 = 2
words_of i32 = 2
words_of u16 = 1
words_of i16 = 1

abbrev pub end_of : RegisterDef → ℕ
end_of def = def.address + words_of def.type

abbrev pub max_block_words : ℕ
max_block_words = 120

abbrev pub max_gap_words : ℕ
max_gap_words = 8

pub record Block : Type 0 where
  pub function_code : ℕ
  pub start : ℕ
  pub words : ℕ
  pub defs : List RegisterDef

-- The test that puts a register into the current block: the gap and the length of the block.
unfoldable pub joins : Block → RegisterDef → Bool
joins cur def =
    leb def.address (cur.start + cur.words + max_gap_words)
    && leb (end_of def) (cur.start + max_block_words)

abbrev pub joined : Block → RegisterDef → Block
joined cur def = record cur { words = end_of def - cur.start; defs = cur.defs ++ def ∷ [] }

abbrev pub fresh : ℕ → RegisterDef → Block
fresh fc def = record {
  function_code = fc;
  start = def.address;
  words = words_of def.type;
  defs = def ∷ [];
}

-- The loop over the sorted registers, with the current block, which is the last one pushed.
unfoldable pub grow : ℕ → Block → List RegisterDef → List Block
unfolding joins
grow fc cur [] = cur ∷ []
grow fc cur (def ∷ defs) =
    let longer = grow fc (joined cur def) defs in
    let next = cur ∷ grow fc (fresh fc def) defs in if joins cur def then longer else next

abbrev pub lower_address : RegisterDef → RegisterDef → Bool
lower_address a b = leb a.address b.address

-- The registers of one function code in the order of their addresses.
unfoldable pub sorted_defs : ℕ → List RegisterDef → List RegisterDef
unfolding sort_by
sorted_defs fc defs = sort_by lower_address (filter (λ d. d.function_code == fc) defs)

abbrev pub start_blocks : ℕ → List RegisterDef → List Block
start_blocks fc [] = []
start_blocks fc (def ∷ defs) = grow fc (fresh fc def) defs

unfoldable pub build_blocks : List RegisterDef → List Block
unfolding grow sorted_defs
build_blocks defs = start_blocks 3 (sorted_defs 3 defs) ++ start_blocks 4 (sorted_defs 4 defs)

-- registerSpan: the whole map in one read, if it is not too long.
pub record Span : Type 0 where
  pub start : ℕ
  pub quantity : ℕ

abbrev pub least : ℕ → List RegisterDef → ℕ
least n [] = n
least n (d ∷ ds) = least (if ltb d.address n then d.address else n) ds

abbrev pub greatest : ℕ → List RegisterDef → ℕ
greatest n [] = n
greatest n (d ∷ ds) = greatest (if ltb n (end_of d) then end_of d else n) ds

unfoldable pub register_span : List RegisterDef → Option Span
register_span [] = none
register_span (d ∷ ds) =
    let start = least d.address ds in
    let quantity = greatest (end_of d) ds - start in
    if ltb 125 quantity then none else some (record { start = start; quantity = quantity })

-- A raw value: an integer, or the bytes of a float32.
pub data Raw : Type 0 where
  int : ℤ → Raw
  float : List ℕ → Raw

abbrev pub read_be : ℕ → List ℕ → ℕ
read_be n [] = n
read_be n (b ∷ bs) = read_be (n * 256 + b) bs

-- The two's complement of a number below `half + half`.
abbrev pub signed : ℕ → ℕ → ℤ
signed half n = if ltb n half then pos n else negsuc (half + half - n - 1)

-- The bytes of a field read by its type.
unfoldable pub read_raw : RegisterType → List ℕ → Raw
read_raw float32 bytes = float bytes
read_raw u32 bytes = int (pos (read_be 0 bytes))
read_raw i32 bytes = int (signed 2147483648 (read_be 0 bytes))
read_raw u16 bytes = int (pos (read_be 0 bytes))
read_raw i16 bytes = int (signed 32768 (read_be 0 bytes))

-- swapWords of a field of two words.
abbrev pub swap_words : List ℕ → List ℕ
swap_words bytes = drop 2 bytes ++ take 2 bytes

unfoldable pub decode_raw_value : RegisterDef → List ℕ → ℕ → Option Raw
unfolding read_raw
decode_raw_value def bytes base_address =
    let size = words_of def.type * 2 in
    let offset = (def.address - base_address) * 2 in
    if ltb def.address base_address || ltb (length bytes) (offset + size)
    then none
    else let field = take size (drop offset bytes) in
      some (read_raw def.type (if def.word_swap && (size == 4) then swap_words field else field))

pub record DecodeResult : Type 0 where
  pub values : List (String × ℤ)
  pub rejected : List (String × ℤ)

abbrev pub below : ℤ → Option ℤ → Bool
below v none = false
below v (some m) = ltb_ℤ v m

abbrev pub above : ℤ → Option ℤ → Bool
above v none = false
above v (some m) = ltb_ℤ m v

unfoldable pub is_implausible : RegisterDef → ℤ → Bool
is_implausible def v = below v def.min || above v def.max

-- out[key] = v: a key that is present keeps its place.
unfoldable pub put_value : String → ℤ → List (String × ℤ) → List (String × ℤ)
put_value k v [] = (k, v) ∷ []
put_value k v ((j, w) ∷ m) = if str_eq j k then (j, v) ∷ m else (j, w) ∷ put_value k v m

-- `scaled` is the arithmetic on doubles: Math.round((raw * scale + offset) * 10000) / 10000, in
-- ten-thousandths, or `none` where the raw value is not finite.
module _ (scaled : RegisterDef → Raw → Option ℤ) where
  unfoldable pub decode_one : RegisterDef → List ℕ → ℕ → Option ℤ
  unfolding decode_raw_value
  decode_one def bytes base_address = elim (decode_raw_value def bytes base_address) [
    | none ↦ none
    | some raw ↦ scaled def raw
  ]

  abbrev pub emit_value : RegisterDef → Option ℤ → DecodeResult → DecodeResult
  emit_value def none out = out
  emit_value def (some v) out =
      if is_implausible def v
      then record out { rejected = out.rejected ++ (def.key, v) ∷ [] }
      else record out { values = put_value def.key v out.values }

  unfoldable pub decode_from : DecodeResult → List RegisterDef → List ℕ → ℕ → DecodeResult
  unfolding decode_one is_implausible put_value
  decode_from out [] bytes base_address = out
  decode_from out (def ∷ defs) bytes base_address =
      decode_from (emit_value def (decode_one def bytes base_address) out) defs bytes base_address

  unfoldable pub decode_registers : List RegisterDef → List ℕ → ℕ → DecodeResult
  unfolding decode_from
  decode_registers defs bytes base_address =
      decode_from (record { values = []; rejected = [] }) defs bytes base_address
