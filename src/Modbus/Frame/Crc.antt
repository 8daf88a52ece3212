-- ===== src/Modbus/Frame/Crc.antt =====
-- Bounds of the checksum, and frames read back (api/modbus.ts).
use Prim.Native.Nat.{bit_xor, digits, differ, bit_xor-bitwise}
use native.Mathlib.Nat.{pow-suc}
use gateway_monitoring_platf.Prelude.{
  ℕ, zero, suc, ◌/◌, ◌%◌, ◌^◌, ◌≡◌, ◌<◌, refl, List, [], ◌∷◌, arith, All,
}
use gateway_monitoring_platf.Modbus.Frame.{crc_bit, crc_bits, crc_from, crc16}

digit_lem : (x y : ℕ) → x < 2 → y < 2 → differ x y < 2
digit_lem zero y h k = k
digit_lem (suc x) zero h k = h
digit_lem (suc zero) (suc y) h k = omega arith
digit_lem (suc (suc x)) (suc y) h k = absurd (omega arith)

xor_digits_lt : (n k a b : ℕ) → a < 2 ^ k → b < 2 ^ k → digits (λ b. b) differ n a b < 2 ^ k
xor_digits_lt zero k a b ha hb = hb
xor_digits_lt (suc n) k zero b ha hb = hb
xor_digits_lt (suc n) zero (suc a) b ha hb = absurd (omega arith)
xor_digits_lt (suc n) (suc k) (suc a) b ha hb = omega (
  arith,
  pow-suc 2 k,
  xor_digits_lt n k (suc a / 2) (b / 2) (omega (arith, pow-suc 2 k)) (omega (arith, pow-suc 2 k)),
  digit_lem (suc a % 2) (b % 2) (omega arith) (omega arith),
)

bit_xor_lt : (a b : ℕ) → a < 65536 → b < 65536 → bit_xor a b < 65536
bit_xor_lt a b ha hb = omega (arith, bit_xor-bitwise a b, xor_digits_lt a 16 a b ha hb)

crc_bit_lt : (crc : ℕ) → crc < 65536 → crc_bit crc < 65536
unfolding crc_bit
crc_bit_lt crc h = ground (arith, bit_xor_lt (crc / 2) 0xa001 (omega arith) (omega arith))

crc_bits_lt : (n crc : ℕ) → crc < 65536 → crc_bits n crc < 65536
unfolding crc_bits
crc_bits_lt zero crc h = h
crc_bits_lt (suc n) crc h = crc_bits_lt n (crc_bit crc) (crc_bit_lt crc h)

abbrev pub IsByte : ℕ → Type 0
IsByte b = b < 256

crc_from_lt :
    (crc : ℕ) (bytes : List ℕ) → crc < 65536 → All IsByte bytes → crc_from crc bytes < 65536
unfolding crc_from
crc_from_lt crc [] h k = h
crc_from_lt crc (b ∷ bytes) h k =
    crc_from_lt (crc_bits 8 (bit_xor crc b)) bytes
      (crc_bits_lt 8 (bit_xor crc b) (bit_xor_lt crc b h (omega arith))) k.1

-- The checksum of bytes fits into the two bytes that a frame has for it.
pub crc16_lt : (bytes : List ℕ) → All IsByte bytes → crc16 bytes < 65536
unfolding crc16
crc16_lt bytes h = crc_from_lt 0xffff bytes (omega arith) h

-- The checksum that Modbus documents for the request 01 04 00 00 00 01.
crc16_run : crc16 (1 ∷ 4 ∷ 0 ∷ 0 ∷ 0 ∷ 1 ∷ []) ≡ 0xca31
unfolding crc16
crc16_run = refl
