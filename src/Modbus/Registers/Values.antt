-- ===== src/Modbus/Registers/Values.antt =====
-- What the decoded values are of the bytes of a block (api/modbus.ts, decodeRegisters).
use gateway_monitoring_platf.Prelude.{
  ℕ, zero, suc, ◌+◌, ◌-◌, ◌*◌, ◌≡◌, ◌≤◌, ◌<◌, ◌⊎◌, inl, inr, refl, Bool, true, false, ◌&&◌, ◌||◌,
  none, some, List, [], ◌∷◌, ◌++◌, arith, sym, ap, All-take, All, Bool-cases, length, take, drop, ℤ,
  pos, pos_part, neg_part, ltb, ◌==◌, if◌then◌else◌, length-take_le, length-drop,
}
use gateway_monitoring_platf.Modbus.Registers.{
  RegisterType, float32, u32, i32, u16, i16, RegisterDef, words_of, Raw, int, float, read_be,
  signed, read_raw, swap_words, decode_raw_value,
}

-- The number of a big-endian field.
abbrev pub number : List ℕ → ℕ
number (a ∷ b ∷ []) = 256 * a + b
number (a ∷ b ∷ c ∷ d ∷ []) = 16_777_216 * a + 65_536 * b + 256 * c + d
number _ = 0

-- A number below `m` as a two's complement.
abbrev pub IsSigned : ℕ → ℕ → ℤ → Type 0
IsSigned m n v =
    ((n + n < m) × (v ≡ pos n)) ⊎ ((m ≤ n + n) × (pos_part v ≡ 0) × (neg_part v + n ≡ m))

abbrev pub IsRawOf : RegisterType → List ℕ → Raw → Type 0
IsRawOf float32 field raw = raw ≡ float field
IsRawOf u32 field raw = raw ≡ int (pos (number field))
IsRawOf i32 field raw = (v : ℤ) × (raw ≡ int v) × IsSigned 4_294_967_296 (number field) v
IsRawOf u16 field raw = raw ≡ int (pos (number field))
IsRawOf i16 field raw = (v : ℤ) × (raw ≡ int v) × IsSigned 65_536 (number field) v

-- A field of two words that is sent low word first.
abbrev pub in_order : Bool → List ℕ → List ℕ
in_order true (a ∷ b ∷ c ∷ d ∷ []) = c ∷ d ∷ a ∷ b ∷ []
in_order _ field = field

-- The field of a register among the bytes that answer a read from `base`, and its raw value.
pub record ReadsAs (d : RegisterDef) (bytes : List ℕ) (base : ℕ) (raw : Raw) : Type 0 where
  pub before : List ℕ
  pub field : List ℕ
  pub after : List ℕ
  pub are : bytes ≡ before ++ (field ++ after)
  pub starts : length before + 2 * base ≡ 2 * d.address
  pub wide : length field ≡ 2 * words_of d.type
  pub value : IsRawOf d.type (in_order d.word_swap field) raw

abbrev pub IsByte : ℕ → Type 0
IsByte b = b < 256

signed-IsSigned : (half n : ℕ) → n < half + half → IsSigned (half + half) n (signed half n)
signed-IsSigned half n h = elim (Bool-cases (ltb n half)) [
  | inl low ↦ rw low (inl (ground arith, refl))
  | inr high ↦ rw high (inr (ground arith, refl, ground arith))
]

two :
    (t : RegisterType) (a b : ℕ)
    → words_of t ≡ 1
    → IsByte a
    → IsByte b
    → IsRawOf t (a ∷ b ∷ []) (read_raw t (a ∷ b ∷ []))
unfolding read_raw
two float32 a b w ha hb = absurd (omega (arith, w))
two u32 a b w ha hb = absurd (omega (arith, w))
two i32 a b w ha hb = absurd (omega (arith, w))
two u16 a b w ha hb = let e : (0 * 256 + a) * 256 + b ≡ 256 * a + b = omega arith in rw e refl
two i16 a b w ha hb =
    let e : (0 * 256 + a) * 256 + b ≡ 256 * a + b = omega arith in
    (
      signed 32_768 ((0 * 256 + a) * 256 + b),
      refl,
      rw e (signed-IsSigned 32_768 (256 * a + b) (omega arith)),
    )

four :
    (t : RegisterType) (a b c d : ℕ)
    → words_of t ≡ 2
    → IsByte a
    → IsByte b
    → IsByte c
    → IsByte d
    → IsRawOf t (a ∷ b ∷ c ∷ d ∷ []) (read_raw t (a ∷ b ∷ c ∷ d ∷ []))
unfolding read_raw
four float32 a b c d w ha hb hc hd = refl
four u32 a b c d w ha hb hc hd =
    let e : read_be 0 (a ∷ b ∷ c ∷ d ∷ []) ≡ number (a ∷ b ∷ c ∷ d ∷ []) = omega arith in rw e refl
four i32 a b c d w ha hb hc hd =
    let e : read_be 0 (a ∷ b ∷ c ∷ d ∷ []) ≡ number (a ∷ b ∷ c ∷ d ∷ []) = omega arith in
    (
      signed 2_147_483_648 (read_be 0 (a ∷ b ∷ c ∷ d ∷ [])),
      refl,
      rw e (signed-IsSigned 2_147_483_648 (number (a ∷ b ∷ c ∷ d ∷ [])) (omega arith)),
    )
four u16 a b c d w ha hb hc hd = absurd (omega (arith, w))
four i16 a b c d w ha hb hc hd = absurd (omega (arith, w))

words-cases : (t : RegisterType) → (words_of t ≡ 1) ⊎ (words_of t ≡ 2)
words-cases float32 = inr refl
words-cases u32 = inr refl
words-cases i32 = inr refl
words-cases u16 = inl refl
words-cases i16 = inl refl

-- The field as it is read: `size` is its length in bytes.
abbrev as_read : RegisterType → Bool → List ℕ → Raw
as_read t sw field = read_raw t (if sw && (words_of t * 2 == 4) then swap_words field else field)

one_word :
    (t : RegisterType) (sw : Bool) (field : List ℕ)
    → words_of t ≡ 1
    → length field ≡ 2
    → All IsByte field
    → IsRawOf t (in_order sw field) (as_read t sw field)
one_word t sw [] w e h = absurd (omega (arith, e))
one_word t sw (a ∷ []) w e h = absurd (omega (arith, e))
one_word t true (a ∷ b ∷ []) w e h = rw w (two t a b w h.0 h.1.0)
one_word t false (a ∷ b ∷ []) w e h = two t a b w h.0 h.1.0
one_word t sw (a ∷ b ∷ c ∷ field) w e h = absurd (omega (arith, e))

two_words :
    (t : RegisterType) (sw : Bool) (field : List ℕ)
    → words_of t ≡ 2
    → length field ≡ 4
    → All IsByte field
    → IsRawOf t (in_order sw field) (as_read t sw field)
two_words t sw [] w e h = absurd (omega (arith, e))
two_words t sw (a ∷ []) w e h = absurd (omega (arith, e))
two_words t sw (a ∷ b ∷ []) w e h = absurd (omega (arith, e))
two_words t sw (a ∷ b ∷ c ∷ []) w e h = absurd (omega (arith, e))
two_words t true (a ∷ b ∷ c ∷ d ∷ []) w e h = rw w (four t c d a b w h.1.1.0 h.1.1.1.0 h.0 h.1.0)
two_words t false (a ∷ b ∷ c ∷ d ∷ []) w e h = four t a b c d w h.0 h.1.0 h.1.1.0 h.1.1.1.0
two_words t sw (a ∷ b ∷ c ∷ d ∷ x ∷ field) w e h = absurd (omega (arith, e))

field-IsRawOf :
    (t : RegisterType) (sw : Bool) (field : List ℕ)
    → length field ≡ 2 * words_of t
    → All IsByte field
    → IsRawOf t (in_order sw field) (as_read t sw field)
field-IsRawOf t sw field e h = elim (words-cases t) [
  | inl w ↦ one_word t sw field w (omega (arith, e, w)) h
  | inr w ↦ two_words t sw field w (omega (arith, e, w)) h
]

take-drop : (n : ℕ) (xs : List ℕ) → take n xs ++ drop n xs ≡ xs
take-drop zero xs = refl
take-drop (suc n) [] = refl
take-drop (suc n) (x ∷ xs) = ap (λ l. x ∷ l) (take-drop n xs)

All-drop : (n : ℕ) (xs : List ℕ) → All IsByte xs → All IsByte (drop n xs)
All-drop zero xs h = h
All-drop (suc n) [] h = tt
All-drop (suc n) (x ∷ xs) h = All-drop n xs h.1

-- A raw value is that of the register's own field.
pub decode_raw_value-ReadsAs :
    (d : RegisterDef) (bytes : List ℕ) (base : ℕ) (raw : Raw)
    → All IsByte bytes
    → decode_raw_value d bytes base ≡ some raw
    → ReadsAs d bytes base raw
unfolding decode_raw_value
decode_raw_value-ReadsAs d bytes base raw h e =
    let size = words_of d.type * 2 in
    let offset = (d.address - base) * 2 in
    elim (Bool-cases (ltb d.address base || ltb (length bytes) (offset + size))) [
      | inl out ↦ let never : none ≡ some raw = rw out at e in absurd (cc)
      | inr inside ↦
          let rest = drop offset bytes in
          let long : length rest ≡ length bytes - offset = length-drop offset bytes in
          let wide : length (take size rest) ≡ size = length-take_le size rest (ground arith) in
          let is_raw : some (as_read d.type d.word_swap (take size rest)) ≡ some raw =
            rw inside at e in
          let same : as_read d.type d.word_swap (take size rest) ≡ raw = cc in
          record {
            before = take offset bytes;
            field = take size rest;
            after = drop size rest;
            are = rw (take-drop size rest) (sym (take-drop offset bytes));
            starts = rw (length-take_le offset bytes (ground arith)) (ground arith);
            wide = omega (arith, wide);
            value = rw (sym same) (
                field-IsRawOf d.type d.word_swap (take size rest) (omega (arith, wide))
                  (All-take IsByte size rest (All-drop offset bytes h)));
          }
    ]
