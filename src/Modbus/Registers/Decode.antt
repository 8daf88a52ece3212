-- ===== src/Modbus/Registers/Decode.antt =====
-- Which values a block of bytes gives (api/modbus.ts, decodeRegisters).
use mathlib.Core.List.{Memᴰ}
use gateway_monitoring_platf.Prelude.{
  ℕ, ◌+◌, ◌*◌, ◌≡◌, ◌≤◌, ◌≢◌, refl, Option, none, some, List, [], ◌∷◌, arith, All, Bool-cases, inl,
  inr, All-append, All-map, length, ℤ, String, str_eq, eq_iff, Option-cases, ◌⊎◌, ◌<◌, ◌++◌, ltb,
}
use gateway_monitoring_platf.Modbus.Registers.{
  RegisterDef, Block, end_of, Raw, decode_raw_value, is_implausible, put_value, decode_one,
  emit_value, decode_from, decode_registers, DecodeResult,
}
use gateway_monitoring_platf.Modbus.Registers.Limits.{
  InBounds, OutOfBounds, is_implausible-InBounds, is_implausible-OutOfBounds,
}
use gateway_monitoring_platf.Modbus.Registers.Values.{ReadsAs, IsByte, decode_raw_value-ReadsAs}
use gateway_monitoring_platf.Modbus.Registers.Blocks.{IsReadable}

decode_raw_value-ne-none :
    (d : RegisterDef) (bytes : List ℕ) (start words : ℕ)
    → length bytes ≡ 2 * words
    → start ≤ d.address
    → end_of d ≤ start + words
    → decode_raw_value d bytes start ≢ none
unfolding decode_raw_value
decode_raw_value-ne-none d bytes start words e lo hi = ground arith

decode_raw_value-none :
    (d : RegisterDef) (bytes : List ℕ) (base : ℕ)
    → decode_raw_value d bytes base ≡ none
    → (d.address < base) ⊎ (length bytes + 2 * base < 2 * end_of d)
unfolding decode_raw_value
decode_raw_value-none d bytes base e = elim (Bool-cases (ltb d.address base)) [
  | inl before ↦ inl (ground arith)
  | inr after ↦ inr (ground arith)
]

-- From the full answer to a read of a block that covers its registers, each of them is decoded.
pub decode_raw_value-block :
    (b : Block) (bytes : List ℕ)
    → IsReadable b
    → length bytes ≡ 2 * b.words
    → All (λ d. decode_raw_value d bytes b.start ≢ none) b.defs
decode_raw_value-block b bytes r e =
    All-map (λ d h. decode_raw_value-ne-none d bytes b.start b.words e h.0 h.1) b.defs r.covers

Memᴰ-self : (defs : List RegisterDef) → All (λ d. Memᴰ d defs) defs
Memᴰ-self [] = tt
Memᴰ-self (d ∷ defs) = (Memᴰ.head refl, All-map (λ x h. Memᴰ.tail h) defs (Memᴰ-self defs))

module _ (scaled : RegisterDef → Raw → Option ℤ) (defs : List RegisterDef) (bytes : List ℕ)
    (base_address : ℕ) where
  -- A pair of a key and a value of a register of the map: the value is what the scaling makes of the
  -- raw value of the register's own field.
  abbrev pub ComesFrom : RegisterDef → String × ℤ → Type 0
  ComesFrom d kv =
      Memᴰ d defs
      × (d.key ≡ kv.0)
      × ((raw : Raw) × ReadsAs d bytes base_address raw × (scaled d raw ≡ some kv.1))

  abbrev pub IsEmitted : String × ℤ → Type 0
  IsEmitted kv = (d : RegisterDef) × ComesFrom d kv × InBounds d kv.1

  abbrev pub IsRejected : String × ℤ → Type 0
  IsRejected kv = (d : RegisterDef) × ComesFrom d kv × OutOfBounds d kv.1

  abbrev pub HasKey : String → List (String × ℤ) → Type 0
  HasKey k [] = ⊥
  HasKey k ((j, v) ∷ m) = (j ≡ k) ⊎ HasKey k m

  -- What becomes of a register: its field is not in the answer, the scaling gives no finite value, or
  -- its key is among the rejected or among the values.
  abbrev pub IsAccounted : DecodeResult → RegisterDef → Type 0
  IsAccounted out d =
      ((d.address < base_address) ⊎ (length bytes + 2 * base_address < 2 * end_of d))
      ⊎ (((raw : Raw) × ReadsAs d bytes base_address raw × (scaled d raw ≡ none))
          ⊎ (HasKey d.key out.rejected ⊎ HasKey d.key out.values))

  module _ (are_bytes : All IsByte bytes) where
    decode_one-field :
        (d : RegisterDef) (v : ℤ)
        → decode_one scaled d bytes base_address ≡ some v
        → (raw : Raw) × ReadsAs d bytes base_address raw × (scaled d raw ≡ some v)
    unfolding decode_one
    decode_one-field d v e = elim (Option-cases (decode_raw_value d bytes base_address)) [
      | inl out ↦ let never : none ≡ some v = rw (out, decode_one) at e in absurd (cc)
      | inr (raw, is_raw) ↦ (
        raw,
        decode_raw_value-ReadsAs d bytes base_address raw are_bytes is_raw,
        rw (is_raw, decode_one) at e,
      )
    ]

    put_value-All :
        (k : String) (v : ℤ) (m : List (String × ℤ))
        → IsEmitted (k, v)
        → All IsEmitted m
        → All IsEmitted (put_value k v m)
    unfolding put_value
    put_value-All k v [] h t = (h, tt)
    put_value-All k v ((j, w) ∷ m) h t = elim (Bool-cases (str_eq j k)) [
      | inl same ↦ rw same (rw ((eq_iff j k).0 same) h, t.1)
      | inr other ↦ rw other (t.0, put_value-All k v m h t.1)
    ]

    abbrev IsSound : DecodeResult → Type 0
    IsSound out = All IsEmitted out.values × All IsRejected out.rejected

    emit_value-IsSound :
        (d : RegisterDef) (v : Option ℤ) (out : DecodeResult)
        → Memᴰ d defs
        → decode_one scaled d bytes base_address ≡ v
        → IsSound out
        → IsSound (emit_value scaled d v out)
    emit_value-IsSound d none out m e s = s
    emit_value-IsSound d (some v) out m e s = elim (Bool-cases (is_implausible d v)) [
      | inl bad ↦ rw bad (
        s.0,
        All-append IsRejected out.rejected ((d.key, v) ∷ []) s.1
            ((d, (m, refl, decode_one-field d v e), is_implausible-OutOfBounds d v bad), tt),
      )
      | inr good ↦ rw good (
        put_value-All d.key v out.values
            (d, (m, refl, decode_one-field d v e), is_implausible-InBounds d v good) s.0,
        s.1,
      )
    ]

    decode_from-IsSound :
        (pending : List RegisterDef) (out : DecodeResult)
        → All (λ d. Memᴰ d defs) pending
        → IsSound out
        → IsSound (decode_from scaled out pending bytes base_address)
    unfolding decode_from
    decode_from-IsSound [] out m s = s
    decode_from-IsSound (d ∷ pending) out m s =
        decode_from-IsSound pending _ m.1 (emit_value-IsSound d _ out m.0 refl s)

    put_value-HasKey : (k : String) (v : ℤ) (m : List (String × ℤ)) → HasKey k (put_value k v m)
    unfolding put_value
    put_value-HasKey k v [] = inl refl
    put_value-HasKey k v ((j, w) ∷ m) = elim (Bool-cases (str_eq j k)) [
      | inl same ↦ rw same (inl ((eq_iff j k).0 same))
      | inr other ↦ rw other (inr (put_value-HasKey k v m))
    ]

    put_value-kept :
        (k k' : String) (v : ℤ) (m : List (String × ℤ)) → HasKey k' m → HasKey k' (put_value k v m)
    unfolding put_value
    put_value-kept k k' v [] h = absurd h
    put_value-kept k k' v ((j, w) ∷ m) (inl here) = elim (Bool-cases (str_eq j k)) [
      | inl same ↦ rw same (inl here)
      | inr other ↦ rw other (inl here)
    ]
    put_value-kept k k' v ((j, w) ∷ m) (inr there) = elim (Bool-cases (str_eq j k)) [
      | inl same ↦ rw same (inr there)
      | inr other ↦ rw other (inr (put_value-kept k k' v m there))
    ]

    HasKey-append_left :
        (k : String) (xs ys : List (String × ℤ)) → HasKey k xs → HasKey k (xs ++ ys)
    HasKey-append_left k [] ys h = absurd h
    HasKey-append_left k (x ∷ xs) ys (inl here) = inl here
    HasKey-append_left k (x ∷ xs) ys (inr there) = inr (HasKey-append_left k xs ys there)

    HasKey-append_right :
        (k : String) (xs ys : List (String × ℤ)) → HasKey k ys → HasKey k (xs ++ ys)
    HasKey-append_right k [] ys h = h
    HasKey-append_right k (x ∷ xs) ys h = inr (HasKey-append_right k xs ys h)

    abbrev IsListed : DecodeResult → String → Type 0
    IsListed out k = HasKey k out.rejected ⊎ HasKey k out.values

    -- A key that is listed stays listed.
    emit_value-kept :
        (d : RegisterDef) (v : Option ℤ) (out : DecodeResult) (k : String)
        → IsListed out k
        → IsListed (emit_value scaled d v out) k
    emit_value-kept d none out k h = h
    emit_value-kept d (some v) out k h = elim (Bool-cases (is_implausible d v)) [
      | inl bad ↦ rw bad (rejected_kept h)
      | inr good ↦ rw good (values_kept h)
    ]
      where
        rejected_kept :
            IsListed out k → HasKey k (out.rejected ++ (d.key, v) ∷ []) ⊎ HasKey k out.values
        rejected_kept (inl r) = inl (HasKey-append_left k out.rejected ((d.key, v) ∷ []) r)
        rejected_kept (inr r) = inr r

        values_kept :
            IsListed out k → HasKey k out.rejected ⊎ HasKey k (put_value d.key v out.values)
        values_kept (inl r) = inl r
        values_kept (inr r) = inr (put_value-kept d.key k v out.values r)

    emit_value-IsListed :
        (d : RegisterDef) (v : ℤ) (out : DecodeResult)
        → IsListed (emit_value scaled d (some v) out) d.key
    emit_value-IsListed d v out = elim (Bool-cases (is_implausible d v)) [
      | inl bad ↦ rw bad (inl (HasKey-append_right d.key out.rejected ((d.key, v) ∷ []) (inl refl)))
      | inr good ↦ rw good (inr (put_value-HasKey d.key v out.values))
    ]

    decode_from-kept :
        (pending : List RegisterDef) (out : DecodeResult) (k : String)
        → IsListed out k
        → IsListed (decode_from scaled out pending bytes base_address) k
    unfolding decode_from
    decode_from-kept [] out k h = h
    decode_from-kept (d ∷ pending) out k h =
        decode_from-kept pending _ k
          (emit_value-kept d (decode_one scaled d bytes base_address) out k h)

    accounted_lem :
        (pending : List RegisterDef) (d : RegisterDef) (v : Option ℤ) (out : DecodeResult)
        → decode_one scaled d bytes base_address ≡ v
        → IsAccounted (decode_from scaled (emit_value scaled d v out) pending bytes base_address) d
    unfolding decode_one
    accounted_lem pending d (some v) out e =
        inr (inr (decode_from-kept pending _ d.key (emit_value-IsListed d v out)))
    accounted_lem pending d none out e =
        elim (Option-cases (decode_raw_value d bytes base_address)) [
          | inl out_of ↦ inl (decode_raw_value-none d bytes base_address out_of)
          | inr (raw, is_raw) ↦ inr (
              inl (
                raw,
                decode_raw_value-ReadsAs d bytes base_address raw are_bytes is_raw,
                rw (is_raw, decode_one) at e,
              ))
        ]

    decode_from-IsAccounted :
        (pending : List RegisterDef) (out : DecodeResult)
        → All (IsAccounted (decode_from scaled out pending bytes base_address)) pending
    unfolding decode_from
    decode_from-IsAccounted [] out = tt
    decode_from-IsAccounted (d ∷ pending) out = (
      accounted_lem pending d (decode_one scaled d bytes base_address) out refl,
      decode_from-IsAccounted pending _,
    )

    -- Decoding is right and complete. Of bytes that answer a read from an address: every value that is
    -- emitted is what the scaling makes of the raw number in some register's own field (the two or four
    -- bytes at its address, big-endian, by its type, with swapped words put in order) and lies within
    -- that register's bounds; every value that is rejected is one that lies outside; and every register
    -- of the map has its key among the values or the rejected, unless its field is not in the answer or
    -- the scaling gives no finite number.
    pub decode_registers-IsSound :
        let out = decode_registers scaled defs bytes base_address in
        All IsEmitted out.values × All IsRejected out.rejected × All (IsAccounted out) defs
    unfolding decode_registers
    decode_registers-IsSound =
        let sound = decode_from-IsSound defs _ (Memᴰ-self defs) (tt, tt) in
        (sound.0, sound.1, decode_from-IsAccounted defs _)
