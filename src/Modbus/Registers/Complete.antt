-- ===== src/Modbus/Registers/Complete.antt =====
-- That the planned read blocks hold each register once (api/modbus.ts, buildBlocks).
use mathlib.Core.List.{Perm, perm-append_left_iff, perm-append_right_iff}
use mathlib.Core.List.Perm
use gateway_monitoring_platf.Prelude.{
  ℕ, ◌≡◌, ◌<◌, ◌≤◌, ◌⊎◌, refl, Bool, true, false, ◌||◌, List, [], ◌∷◌, ◌++◌, arith, All, All-append,
  All-map, All-filter_test, All-sort, All-zip, filter, Bool-cases, inl, inr, IsOrdered,
  sort_by-perm, sort_by-IsOrdered, ◌==◌,
}
use gateway_monitoring_platf.Modbus.Registers.{
  RegisterDef, Block, joins, joined, fresh, grow, lower_address, sorted_defs, start_blocks,
  build_blocks,
}
use gateway_monitoring_platf.Modbus.Registers.Blocks.{defs_of, defs_of-build_blocks}

-- The registers that one of the two read functions can read.
abbrev pub is_readable : RegisterDef → Bool
is_readable d = d.function_code == 3 || d.function_code == 4

abbrev pub has_code : ℕ → RegisterDef → Bool
has_code fc d = d.function_code == fc

-- The order of the blocks: by function code, then by address.
abbrev pub IsReadBefore : RegisterDef → RegisterDef → Type 0
IsReadBefore a b =
    (a.function_code < b.function_code)
    ⊎ ((a.function_code ≡ b.function_code) × (a.address ≤ b.address))

-- A block is read by the function code of each of its registers.
abbrev pub HasOneCode : Block → Type 0
HasOneCode b = All (λ d. d.function_code ≡ b.function_code) b.defs

middle_perm : (d : RegisterDef) (xs ys : List RegisterDef) → Perm (xs ++ d ∷ ys) (d ∷ xs ++ ys)
middle_perm d [] ys = Perm.refl (d ∷ ys)
middle_perm d (x ∷ xs) ys =
    Perm.trans (Perm.cons x (middle_perm d xs ys)) (Perm.swap d x (xs ++ ys))

append_perm :
    (xs xs' ys ys' : List RegisterDef) → Perm xs xs' → Perm ys ys' → Perm (xs ++ ys) (xs' ++ ys')
append_perm xs xs' ys ys' p q =
    Perm.trans ((perm-append_right_iff ys).1 p) ((perm-append_left_iff xs').1 q)

-- The registers of the two codes, apart or together.
codes_perm :
    (defs : List RegisterDef)
    → Perm (filter (has_code 3) defs ++ filter (has_code 4) defs) (filter is_readable defs)
codes_perm [] = Perm.refl []
codes_perm (d ∷ defs) = elim (Bool-cases (has_code 3 d)) [
  | inl three ↦
      let not_four : has_code 4 d ≡ false = ground arith in
      rw (three, not_four) (Perm.cons d (codes_perm defs))
  | inr other ↦ elim (Bool-cases (has_code 4 d)) [
    | inl four ↦
        rw (other, four)
          (Perm.trans (middle_perm d (filter (has_code 3) defs) (filter (has_code 4) defs))
            (Perm.cons d (codes_perm defs)))
    | inr none_of_both ↦ rw (other, none_of_both) (codes_perm defs)
  ]
]

sorted_defs-has_code :
    (fc : ℕ) (defs : List RegisterDef) → All (λ d. d.function_code ≡ fc) (sorted_defs fc defs)
unfolding sorted_defs
sorted_defs-has_code fc defs =
    All-sort (λ d. d.function_code ≡ fc) lower_address (filter (has_code fc) defs)
      (All-map (λ d (h : has_code fc d ≡ true). ground arith) (filter (has_code fc) defs)
        (All-filter_test (has_code fc) defs))

sorted_defs-IsOrdered :
    (fc : ℕ) (defs : List RegisterDef)
    → IsOrdered (λ a b. a.address ≤ b.address) (sorted_defs fc defs)
unfolding sorted_defs
sorted_defs-IsOrdered fc defs =
    sort_by-IsOrdered lower_address (λ a b. a.address ≤ b.address) (λ a b h. ground arith)
      (λ a b h. ground arith) (λ a b c h k. omega arith) (filter (has_code fc) defs)

-- Of one code, the order of the addresses is that of the blocks.
IsOrdered-code :
    (fc : ℕ) (defs : List RegisterDef)
    → All (λ d. d.function_code ≡ fc) defs
    → IsOrdered (λ a b. a.address ≤ b.address) defs
    → IsOrdered IsReadBefore defs
IsOrdered-code fc [] h o = tt
IsOrdered-code fc (d ∷ defs) h o = (
  All-map
      (λ x (k : (x.function_code ≡ fc) × (d.address ≤ x.address)).
        inr (omega (arith, h.0, k.0), k.1))
      defs (All-zip (λ x. x.function_code ≡ fc) (λ x. d.address ≤ x.address) defs h.1 o.0),
  IsOrdered-code fc defs h.1 o.1,
)

IsOrdered-append :
    (xs ys : List RegisterDef)
    → IsOrdered IsReadBefore xs
    → IsOrdered IsReadBefore ys
    → All (λ x. x.function_code ≡ 3) xs
    → All (λ y. y.function_code ≡ 4) ys
    → IsOrdered IsReadBefore (xs ++ ys)
IsOrdered-append [] ys o p h k = p
IsOrdered-append (x ∷ xs) ys o p h k = (
  All-append (IsReadBefore x) xs ys o.0
      (All-map (λ y (e : y.function_code ≡ 4). inl (omega (arith, h.0, e))) ys k),
  IsOrdered-append xs ys o.1 p h.1 k,
)

grow-HasOneCode :
    (fc : ℕ) (cur : Block) (defs : List RegisterDef)
    → cur.function_code ≡ fc
    → HasOneCode cur
    → All (λ d. d.function_code ≡ fc) defs
    → All HasOneCode (grow fc cur defs)
unfolding grow
grow-HasOneCode fc cur [] e one h = (one, tt)
grow-HasOneCode fc cur (d ∷ defs) e one h = elim (Bool-cases (joins cur d)) [
  | inl join ↦ rw join (
      grow-HasOneCode fc (joined cur d) defs e
        (All-append (λ x. x.function_code ≡ cur.function_code) cur.defs (d ∷ []) one
          (omega (arith, h.0, e), tt))
        h.1)
  | inr part ↦ rw part (one, grow-HasOneCode fc (fresh fc d) defs refl (h.0, tt) h.1)
]

start_blocks-HasOneCode :
    (fc : ℕ) (defs : List RegisterDef)
    → All (λ d. d.function_code ≡ fc) defs
    → All HasOneCode (start_blocks fc defs)
start_blocks-HasOneCode fc [] h = tt
start_blocks-HasOneCode fc (d ∷ defs) h = grow-HasOneCode fc (fresh fc d) defs refl (h.0, tt) h.1

-- Planned blocks are complete. The registers of the blocks, block by block, are those of the map with
-- function code 3 or 4, each as often as it stands there; they come in the order of their codes and,
-- of one code, of their addresses; and a block is read by the code of each of its registers.
pub build_blocks-IsComplete :
    (defs : List RegisterDef)
    → let blocks = build_blocks defs in
      Perm (defs_of blocks) (filter is_readable defs)
      × IsOrdered IsReadBefore (defs_of blocks)
      × All HasOneCode blocks
unfolding build_blocks sorted_defs
build_blocks-IsComplete defs =
    let three = sorted_defs 3 defs in
    let four = sorted_defs 4 defs in
    let code3 = sorted_defs-has_code 3 defs in
    let code4 = sorted_defs-has_code 4 defs in
    (
      rw (defs_of-build_blocks defs) (
          Perm.trans
            (append_perm three (filter (has_code 3) defs) four (filter (has_code 4) defs)
              (sort_by-perm lower_address (filter (has_code 3) defs))
              (sort_by-perm lower_address (filter (has_code 4) defs)))
            (codes_perm defs)),
      rw (defs_of-build_blocks defs) (
          IsOrdered-append three four (IsOrdered-code 3 three code3 (sorted_defs-IsOrdered 3 defs))
            (IsOrdered-code 4 four code4 (sorted_defs-IsOrdered 4 defs)) code3 code4),
      All-append HasOneCode (start_blocks 3 three) (start_blocks 4 four)
          (start_blocks-HasOneCode 3 three code3) (start_blocks-HasOneCode 4 four code4),
    )
