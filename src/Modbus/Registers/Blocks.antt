-- ===== src/Modbus/Registers/Blocks.antt =====
-- What the planned read blocks cover (api/modbus.ts, buildBlocks).
use gateway_monitoring_platf.Prelude.{
  ℕ, ◌+◌, ◌≡◌, ◌∙◌, sym, ap, ◌<◌, ◌≤◌, refl, true, List, [], ◌∷◌, ◌++◌, arith, All, append_assoc,
  Bool-cases, inl, inr, IsOrdered, All-append, All-map, All-zip, All-map, All-zip,
}
use gateway_monitoring_platf.Modbus.Registers.{
  RegisterDef, RegisterType, Block, words_of, end_of, joins, joined, fresh, grow, sorted_defs,
  start_blocks, build_blocks, max_block_words,
}

-- The registers of the blocks, block by block.
abbrev pub defs_of : List Block → List RegisterDef
defs_of [] = []
defs_of (b ∷ bs) = b.defs ++ defs_of bs

defs_of-append : (xs ys : List Block) → defs_of (xs ++ ys) ≡ defs_of xs ++ defs_of ys
defs_of-append [] ys = refl
defs_of-append (b ∷ xs) ys =
    ap (λ l. b.defs ++ l) (defs_of-append xs ys)
    ∙ sym (append_assoc b.defs (defs_of xs) (defs_of ys))

defs_of-grow :
    (fc : ℕ) (cur : Block) (defs : List RegisterDef) → defs_of (grow fc cur defs) ≡ cur.defs ++ defs
unfolding grow
defs_of-grow fc cur [] = refl
defs_of-grow fc cur (d ∷ defs) = elim (Bool-cases (joins cur d)) [
  | inl join ↦ rw join (defs_of-grow fc (joined cur d) defs ∙ append_assoc cur.defs (d ∷ []) defs)
  | inr part ↦ rw part (ap (λ l. cur.defs ++ l) (defs_of-grow fc (fresh fc d) defs))
]

defs_of-start_blocks : (fc : ℕ) (defs : List RegisterDef) → defs_of (start_blocks fc defs) ≡ defs
defs_of-start_blocks fc [] = refl
defs_of-start_blocks fc (d ∷ defs) = defs_of-grow fc (fresh fc d) defs

-- Every register with a known function code stands in exactly one block, in the order of the
-- addresses: first those of code 3, then those of code 4.
pub defs_of-build_blocks :
    (defs : List RegisterDef)
    → defs_of (build_blocks defs) ≡ sorted_defs 3 defs ++ sorted_defs 4 defs
unfolding build_blocks
defs_of-build_blocks defs = rw (
  defs_of-append (start_blocks 3 (sorted_defs 3 defs)) (start_blocks 4 (sorted_defs 4 defs)),
  defs_of-start_blocks 3 (sorted_defs 3 defs),
  defs_of-start_blocks 4 (sorted_defs 4 defs),
)

-- A block is no longer than one read may be, and holds each of its registers whole.
pub record IsReadable (b : Block) : Type 0 where
  pub short : b.words ≤ max_block_words
  pub covers : All (λ d. (b.start ≤ d.address) × (end_of d ≤ b.start + b.words)) b.defs

-- A register that comes later starts no earlier and ends no earlier.
abbrev pub FollowsIn : RegisterDef → RegisterDef → Type 0
FollowsIn a b = (a.address ≤ b.address) × (end_of a ≤ end_of b)

-- The registers that the loop still has to place start and end behind what the block covers.
abbrev IsAhead : Block → RegisterDef → Type 0
IsAhead cur d = (cur.start ≤ d.address) × (cur.start + cur.words ≤ end_of d)

joined-IsReadable :
    (cur : Block) (d : RegisterDef)
    → joins cur d ≡ true
    → IsReadable cur
    → IsAhead cur d
    → IsReadable (joined cur d)
unfolding joins
joined-IsReadable cur d j r ahead = record {
  short = ground arith;
  covers =
      All-append _ cur.defs (d ∷ []) (All-map (λ x h. omega arith) cur.defs r.covers)
        (omega arith, tt);
}

fresh-IsReadable : (fc : ℕ) (d : RegisterDef) → IsReadable (fresh fc d)
fresh-IsReadable fc d = record { short = words_le d.type; covers = (omega arith, tt) }
  where
    words_le : (t : RegisterType) → words_of t ≤ max_block_words
    words_le t = ground arith

grow-IsReadable :
    (fc : ℕ) (cur : Block) (defs : List RegisterDef)
    → IsReadable cur
    → All (IsAhead cur) defs
    → IsOrdered FollowsIn defs
    → All IsReadable (grow fc cur defs)
unfolding grow
grow-IsReadable fc cur [] r ahead o = (r, tt)
grow-IsReadable fc cur (d ∷ defs) r ahead o = elim (Bool-cases (joins cur d)) [
  | inl join ↦ rw join (
      grow-IsReadable fc (joined cur d) defs (joined-IsReadable cur d join r ahead.0)
        (All-map (λ x h. omega arith) defs (All-zip _ _ defs ahead.1 o.0)) o.1)
  | inr part ↦ rw part (
    r,
    grow-IsReadable fc (fresh fc d) defs (fresh-IsReadable fc d)
        (All-map (λ x h. omega arith) defs o.0) o.1,
  )
]

start_blocks-IsReadable :
    (fc : ℕ) (defs : List RegisterDef)
    → IsOrdered FollowsIn defs
    → All IsReadable (start_blocks fc defs)
start_blocks-IsReadable fc [] o = tt
start_blocks-IsReadable fc (d ∷ defs) o =
    grow-IsReadable fc (fresh fc d) defs (fresh-IsReadable fc d)
      (All-map (λ x h. omega arith) defs o.0) o.1

-- Where, in the order of the addresses, no register ends before one that precedes it, every block
-- fits into one read and covers each of its registers whole.
pub build_blocks-IsReadable :
    (defs : List RegisterDef)
    → IsOrdered FollowsIn (sorted_defs 3 defs)
    → IsOrdered FollowsIn (sorted_defs 4 defs)
    → All IsReadable (build_blocks defs)
unfolding build_blocks
build_blocks-IsReadable defs o3 o4 =
    All-append IsReadable (start_blocks 3 (sorted_defs 3 defs))
      (start_blocks 4 (sorted_defs 4 defs)) (start_blocks-IsReadable 3 (sorted_defs 3 defs) o3)
      (start_blocks-IsReadable 4 (sorted_defs 4 defs) o4)

-- A register of two words followed by one of a single word at the same address: they share one
-- block of one word, which does not hold the first of them.
pub build_blocks_shrinks :
    (wide narrow : RegisterDef)
    → wide.function_code ≡ 3
    → narrow.function_code ≡ 3
    → wide.address ≡ narrow.address
    → words_of wide.type ≡ 2
    → words_of narrow.type ≡ 1
    → (b : Block) × (build_blocks (wide ∷ narrow ∷ []) ≡ b ∷ [])
      × (b.words ≡ 1)
      × (b.start + b.words < end_of wide)
unfolding build_blocks sorted_defs
build_blocks_shrinks w n f3 g3 a e2 e1 =
    (joined (fresh 3 w) n, ground arith, omega arith, omega arith)
