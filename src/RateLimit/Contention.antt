-- ===== src/RateLimit/Contention.antt =====
-- Requests of one key and scope that interleave (api/rest/rate-limit-store.ts, consume): each reads
-- the row, decides, and writes on the condition that the version is still the one it read.
use mathlib.Core.Path.{subst}
use gateway_monitoring_platf.Prelude.{
  ℕ, suc, ◌+◌, ◌≤◌, ◌≡◌, refl, Option, none, some, Bool, true, false, arith, List, [], ◌∷◌, ◌++◌,
  length, length-append, ite, ℕ_discrete, leb, if_pos, if_neg,
}
use gateway_monitoring_platf.RateLimit.{
  token, BucketLimit, BucketRow, bucket_of_row, take_token, write_bucket, max_cas_attempts,
  consume_from, quiet,
}
use gateway_monitoring_platf.RateLimit.Bound.{
  avail, charged, calls, calls-nil, calls_granted, refilled_full,
}

-- Where a request stands: not running, before its SELECT with the rounds that are left, or before
-- its write with the row that it read.
pub data Pc : Type 0 where
  idle : Pc
  waiting : (rounds now : ℕ) → Pc
  deciding : (rounds now : ℕ) → (read : Option BucketRow) → Pc

-- The row, the requests, and the times of those whose write went through, in order.
pub record System : Type 0 where
  pub row : Option BucketRow
  pub pc : ℕ → Pc
  pub granted : List ℕ

abbrev pub update {ℓ} : {A : Type ℓ} → (ℕ → A) → ℕ → A → ℕ → A
update f i a j = ite (ℕ_discrete i j) a (f j)

module _ (limit : BucketLimit) where
  abbrev pub Allows : ℕ → Option BucketRow → Type 0
  Allows now read = (take_token (bucket_of_row read) limit now).allowed ≡ true

  abbrev pub write : ℕ → Option BucketRow → Option BucketRow → Bool × Option BucketRow
  write now read row = write_bucket read (take_token (bucket_of_row read) limit now).next row

  pub data Step (s : System) : System → Type 0 where
    begin :
        (i now : ℕ)
        → s.pc i ≡ idle
        → Step s (record s { pc = update s.pc i (waiting max_cas_attempts now) })
    look :
        (i rounds now : ℕ)
        → s.pc i ≡ waiting (suc rounds) now
        → Allows now s.row
        → Step s (record s { pc = update s.pc i (deciding rounds now s.row) })
    win :
        (i rounds now : ℕ) (read : Option BucketRow)
        → s.pc i ≡ deciding rounds now read
        → (write now read s.row).0 ≡ true
        → Step s (record {
          row = (write now read s.row).1;
          pc = update s.pc i idle;
          granted = s.granted ++ now ∷ [];
        })
    lose :
        (i rounds now : ℕ) (read : Option BucketRow)
        → s.pc i ≡ deciding rounds now read
        → (write now read s.row).0 ≡ false
        → Step s (record s { pc = update s.pc i (waiting rounds now) })
    -- turned away, out of rounds, or a statement that failed
    leave : (i : ℕ) → Step s (record s { pc = update s.pc i idle })

  pub data Reach (row : Option BucketRow) : System → Type 0 where
    start : Reach row (record { row = row; pc = λ _. idle; granted = [] })
    next : {s t : System} → Reach row s → Step s t → Reach row t

  -- `read` was the row some time before `row` is.
  abbrev Past : Option BucketRow → Option BucketRow → Type 0
  Past none row = Unit
  Past (some r) none = ⊥
  Past (some r) (some r') = (r.version ≤ r'.version) × (r.version ≡ r'.version → r ≡ r')

  -- What a request that is about to write knows.
  abbrev Knows : Pc → Option BucketRow → Type 0
  Knows idle row = Unit
  Knows (waiting _ _) row = Unit
  Knows (deciding _ now read) row = Allows now read × Past read row

  Past-refl : (row : Option BucketRow) → Past row row
  Past-refl none = tt
  Past-refl (some r) = (omega arith, λ _. refl)

  Past-charged :
      (have now : ℕ) (read row : Option BucketRow)
      → Past read row
      → Past read (some (charged have now row))
  Past-charged have now none row h = tt
  Past-charged have now (some r) none h = absurd h
  Past-charged have now (some r) (some r') h =
      (omega (arith, h.0), λ e. absurd (omega (arith, h.0, e)))

  Knows-charged :
      (have now : ℕ) (p : Pc) (row : Option BucketRow)
      → Knows p row
      → Knows p (some (charged have now row))
  Knows-charged have now idle row h = tt
  Knows-charged have now (waiting _ _) row h = tt
  Knows-charged have now (deciding _ _ read) row h = (h.0, Past-charged have now read row h.1)

  write_same :
      (now : ℕ) (r : BucketRow)
      → Allows now (some r)
      → (leb token (avail limit now (some r)) ≡ true)
        × ((write now (some r) (some r)).1 ≡ some (charged (avail limit now (some r)) now (some r)))
  unfolding write_bucket take_token
  write_same now r a = ground arith

  -- A write that goes through finds the row that was read, and charges it.
  write_lem :
      (now : ℕ) (read row : Option BucketRow)
      → Allows now read
      → Past read row
      → (write now read row).0 ≡ true
      → (leb token (avail limit now row) ≡ true)
        × ((write now read row).1 ≡ some (charged (avail limit now row) now row))
  unfolding write_bucket take_token
  write_lem now none none a h w = ground (arith, refilled_full limit now)
  write_lem now none (some r) a h w = cc
  write_lem now (some r) none a h w = absurd h
  write_lem now (some r) (some r') a h w =
      let same : r ≡ r' = h.1 (ground arith) in
      subst
        (λ x.
          (leb token (avail limit now (some x)) ≡ true)
          × ((write now (some r) (some x)).1
              ≡ some (charged (avail limit now (some x)) now (some x))))
        same (write_same now r a)

  -- In a state that is reached from `row0`.
  record Inv (row0 : Option BucketRow) (s : System) : Type 0 where
    replay : calls limit s.granted row0 ≡ (length s.granted, s.row)
    knows : (i : ℕ) → Knows (s.pc i) s.row

  Knows-update :
      (pc : ℕ → Pc) (i : ℕ) (p : Pc) (row : Option BucketRow)
      → ((j : ℕ) → Knows (pc j) row)
      → Knows p row
      → (j : ℕ) → Knows (update pc i p j) row
  Knows-update pc i p row all one j = elim (ℕ_discrete i j) [
    | yes e ↦ rw (if_pos _ e) one
    | no ne ↦ rw (if_neg _ ne) (all j)
  ]

  calls-append :
      (now : ℕ) (times : List ℕ) (row : Option BucketRow)
      → let (granted, last) = calls limit times row in
        let (more, final) = calls limit (now ∷ []) last in
        calls limit (times ++ now ∷ []) row ≡ (granted + more, final)
  unfolding calls
  calls-append now [] row = ground arith
  calls-append now (first ∷ later) row =
      ground (arith, calls-append now later (consume_from 3 limit first quiet row).1)

  calls-win :
      (now : ℕ) (times : List ℕ) (row0 row : Option BucketRow)
      → calls limit times row0 ≡ (length times, row)
      → leb token (avail limit now row) ≡ true
      → calls limit (times ++ now ∷ []) row0
        ≡ (length (times ++ now ∷ []), some (charged (avail limit now row) now row))
  calls-win now times row0 row replay enough =
      let row' = some (charged (avail limit now row) now row) in
      rw
        (
          calls-append now times row0,
          replay,
          calls_granted limit now [] row enough,
          calls-nil limit row',
          length-append times (now ∷ []),
        )
        refl

  Step-Inv : {row0 : Option BucketRow} {s t : System} → Step s t → Inv row0 s → Inv row0 t
  Step-Inv {s = s} (begin i now e) inv = record {
    replay = inv.replay;
    knows = Knows-update s.pc i _ s.row inv.knows tt;
  }
  Step-Inv {s = s} (look i rounds now e a) inv = record {
    replay = inv.replay;
    knows = Knows-update s.pc i _ s.row inv.knows (a, Past-refl s.row);
  }
  Step-Inv {row0 = row0} {s = s} (win i rounds now read e w) inv =
      let k : Knows (deciding rounds now read) s.row = rw e at (inv.knows i) in
      let (enough, after) = write_lem now read s.row k.0 k.1 w in
      record {
        replay = rw after (calls-win now s.granted row0 s.row inv.replay enough);
        knows =
            rw after
              (Knows-update s.pc i _ _ (λ j. Knows-charged _ now (s.pc j) s.row (inv.knows j)) tt);
      }
  Step-Inv {s = s} (lose i rounds now read e w) inv = record {
    replay = inv.replay;
    knows = Knows-update s.pc i _ s.row inv.knows tt;
  }
  Step-Inv {s = s} (leave i) inv = record {
    replay = inv.replay;
    knows = Knows-update s.pc i _ s.row inv.knows tt;
  }

  Reach-Inv : {row0 : Option BucketRow} {s : System} → Reach row0 s → Inv row0 s
  Reach-Inv {row0} start = record { replay = calls-nil limit row0; knows = λ i. tt }
  Reach-Inv (next r st) = Step-Inv st (Reach-Inv r)

  -- The conditional write serves the requests one after the other. However the requests of a key and
  -- a scope interleave, the row is at any time what the calls whose write went through make of the
  -- first row when they run one by one, in the order of their writes and with nothing beside them,
  -- and each of these calls is let through.
  pub granted-serial :
      (row0 : Option BucketRow) (s : System)
      → Reach row0 s
      → calls limit s.granted row0 ≡ (length s.granted, s.row)
  granted-serial row0 s r = (Reach-Inv r).replay
