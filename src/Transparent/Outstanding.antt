-- ===== src/Transparent/Outstanding.antt =====
-- The registry of outstanding reads of api/mqtt/c30-outstanding.ts, and the rows of the commands
-- table that its entries point to. Times are epoch milliseconds.
pub mod Queue
pub mod Sweep
use gateway_monitoring_platf.Prelude.{
  ℕ, ◌+◌, ◌*◌, Option, none, some, Bool, true, false, not, ◌&&◌, List, [], ◌∷◌, ◌++◌, ltb, leb,
  ◌==◌, if◌then◌else◌, is_some, or_else, filter, length, get_bucket, set_bucket, delete_bucket,
  bucket_of, bucket_or, ℕ_discrete,
}

abbrev pub outstanding_timeout_ms : ℕ
outstanding_timeout_ms = 30_000

pub record OutstandingRead : Type 0 where
  pub gateway_id : ℕ
  pub slave : ℕ
  pub fc : ℕ
  pub start : ℕ
  pub quantity : ℕ
  pub deadline : ℕ
  pub command_id : Option ℕ
  pub verify_expected : Option ℕ
  pub verify_command_id : Option ℕ

-- `${gatewayId}:${slave}:${fc}`
pub record Key : Type 0 where
  pub gateway_id : ℕ
  pub slave : ℕ
  pub fc : ℕ

unfoldable pub Key-discrete : Discrete Key
unfolding ℕ_discrete
Key-discrete = hlevel ℕ_discrete

abbrev pub key_of : ℕ → ℕ → ℕ → Key
key_of gateway_id slave fc = record { gateway_id = gateway_id; slave = slave; fc = fc }

abbrev pub entry_key : OutstandingRead → Key
entry_key e = key_of e.gateway_id e.slave e.fc

abbrev pub Registry : Type 0
Registry = List (Key × List OutstandingRead)

-- What the registry holds under a key, oldest first.
abbrev pub bucket : Key → Registry → List OutstandingRead
bucket k reg = bucket_of Key-discrete k reg

-- An entry without a deadline gets `now` and the timeout.
unfoldable pub with_deadline : OutstandingRead → Option ℕ → ℕ → OutstandingRead
with_deadline e deadline now = record e {
  deadline = or_else deadline (now + outstanding_timeout_ms);
}

-- registerOutstanding: the entry goes to the end of its bucket.
unfoldable pub register_outstanding : OutstandingRead → Option ℕ → ℕ → Registry → Registry
unfolding with_deadline
register_outstanding e deadline now reg =
    let full = with_deadline e deadline now in
    let k = entry_key full in set_bucket Key-discrete k (bucket k reg ++ full ∷ []) reg

-- The entry can answer a response of that many bytes.
unfoldable pub answers : ℕ → ℕ → OutstandingRead → Bool
answers byte_count now e = ltb now e.deadline && (e.quantity * 2 == byte_count)

abbrev pub keep_before {ℓ} : {A : Type ℓ} → A → Option (A × List A) → Option (A × List A)
keep_before x none = none
keep_before x (some (y, ys)) = some (y, x ∷ ys)

-- findIndex and splice: the first element that passes the test, and the list without it.
unfoldable pub take_first {ℓ} : {A : Type ℓ} → (A → Bool) → List A → Option (A × List A)
take_first p [] = none
take_first p (x ∷ xs) =
    let rest = keep_before x (take_first p xs) in if p x then some (x, xs) else rest

-- `if (bucket.length === 0) outstanding.delete(key)`, else the bucket as spliced.
unfoldable pub put_bucket : Key → List OutstandingRead → Registry → Registry
put_bucket k [] reg = delete_bucket Key-discrete k reg
put_bucket k (e ∷ es) reg = set_bucket Key-discrete k (e ∷ es) reg

abbrev pub after_take :
    Key
    → Registry
    → Option (OutstandingRead × List OutstandingRead)
    → Registry × Option OutstandingRead
after_take k reg none = (reg, none)
after_take k reg (some (e, es)) = (put_bucket k es reg, some e)

-- A missing bucket and one without an answering entry both leave the registry as it is.
unfoldable pub match_outstanding : ℕ → ℕ → ℕ → ℕ → ℕ → Registry → Registry × Option OutstandingRead
unfolding answers take_first put_bucket
match_outstanding gateway_id slave fc byte_count now reg =
    let k = key_of gateway_id slave fc in
    after_take k reg (take_first (answers byte_count now) (bucket k reg))

-- The first entry of a bucket that awaits a command id gets it.
unfoldable pub attach_first : ℕ → List OutstandingRead → List OutstandingRead
attach_first command_id [] = []
attach_first command_id (e ∷ es) =
    let rest = attach_first command_id es in
    if is_some e.verify_expected && not (is_some e.verify_command_id)
    then record e { verify_command_id = some command_id } ∷ es
    else e ∷ rest

abbrev pub attach_in : Key → ℕ → Registry → Option (List OutstandingRead) → Registry
attach_in k command_id reg none = reg
attach_in k command_id reg (some es) = set_bucket Key-discrete k (attach_first command_id es) reg

unfoldable pub attach_verify_command : ℕ → ℕ → ℕ → ℕ → Registry → Registry
unfolding attach_first
attach_verify_command gateway_id slave fc command_id reg =
    let k = key_of gateway_id slave fc in attach_in k command_id reg (get_bucket Key-discrete k reg)

unfoldable pub is_alive : ℕ → OutstandingRead → Bool
is_alive now e = ltb now e.deadline

abbrev pub keep_alive : Key → List OutstandingRead → Registry → Registry
keep_alive k [] reg = reg
keep_alive k (e ∷ es) reg = (k, e ∷ es) ∷ reg

-- The registry that sweepExpired leaves, and the entries that it returns.
unfoldable pub sweep_alive : ℕ → Registry → Registry
unfolding is_alive
sweep_alive now [] = []
sweep_alive now ((k, es) ∷ reg) = keep_alive k (filter (is_alive now) es) (sweep_alive now reg)

unfoldable pub sweep_expired : ℕ → Registry → List OutstandingRead
unfolding is_alive
sweep_expired now [] = []
sweep_expired now ((k, es) ∷ reg) = filter (λ e. not (is_alive now e)) es ++ sweep_expired now reg

unfoldable pub outstanding_size : Registry → ℕ
outstanding_size [] = 0
outstanding_size ((k, es) ∷ reg) = length es + outstanding_size reg
