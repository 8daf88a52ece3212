-- ===== src/Mfa/Totp.antt =====
-- The check of a one-time code (api/lib/totp.ts, verifyTotp and looksLikeBackupCode). Decryption,
-- String.prototype.trim and otplib's verify for one step are arguments.
use mathlib.Core.Path.{subst}
use Prim.Native.Char.{code}
use gateway_monitoring_platf.Prelude.{
  ℕ, zero, suc, ◌+◌, ◌*◌, ◌/◌, ◌≤◌, ◌<◌, ◌≡◌, refl, String, Option, none, some, Bool, true, false,
  ◌&&◌, ◌||◌, List, [], ◌∷◌, leb, ◌==◌, if◌then◌else◌, ℤ, pos, negsuc, sub_ℕ, arith, All,
  Bool-cases, inl, inr, Option-cases,
}

abbrev pub totp_period_s : ℕ
totp_period_s = 30

-- otplib on one step: the code is valid or not, it is malformed, or something else is wrong.
pub data OtpAnswer : Type 0 where
  valid invalid malformed broken : OtpAnswer

-- The accepted step, null, or an error that goes on to the caller.
pub data Verdict : Type 0 where
  accepted : ℕ → Verdict
  refused raised : Verdict

-- The steps around the current one, the nearest first; `i` counts up to the window.
unfoldable pub around : ℕ → ℕ → ℕ → List ℤ
around current i zero = []
around current i (suc more) = sub_ℕ current i ∷ pos (current + i) ∷ around current (i + 1) more

unfoldable pub candidates : ℕ → ℕ → List ℤ
unfolding around
candidates current window = pos current ∷ around current 1 window

-- `step <= lastUsedStep`
abbrev pub is_used : Option ℕ → ℕ → Bool
is_used none step = false
is_used (some last) step = leb step last

abbrev pub answer_or : ℕ → OtpAnswer → Verdict → Verdict
answer_or step valid rest = accepted step
answer_or step invalid rest = rest
answer_or step malformed rest = refused
answer_or step broken rest = raised

-- The loop; `otp` is asked at the time of a step.
unfoldable pub try_steps : (ℕ → OtpAnswer) → Option ℕ → List ℤ → Verdict
try_steps otp last [] = refused
try_steps otp last (negsuc n ∷ steps) = try_steps otp last steps
try_steps otp last (pos step ∷ steps) =
    let rest = try_steps otp last steps in
    if is_used last step then rest else answer_or step (otp (step * totp_period_s)) rest

-- verifyTotp at `now` milliseconds; `otp secret code` is otplib on the trimmed code.
unfoldable pub verify_totp :
    (String → Option String)
    → (String → String → ℕ → OtpAnswer)
    → (String → String)
    → String
    → String
    → Option ℕ
    → ℕ
    → ℕ
    → Verdict
unfolding try_steps candidates
verify_totp decrypt otp trim secret_enc typed last window now = elim (decrypt secret_enc) [
  | none ↦ raised
  | some secret ↦
      try_steps (otp secret (trim typed)) last (candidates (now / 1000 / totp_period_s) window)
]

abbrev pub codes : String → List ℕ
codes String.[] = []
codes (String.◌∷◌ c s) = code c ∷ codes s

-- [0-9a-f], whatever the case
abbrev pub is_hex : ℕ → Bool
is_hex c = (leb b'0' c && leb c b'9') || (leb b'a' c && leb c b'f') || (leb b'A' c && leb c b'F')

abbrev pub hex_digits : ℕ → (List ℕ → Bool) → List ℕ → Bool
hex_digits zero rest cs = rest cs
hex_digits (suc n) rest [] = false
hex_digits (suc n) rest (c ∷ cs) = is_hex c && hex_digits n rest cs

abbrev pub ends : List ℕ → Bool
ends [] = true
ends (c ∷ cs) = false

abbrev pub after_dash : (List ℕ → Bool) → List ℕ → Bool
after_dash rest [] = false
after_dash rest (c ∷ cs) = c == b'-' && rest cs

-- /^[0-9a-f]{4}-[0-9a-f]{4}$/i on the trimmed code
unfoldable pub looks_like_backup_code : (String → String) → String → Bool
looks_like_backup_code trim typed =
    hex_digits 4 (after_dash (hex_digits 4 ends)) (codes (trim typed))

-- Within the window of the current step.
abbrev pub InWindow : ℕ → ℕ → ℤ → Type 0
InWindow current window (pos step) = (step ≤ current + window) × (current ≤ step + window)
InWindow current window (negsuc n) = Unit

around-InWindow :
    (current i more window : ℕ)
    → i + more ≤ window + 1
    → All (InWindow current window) (around current i more)
unfolding around
around-InWindow current i zero window h = tt
around-InWindow current i (suc more) window h = (
  ground arith,
  ((omega arith, omega arith), around-InWindow current (i + 1) more window (omega arith)),
)

-- What an accepted step is.
abbrev pub IsFresh : (ℕ → OtpAnswer) → Option ℕ → ℕ → Type 0
IsFresh otp last step = (otp (step * 30) ≡ valid) × ((l : ℕ) → last ≡ some l → l < step)

answer-IsFresh :
    (otp : ℕ → OtpAnswer) (last : Option ℕ) (current window step k : ℕ) (rest : Verdict)
    (a : OtpAnswer)
    → otp (k * 30) ≡ a
    → is_used last k ≡ false
    → InWindow current window (pos k)
    → (rest ≡ accepted step → IsFresh otp last step × InWindow current window (pos step))
    → answer_or k a rest ≡ accepted step
    → IsFresh otp last step × InWindow current window (pos step)
answer-IsFresh otp last current window step k rest valid is_valid unused near next found =
    let same : k ≡ step = ground arith in
    subst (λ t. IsFresh otp last t × InWindow current window (pos t)) same
      ((is_valid, λ l e. ground arith), near)
answer-IsFresh otp last current window step k rest invalid _ unused near next found = next found
answer-IsFresh otp last current window step k rest malformed _ unused near next found = cc
answer-IsFresh otp last current window step k rest broken _ unused near next found = cc

try_steps-IsFresh :
    (otp : ℕ → OtpAnswer) (last : Option ℕ) (current window step : ℕ) (steps : List ℤ)
    → All (InWindow current window) steps
    → try_steps otp last steps ≡ accepted step
    → IsFresh otp last step × InWindow current window (pos step)
unfolding try_steps
try_steps-IsFresh otp last current window step [] h found = cc
try_steps-IsFresh otp last current window step (negsuc n ∷ steps) h found =
    try_steps-IsFresh otp last current window step steps h.1 found
try_steps-IsFresh otp last current window step (pos k ∷ steps) h found =
    elim (Bool-cases (is_used last k)) [
      | inl used ↦ try_steps-IsFresh otp last current window step steps h.1 (rw used at found)
      | inr unused ↦
          answer-IsFresh otp last current window step k (try_steps otp last steps) (otp (k * 30))
            refl unused h.0 (try_steps-IsFresh otp last current window step steps h.1)
            (rw unused at found)
    ]

-- A code is good once. Where verifyTotp accepts a step, the code is valid at it, it lies within the
-- window of the current step, and it is later than the step that was last used.
pub verify_totp_lem :
    (decrypt : String → Option String) (otp : String → String → ℕ → OtpAnswer)
    (trim : String → String) (secret_enc typed : String) (last : Option ℕ) (window now step : ℕ)
    → verify_totp decrypt otp trim secret_enc typed last window now ≡ accepted step
    → (secret : String) × (decrypt secret_enc ≡ some secret)
      × (otp secret (trim typed) (step * 30) ≡ valid)
      × (step ≤ now / 30_000 + window)
      × (now / 30_000 ≤ step + window)
      × ((l : ℕ) → last ≡ some l → l < step)
unfolding verify_totp
verify_totp_lem decrypt otp trim secret_enc typed last window now step found =
    elim (Option-cases (decrypt secret_enc)) [
      | inl gone ↦ absurd (ground arith)
      | inr (secret, got) ↦
          let here : try_steps (otp secret (trim typed)) last (candidates (now / 1000 / 30) window)
              ≡ accepted step =
            ground arith in
          let (fresh, near) =
            try_steps-IsFresh (otp secret (trim typed)) last (now / 1000 / 30) window step
              (candidates (now / 1000 / 30) window)
              (
                (omega arith, omega arith),
                around-InWindow (now / 1000 / 30) 1 window window (omega arith),
              )
              here in
          (secret, got, fresh.0, omega (arith, near.0), omega (arith, near.1), fresh.1)
    ]
