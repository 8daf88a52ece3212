-- ===== src/Alarms/Telegram.antt =====
-- The target of a Telegram channel (api/alarms/notify.ts, parseTelegramTarget), over the character
-- codes of the text.
use gateway_monitoring_platf.Prelude.{
  ℕ, ◌+◌, ◌≡◌, refl, Option, none, some, Bool, true, false, ◌&&◌, ◌||◌, List, [], ◌∷◌, ◌++◌, leb,
  ◌==◌, if◌then◌else◌, length, arith, Bool-cases, Option-cases, inl, inr, ◌↔◌,
}

pub record TelegramTarget : Type 0 where
  pub token : List ℕ
  pub chat_id : List ℕ

-- The texts before and after the last separator: lastIndexOf with the two slices.
unfoldable pub split_last : ℕ → List ℕ → Option (List ℕ × List ℕ)
split_last sep [] = none
split_last sep (c ∷ cs) = elim (split_last sep cs) [
  | some (before, after) ↦ some (c ∷ before, after)
  | none ↦ if c == sep then some ([], cs) else none
]

abbrev pub is_digit : ℕ → Bool
is_digit c = leb b'0' c && leb c b'9'

abbrev pub is_letter : ℕ → Bool
is_letter c = (leb b'A' c && leb c b'Z') || (leb b'a' c && leb c b'z')

-- [A-Za-z0-9_]
abbrev pub is_word : ℕ → Bool
is_word c = is_letter c || is_digit c || c == b'_'

-- [A-Za-z0-9_-]
abbrev pub is_secret : ℕ → Bool
is_secret c = is_word c || c == b'-'

abbrev pub all : (ℕ → Bool) → List ℕ → Bool
all p [] = true
all p (c ∷ cs) = p c && all p cs

-- `p` on all characters, of which there are between `lo` and `hi`; no upper bound is `none`.
abbrev pub repeats : (ℕ → Bool) → ℕ → Option ℕ → List ℕ → Bool
repeats p lo none cs = all p cs && leb lo (length cs)
repeats p lo (some hi) cs = all p cs && leb lo (length cs) && leb (length cs) hi

-- \d{6,}:[A-Za-z0-9_-]{30,}, with the digits so far counted.
abbrev pub bot_token_from : ℕ → List ℕ → Bool
bot_token_from n [] = false
bot_token_from n (c ∷ cs) =
    (c == b':' && leb 6 n && repeats is_secret 30 none cs)
    || (is_digit c && bot_token_from (n + 1) cs)

unfoldable pub is_bot_token : List ℕ → Bool
is_bot_token cs = bot_token_from 0 cs

abbrev pub user_name : List ℕ → Bool
user_name [] = false
user_name (c ∷ cs) = is_letter c && repeats is_word 4 (some 31) cs

abbrev pub strip_minus : List ℕ → List ℕ
strip_minus [] = []
strip_minus (c ∷ cs) = if c == b'-' then cs else c ∷ cs

abbrev pub at_name : List ℕ → Bool
at_name [] = false
at_name (c ∷ cs) = c == b'@' && user_name cs

-- -?\d{1,20} or @[A-Za-z][A-Za-z0-9_]{4,31}
unfoldable pub is_chat_id : List ℕ → Bool
is_chat_id cs = repeats is_digit 1 (some 20) (strip_minus cs) || at_name cs

abbrev pub is_empty : List ℕ → Bool
is_empty [] = true
is_empty (c ∷ cs) = false

abbrev pub target_of : Option (List ℕ × List ℕ) → Option TelegramTarget
target_of none = none
target_of (some (token, chat)) =
    if is_empty token || is_empty chat
    then none
    else if is_bot_token token && is_chat_id chat
    then some (record { token = token; chat_id = chat })
    else none

unfoldable pub parse_telegram_target : List ℕ → Option TelegramTarget
unfolding split_last is_bot_token is_chat_id
parse_telegram_target target = target_of (split_last b':' target)

split_last-none :
    (sep : ℕ) (cs : List ℕ)
    → all (λ c. if c == sep then false else true) cs ≡ true
    → split_last sep cs ≡ none
unfolding split_last
split_last-none sep [] h = refl
split_last-none sep (c ∷ cs) h = ground (arith, split_last-none sep cs)

split_last-append :
    (sep : ℕ) (before after : List ℕ)
    → split_last sep after ≡ none
    → split_last sep (before ++ sep ∷ after) ≡ some (before, after)
unfolding split_last
split_last-append sep [] after h = ground arith
split_last-append sep (c ∷ before) after h = ground (arith, split_last-append sep before after)

split_last_sound :
    (sep : ℕ) (cs before after : List ℕ)
    → split_last sep cs ≡ some (before, after)
    → cs ≡ before ++ sep ∷ after
unfolding split_last
split_last_sound sep [] before after h = cc
split_last_sound sep (c ∷ cs) before after h = elim (Option-cases (split_last sep cs)) [
  | inl gone ↦ ground arith
  | inr ((b, a), found) ↦ ground (arith, split_last_sound sep cs b a found)
]

digits-no_colon :
    (cs : List ℕ) → all is_digit cs ≡ true → all (λ c. if c == b':' then false else true) cs ≡ true
digits-no_colon [] h = refl
digits-no_colon (c ∷ cs) h = ground (arith, digits-no_colon cs)

words-no_colon :
    (cs : List ℕ) → all is_word cs ≡ true → all (λ c. if c == b':' then false else true) cs ≡ true
words-no_colon [] h = refl
words-no_colon (c ∷ cs) h = ground (arith, words-no_colon cs)

chat_id-no_colon :
    (cs : List ℕ) → is_chat_id cs ≡ true → all (λ c. if c == b':' then false else true) cs ≡ true
unfolding is_chat_id
chat_id-no_colon [] h = refl
chat_id-no_colon (c ∷ []) h = ground arith
chat_id-no_colon (c ∷ d ∷ cs) h =
    ground (arith, digits-no_colon (d ∷ cs), digits-no_colon (c ∷ d ∷ cs), words-no_colon cs)

filled :
    (token chat : List ℕ)
    → is_bot_token token ≡ true
    → is_chat_id chat ≡ true
    → (is_empty token || is_empty chat) ≡ false
unfolding is_bot_token is_chat_id
filled [] chat t c = cc
filled (d ∷ token) [] t c = cc
filled (d ∷ token) (e ∷ chat) t c = refl

parse-joined :
    (token chat : List ℕ)
    → is_bot_token token ≡ true
    → is_chat_id chat ≡ true
    → parse_telegram_target (token ++ b':' ∷ chat) ≡ some (record { token = token; chat_id = chat })
unfolding parse_telegram_target
parse-joined token chat t c =
    let none_in_chat = split_last-none b':' chat (chat_id-no_colon chat c) in
    rw (split_last-append b':' token chat none_in_chat, filled token chat t c, t, c)

target_of_sound :
    (token chat : List ℕ) (t : TelegramTarget)
    → target_of (some (token, chat)) ≡ some t
    → (t ≡ record { token = token; chat_id = chat })
      × (is_bot_token token ≡ true)
      × (is_chat_id chat ≡ true)
target_of_sound token chat t h = elim (Bool-cases (is_empty token || is_empty chat)) [
  | inl empty ↦ absurd (ground arith)
  | inr full ↦ elim (Bool-cases (is_bot_token token && is_chat_id chat)) [
    | inr wrong ↦ absurd (ground arith)
    | inl fits ↦ (ground arith, ground arith, ground arith)
  ]
]

-- A target is parsed back. A text is parsed as a bot token and a chat exactly when it is the token, a
-- colon and the chat, in this order, and the token and the chat have their forms; the colon inside
-- the token does not mislead it.
pub parse_telegram_target_iff :
    (target : List ℕ) (t : TelegramTarget)
    → (parse_telegram_target target ≡ some t) ↔ (
        (target ≡ t.token ++ b':' ∷ t.chat_id)
        × (is_bot_token t.token ≡ true)
        × (is_chat_id t.chat_id ≡ true))
unfolding parse_telegram_target
parse_telegram_target_iff target t = (
  λ h. elim (Option-cases (split_last b':' target)) [
    | inl gone ↦ absurd (ground arith)
    | inr ((token, chat), found) ↦
        let (same, is_token, is_chat) = target_of_sound token chat t (rw found at h) in
        let joined = split_last_sound b':' target token chat found in
        (rw same joined, rw same is_token, rw same is_chat)
  ],
  λ h. rw (h.0) (parse-joined t.token t.chat_id h.1 h.2),
)
