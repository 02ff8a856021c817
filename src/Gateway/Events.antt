-- ===== src/Gateway/Events.antt =====
-- What an event of the gateway says: whose it is, which text it brings, whether it ends the turn.
-- The parsing of RFC 3339 times by the `time` package is an argument.
use ubuntu_daemon.Base.{
  Bool, true, false, ◌&&◌, ◌||◌, not, Option, none, some, List, [], ◌∷◌, ◌++◌, Text, is_nil,
  if◌then◌else◌,
}
use ubuntu_daemon.Base.Int.{ℤ, pos, leb_ℤ, ltb_ℤ}
use ubuntu_daemon.Text.{lit, text_eq, contains_text, has_suffix, trim_space, to_lower}
use ubuntu_daemon.Json.{Value, num, str, obj, Fields, get, get_string, get_map, as_bool, is_empty}
use ubuntu_daemon.Gateway.Values.{
  result_at, deep_string_at, first_string, word_of, markdown_at, nested,
}

unfoldable pub any_string_equals : Fields → Text → List Text → Bool
any_string_equals fs target [] = false
any_string_equals fs target (key ∷ keys) = elim (get_string fs key) [
  | none ↦ any_string_equals fs target keys
  | some s ↦ text_eq s target || any_string_equals fs target keys
]

-- `candidate` is the target, or ends in a colon and the target.
unfoldable pub session_identifier_matches : Text → Text → Bool
session_identifier_matches candidate target =
    let c = trim_space candidate in
    let t = trim_space target in
    if is_nil c || is_nil t
    then false
    else if text_eq c t
    then true
    else has_suffix c (lit ":" ++ t)

unfoldable pub any_session_matches : Fields → Text → List Text → Bool
any_session_matches fs target [] = false
any_session_matches fs target (key ∷ keys) = elim (get_string fs key) [
  | none ↦ any_session_matches fs target keys
  | some s ↦ session_identifier_matches (trim_space s) target || any_session_matches fs target keys
]

abbrev run_keys : List Text
run_keys = lit "runId" ∷ lit "run_id" ∷ []

unfoldable pub matches_chat_event : Fields → Text → Text → Bool
matches_chat_event fs session run =
    if is_empty fs
    then false
    else if not (is_nil run) && any_string_equals fs run run_keys
    then true
    else if not (is_nil session)
        && any_session_matches fs session
            (lit "sessionKey" ∷ lit "sessionId" ∷ lit "session_id" ∷ [])
    then true
    else is_nil run && is_nil session

-- The first key whose string is an id of another kind than the cloud's session id.
unfoldable pub foreign_session : Fields → Text → List Text → Text
foreign_session fs cloud [] = []
foreign_session fs cloud (key ∷ keys) = elim (get_string fs key) [
  | none ↦ foreign_session fs cloud keys
  | some s ↦
      let c = trim_space s in
      if not (is_nil c) && not (session_identifier_matches c cloud)
      then c
      else foreign_session fs cloud keys
]

unfoldable pub first_result : List (Text × Text) → List Text → Text
first_result rs [] = []
first_result rs (key ∷ keys) =
    let r = result_at [] rs key in if is_nil r then first_result rs keys else r

abbrev session_step : Text → Fields → List (Text × Text) → Text
session_step cloud fs rs =
    let here = foreign_session fs cloud (lit "sessionId" ∷ lit "session_id" ∷ []) in
    if is_nil here then first_result rs (lit "session" ∷ lit "payload" ∷ lit "data" ∷ []) else here

unfoldable pub extract_transcript_session_id : Fields → Text → Text
unfolding foreign_session first_result
extract_transcript_session_id fs cloud = nested (session_step cloud) [] (obj fs)

module _ (parse_time : Text → Option ℤ) where
  unfoldable pub timestamp_millis : Option Value → ℤ
  timestamp_millis (some (num n)) = n
  timestamp_millis (some (str s)) =
      let text = trim_space s in
      if is_nil text then pos 0 else elim (parse_time text) [ none ↦ pos 0 | some t ↦ t ]
  timestamp_millis _ = pos 0

  abbrev first_time : List (Text × ℤ) → List Text → ℤ
  first_time rs [] = pos 0
  first_time rs (key ∷ keys) =
      let r = result_at (pos 0) rs key in if ltb_ℤ (pos 0) r then r else first_time rs keys

  -- The time of a user's message at this level, 0 if there is none.
  unfoldable pub user_time : Fields → ℤ
  user_time fs = elim (get_map fs (lit "message")) [
    | none ↦ pos 0
    | some m ↦
        if text_eq (word_of m (lit "role" ∷ [])) (lit "user")
        then timestamp_millis (get m (lit "timestamp"))
        else pos 0
  ]

  abbrev time_step : Fields → List (Text × ℤ) → ℤ
  time_step fs rs =
      if ltb_ℤ (pos 0) (user_time fs)
      then user_time fs
      else first_time rs (lit "payload" ∷ lit "data" ∷ lit "session" ∷ [])

  unfoldable pub extract_transcript_min_assistant_after_ms : Fields → ℤ
  extract_transcript_min_assistant_after_ms fs = nested time_step (pos 0) (obj fs)

  unfoldable pub snapshot_belongs_to_current_turn : Fields → Text → ℤ → Bool
  snapshot_belongs_to_current_turn fs run user_ms =
      if is_empty fs
      then false
      else if not (is_nil run) && any_string_equals fs run run_keys
      then true
      else if leb_ℤ user_ms (pos 0)
      then false
      else elim (get_map fs (lit "message")) [
        | none ↦ false
        | some m ↦
            let role = word_of m (lit "role" ∷ []) in
            if not (is_nil role) && not (text_eq role (lit "assistant"))
            then false
            else ltb_ℤ user_ms (timestamp_millis (get m (lit "timestamp")))
      ]

pub data ChatTextMode : Type 0 where
  nothing delta snapshot : ChatTextMode

abbrev Found : Type 0
Found = Text × ChatTextMode

-- A text in this mode if it is not empty, else what the later rules find.
abbrev otherwise : Text → ChatTextMode → Found → Found
otherwise text mode later = if is_nil text then later else (text, mode)

abbrev string_at : Fields → Text → Text
string_at fs key = elim (get_string fs key) [ none ↦ [] | some s ↦ s ]

unfoldable pub extract_assistant_message_text : Fields → Text
extract_assistant_message_text fs = elim (get_map fs (lit "message")) [
  | none ↦ []
  | some m ↦
      let role = word_of m (lit "role" ∷ []) in
      let blocks = markdown_at m (lit "content") in
      let text = string_at m (lit "text") in
      if not (is_nil role) && not (text_eq role (lit "assistant"))
      then []
      else if not (is_nil blocks)
      then blocks
      else if not (is_nil text)
      then text
      else string_at m (lit "value")
]

abbrev from_nested : Found → Found → Found
from_nested (text, nothing) later = later
from_nested found later = found

abbrev assistant_stream : Fields → Found → Found
assistant_stream fs later =
    if text_eq (word_of fs (lit "stream" ∷ [])) (lit "assistant")
    then otherwise (deep_string_at fs (lit "delta")) delta (
        otherwise (deep_string_at fs (lit "text")) snapshot
          (otherwise (markdown_at fs (lit "content")) snapshot later))
    else later

-- One level of `extractChatText`, with the results of the maps inside.
unfoldable pub chat_text_step : Fields → List (Text × Found) → Found
chat_text_step fs rs =
    if is_empty fs
    then ([], nothing)
    else from_nested (result_at ([], nothing) rs (lit "payload")) (
        from_nested (result_at ([], nothing) rs (lit "data")) (
          otherwise (string_at fs (lit "delta")) delta (
            assistant_stream fs (
              otherwise (extract_assistant_message_text fs) snapshot (
                otherwise (markdown_at fs (lit "content")) snapshot (
                  otherwise (markdown_at fs (lit "parts")) snapshot
                    (otherwise (string_at fs (lit "text")) snapshot ([], nothing))))))))

unfoldable pub extract_chat_text : Fields → Found
extract_chat_text fs = nested chat_text_step ([], nothing) (obj fs)

abbrev terminal_words : List Text
terminal_words =
    lit "done"
    ∷ lit "completed"
    ∷ lit "complete"
    ∷ lit "ok"
    ∷ lit "final"
    ∷ lit "stopped"
    ∷ lit "aborted"
    ∷ lit "cancelled"
    ∷ lit "canceled"
    ∷ lit "error"
    ∷ lit "failed"
    ∷ []

-- A `lifecycle` stream that says `end` or `error`.
unfoldable pub lifecycle_word : Fields → Text
lifecycle_word fs =
    if text_eq (word_of fs (lit "stream" ∷ [])) (lit "lifecycle")
    then word_of fs (lit "event" ∷ lit "action" ∷ [])
    else []

abbrev is_lifecycle_end : Fields → Bool
is_lifecycle_end fs = contains_text (lit "end" ∷ lit "error" ∷ []) (lifecycle_word fs)

abbrev is_true_at : Fields → Text → Bool
is_true_at fs key = elim (as_bool (get fs key)) [ none ↦ false | some b ↦ b ]

unfoldable pub is_terminal_chat_event : Text → Fields → Bool
is_terminal_chat_event name fs =
    let status = to_lower (first_string fs (lit "status" ∷ lit "phase" ∷ lit "state" ∷ [])) in
    if text_eq (to_lower (trim_space name)) (lit "agent")
    then is_lifecycle_end fs
    else contains_text terminal_words status
      || (is_lifecycle_end fs || (is_true_at fs (lit "isFinal") || is_true_at fs (lit "isEnd")))

abbrev status_reason : Text → Text
status_reason status =
    if contains_text (lit "error" ∷ lit "failed" ∷ []) status
    then lit "error"
    else if contains_text (lit "aborted" ∷ lit "cancelled" ∷ lit "canceled" ∷ lit "stopped" ∷ [])
        status
    then lit "cancelled"
    else if text_eq status (lit "length")
    then lit "length"
    else lit "stop"

unfoldable pub finish_reason : Fields → Text
finish_reason fs =
    let keys =
      lit "status" ∷ lit "phase" ∷ lit "state" ∷ lit "finishReason" ∷ lit "finish_reason" ∷ [] in
    let word = lifecycle_word fs in
    if text_eq word (lit "error")
    then lit "error"
    else if text_eq word (lit "end")
    then lit "stop"
    else status_reason (to_lower (first_string fs keys))
