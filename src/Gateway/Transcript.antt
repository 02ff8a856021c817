-- ===== src/Gateway/Transcript.antt =====
-- `readTranscriptAssistantReply` and `loadTranscriptAssistantReply`: the reply that OpenClaw has
-- written to the file of its session. The reading of a JSON line, of times and of URLs are arguments.
use ubuntu_daemon.Base.{
  ℕ, ◌*◌, Bool, true, false, ◌&&◌, ◌||◌, not, Option, none, some, List, [], ◌∷◌, ◌++◌, Text, Result,
  ok, err, is_nil, if◌then◌else◌,
}
use ubuntu_daemon.Base.Int.{mul64, add_time, ℤ, pos, ltb_ℤ, leb_ℤ}
use ubuntu_daemon.Text.{lit, text_eq, trim, trim_space, is_blank, is_newline, split}
use ubuntu_daemon.Json.{Fields, get, get_map, is_empty}
use ubuntu_daemon.Protocol.{ChatAttachment}
use ubuntu_daemon.Config.{OpenClawConfig, second, dir, join_paths}
use ubuntu_daemon.Gateway.Texts.{join_markdown_blocks}
use ubuntu_daemon.Gateway.Values.{word_of, markdown_at, first_non_empty_string}
use ubuntu_daemon.Gateway.Events.{timestamp_millis}
use ubuntu_daemon.Gateway.Attachments.{deduplicate_attachments, preferred_transcript_attachments}
use ubuntu_daemon.Gateway.Images.{extract_media_attachments}

unfoldable pub transcript_session_path : OpenClawConfig → Text → Text
transcript_session_path cfg id =
    let given = trim_space cfg.work_dir in
    let work_dir =
      if not (is_nil given)
      then given
      else if not (is_blank cfg.json_config_file)
      then dir cfg.json_config_file
      else if not (is_blank cfg.env_file)
      then dir cfg.env_file
      else lit "." in
    join_paths work_dir (lit "agents/main/sessions/" ++ (id ++ lit ".jsonl"))

-- The variables of the loop over the lines.
pub record Reading : Type 0 where
  pub texts : List Text
  pub attachments : List ChatAttachment
  pub tool_attachments : List ChatAttachment
  pub timestamp : ℤ
  pub stop_reason : Text
  pub started : Bool

abbrev pub fresh : Bool → Reading
fresh started = record {
  texts = [];
  attachments = [];
  tool_attachments = [];
  timestamp = pos 0;
  stop_reason = [];
  started = started;
}

-- What the codec and the two parsers give.
pub record Formats : Type 0 where
  pub decode : Text → Option Fields
  pub parse_time : Text → Option ℤ
  pub url_scheme : Text → Option Text

module _ (f : Formats) where
  unfoldable pub transcript_entry_timestamp_millis : Fields → Fields → ℤ
  transcript_entry_timestamp_millis entry message =
      let own = timestamp_millis f.parse_time (get message (lit "timestamp")) in
      let outer = timestamp_millis f.parse_time (get entry (lit "timestamp")) in
      if ltb_ℤ (pos 0) own then own else if ltb_ℤ (pos 0) outer then outer else pos 0

  abbrev media_in : Option Fields → List ChatAttachment
  media_in none = []
  media_in (some fs) = extract_media_attachments f.url_scheme fs []

  abbrev media_of : Option Fields → Option Fields
  media_of none = none
  media_of (some fs) = get_map fs (lit "media")

  unfoldable pub extract_transcript_tool_attachments : Fields → List ChatAttachment
  extract_transcript_tool_attachments message =
      let details = get_map message (lit "details") in
      if is_empty message
      then []
      else deduplicate_attachments
          (media_in details ++ (media_in (media_of details) ++ media_in (some message)))

  -- The text of an assistant's message.
  unfoldable pub assistant_text : Fields → Text
  assistant_text message =
      let blocks = trim is_newline (markdown_at message (lit "content")) in
      if is_nil blocks
      then trim is_newline (first_non_empty_string message (lit "text" ∷ lit "value" ∷ []))
      else blocks

  unfoldable pub read_message : Fields → Fields → Reading → Reading
  read_message entry message s =
      let role = word_of message (lit "role" ∷ []) in
      let text = assistant_text message in
      if text_eq role (lit "user")
      then fresh true
      else if not s.started
      then s
      else if text_eq role (lit "assistant")
      then (record s {
        texts = if is_nil text then s.texts else s.texts ++ (text ∷ []);
        attachments =
            deduplicate_attachments
              (s.attachments ++ extract_media_attachments f.url_scheme message text);
        timestamp = transcript_entry_timestamp_millis entry message;
        stop_reason = word_of message (lit "stopReason" ∷ lit "stop_reason" ∷ []);
      })
      else if text_eq role (lit "toolresult")
      then (record s {
        tool_attachments =
            deduplicate_attachments
              (s.tool_attachments ++ extract_transcript_tool_attachments message);
      })
      else s

  -- The message of a line, if it is one.
  unfoldable pub message_of : Text → Option (Fields × Fields)
  message_of raw =
      let line = trim_space raw in
      if is_nil line then none else elim (f.decode line) [
        | none ↦ none
        | some entry ↦
            if text_eq (word_of entry (lit "type" ∷ [])) (lit "message")
            then elim (get_map entry (lit "message")) [
              | none ↦ none
              | some message ↦ some (entry, message)
            ]
            else none
      ]

  unfoldable pub read_transcript_lines : Reading → List Text → Reading
  read_transcript_lines s [] = s
  read_transcript_lines s (line ∷ lines) = elim (message_of line) [
    | none ↦ read_transcript_lines s lines
    | some (entry, message) ↦ read_transcript_lines (read_message entry message s) lines
  ]

-- What the reading of the file gives.
pub record Reply : Type 0 where
  pub text : Text
  pub attachments : List ChatAttachment
  pub timestamp : ℤ
  pub complete : Bool

unfoldable pub reply_of_reading : Reading → Reply
reply_of_reading s = record {
  text = join_markdown_blocks s.texts;
  attachments = preferred_transcript_attachments s.tool_attachments s.attachments;
  timestamp = s.timestamp;
  complete =
      ltb_ℤ (pos 0) s.timestamp
      && (not (text_eq s.stop_reason (lit "tooluse"))
          && not (text_eq s.stop_reason (lit "tool_use")));
}

-- The file's text, `none` if it does not exist, or the error.
unfoldable pub read_transcript_assistant_reply : Formats → Result (Option Text) → Result Reply
read_transcript_assistant_reply f (err why) = err why
read_transcript_assistant_reply f (ok none) =
    ok (record { text = []; attachments = []; timestamp = pos 0; complete = false })
read_transcript_assistant_reply f (ok (some content)) =
    ok (reply_of_reading (read_transcript_lines f (fresh false) (split b'\n' content)))

-- One turn of the loop that waits for the reply: what was read, the deadline of the context, if it
-- has one, the time behind the reading, and the error of the context if it is done while it waits.
pub record Look : Type 0 where
  pub reply : Result Reply
  pub context_deadline : Option ℤ
  pub time : ℕ
  pub context_error : Option Text

abbrev pub Best : Type 0
Best = Text × List ChatAttachment

-- How the loop ends: an error of the context keeps the best reply.
pub data Loaded : Type 0 where
  loaded : Best → Loaded
  failed : Best → Text → Loaded
  unread : Text → Loaded

unfoldable pub is_recent : ℤ → Reply → Bool
is_recent min_ms r = leb_ℤ min_ms (pos 0) || ltb_ℤ min_ms r.timestamp

abbrev pub earlier : Option ℤ → ℤ → ℤ
earlier none deadline = deadline
earlier (some d) deadline = if ltb_ℤ d deadline then d else deadline

unfoldable pub take_best : ℤ → Reply → Best → Best
take_best min_ms r best =
    if not (is_blank r.text) && is_recent min_ms r then (r.text, r.attachments) else best

-- `none` while the loop goes on.
unfoldable pub load_from : ℤ → ℤ → Best → List Look → Option Loaded
load_from min_ms deadline best [] = none
load_from min_ms deadline best (l ∷ looks) = elim l.reply [
  | err why ↦ some (unread why)
  | ok r ↦
      let best' = take_best min_ms r best in
      let deadline' = earlier l.context_deadline deadline in
      if not (is_blank best'.0) && (r.complete && is_recent min_ms r)
      then some (loaded (r.text, r.attachments))
      else if ltb_ℤ deadline' (pos l.time)
      then some (loaded best')
      else elim l.context_error [
        | some why ↦ some (failed best' why)
        | none ↦ load_from min_ms deadline' best' looks
      ]
]

-- The time limit of the loop.
unfoldable pub resolve_timeout : OpenClawConfig → ℤ
resolve_timeout cfg =
    let asked = mul64 cfg.reply_resolve_timeout_sec second in
    if leb_ℤ asked (pos 0) then pos (120 * second) else asked

unfoldable pub load_transcript_assistant_reply :
    OpenClawConfig → Text → ℤ → ℕ → List Look → Option Loaded
load_transcript_assistant_reply cfg id min_ms started looks =
    if is_blank id
    then some (loaded ([], []))
    else load_from min_ms (add_time started (resolve_timeout cfg)) ([], []) looks
