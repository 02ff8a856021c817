-- ===== src/Tests/Chat.antt =====
-- A chat turn: deltas, a snapshot, a terminal event, a transcript.
use mathlib.Core.Path.{◌≡◌, refl}
use ubuntu_daemon.Base.{true, none, List, [], ◌∷◌, ◌++◌, String, ok}
use ubuntu_daemon.Text
use ubuntu_daemon.Text.{lit, is_blank, trim, is_newline, has_prefix}
use ubuntu_daemon.Json
use ubuntu_daemon.Json.{Value, str, obj, Fields, field, end}
use ubuntu_daemon.Protocol.{ChatReplyPayload}
use ubuntu_daemon.Gateway.Texts
use ubuntu_daemon.Gateway.Texts.{incremental_reply_text, incremental_reply_text-append}
use ubuntu_daemon.Gateway.Values
use ubuntu_daemon.Gateway.Events
use ubuntu_daemon.Gateway.Attachments
use ubuntu_daemon.Gateway.Images
use ubuntu_daemon.Gateway.Collect
use ubuntu_daemon.Gateway.Collect.{
  Payload, fields, Frame, Read, frame, garbled, Services, Ids, Turn, new_turn, reply_of,
  needs_transcript, settle, done, waiting, collect_chat_replies, chat_result,
}
use ubuntu_daemon.Gateway.Collect.Closing.{IsAnswer, collect_chat_replies-IsAnswer}
use ubuntu_daemon.Gateway.Collect.Assembly.{texts, spelled, collect_chat_replies-IsAssembled}
use ubuntu_daemon.Gateway.Collect.Losses.{repeated_transcript}

-- All that a run of the loop computes with.
unfoldable pub run_loop : Unit {0}
unfolding lit Text.text_eq Text.has_prefix Text.has_suffix Text.contains Text.contains_text
    Text.after Text.front_size Text.drop_front Text.trim_space Text.is_blank Text.trim_left
    Text.trim_right Text.trim Text.to_lower Text.to_upper Text.split_from Text.split Json.get
    Json.is_empty Json.get_string Json.get_map Texts.incremental_reply_text
    Texts.append_attachment_failure_notice Values.result_at Values.deep_string Values.first_text
    Values.deep_string_at Values.first_string Values.word_of Values.extract_markdown_blocks
    Values.markdown_at Values.nested Values.markdown_from_content_block Texts.join_markdown_blocks
    Texts.join_from Events.any_string_equals Events.session_identifier_matches
    Events.any_session_matches Events.matches_chat_event Events.foreign_session Events.first_result
    Events.extract_transcript_session_id Events.timestamp_millis Events.user_time
    Events.extract_transcript_min_assistant_after_ms Events.snapshot_belongs_to_current_turn
    Events.extract_assistant_message_text Events.chat_text_step Events.extract_chat_text
    Events.lifecycle_word Events.is_terminal_chat_event Events.finish_reason
    Attachments.deduplicate_attachments Attachments.deduplicate_from Attachments.attachment_key
    Attachments.media_lines Attachments.extract_media_lines
    Attachments.extract_media_refs_from_payload Attachments.texts_at
    Attachments.summarize_attachment_failures Attachments.all_failed Attachments.is_failed
    Images.span Images.close_match Images.match_image Images.image_refs Images.trimmed_refs
    Images.extract_markdown_image_refs Images.extract_media_attachments
    Images.rewrite_markdown_image_urls Images.replacement_urls Images.rewrite_from Collect.emit
    Collect.emit_if_any Collect.add_text Collect.note_session Collect.note_time
    Collect.take_snapshot Collect.note_text Collect.note_attachments Collect.note_event
    Collect.needs_transcript Collect.use_transcript Collect.consult_transcript
    Collect.flush_snapshot Collect.ensure_reply Collect.mark_failures Collect.attach
    Collect.mark_missing Collect.event_errors Collect.close_reply Collect.on_last Collect.settle
    Collect.finish Collect.matched Collect.collect_from Collect.collect_chat_replies
    Collect.chat_result
run_loop = tt

abbrev services : Services
services = record {
  parse_time = λ s. none;
  url_scheme = λ s. none;
  transcript = λ id ms. ok (lit "Hello world", []);
  upload = λ items. items;
}

abbrev ids : Ids
ids = record { session = lit "s1"; run = lit "r1"; cloud_msg = lit "m1" }

abbrev event : Fields → Read
event fs = frame (record {
  kind = lit "event";
  event = lit "chat";
  payload = fields (field (lit "runId") (str (lit "r1")) fs);
})

abbrev delta_event : String → Read
delta_event s = event (field (lit "delta") (str (lit s)) end)

abbrev done_event : Read
done_event = event (field (lit "status") (str (lit "done")) end)

abbrev two_deltas : List Read
two_deltas = delta_event "Hel" ∷ garbled ∷ delta_event "lo" ∷ []

abbrev first_reply : ChatReplyPayload
first_reply = reply_of ids (lit "Hel") 1

abbrev last_reply : ChatReplyPayload
last_reply = record (reply_of ids (lit "lo") 2) {
  is_final = true;
  is_end = true;
  finish_reason = lit "stop";
}

run_two_deltas :
    collect_chat_replies services ids (two_deltas ++ (done_event ∷ []))
    ≡ done (first_reply ∷ last_reply ∷ [])
unfolding run_loop
run_two_deltas = refl

collect_chat_replies-IsAnswer_example : IsAnswer ids (first_reply ∷ last_reply ∷ [])
collect_chat_replies-IsAnswer_example =
    collect_chat_replies-IsAnswer services ids (two_deltas ++ (done_event ∷ []))
      (first_reply ∷ last_reply ∷ []) run_two_deltas

abbrev after_two : Turn
after_two = record new_turn {
  replies = first_reply ∷ reply_of ids (lit "lo") 2 ∷ [];
  chunk_seq = 2;
  assembled_text = lit "Hello";
}

collect_chat_replies-IsAssembled_example :
    (texts after_two.replies ≡ after_two.assembled_text)
    × (after_two.assembled_text ≡ spelled ids [] two_deltas)
unfolding run_loop
collect_chat_replies-IsAssembled_example =
    collect_chat_replies-IsAssembled ids services two_deltas after_two refl

abbrev only_snapshot : Turn
only_snapshot = record new_turn {
  pending_snapshot_text = lit "Hello";
  openclaw_session_id = lit "s1";
}

abbrev sent_bye : Turn
sent_bye = record new_turn {
  replies = reply_of ids (lit "Bye") 1 ∷ [];
  chunk_seq = 1;
  assembled_text = lit "Bye";
  openclaw_session_id = lit "s1";
}

repeated_transcript_example :
    texts (settle services ids sent_bye).replies ≡ lit "ByeHello worldHello world"
unfolding run_loop
repeated_transcript_example =
    repeated_transcript ids services sent_bye (lit "Hello world") [] refl refl refl refl refl refl
      refl refl
