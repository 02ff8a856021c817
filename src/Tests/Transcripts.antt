-- ===== src/Tests/Transcripts.antt =====
-- A transcript with a message of the user, a reply that is complete at the first look, and uploads.
use ubuntu_daemon.Base.{◌≡◌, ◌⊎◌, refl, true, false, none, some, List, [], ◌∷◌, ◌++◌, ok}
use ubuntu_daemon.Base.Int
use ubuntu_daemon.Base.Int.{ℤ, pos}
use ubuntu_daemon.Text
use ubuntu_daemon.Text.{lit}
use ubuntu_daemon.Json
use ubuntu_daemon.Json.{str, obj, Fields, field, end}
use ubuntu_daemon.Protocol.{ChatAttachment, zero_attachment}
use ubuntu_daemon.Config.{default_config}
use ubuntu_daemon.Gateway.Values
use ubuntu_daemon.Gateway.Transcript
use ubuntu_daemon.Gateway.Transcript.{
  Formats, fresh, read_transcript_lines, Reply, Look, Best, loaded,
}
use ubuntu_daemon.Gateway.Stale.{
  Brings, read_transcript_lines_user, load_transcript_assistant_reply_lem,
}
use ubuntu_daemon.Gateway.Uploads.{
  Uploader, AreSettled, upload_local_attachments, upload_local_attachments-AreSettled,
}

run_transcript : Unit {0}
unfolding lit Int.signed64 Int.mul64 Int.add_time Text.text_eq Text.has_prefix Text.trim_space
    Text.drop_front Text.front_size Text.is_blank Text.to_lower Json.get Json.get_string
    Json.get_map Values.first_string Values.word_of Transcript.message_of Transcript.is_recent
    Transcript.take_best Transcript.load_from Transcript.resolve_timeout
    Transcript.load_transcript_assistant_reply
run_transcript = tt

abbrev from_user : Fields
from_user = field (lit "role") (str (lit "user")) end

abbrev user_entry : Fields
user_entry = field (lit "type") (str (lit "message")) (field (lit "message") (obj from_user) end)

abbrev formats : Formats
formats = record { decode = λ s. some user_entry; parse_time = λ s. none; url_scheme = λ s. none }

read_transcript_lines_user_example :
    read_transcript_lines formats (fresh false) ((lit "a" ∷ []) ++ (lit "b" ∷ []))
    ≡ read_transcript_lines formats (fresh true) []
unfolding run_transcript
read_transcript_lines_user_example =
    read_transcript_lines_user formats (fresh false) (lit "a" ∷ []) (lit "b") [] user_entry
      from_user refl refl

abbrev complete_reply : Reply
complete_reply = record { text = lit "Hi"; attachments = []; timestamp = pos 9; complete = true }

abbrev look : Look
look = record { reply = ok complete_reply; context_deadline = none; time = 0; context_error = none }

abbrev hi : Best
hi = (lit "Hi", [])

abbrev nothing_found : Best
nothing_found = ([], [])

load_transcript_assistant_reply_lem_example : (hi ≡ nothing_found) ⊎ Brings (pos 5) hi (look ∷ [])
unfolding run_transcript
load_transcript_assistant_reply_lem_example =
    load_transcript_assistant_reply_lem default_config.openclaw (lit "s1") (pos 5) 0 (look ∷ [])
      (loaded (lit "Hi", [])) refl

abbrev uploader : Uploader
uploader = record {
  media = record { backend_base_url = lit "https://m/"; upload_token = [] };
  device_id = lit "d1";
  stat = λ p. ok (record { is_dir = false; size = pos 3 });
  init = λ u r. ok (record { media_id = lit "m"; upload_url = lit "https://u"; preview_url = [] });
  put = λ u p m. none;
  complete = λ u r. ok (lit "https://v");
}

abbrev items : List ChatAttachment
items = record zero_attachment { local_path = lit "/a.png" } ∷ zero_attachment ∷ []

upload_local_attachments-AreSettled_example :
    AreSettled uploader
      (lit "s")
      (lit "m")
      items
      (upload_local_attachments uploader (lit "s") (lit "m") items)
upload_local_attachments-AreSettled_example =
    upload_local_attachments-AreSettled uploader (lit "s") (lit "m") items
