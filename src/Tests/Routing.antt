-- ===== src/Tests/Routing.antt =====
-- A chat message, one that makes a video, and one that cannot be decoded.
use mathlib.Core.Path.{subst}
use ubuntu_daemon.Base.{◌≡◌, refl, true, none, some, [], ◌∷◌, ok, err, All}
use ubuntu_daemon.Base.Int.{pos}
use ubuntu_daemon.Text.{lit}
use ubuntu_daemon.Protocol.{
  Envelope, ChatMessagePayload, zero_ack, zero_result, zero_reply, type_chat_msg,
}
use ubuntu_daemon.Router.{VideoService, MessageRouter, Replies, handle, handle_chat}
use ubuntu_daemon.Router.Laws.{AnswersWith, answer_kind, handle-AnswersWith}
use ubuntu_daemon.Router.Turns.{IsTurn, FailsOrTurn, GivesTurns, chats, handle_chat-IsTurn}

abbrev a_chat : ChatMessagePayload
a_chat = record {
  session_id = lit "s";
  user_id = [];
  role = [];
  text = lit "hi";
  stream = true;
  metadata = none;
  input_attachments = [];
}

abbrev answer : Replies
answer = ok (
    record zero_reply { text = lit "Hel" }
    ∷ record zero_reply { text = lit "lo"; is_final = true; is_end = true }
    ∷ [])

abbrev video : VideoService
video = record {
  enabled = true;
  is_video_request = λ s. true;
  generate = λ id p. err (lit "no quota");
}

abbrev router : MessageRouter
router = record {
  decode_sys_config = λ s. err (lit "syntax");
  decode_remote_cmd = λ s. err (lit "syntax");
  decode_chat = λ s. ok a_chat;
  apply_config = λ p. zero_ack;
  run_remote = λ p. zero_result;
  gateway = λ p. answer;
  video_service = some video;
  image_service = none;
  daemon_version = lit "1";
}

abbrev envelope : Envelope
envelope = record { msg_id = lit "m"; kind = type_chat_msg; timestamp = pos 1; payload = [] }

video_only : (v : VideoService) → router.video_service ≡ some v → video ≡ v
video_only v e = cc

router-GivesTurns : GivesTurns router
router-GivesTurns = record {
  by_gateway = λ p. (refl, refl, (refl, refl));
  by_video =
      λ v e id p. subst (λ (w : VideoService). FailsOrTurn (w.generate id p)) (video_only v e) tt;
  by_image = λ s e id p. absurd (cc);
}

handle_chat-IsTurn_example : IsTurn (chats (handle_chat router envelope))
handle_chat-IsTurn_example = handle_chat-IsTurn router envelope router-GivesTurns

handle-AnswersWith_example :
    All (AnswersWith envelope (answer_kind type_chat_msg)) (handle router envelope)
handle-AnswersWith_example = handle-AnswersWith router envelope
