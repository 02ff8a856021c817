-- ===== src/App/Answers.antt =====
-- The parts together: what the router relies on is what its back ends give.
use mathlib.Core.Path.{subst}
use ubuntu_daemon.Base.{◌≡◌, refl, some, Text, Result, Bool-cases, inl, inr}
use ubuntu_daemon.Protocol.{Envelope, ChatMessagePayload, ChatReplyPayload}
use ubuntu_daemon.Router.{VideoService, ImageService, handle_chat}
use ubuntu_daemon.Router.Turns.{IsTurn, FailsOrTurn, GivesTurns, chats, handle_chat-IsTurn}
use ubuntu_daemon.Gateway.Session.Answers.{chat-FailsOrTurn}
use ubuntu_daemon.Video.{enabled, disabled_replies, final_error_reply}
use ubuntu_daemon.Video.Replies.{generate-IsOutcome}
use ubuntu_daemon.App.{
  Machine, gateway_chat, video_backend, make_video, new_video_service, new_router,
}

module _ (m : Machine) where
  gateway_chat-FailsOrTurn : (p : ChatMessagePayload) → FailsOrTurn (gateway_chat m p)
  unfolding gateway_chat
  gateway_chat-FailsOrTurn p = chat-FailsOrTurn _ _ _ _ _ p _ refl

  module _ (answer : Text → ChatMessagePayload → ChatReplyPayload) (env_file : Result Text)
      (ends : (id : Text) (p : ChatMessagePayload) → make_video m id p ≡ some (answer id p)) where
    video-FailsOrTurn :
        (id : Text) (p : ChatMessagePayload)
        → FailsOrTurn ((new_video_service m answer env_file).generate id p)
    unfolding new_video_service make_video
    video-FailsOrTurn id p = elim (Bool-cases (enabled m.environment env_file m.config.video)) [
      | inl on ↦
          rw on
            (generate-IsOutcome (video_backend m id p) m.config.video id p.session_id p
              (answer id p) (ends id p)).turn
      | inr off ↦ rw off (unfold disabled_replies in unfold final_error_reply in (refl, refl))
    ]

    new_router-GivesTurns :
        ((s : ImageService)
          → m.image_service ≡ some s
          → (id : Text) (p : ChatMessagePayload) → FailsOrTurn (s.generate id p))
        → GivesTurns (new_router m answer env_file)
    unfolding new_router
    new_router-GivesTurns image = record {
      by_gateway = gateway_chat-FailsOrTurn;
      by_video = λ v e id p.
          let same : new_video_service m answer env_file ≡ v = cc in
          subst (λ (w : VideoService). FailsOrTurn (w.generate id p)) same (video-FailsOrTurn id p);
      by_image = image;
    }

-- The daemon as `New` puts it together answers every chat message by one complete turn, of which
-- the last reply and no other is final, whatever the cloud, the gateway, the provider, the disk and
-- the operating system give: if the polling of a video ends, and if the image service, which is not
-- in the repository, answers by errors or by complete turns.
pub new_router-IsTurn :
    (m : Machine) (answer : Text → ChatMessagePayload → ChatReplyPayload) (env_file : Result Text)
    (e : Envelope)
    → ((id : Text) (p : ChatMessagePayload) → make_video m id p ≡ some (answer id p))
    → ((s : ImageService)
        → m.image_service ≡ some s
        → (id : Text) (p : ChatMessagePayload) → FailsOrTurn (s.generate id p))
    → IsTurn (chats (handle_chat (new_router m answer env_file) e))
new_router-IsTurn m answer env_file e ends image =
    handle_chat-IsTurn (new_router m answer env_file) e
      (new_router-GivesTurns m answer env_file ends image)
