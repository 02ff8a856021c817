-- ===== src/Video/Replies.antt =====
-- What `generate` answers.
use mathlib.Core.Path.{subst}
use ubuntu_daemon.Base.{
  ◌≡◌, ◌≢◌, ◌⊎◌, inl, inr, refl, false, ◌||◌, Option, none, some, [], ◌∷◌, arith, Text, Result, ok,
  err, is_nil, Bool-cases, if◌then◌else◌,
}
use ubuntu_daemon.Base.Int.{ℤ, pos}
use ubuntu_daemon.Text.{lit, is_blank}
use ubuntu_daemon.Protocol.{ChatMessagePayload, ChatReplyPayload, ChatAttachment}
use ubuntu_daemon.Config.{VideoConfig}
use ubuntu_daemon.Router.Turns.{IsTurn}
use ubuntu_daemon.Video.{
  Backend, TaskStatus, final_error_reply, success_reply, upload_video, fetch_video, after_poll,
  generate, download_video, is_failed_status, GenerationRequest, RuntimeConfig, submit, poll_task,
  resolve_runtime_config, normalize_prompt,
}

-- A reply that ends the turn: with a video that can be found, or with the code of an error.
pub record IsOutcome (owner : Text) (r : ChatReplyPayload) : Type 0 where
  pub turn : IsTurn (r ∷ [])
  pub session : r.session_id ≡ owner
  pub role : r.role ≡ lit "assistant"
  pub result :
      ((r.finish_reason ≡ lit "error") × (r.error_code ≢ []) × (r.attachments ≡ []))
      ⊎ ((r.finish_reason ≡ lit "stop")
          × ((a : ChatAttachment) × (r.attachments ≡ a ∷ [])
              × (is_blank a.media_id ≡ false)
              × (is_blank a.preview_url ≡ false)))

final_error_reply-IsOutcome :
    (session : Text) (seq : ℤ) (code why : Text)
    → code ≢ []
    → IsOutcome session (final_error_reply session seq code why)
unfolding final_error_reply
final_error_reply-IsOutcome session seq code why h = record {
  turn = (refl, refl);
  session = refl;
  role = refl;
  result = inl (refl, h, refl);
}

success_reply-IsOutcome :
    (session : Text) (a : ChatAttachment)
    → is_blank a.media_id ≡ false
    → is_blank a.preview_url ≡ false
    → IsOutcome session (success_reply session a)
unfolding success_reply
success_reply-IsOutcome session a m u = record {
  turn = (refl, refl);
  session = refl;
  role = refl;
  result = inr (refl, (a, refl, m, u));
}

module _ (b : Backend) (cfg : VideoConfig) (id session : Text) where
  failed-IsOutcome :
      (code why : Text) → code ≢ [] → IsOutcome session (final_error_reply session (pos 2) code why)
  failed-IsOutcome code why h = final_error_reply-IsOutcome session (pos 2) code why h

  upload_video-IsOutcome : (path : Text) → IsOutcome session (upload_video b cfg id session path)
  unfolding upload_video lit
  upload_video-IsOutcome path =
      elim (b.upload _)
        as (λ u. IsOutcome session (elim u [
          | err why ↦ final_error_reply session (pos 2) (lit "VIDEO_UPLOAD_FAILED") why
          | ok a ↦
              if is_blank a.preview_url || is_blank a.media_id
              then final_error_reply session (pos 2) (lit "VIDEO_UPLOAD_FAILED")
                  (lit "uploaded video missing media_id or preview_url")
              else success_reply session a
        ])) [
          | err why ↦ failed-IsOutcome (lit "VIDEO_UPLOAD_FAILED") why (cc)
          | ok a ↦ elim (Bool-cases (is_blank a.preview_url || is_blank a.media_id)) [
            | inl missing ↦ rw missing (
                failed-IsOutcome (lit "VIDEO_UPLOAD_FAILED")
                  (lit "uploaded video missing media_id or preview_url") (cc))
            | inr found ↦ rw found (success_reply-IsOutcome session a (ground arith) (ground arith))
          ]
        ]

  fetch_video-IsOutcome : (file : Text) → IsOutcome session (fetch_video b cfg id session file)
  unfolding fetch_video lit
  fetch_video-IsOutcome file = from (b.retrieve file) refl
    where
      downloaded :
          (url : Text) (d : Result Text)
          → download_video (b.download url) id cfg ≡ d
          → b.retrieve file ≡ ok url
          → IsOutcome session (fetch_video b cfg id session file)
      downloaded url (err why) f e =
          rw (e, f, fetch_video) (failed-IsOutcome (lit "VIDEO_DOWNLOAD_FAILED") why (cc))
      downloaded url (ok path) f e = rw (e, f, fetch_video) (upload_video-IsOutcome path)

      from :
          (u : Result Text)
          → b.retrieve file ≡ u
          → IsOutcome session (fetch_video b cfg id session file)
      from (err why) e =
          rw (e, fetch_video) (failed-IsOutcome (lit "VIDEO_FILE_RETRIEVE_FAILED") why (cc))
      from (ok url) e = downloaded url (download_video (b.download url) id cfg) refl e

  after_poll-IsOutcome :
      (polled : Result TaskStatus) → IsOutcome session (after_poll b cfg id session polled)
  unfolding after_poll lit
  after_poll-IsOutcome (err why) = failed-IsOutcome (lit "VIDEO_TASK_TIMEOUT") why (cc)
  after_poll-IsOutcome (ok s) = elim (Bool-cases (is_failed_status s.status)) [
    | inl bad ↦ rw (bad, after_poll) (failed-IsOutcome (lit "VIDEO_TASK_FAILED") _ (cc))
    | inr good ↦ elim (Bool-cases (is_blank s.file_id)) [
      | inl blank ↦
          rw (good, blank, after_poll)
            (failed-IsOutcome (lit "VIDEO_FILE_RETRIEVE_FAILED")
              (lit "video task succeeded but file_id is empty") (cc))
      | inr named ↦ rw (good, named, after_poll) (fetch_video-IsOutcome s.file_id)
    ]
  ]

  abbrev IsOutcomeIf : Option ChatReplyPayload → Type 0
  IsOutcomeIf none = Unit
  IsOutcomeIf (some r) = IsOutcome session r

  submit-IsOutcomeIf : (request : GenerationRequest) → IsOutcomeIf (submit b cfg id session request)
  unfolding submit lit
  submit-IsOutcomeIf request = from (b.create request) refl
    where
      polled :
          (task : Text) (o : Option (Result TaskStatus))
          → poll_task cfg task b.started (b.polls task) ≡ o
          → b.create request ≡ ok task
          → IsOutcomeIf (submit b cfg id session request)
      polled task none f e = rw (e, f, submit) tt
      polled task (some s) f e = rw (e, f, submit) (after_poll-IsOutcome s)

      from :
          (u : Result Text) → b.create request ≡ u → IsOutcomeIf (submit b cfg id session request)
      from (err why) e = rw (e, submit) (failed-IsOutcome (lit "VIDEO_TASK_CREATE_FAILED") why (cc))
      from (ok task) e = polled task (poll_task cfg task b.started (b.polls task)) refl e

  generate-IsOutcomeIf : (p : ChatMessagePayload) → IsOutcomeIf (generate b cfg id session p)
  unfolding generate lit
  generate-IsOutcomeIf p = from (resolve_runtime_config b.environment b.env_file cfg) refl
    where
      from :
          (c : Result RuntimeConfig)
          → resolve_runtime_config b.environment b.env_file cfg ≡ c
          → IsOutcomeIf (generate b cfg id session p)
      from (err why) e =
          rw (e, generate)
            (final_error_reply-IsOutcome session (pos 1) (lit "VIDEO_REQUEST_UNSUPPORTED") why (cc))
      from (ok c) e = elim (Bool-cases (is_nil (normalize_prompt p.text))) [
        | inl empty ↦
            rw (e, empty, generate)
              (final_error_reply-IsOutcome session (pos 1) (lit "VIDEO_REQUEST_UNSUPPORTED")
                (lit "video prompt is empty") (cc))
        | inr asked ↦ rw (e, asked, generate) (submit-IsOutcomeIf _)
      ]

  -- Whatever the provider, the download and the upload give: an answer of `generate` is one reply
  -- that is a complete turn, for the session, from the assistant, and either an error with its code
  -- and no attachment, or a success with one video whose media id and address are not blank.
  pub generate-IsOutcome :
      (p : ChatMessagePayload) (r : ChatReplyPayload)
      → generate b cfg id session p ≡ some r
      → IsOutcome session r
  generate-IsOutcome p r h = subst IsOutcomeIf h (generate-IsOutcomeIf p)
