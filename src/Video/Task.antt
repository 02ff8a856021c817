-- ===== src/Video/Task.antt =====
-- The task at the provider: what it is asked for, and `pollTask`.
use ubuntu_daemon.Base.{
  ℕ, Bool, ◌&&◌, ◌||◌, not, Option, none, some, List, [], ◌∷◌, ◌++◌, Text, Result, ok, err,
  if◌then◌else◌,
}
use ubuntu_daemon.Base.Int.{ℤ, pos, ltb_ℤ, mul64, add_time}
use ubuntu_daemon.Text.{lit, trim_space, is_blank, equal_fold}
use ubuntu_daemon.Protocol.{ChatInputAttachment}
use ubuntu_daemon.Config.{VideoConfig, second}
use ubuntu_daemon.Video.Words.{is_success_status, is_failed_status}

pub record GenerationRequest : Type 0 where
  pub model : Text
  pub prompt : Text
  pub first_frame_image : Text
  pub duration : ℤ
  pub resolution : Text
  pub prompt_optimizer : Bool

pub record TaskStatus : Type 0 where
  pub task_id : Text
  pub status : Text
  pub file_id : Text

unfoldable pub first_reference_image : List ChatInputAttachment → Text
first_reference_image [] = []
first_reference_image (a ∷ rest) =
    if equal_fold (trim_space a.media_type) (lit "image") && not (is_blank a.preview_url)
    then trim_space a.preview_url
    else first_reference_image rest

-- One turn of the loop: the time when it begins, the answer to the query, and the error of the
-- context if that is done before the interval is over.
pub record Poll : Type 0 where
  pub time : ℕ
  pub answer : Result TaskStatus
  pub context_error : Option Text

-- `none` while the loop goes on behind the last poll.
unfoldable pub poll_from : ℤ → Text → Text → List Poll → Option (Result TaskStatus)
poll_from deadline task_id last [] = none
poll_from deadline task_id last (p ∷ polls) =
    let timed_out =
      err (lit "video task timed out task_id=" ++ (task_id ++ (lit " last_status=" ++ last))) in
    let go_on : Text → Option (Result TaskStatus) = λ status. elim p.context_error [
      | some why ↦ some (err why)
      | none ↦ poll_from deadline task_id status polls
    ] in
    if ltb_ℤ deadline (pos p.time) then some timed_out else elim p.answer [
      | err why ↦ go_on []
      | ok s ↦
          if is_success_status s.status || is_failed_status s.status
          then some (ok s)
          else go_on s.status
    ]

unfoldable pub poll_task : VideoConfig → Text → ℕ → List Poll → Option (Result TaskStatus)
poll_task cfg task_id started polls =
    poll_from (add_time started (mul64 cfg.task_timeout_sec second)) task_id [] polls
