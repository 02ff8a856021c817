-- ===== src/Video/Table.antt =====
-- The table of `Generate`, one entry for each request id, in steps: a call that finds no entry
-- starts `generate`, one that finds an entry waits until it is done and returns what it holds.
use ubuntu_daemon.Base.{Bool, Option, none, some, List, [], ◌∷◌, ◌++◌, Text, ok, if◌then◌else◌}
use ubuntu_daemon.Base.Int.{pos}
use ubuntu_daemon.Text.{lit, text_eq}
use ubuntu_daemon.Router.{Replies}
use ubuntu_daemon.Video.Generate.{final_error_reply}

-- An entry is `none` until its `done` is closed.
abbrev pub Results : Type 0
Results = List (Text × Option Replies)

unfoldable pub entry_at : Results → Text → Option (Option Replies)
entry_at [] id = none
entry_at ((k, e) ∷ rs) id = if text_eq k id then some e else entry_at rs id

unfoldable pub set_entry : Results → Text → Option Replies → Results
set_entry [] id e = (id, e) ∷ []
set_entry ((k, old) ∷ rs) id e =
    let rest = set_entry rs id e in if text_eq k id then (k, e) ∷ rs else (k, old) ∷ rest

-- The table, the ids for which `generate` was started, and what calls have returned from it.
pub record Requests : Type 0 where
  pub results : Results
  pub started : List Text
  pub answers : List (Text × Replies)

abbrev pub no_requests : Requests
no_requests = record { results = []; started = []; answers = [] }

-- A call for an id, or the end of the `generate` of an id with its outcome.
pub data Step : Type 0 where
  called : Text → Step
  finished : Text → Replies → Step

unfoldable pub step : Step → Requests → Requests
step (called id) s = elim (entry_at s.results id) [
  | none ↦ record s { results = set_entry s.results id none; started = s.started ++ (id ∷ []) }
  | some e ↦ elim e [ none ↦ s | some r ↦ record s { answers = s.answers ++ ((id, r) ∷ []) } ]
]
step (finished id r) s = elim (entry_at s.results id) [
  | none ↦ s
  | some e ↦ elim e [
    | some old ↦ s
    | none ↦ record s {
      results = set_entry s.results id (some r);
      answers = s.answers ++ ((id, r) ∷ []);
    }
  ]
]

unfoldable pub steps : List Step → Requests → Requests
steps [] s = s
steps (x ∷ xs) s = steps xs (step x s)

-- A call while videos are disabled does not touch the table.
unfoldable pub disabled_replies : Text → Replies
disabled_replies session = ok (
    final_error_reply session (pos 1) (lit "VIDEO_REQUEST_UNSUPPORTED")
      (lit "video generation is disabled")
    ∷ [])

-- What a call returns without waiting; one that starts `generate` or waits for it returns later.
abbrev at_once : Option (Option Replies) → Option Replies
at_once none = none
at_once (some e) = e

-- `Generate` up to the point where it returns, waits, or starts `generate`.
unfoldable pub call : Bool → Text → Text → Requests → Option Replies × Requests
call enabled id session s =
    if enabled
    then (at_once (entry_at s.results id), step (called id) s)
    else (some (disabled_replies session), s)
