-- ===== src/Video/Polling.antt =====
-- The polling of a task ends, and what it ends with.
use ubuntu_daemon.Base.{
  ℕ, ◌+◌, ◌*◌, ◌^◌, ◌≤◌, ◌<◌, ◌≡◌, ◌⊎◌, inl, inr, refl, ◌∙◌, true, false, ◌||◌, Option, none, some,
  List, [], ◌∷◌, ◌++◌, arith, Text, Result, ok, err, length, Bool-cases,
}
use ubuntu_daemon.Base.Int.{add_time, ℤ, pos, ltb_ℤ, mul64, mul64_exact}
use ubuntu_daemon.Text.{lit}
use ubuntu_daemon.Config.{VideoConfig, second}
use ubuntu_daemon.Video.{
  TaskStatus, Poll, is_success_status, is_failed_status, poll_from, poll_task,
}

-- The polls begin at this time or later, each an interval or more behind the one before.
abbrev pub IsPaced : ℕ → ℕ → List Poll → Type 0
IsPaced interval time [] = Unit
IsPaced interval time (p ∷ polls) = (time ≤ p.time) × IsPaced interval (p.time + interval) polls

-- The least time that the polls take.
abbrev span : ℕ → List Poll → ℕ
span interval [] = 0
span interval (p ∷ polls) = interval + span interval polls

-- An answer of the loop, if it is no error, is the status of a task that has succeeded or failed.
abbrev pub IsDecided : Result TaskStatus → Type 0
IsDecided (err why) = Unit
IsDecided (ok s) = (is_success_status s.status || is_failed_status s.status) ≡ true

module _ (deadline : ℤ) (id last : Text) (p : Poll) (polls : List Poll) where
  -- The loop ends at this poll, or goes on before the deadline.
  abbrev Ends : Type 0
  Ends = (r : Result TaskStatus) × (poll_from deadline id last (p ∷ polls) ≡ some r) × IsDecided r

  abbrev GoesOn : Type 0
  GoesOn =
      (s : Text) × (ltb_ℤ deadline (pos p.time) ≡ false)
      × (poll_from deadline id last (p ∷ polls) ≡ poll_from deadline id s polls)

  poll_from-cons : Ends ⊎ GoesOn
  unfolding poll_from
  poll_from-cons = elim (Bool-cases (ltb_ℤ deadline (pos p.time))) [
    | inl late ↦ inl (
      err (lit "video task timed out task_id=" ++ (id ++ (lit " last_status=" ++ last))),
      rw (late, poll_from) refl,
      tt,
    )
    | inr early ↦ from p.answer p.context_error refl refl early
  ]
    where
      from :
          (a : Result TaskStatus) (c : Option Text)
          → p.answer ≡ a
          → p.context_error ≡ c
          → ltb_ℤ deadline (pos p.time) ≡ false
          → Ends ⊎ GoesOn
      from (err why) (some stop) e f early = inl (err stop, rw (early, e, f, poll_from) refl, tt)
      from (err why) none e f early = inr ([], early, rw (early, e, f, poll_from) refl)
      from (ok s) c e f early =
          elim (Bool-cases (is_success_status s.status || is_failed_status s.status)) [
            | inl decided ↦ inl (ok s, rw (early, e, poll_from) (rw decided refl), decided)
            | inr open_ ↦ pending c f open_
          ]
        where
          pending :
              (c' : Option Text)
              → p.context_error ≡ c'
              → (is_success_status s.status || is_failed_status s.status) ≡ false
              → Ends ⊎ GoesOn
          pending (some stop) f' open_ =
              inl (err stop, rw (early, e, f', poll_from) (rw open_ refl), tt)
          pending none f' open_ =
              inr (s.status, early, rw (early, e, f', poll_from) (rw open_ refl))

poll_from_ends :
    (interval time d : ℕ) (id last : Text) (p : Poll) (polls : List Poll)
    → IsPaced interval time (p ∷ polls)
    → d < time + span interval polls
    → (r : Result TaskStatus) × (poll_from (pos d) id last (p ∷ polls) ≡ some r) × IsDecided r
poll_from_ends interval time d id last p [] (l, paced) h =
    elim (poll_from-cons (pos d) id last p []) [
      | inl ends ↦ ends
      | inr (s, early, e) ↦ absurd (ground arith)
    ]
poll_from_ends interval time d id last p (q ∷ polls) (l, paced) h =
    elim (poll_from-cons (pos d) id last p (q ∷ polls)) [
      | inl ends ↦ ends
      | inr (s, early, e) ↦
          let (r, f, decided) =
            poll_from_ends interval (p.time + interval) d id s q polls paced (omega arith) in
          (r, e ∙ f, decided)
    ]

span_lem : (interval : ℕ) (polls : List Poll) → span interval polls ≡ length polls * interval
span_lem interval [] = omega arith
span_lem interval (p ∷ polls) = omega (arith, span_lem interval polls)

-- The loop ends: with a time limit of `limit` seconds and polls that are `interval` seconds or more
-- apart, it has a result after at most `limit / interval + 2` polls, whatever the queries answer,
-- and a result that is no error is the status of a task that has succeeded or failed.
pub poll_task_ends :
    (cfg : VideoConfig) (limit interval started : ℕ) (id : Text) (p : Poll) (polls : List Poll)
    → cfg.task_timeout_sec ≡ pos limit
    → limit < 2 ^ 32
    → IsPaced (interval * second) started (p ∷ polls)
    → limit < length polls * interval
    → (r : Result TaskStatus) × (poll_task cfg id started (p ∷ polls) ≡ some r) × IsDecided r
unfolding poll_task add_time
poll_task_ends cfg limit interval started id p polls e wide paced enough =
    let lasts : mul64 (pos limit) second ≡ pos (limit * second) =
      mul64_exact limit second (omega arith) in
    rw (e, lasts)
      (poll_from_ends (interval * second) started (started + limit * second) id [] p polls paced
        (omega (arith, span_lem (interval * second) polls)))
