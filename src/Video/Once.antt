-- ===== src/Video/Once.antt =====
-- A video is made at most once for a request, and all calls for it return the same.
use ubuntu_daemon.Base.{
  ℕ, ◌+◌, ◌≡◌, ◌≢◌, refl, sym, ap, ◌∙◌, Option, none, some, List, [], ◌∷◌, ◌++◌, arith, Text, All,
  All-append, Bool-cases, inl, inr, if◌then◌else◌,
}
use ubuntu_daemon.Text.{text_eq, text_eq_iff, text_eq_refl}
use ubuntu_daemon.Router.{Replies}
use ubuntu_daemon.Video.{
  Results, entry_at, set_entry, Requests, no_requests, Step, called, finished, step, steps,
}

abbrev pub count : Text → List Text → ℕ
count id [] = 0
count id (k ∷ ks) = (if text_eq k id then 1 else 0) + count id ks

abbrev pub has_entry : Option (Option Replies) → ℕ
has_entry none = 0
has_entry (some e) = 1

-- What a call has returned is what the table holds for its id.
abbrev pub IsHeld : Results → Text × Replies → Type 0
IsHeld rs a = entry_at rs a.0 ≡ some (some a.1)

pub record IsOnce (s : Requests) : Type 0 where
  pub once : (id : Text) → count id s.started ≡ has_entry (entry_at s.results id)
  pub held : All (IsHeld s.results) s.answers

entry_at-set_entry :
    (rs : Results) (k q : Text) (e : Option Replies)
    → entry_at (set_entry rs k e) q ≡ (if text_eq k q then some e else entry_at rs q)
unfolding entry_at set_entry
entry_at-set_entry [] k q e = refl
entry_at-set_entry ((l, o) ∷ rs) k q e =
    ground (arith, text_eq_iff k q, text_eq_iff l k, text_eq_iff l q, entry_at-set_entry rs k q e)

count-append :
    (id k : Text) (ks : List Text)
    → count id (ks ++ (k ∷ [])) ≡ count id ks + (if text_eq k id then 1 else 0)
count-append id k [] = omega arith
count-append id k (l ∷ ks) = omega (arith, count-append id k ks)

-- Setting an entry that is not done leaves all that was returned.
set_entry-IsHeld :
    (rs : Results) (k : Text) (e : Option Replies) (given : List (Text × Replies))
    → ((r : Replies) → entry_at rs k ≢ some (some r))
    → All (IsHeld rs) given
    → All (IsHeld (set_entry rs k e)) given
set_entry-IsHeld rs k e [] open_ h = tt
set_entry-IsHeld rs k e ((q, r) ∷ given) open_ (h, hs) =
    (one, set_entry-IsHeld rs k e given open_ hs)
  where
    one : entry_at (set_entry rs k e) q ≡ some (some r)
    one = elim (Bool-cases (text_eq k q)) [
      | inl same ↦
          absurd (open_ r (ap (λ (t : Text). entry_at rs t) ((text_eq_iff k q).0 same) ∙ h))
      | inr other ↦ entry_at-set_entry rs k q e ∙ (rw other h)
    ]

start-IsOnce :
    (id : Text) (s : Requests)
    → entry_at s.results id ≡ none
    → IsOnce s
    → IsOnce (record s { results = set_entry s.results id none; started = s.started ++ (id ∷ []) })
start-IsOnce id s e h = record {
  once = counted;
  held = set_entry-IsHeld s.results id none s.answers (λ r q. cc) h.held;
}
  where
    counted :
        (q : Text)
        → count q (s.started ++ (id ∷ [])) ≡ has_entry (entry_at (set_entry s.results id none) q)
    counted q = elim (Bool-cases (text_eq id q)) [
      | inl same ↦
          let before : count q s.started ≡ 0 =
            h.once q
            ∙ ap (λ (o : Option (Option Replies)). has_entry o)
                (ap (λ (t : Text). entry_at s.results t) (sym ((text_eq_iff id q).0 same)) ∙ e) in
          count-append q id s.started
          ∙ rw (same, before, entry_at-set_entry s.results id q none) (rw same refl)
      | inr other ↦
          count-append q id s.started
          ∙ rw (other, entry_at-set_entry s.results id q none) (rw other (omega (arith, h.once q)))
    ]

finish-IsOnce :
    (id : Text) (r : Replies) (s : Requests)
    → entry_at s.results id ≡ some none
    → IsOnce s
    → IsOnce (record s {
      results = set_entry s.results id (some r);
      answers = s.answers ++ ((id, r) ∷ []);
    })
finish-IsOnce id r s e h = record {
  once = counted;
  held =
      All-append (IsHeld (set_entry s.results id (some r))) s.answers ((id, r) ∷ [])
        (set_entry-IsHeld s.results id (some r) s.answers (λ u q. cc) h.held)
        ((entry_at-set_entry s.results id id (some r) ∙ rw (text_eq_refl id) refl, tt));
}
  where
    counted :
        (q : Text) → count q s.started ≡ has_entry (entry_at (set_entry s.results id (some r)) q)
    counted q = elim (Bool-cases (text_eq id q)) [
      | inl same ↦
          let before : entry_at s.results q ≡ some none =
            ap (λ (t : Text). entry_at s.results t) (sym ((text_eq_iff id q).0 same)) ∙ e in
          h.once q ∙ rw (before, entry_at-set_entry s.results id q (some r)) (rw same refl)
      | inr other ↦ h.once q ∙ rw (entry_at-set_entry s.results id q (some r)) (rw other refl)
    ]

answer-IsOnce :
    (id : Text) (r : Replies) (s : Requests)
    → entry_at s.results id ≡ some (some r)
    → IsOnce s
    → IsOnce (record s { answers = s.answers ++ ((id, r) ∷ []) })
answer-IsOnce id r s e h = record {
  once = h.once;
  held = All-append (IsHeld s.results) s.answers ((id, r) ∷ []) h.held (e, tt);
}

step-IsOnce : (x : Step) (s : Requests) → IsOnce s → IsOnce (step x s)
unfolding step
step-IsOnce (called id) s h = from (entry_at s.results id) refl
  where
    from : (o : Option (Option Replies)) → entry_at s.results id ≡ o → IsOnce (step (called id) s)
    from none e = rw (e, step) (start-IsOnce id s e h)
    from (some none) e = rw (e, step) h
    from (some (some r)) e = rw (e, step) (answer-IsOnce id r s e h)
step-IsOnce (finished id r) s h = from (entry_at s.results id) refl
  where
    from :
        (o : Option (Option Replies)) → entry_at s.results id ≡ o → IsOnce (step (finished id r) s)
    from none e = rw (e, step) h
    from (some none) e = rw (e, step) (finish-IsOnce id r s e h)
    from (some (some old)) e = rw (e, step) h

steps-IsOnce : (xs : List Step) (s : Requests) → IsOnce s → IsOnce (steps xs s)
unfolding steps
steps-IsOnce [] s h = h
steps-IsOnce (x ∷ xs) s h = steps-IsOnce xs (step x s) (step-IsOnce x s h)

-- Whatever calls and ends of tasks come in whatever order: for each request id a video is started
-- exactly once if the table has an entry for it and never otherwise, and everything that calls have
-- returned for an id is the one outcome that the table holds.
pub steps_lem : (xs : List Step) → IsOnce (steps xs no_requests)
unfolding entry_at
steps_lem xs = steps-IsOnce xs no_requests (record { once = λ id. refl; held = tt })
