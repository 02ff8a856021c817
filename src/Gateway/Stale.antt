-- ===== src/Gateway/Stale.antt =====
-- A reply from the transcript belongs to the current turn.
use mathlib.Core.Path.{subst}
use ubuntu_daemon.Base.{
  ℕ, ◌≡◌, refl, sym, ap, ◌∙◌, ◌⊎◌, inl, inr, true, false, ◌&&◌, not, Option, none, some, List, [],
  ◌∷◌, ◌++◌, arith, Text, Result, ok, err, Bool-cases, Option-cases,
}
use ubuntu_daemon.Base.Int.{ℤ, pos, ltb_ℤ}
use ubuntu_daemon.Text.{lit, text_eq, is_blank}
use ubuntu_daemon.Json.{Fields}
use ubuntu_daemon.Config.{OpenClawConfig}
use ubuntu_daemon.Gateway.Values.{word_of}
use ubuntu_daemon.Gateway.Transcript.{
  Reading, fresh, Formats, read_message, message_of, read_transcript_lines, Reply, Look, Best,
  Loaded, loaded, failed, unread, is_recent, earlier, take_best, load_from,
  load_transcript_assistant_reply,
}

-- What stands before the last message of the user has no influence: the reading goes on from there
-- as if the file began there.
pub read_transcript_lines_user :
    (f : Formats) (s : Reading) (before : List Text) (line : Text) (behind : List Text)
    (entry message : Fields)
    → message_of f line ≡ some (entry, message)
    → text_eq (word_of message (lit "role" ∷ [])) (lit "user") ≡ true
    → read_transcript_lines f s (before ++ (line ∷ behind))
      ≡ read_transcript_lines f (fresh true) behind
unfolding read_transcript_lines
read_transcript_lines_user f s [] line behind entry message m u =
    rw (m, read_transcript_lines)
      (ap (λ (t : Reading). read_transcript_lines f t behind) (unfold read_message in rw u refl))
read_transcript_lines_user f s (l ∷ before) line behind entry message m u =
    elim (Option-cases (message_of f l)) [
      | inl e ↦
          rw (e, read_transcript_lines)
            (read_transcript_lines_user f s before line behind entry message m u)
      | inr ((en, me), e) ↦
          rw (e, read_transcript_lines)
            (read_transcript_lines_user f (read_message f en me s) before line behind entry message
              m u)
    ]

-- One of the readings has brought this, with a time behind the user's message if that is known.
abbrev pub Brings : ℤ → Best → List Look → Type 0
Brings min_ms b [] = ⊥
Brings min_ms b (l ∷ looks) =
    ((r : Reply) × (l.reply ≡ ok r) × (is_recent min_ms r ≡ true) × (b ≡ (r.text, r.attachments)))
    ⊎ Brings min_ms b looks

abbrev pub best_of : Loaded → Best
best_of (loaded b) = b
best_of (failed b why) = b
best_of (unread why) = ([], [])

abbrev Here : ℤ → Best → Look → Type 0
Here min_ms b l =
    (r : Reply) × (l.reply ≡ ok r) × (is_recent min_ms r ≡ true) × (b ≡ (r.text, r.attachments))

take_best-cases :
    (min_ms : ℤ) (r : Reply) (best : Best)
    → (take_best min_ms r best ≡ best)
      ⊎ ((is_recent min_ms r ≡ true) × (take_best min_ms r best ≡ (r.text, r.attachments)))
unfolding take_best
take_best-cases min_ms r best = elim (Bool-cases (not (is_blank r.text) && is_recent min_ms r)) [
  | inl better ↦ inr (ground arith, rw (better, take_best) refl)
  | inr worse ↦ inl (rw (worse, take_best) refl)
]

module _ (min_ms deadline : ℤ) (best : Best) (l : Look) (looks : List Look) where
  -- What a step keeps: the best so far, or what this look has brought.
  abbrev Kept : Best → Type 0
  Kept b = (b ≡ best) ⊎ Here min_ms b l

  abbrev Ends : Type 0
  Ends =
      (o : Loaded) × (load_from min_ms deadline best (l ∷ looks) ≡ some o)
      × ((best_of o ≡ ([], [])) ⊎ Kept (best_of o))

  abbrev GoesOn : Type 0
  GoesOn =
      (d : ℤ) × (b : Best) × (load_from min_ms deadline best (l ∷ looks)
        ≡ load_from min_ms d b looks)
      × Kept b

  take_best-Kept : (r : Reply) → l.reply ≡ ok r → Kept (take_best min_ms r best)
  take_best-Kept r e = elim (take_best-cases min_ms r best) [
    | inl same ↦ inl same
    | inr (recent, better) ↦ inr (r, e, recent, better)
  ]

  load_from-cons : Ends ⊎ GoesOn
  unfolding load_from
  load_from-cons = from l.reply refl
    where
      waits :
          (r : Reply) (c : Option Text)
          → l.reply ≡ ok r
          → l.context_error ≡ c
          → (not (is_blank (take_best min_ms r best).0) && (r.complete && is_recent min_ms r))
            ≡ false
          → ltb_ℤ (earlier l.context_deadline deadline) (pos l.time) ≡ false
          → Ends ⊎ GoesOn
      waits r (some why) e f n early = inl (
        failed (take_best min_ms r best) why,
        rw (e, f, n, early, load_from) refl,
        inr (take_best-Kept r e),
      )
      waits r none e f n early = inr (
        earlier l.context_deadline deadline,
        take_best min_ms r best,
        rw (e, f, n, early, load_from) refl,
        take_best-Kept r e,
      )

      from : (a : Result Reply) → l.reply ≡ a → Ends ⊎ GoesOn
      from (err why) e = inl (unread why, rw (e, load_from) refl, inl refl)
      from (ok r) e =
          elim (Bool-cases
            (not (is_blank (take_best min_ms r best).0) && (r.complete && is_recent min_ms r))) [
              | inl found ↦ inl (
                loaded (r.text, r.attachments),
                rw (e, found, load_from) refl,
                inr (inr (r, e, ground arith, refl)),
              )
              | inr n ↦
                  elim (Bool-cases (ltb_ℤ (earlier l.context_deadline deadline) (pos l.time))) [
                    | inl late ↦ inl (
                      loaded (take_best min_ms r best),
                      rw (e, n, late, load_from) refl,
                      inr (take_best-Kept r e),
                    )
                    | inr early ↦ waits r l.context_error e refl n early
                  ]
            ]

-- What the rest of the looks makes of the best reply that a step has kept.
Brings-cons :
    (min_ms : ℤ) (best b c : Best) (l : Look) (looks : List Look)
    → Kept min_ms min_ms best l looks b
    → ((c ≡ ([], [])) ⊎ (c ≡ b)) ⊎ Brings min_ms c looks
    → ((c ≡ ([], [])) ⊎ (c ≡ best)) ⊎ Brings min_ms c (l ∷ looks)
Brings-cons min_ms best b c l looks kept (inl (inl empty)) = inl (inl empty)
Brings-cons min_ms best b c l looks (inl same) (inl (inr e)) = inl (inr (e ∙ same))
Brings-cons min_ms best b c l looks (inr (r, q, recent, same)) (inl (inr e)) =
    inr (inl (r, q, recent, e ∙ same))
Brings-cons min_ms best b c l looks kept (inr later) = inr (inr later)

load_from_lem :
    (min_ms deadline : ℤ) (best : Best) (looks : List Look) (o : Loaded)
    → load_from min_ms deadline best looks ≡ some o
    → ((best_of o ≡ ([], [])) ⊎ (best_of o ≡ best)) ⊎ Brings min_ms (best_of o) looks
load_from_lem min_ms deadline best [] o h = absurd (unfold load_from in cc)
load_from_lem min_ms deadline best (l ∷ looks) o h =
    elim (load_from-cons min_ms deadline best l looks) [
      | inl (o', e, kept) ↦
          let same : o' ≡ o = cc in
          ended (
            subst
              (λ (x : Loaded).
                (best_of x ≡ ([], [])) ⊎ Kept min_ms deadline best l looks (best_of x))
              same kept)
      | inr (d, b, e, kept) ↦
          Brings-cons min_ms best b (best_of o) l looks kept
            (load_from_lem min_ms d b looks o (sym e ∙ h))
    ]
  where
    ended :
        (best_of o ≡ ([], [])) ⊎ Kept min_ms deadline best l looks (best_of o)
        → ((best_of o ≡ ([], [])) ⊎ (best_of o ≡ best)) ⊎ Brings min_ms (best_of o) (l ∷ looks)
    ended (inl empty) = inl (inl empty)
    ended (inr (inl same)) = inl (inr same)
    ended (inr (inr here)) = inr (inl here)

-- A text that is not empty was in the file when the loop looked, behind the user's message by the
-- times in the file if that message's time is known: also when the loop runs into its deadline or
-- the context ends, it gives no older reply.
pub load_transcript_assistant_reply_lem :
    (cfg : OpenClawConfig) (id : Text) (min_ms : ℤ) (started : ℕ) (looks : List Look) (o : Loaded)
    → load_transcript_assistant_reply cfg id min_ms started looks ≡ some o
    → (best_of o ≡ ([], [])) ⊎ Brings min_ms (best_of o) looks
unfolding load_transcript_assistant_reply
load_transcript_assistant_reply_lem cfg id min_ms started looks o h =
    elim (Bool-cases (is_blank id)) [
      | inl blank ↦
          let same : loaded ([], []) ≡ o = cc (rw blank at h) in inl (ap best_of (sym same))
      | inr given ↦ elim (load_from_lem min_ms _ ([], []) looks o (rw given at h)) [
        | inl (inl empty) ↦ inl empty
        | inl (inr empty) ↦ inl empty
        | inr brings ↦ inr brings
      ]
    ]
