-- ===== src/Cloud/Goroutines/Sound.antt =====
-- What holds of the goroutines in every state that they can reach.
use mathlib.Core.Path.{subst}
use ubuntu_daemon.Base.{
  ℕ, ◌<◌, ◌≤◌, ◌≡◌, ◌≢◌, refl, sym, ap, ◌∙◌, Bool, Option, none, some, List, [], ◌∷◌, ◌++◌, arith,
  ◌==◌, if◌then◌else◌,
}
use ubuntu_daemon.Cloud.Goroutines.{
  Main, dialling, greeting, serving, pinging, Doing, absent, reading, handling, ended, holding,
  writing, Message, auth, ping, reply, Shared, start, put, down, begin_, wrote, moves, goes, notes,
  Step, dialled, greeted, not_greeted, ticked, pinged, not_pinged, stopped, received, not_received,
  noted, answering, answered, not_answered, handled, Reach, here, next,
}

-- The connection of `runOnce`.
abbrev pub conn_of : Main → Option ℕ
conn_of dialling = none
conn_of (greeting n) = some n
conn_of (serving n) = some n
conn_of (pinging n) = some n

-- The first message that was written on a connection.
unfoldable pub first_on : ℕ → List (ℕ × Message) → Option Message
first_on n [] = none
first_on n ((m, x) ∷ log) = if m == n then some x else first_on n log

pub record IsSound (s : Shared) : Type 0 where
  pub current : s.conn ≡ conn_of s.main
  pub known : (n : ℕ) → s.conn ≡ some n → n < s.fresh
  pub unborn : (n : ℕ) → s.fresh ≤ n → s.reader n ≡ absent
  pub aimed : (n m : ℕ) → s.reader n ≡ writing m → m < s.fresh
  pub unused : (n : ℕ) → s.fresh ≤ n → first_on n s.log ≡ none

pub first_on-append :
    (n m : ℕ) (x : Message) (log : List (ℕ × Message))
    → first_on n (log ++ ((m, x) ∷ []))
      ≡ (elim (first_on n log) [ some y ↦ some y | none ↦ if m == n then some x else none ])
unfolding first_on
first_on-append n m x [] = ground arith
first_on-append n m x ((k, y) ∷ log) = ground (arith, first_on-append n m x log)

pub start-IsSound : IsSound start
unfolding first_on
start-IsSound = record {
  current = refl;
  known = λ n e. absurd (cc);
  unborn = λ n h. refl;
  aimed = λ n m e. absurd (cc);
  unused = λ n h. refl;
}

module _ (s : Shared) (h : IsSound s) where
  -- A reader that has begun belongs to a connection that was made.
  born : (n : ℕ) (d : Doing) → s.reader n ≡ d → d ≢ absent → n < s.fresh
  born n d e ne = ground (arith, h.unborn n)

  moves-IsSound :
      (n : ℕ) (d : Doing)
      → n < s.fresh
      → ((m : ℕ) → d ≡ writing m → m < s.fresh)
      → IsSound (moves n d s)
  unfolding moves put
  moves-IsSound n d lives aims = record {
    current = h.current;
    known = h.known;
    unborn = λ k below. ground (arith, h.unborn k);
    aimed = λ k m e. ground (arith, h.aimed k m, aims m);
    unused = h.unused;
  }

  wrote-IsSound : (n : ℕ) (x : Message) → n < s.fresh → IsSound (wrote n x s)
  unfolding wrote
  wrote-IsSound n x lives = record {
    current = h.current;
    known = h.known;
    unborn = h.unborn;
    aimed = h.aimed;
    unused = λ k below. ground (arith, h.unused k below, first_on-append k n x s.log);
  }

  goes-IsSound : (m : Main) → conn_of m ≡ s.conn → IsSound (goes m s)
  unfolding goes
  goes-IsSound m e = record {
    current = sym e;
    known = h.known;
    unborn = h.unborn;
    aimed = h.aimed;
    unused = h.unused;
  }

  down-IsSound : IsSound (down s)
  unfolding down
  down-IsSound = record {
    current = refl;
    known = λ n e. absurd (cc);
    unborn = h.unborn;
    aimed = h.aimed;
    unused = h.unused;
  }

  begin-IsSound : IsSound (begin_ s)
  unfolding begin_
  begin-IsSound = record {
    current = refl;
    known = λ n e. ground arith;
    unborn = λ n below. h.unborn n (omega arith);
    aimed = λ n m e. omega (arith, h.aimed n m e);
    unused = λ n below. h.unused n (omega arith);
  }

  notes-IsSound : (b : Bool) → IsSound (notes b s)
  unfolding notes
  notes-IsSound b = record {
    current = h.current;
    known = h.known;
    unborn = h.unborn;
    aimed = h.aimed;
    unused = h.unused;
  }

  -- The connection that `runOnce` is on.
  on : (m : Main) (n : ℕ) → s.main ≡ m → conn_of m ≡ some n → s.conn ≡ some n
  on m n e q = h.current ∙ ap conn_of e ∙ q

pub Step-IsSound : {s t : Shared} → Step s t → IsSound s → IsSound t
unfolding wrote moves goes
Step-IsSound {s} (dialled e) h = begin-IsSound s h
Step-IsSound {s} (greeted n e) h =
    let open_ = on s h (greeting n) n e refl in
    let lives = h.known n open_ in
    let h₁ = goes-IsSound s h (serving n) (sym open_) in
    let h₂ = moves-IsSound _ h₁ n reading lives (λ m q. absurd (cc)) in
    wrote-IsSound _ h₂ n auth lives
Step-IsSound {s} (not_greeted n e) h = down-IsSound s h
Step-IsSound {s} (ticked n e) h = goes-IsSound s h (pinging n) (sym (on s h (serving n) n e refl))
Step-IsSound {s} (pinged n e) h =
    let open_ = on s h (pinging n) n e refl in
    wrote-IsSound _ (goes-IsSound s h (serving n) (sym open_)) n ping (h.known n open_)
Step-IsSound {s} (not_pinged n e) h = down-IsSound s h
Step-IsSound {s} (stopped n e) h = down-IsSound s h
Step-IsSound {s} (received n accepts e q) h =
    moves-IsSound s h n (holding accepts) (h.known n q) (λ m r. absurd (cc))
Step-IsSound {s} (not_received n e) h =
    moves-IsSound s h n ended (born s h n reading e (λ q. cc)) (λ m r. absurd (cc))
Step-IsSound {s} (noted n accepts e) h =
    notes-IsSound _
      (moves-IsSound s h n handling (born s h n (holding accepts) e (λ q. cc)) (λ m r. absurd (cc)))
      accepts
Step-IsSound {s} (answering n m e q) h =
    moves-IsSound s h n (writing m) (born s h n handling e (λ r. cc))
      (λ k r. subst (λ j. j < s.fresh) (cc) (h.known m q))
Step-IsSound {s} (answered n m e q) h =
    wrote-IsSound _
      (moves-IsSound s h n handling (born s h n (writing m) e (λ r. cc)) (λ k r. absurd (cc))) m
      reply (h.known m q)
Step-IsSound {s} (not_answered n m e) h =
    moves-IsSound s h n handling (born s h n (writing m) e (λ r. cc)) (λ k r. absurd (cc))
Step-IsSound {s} (handled n e) h =
    moves-IsSound s h n reading (born s h n handling e (λ r. cc)) (λ k r. absurd (cc))

-- In every state that the goroutines can reach, `conn` is the connection that `runOnce` is on, and
-- nil between two connections; a reader, a write of a reader and a written message belong to a
-- connection that has been made.
pub Reach-IsSound : {s : Shared} → Reach start s → IsSound s
Reach-IsSound here = start-IsSound
Reach-IsSound (next r st) = Step-IsSound st (Reach-IsSound r)
