-- ===== src/Cloud/Goroutines/Orderly.antt =====
-- As long as every handler answers on the connection of its own reader, the device's authentication
-- is the first message of each connection.
use mathlib.Core.Path.{subst}
use ubuntu_daemon.Base.{
  ℕ, ◌≡◌, ◌≢◌, refl, sym, ◌∙◌, Bool, none, some, [], ◌∷◌, ◌++◌, arith, ◌==◌, ==_iff, Bool-cases,
  inl, inr, ◌⊎◌,
}
use ubuntu_daemon.Cloud.Goroutines.{
  greeting, serving, pinging, Doing, absent, reading, handling, ended, holding, writing, Message,
  auth, ping, reply, Shared, start, put, down, begin_, wrote, moves, goes, notes, Step, dialled,
  greeted, not_greeted, ticked, pinged, not_pinged, stopped, received, not_received, noted,
  answering, answered, not_answered, handled,
}
use ubuntu_daemon.Cloud.Goroutines.Sound.{
  IsSound, first_on, first_on-append, start-IsSound, Step-IsSound,
}

-- The handler of reader `n` answers on connection `n`.
abbrev pub OnOwn : {s t : Shared} → Step s t → Type 0
OnOwn (dialled e) = Unit
OnOwn (greeted n e) = Unit
OnOwn (not_greeted n e) = Unit
OnOwn (ticked n e) = Unit
OnOwn (pinged n e) = Unit
OnOwn (not_pinged n e) = Unit
OnOwn (stopped n e) = Unit
OnOwn (received n accepts e q) = Unit
OnOwn (not_received n e) = Unit
OnOwn (noted n accepts e) = Unit
OnOwn (answering n m e q) = n ≡ m
OnOwn (answered n m e q) = Unit
OnOwn (not_answered n m e) = Unit
OnOwn (handled n e) = Unit

pub data OwnReach : Shared → Type 0 where
  begun : OwnReach start
  after : {s t : Shared} → OwnReach s → (st : Step s t) → OnOwn st → OwnReach t

-- The connection has seen the authentication, and that first.
abbrev Greeted : Shared → ℕ → Type 0
Greeted s n = first_on n s.log ≡ some auth

record IsOrdered (s : Shared) : Type 0 where
  readers : (n : ℕ) → s.reader n ≢ absent → Greeted s n
  serves : (n : ℕ) → s.main ≡ serving n → Greeted s n
  pings : (n : ℕ) → s.main ≡ pinging n → Greeted s n
  new : (n : ℕ) → s.main ≡ greeting n → first_on n s.log ≡ none
  own : (n m : ℕ) → s.reader n ≡ writing m → n ≡ m
  firsts : (n : ℕ) → (first_on n s.log ≡ none) ⊎ Greeted s n

start-IsOrdered : IsOrdered start
unfolding first_on
start-IsOrdered = record {
  readers = λ n ne. absurd (ne refl);
  serves = λ n e. absurd (cc);
  pings = λ n e. absurd (cc);
  new = λ n e. absurd (cc);
  own = λ n m e. absurd (cc);
  firsts = λ n. inl refl;
}

-- A message behind the first changes no first message.
later_message :
    (s : Shared) (n m : ℕ) (x : Message)
    → Greeted s n
    → first_on m (s.log ++ ((n, x) ∷ [])) ≡ first_on m s.log
later_message s n m x h = ground (arith, first_on-append m n x s.log)

module _ (s : Shared) (h : IsOrdered s) where
  moves-IsOrdered :
      (n : ℕ) (d : Doing)
      → Greeted s n
      → ((m : ℕ) → d ≡ writing m → n ≡ m)
      → IsOrdered (moves n d s)
  unfolding moves put
  moves-IsOrdered n d seen owns = record {
    readers = λ k ne. ground (arith, h.readers k);
    serves = h.serves;
    pings = h.pings;
    new = h.new;
    own = λ k m e. ground (arith, h.own k m, owns m);
    firsts = h.firsts;
  }

  wrote-IsOrdered : (n : ℕ) (x : Message) → Greeted s n → IsOrdered (wrote n x s)
  unfolding wrote
  wrote-IsOrdered n x seen = record {
    readers = λ k ne. later_message s n k x seen ∙ h.readers k ne;
    serves = λ k e. later_message s n k x seen ∙ h.serves k e;
    pings = λ k e. later_message s n k x seen ∙ h.pings k e;
    new = λ k e. later_message s n k x seen ∙ h.new k e;
    own = h.own;
    firsts = λ k. rw (later_message s n k x seen) (h.firsts k);
  }

  serving-IsOrdered : (n : ℕ) → Greeted s n → IsOrdered (goes (serving n) s)
  unfolding goes
  serving-IsOrdered n seen = record {
    readers = h.readers;
    serves = λ k e. subst (Greeted s) (cc) seen;
    pings = λ k e. absurd (cc);
    new = λ k e. absurd (cc);
    own = h.own;
    firsts = h.firsts;
  }

  pinging-IsOrdered : (n : ℕ) → Greeted s n → IsOrdered (goes (pinging n) s)
  unfolding goes
  pinging-IsOrdered n seen = record {
    readers = h.readers;
    serves = λ k e. absurd (cc);
    pings = λ k e. subst (Greeted s) (cc) seen;
    new = λ k e. absurd (cc);
    own = h.own;
    firsts = h.firsts;
  }

  down-IsOrdered : IsOrdered (down s)
  unfolding down
  down-IsOrdered = record {
    readers = h.readers;
    serves = λ k e. absurd (cc);
    pings = λ k e. absurd (cc);
    new = λ k e. absurd (cc);
    own = h.own;
    firsts = h.firsts;
  }

  begin-IsOrdered : first_on s.fresh s.log ≡ none → IsOrdered (begin_ s)
  unfolding begin_
  begin-IsOrdered unused = record {
    readers = h.readers;
    serves = λ k e. absurd (cc);
    pings = λ k e. absurd (cc);
    new = λ k e. subst (λ n. first_on n s.log ≡ none) (cc) unused;
    own = h.own;
    firsts = h.firsts;
  }

  notes-IsOrdered : (b : Bool) → IsOrdered (notes b s)
  unfolding notes
  notes-IsOrdered b = record {
    readers = h.readers;
    serves = h.serves;
    pings = h.pings;
    new = h.new;
    own = h.own;
    firsts = h.firsts;
  }

  -- The authentication is the first message of a new connection.
  greeted-IsOrdered :
      (n : ℕ)
      → s.main ≡ greeting n
      → IsOrdered (wrote n auth (moves n reading (goes (serving n) s)))
  unfolding wrote moves goes put
  greeted-IsOrdered n e =
      let unseen = h.new n e in
      let others : (k : ℕ) → Greeted s k → first_on k (s.log ++ ((n, auth) ∷ [])) ≡ some auth =
        λ k seen. ground (arith, first_on-append k n auth s.log) in
      let mine : first_on n (s.log ++ ((n, auth) ∷ [])) ≡ some auth =
        ground (arith, first_on-append n n auth s.log) in
      record {
        readers = λ k ne. elim (Bool-cases (k == n)) [
          | inl same ↦
              subst (λ j. first_on j (s.log ++ ((n, auth) ∷ [])) ≡ some auth)
                (sym ((==_iff k n).0 same)) mine
          | inr other ↦ others k (h.readers k (ground arith))
        ];
        serves = λ k q. subst (λ j. first_on j (s.log ++ ((n, auth) ∷ [])) ≡ some auth) (cc) mine;
        pings = λ k q. absurd (cc);
        new = λ k q. absurd (cc);
        own = λ k m q. ground (arith, h.own k m);
        firsts = λ k. ground (arith, first_on-append k n auth s.log, h.firsts k);
      }

Step-IsOrdered : {s t : Shared} (st : Step s t) → OnOwn st → IsSound s → IsOrdered s → IsOrdered t
unfolding wrote moves goes
Step-IsOrdered {s} (dialled e) o f h = begin-IsOrdered s h (f.unused s.fresh (omega arith))
Step-IsOrdered {s} (greeted n e) o f h = greeted-IsOrdered s h n e
Step-IsOrdered {s} (not_greeted n e) o f h = down-IsOrdered s h
Step-IsOrdered {s} (ticked n e) o f h = pinging-IsOrdered s h n (h.serves n e)
Step-IsOrdered {s} (pinged n e) o f h =
    wrote-IsOrdered _ (serving-IsOrdered s h n (h.pings n e)) n ping (h.pings n e)
Step-IsOrdered {s} (not_pinged n e) o f h = down-IsOrdered s h
Step-IsOrdered {s} (stopped n e) o f h = down-IsOrdered s h
Step-IsOrdered {s} (received n accepts e q) o f h =
    moves-IsOrdered s h n (holding accepts) (h.readers n (λ r. cc)) (λ m r. absurd (cc))
Step-IsOrdered {s} (not_received n e) o f h =
    moves-IsOrdered s h n ended (h.readers n (λ r. cc)) (λ m r. absurd (cc))
Step-IsOrdered {s} (noted n accepts e) o f h =
    notes-IsOrdered _ (moves-IsOrdered s h n handling (h.readers n (λ r. cc)) (λ m r. absurd (cc)))
      accepts
Step-IsOrdered {s} (answering n m e q) o f h =
    moves-IsOrdered s h n (writing m) (h.readers n (λ r. cc)) (λ k r. o ∙ (cc))
Step-IsOrdered {s} (answered n m e q) o f h =
    let seen : Greeted s n = h.readers n (λ r. cc) in
    wrote-IsOrdered _ (moves-IsOrdered s h n handling seen (λ k r. absurd (cc))) m reply
      (subst (Greeted s) (h.own n m e) seen)
Step-IsOrdered {s} (not_answered n m e) o f h =
    moves-IsOrdered s h n handling (h.readers n (λ r. cc)) (λ k r. absurd (cc))
Step-IsOrdered {s} (handled n e) o f h =
    moves-IsOrdered s h n reading (h.readers n (λ r. cc)) (λ k r. absurd (cc))

OwnReach-IsOrdered : {s : Shared} → OwnReach s → IsSound s × IsOrdered s
OwnReach-IsOrdered begun = (start-IsSound, start-IsOrdered)
OwnReach-IsOrdered (after r st o) =
    let (f, h) = OwnReach-IsOrdered r in (Step-IsSound st f, Step-IsOrdered st o f h)

-- In every state that is reached while each handler answers only on the connection of its own
-- reader, what was written first on a connection is the authentication of the device.
pub auth_first :
    {s : Shared} → OwnReach s → (n : ℕ) (x : Message) → first_on n s.log ≡ some x → x ≡ auth
auth_first r n x e = elim ((OwnReach-IsOrdered r).1.firsts n) [
  | inl unseen ↦ absurd (cc)
  | inr seen ↦ cc
]
