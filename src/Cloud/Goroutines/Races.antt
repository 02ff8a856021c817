-- ===== src/Cloud/Goroutines/Races.antt =====
-- What the goroutines can do to one another.
use ubuntu_daemon.Base.{ℕ, ◌≡◌, refl, ap, ◌∙◌, some, arith}
use ubuntu_daemon.Cloud.Goroutines.{
  dialling, greeting, serving, pinging, Doing, handling, writing, reply, Shared, start, put, begin_,
  wrote, moves, goes, dialled, ticked, answering, answered, Reach, next,
}
use ubuntu_daemon.Cloud.Goroutines.Sound.{conn_of, first_on, first_on-append, Reach-IsSound}

put_self : (f : ℕ → Doing) (n : ℕ) (d : Doing) → put f n d n ≡ d
unfolding put
put_self f n d = ground arith

-- A handler that is still at work when its connection has gone can be the first to write on the
-- next connection: its answer goes out there before the authentication of the device.
pub reply_before_auth :
    {s : Shared} (n : ℕ)
    → Reach start s
    → s.main ≡ dialling
    → s.reader n ≡ handling
    → (t : Shared) × Reach start t
      × (t.main ≡ greeting s.fresh)
      × (first_on s.fresh t.log ≡ some reply)
unfolding begin_ wrote moves
reply_before_auth {s} n r down busy =
    let s₁ = begin_ s in
    let s₂ = moves n (writing s.fresh) s₁ in
    let s₃ = wrote s.fresh reply (moves n handling s₂) in
    (
      s₃,
      next (next (next r (dialled down)) (answering n s.fresh busy refl))
          (answered n s.fresh (put_self s.reader n (writing s.fresh)) refl),
      refl,
      ground (
        arith,
        first_on-append s.fresh s.fresh reply s.log,
        (Reach-IsSound r).unused s.fresh (omega arith),
      ),
    )

-- Nothing keeps the ping of `runOnce` and the answer of a handler apart: from every state in which
-- the connection is served while a handler is at work, both can come to be in a write on that
-- connection at once, which the web socket library forbids.
pub concurrent_writes :
    {s : Shared} (n k : ℕ)
    → Reach start s
    → s.main ≡ serving n
    → s.reader k ≡ handling
    → (t : Shared) × Reach start t × (t.main ≡ pinging n) × (t.reader k ≡ writing n)
unfolding moves goes
concurrent_writes {s} n k r serves busy = (
  moves k (writing n) (goes (pinging n) s),
  next (next r (ticked n serves))
      (answering k n busy ((Reach-IsSound r).current ∙ ap conn_of serves)),
  refl,
  put_self s.reader k (writing n),
)
