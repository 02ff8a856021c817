-- ===== src/Cloud/Goroutines.antt =====
-- internal/cloud/client.go, with its goroutines apart: `runOnce`, one reader for each connection that
-- was made, and the handlers in the readers, which answer by `SendEnvelope`. A reader ends only when
-- it reads, so one that is in a handler outlives its connection. Connections are numbered.
pub mod Sound
pub mod Races
pub mod Orderly
use ubuntu_daemon.Base.{
  ℕ, zero, suc, Bool, true, false, ◌≡◌, ◌⊎◌, Option, none, some, List, [], ◌∷◌, ◌++◌, ◌==◌,
  if◌then◌else◌,
}

-- Where `Run` and `runOnce` stand: between two connections, in the write of `sendAuth`, in the
-- `select`, or in the write of `sendPing`.
pub data Main : Type 0 where
  dialling : Main
  greeting serving pinging : ℕ → Main

-- Where the reader of a connection stands: not begun, before `ReadMessage`, behind it with a message
-- that accepts the authentication or does not, in the handler, in a write on a connection, or at its
-- end.
pub data Doing : Type 0 where
  absent reading handling ended : Doing
  holding : Bool → Doing
  writing : ℕ → Doing

pub data Message : Type 0 where
  auth ping reply : Message

pub record Shared : Type 0 where
  pub conn : Option ℕ
  pub authenticated : Bool
  pub main : Main
  pub reader : ℕ → Doing
  pub fresh : ℕ
  pub log : List (ℕ × Message)  -- what was written, and on which connection

abbrev pub start : Shared
start = record {
  conn = none;
  authenticated = false;
  main = dialling;
  reader = λ n. absent;
  fresh = 0;
  log = [];
}

unfoldable pub put : (ℕ → Doing) → ℕ → Doing → ℕ → Doing
put f n d m = if m == n then d else f m

-- The deferred `setConnection(nil, false)` and `conn.Close()`, taken as one step.
unfoldable pub down : Shared → Shared
down s = record s { main = dialling; conn = none; authenticated = false }

unfoldable pub begin_ : Shared → Shared
begin_ s = record s {
  main = greeting s.fresh;
  conn = some s.fresh;
  authenticated = false;
  fresh = suc s.fresh;
}

unfoldable pub wrote : ℕ → Message → Shared → Shared
wrote n m s = record s { log = s.log ++ ((n, m) ∷ []) }

unfoldable pub moves : ℕ → Doing → Shared → Shared
unfolding put
moves n d s = record s { reader = put s.reader n d }

unfoldable pub goes : Main → Shared → Shared
goes m s = record s { main = m }

unfoldable pub notes : Bool → Shared → Shared
notes accepts s = record s { authenticated = if accepts then true else s.authenticated }

-- One step of one goroutine. A read gives a message, and a write succeeds, only on the connection
-- that is open.
pub data Step (s : Shared) : Shared → Type 0 where
  dialled : s.main ≡ dialling → Step s (begin_ s)
  greeted :
      (n : ℕ) → s.main ≡ greeting n → Step s (wrote n auth (moves n reading (goes (serving n) s)))
  not_greeted : (n : ℕ) → s.main ≡ greeting n → Step s (down s)
  ticked : (n : ℕ) → s.main ≡ serving n → Step s (goes (pinging n) s)
  pinged : (n : ℕ) → s.main ≡ pinging n → Step s (wrote n ping (goes (serving n) s))
  not_pinged : (n : ℕ) → s.main ≡ pinging n → Step s (down s)
  stopped : (n : ℕ) → s.main ≡ serving n → Step s (down s)
  received :
      (n : ℕ) (accepts : Bool)
      → s.reader n ≡ reading
      → s.conn ≡ some n
      → Step s (moves n (holding accepts) s)
  not_received : (n : ℕ) → s.reader n ≡ reading → Step s (moves n ended s)
  noted :
      (n : ℕ) (accepts : Bool)
      → s.reader n ≡ holding accepts
      → Step s (notes accepts (moves n handling s))
  answering : (n m : ℕ) → s.reader n ≡ handling → s.conn ≡ some m → Step s (moves n (writing m) s)
  answered :
      (n m : ℕ)
      → s.reader n ≡ writing m
      → s.conn ≡ some m
      → Step s (wrote m reply (moves n handling s))
  not_answered : (n m : ℕ) → s.reader n ≡ writing m → Step s (moves n handling s)
  handled : (n : ℕ) → s.reader n ≡ handling → Step s (moves n reading s)

pub data Reach (s : Shared) : Shared → Type 0 where
  here : Reach s s
  next : {t u : Shared} → Reach s t → Step t u → Reach s u
