-- ===== src/Store/Laws.antt =====
-- What is saved is loaded again, and a failed save loses nothing.
use ubuntu_daemon.Base.{◌≡◌, ◌≢◌, none, arith, Text, ok, is_ok, if◌then◌else◌}
use ubuntu_daemon.Files.{Calls, Disk}
use ubuntu_daemon.Files.Laws.{write_atomically_result}
use ubuntu_daemon.Store.{State, FileStore, load, save}

-- If the state's JSON decodes to the state, then after a save the store loads the saved state if
-- the save succeeded, and what it would have loaded before if it failed, whichever call failed.
pub load-save :
    (s : FileStore) (calls : Calls) (state : State) (text : Text) (d : Disk)
    → calls.temp_name ≢ s.path
    → s.encode state ≡ ok text
    → s.decode text ≡ ok state
    → load s none (save s calls state d).1
      ≡ (if is_ok (save s calls state d).0 then ok state else load s none d)
unfolding load save
load-save s calls state text d ne e r =
    ground (arith, write_atomically_result calls s.path text 0o600 d ne)
