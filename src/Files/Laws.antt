-- ===== src/Files/Laws.antt =====
-- A reader never finds a half-written file.
use ubuntu_daemon.Base.{
  ℕ, ◌≡◌, ◌≢◌, ◌⊎◌, inl, inr, none, some, arith, Text, All, Bool-cases, is_ok, if◌then◌else◌,
}
use ubuntu_daemon.Text.{text_eq, text_eq_iff}
use ubuntu_daemon.Files.Table.{Disk, File, read, write, remove, read-write, read-remove}
use ubuntu_daemon.Files.Atomic.{Calls, write_atomically, store_write_file}

-- What stands at the path is what stood there before, or the whole new file.
abbrev pub IsOldOrNew : Text → Text → ℕ → Disk → Disk → Type 0
IsOldOrNew path content mode before d =
    (read d path ≡ read before path)
    ⊎ (read d path ≡ some (record { content = content; mode = mode }))

module _ (tmp path : Text) (ne : tmp ≢ path) where
  read-write_temp : (d : Disk) (f : File) → read (write d tmp f) path ≡ read d path
  read-write_temp d f = ground (arith, read-write d tmp path f, text_eq_iff tmp path)

  read-remove_temp : (d : Disk) → read (remove d tmp) path ≡ read d path
  read-remove_temp d = ground (arith, read-remove d tmp path, text_eq_iff tmp path)

read-write_ne : (p q : Text) → p ≢ q → (d : Disk) (f : File) → read (write d p f) q ≡ read d q
read-write_ne p q ne d f = ground (arith, read-write d p q f, text_eq_iff p q)

read-write_self : (d : Disk) (p : Text) (f : File) → read (write d p f) p ≡ some f
read-write_self d p f = ground (arith, read-write d p p f, text_eq_iff p p)

read-remove_self : (d : Disk) (p : Text) → read (remove d p) p ≡ none
read-remove_self d p = ground (arith, read-remove d p p, text_eq_iff p p)

-- Whatever calls fail, every state of the disk from the first call to the last has the old file or
-- the whole new one at the path.
pub write_atomically-seen :
    (calls : Calls) (path content : Text) (mode : ℕ) (d : Disk)
    → calls.temp_name ≢ path
    → All (IsOldOrNew path content mode d) (write_atomically calls path content mode d).seen
unfolding write_atomically
write_atomically-seen calls path content mode d ne = grind (
  arith,
  read-write_temp calls.temp_name path ne,
  read-remove_temp calls.temp_name path ne,
  read-write_self,
)

-- A write that succeeds leaves the new file with its mode at the path; one that fails leaves what
-- was there.
pub write_atomically_result :
    (calls : Calls) (path content : Text) (mode : ℕ) (d : Disk)
    → calls.temp_name ≢ path
    → read (write_atomically calls path content mode d).disk path ≡ (
        if is_ok (write_atomically calls path content mode d).result
        then some (record { content = content; mode = mode })
        else read d path)
unfolding write_atomically
write_atomically_result calls path content mode d ne = grind (
  arith,
  read-write_temp calls.temp_name path ne,
  read-remove_temp calls.temp_name path ne,
  read-write_self,
)

-- No other file changes, and with a temporary name that was free none is left behind, on every
-- path through the function.
pub write_atomically-others :
    (calls : Calls) (path content : Text) (mode : ℕ) (d : Disk) (q : Text)
    → read d calls.temp_name ≡ none
    → path ≢ q
    → read (write_atomically calls path content mode d).disk q ≡ read d q
unfolding write_atomically
write_atomically-others calls path content mode d q free ne =
    elim (Bool-cases (text_eq calls.temp_name q)) [
      | inl same ↦
          grind (arith, text_eq_iff calls.temp_name q, read-remove_self, read-write_ne path q ne)
      | inr other ↦
          let apart : calls.temp_name ≢ q = ground (arith, text_eq_iff calls.temp_name q) in
          grind (
            arith,
            read-write_temp calls.temp_name q apart,
            read-remove_temp calls.temp_name q apart,
            read-write_ne path q ne,
          )
    ]

-- The same of the version that makes the directory first.
pub store_write_file_result :
    (calls : Calls) (path content : Text) (mode : ℕ) (d : Disk)
    → calls.temp_name ≢ path
    → read (store_write_file calls path content mode d).disk path ≡ (
        if is_ok (store_write_file calls path content mode d).result
        then some (record { content = content; mode = mode })
        else read d path)
unfolding store_write_file
store_write_file_result calls path content mode d ne =
    ground (arith, write_atomically_result calls path content mode d ne)

-- Writing elsewhere, with any temporary name but this one, leaves a file alone.
pub store_write_file-elsewhere :
    (calls : Calls) (path content : Text) (mode : ℕ) (d : Disk) (q : Text)
    → calls.temp_name ≢ q
    → path ≢ q
    → read (store_write_file calls path content mode d).disk q ≡ read d q
unfolding store_write_file write_atomically
store_write_file-elsewhere calls path content mode d q apart ne = grind (
  arith,
  read-write_temp calls.temp_name q apart,
  read-remove_temp calls.temp_name q apart,
  read-write_ne path q ne,
)
