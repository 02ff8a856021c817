-- ===== src/Tests/Storage.antt =====
-- Files that are replaced, with and without failing calls, and the state file.
use ubuntu_daemon.Base.{◌≢◌, some, [], ◌∷◌, All}
use ubuntu_daemon.Text.{lit}
use ubuntu_daemon.Files.{Calls, all_succeed, File, Disk, write_atomically}
use ubuntu_daemon.Files.Laws.{IsOldOrNew, write_atomically-seen}

abbrev old_file : File
old_file = record { content = lit "old"; mode = 0o600 }

abbrev disk : Disk
disk = (lit "a", old_file) ∷ (lit "bc", old_file) ∷ []

abbrev free : Calls
free = all_succeed (lit "t")

-- A write that stops behind one byte.
abbrev full_disk : Calls
full_disk = record free { write_data = some (lit "no space"); written = 1 }

temp-ne-path : lit "t" ≢ lit "a"
unfolding lit
temp-ne-path = cc

write_atomically-seen_example :
    All
      (IsOldOrNew (lit "a") (lit "new") 0o644 disk)
      (write_atomically full_disk (lit "a") (lit "new") 0o644 disk).seen
write_atomically-seen_example =
    write_atomically-seen full_disk (lit "a") (lit "new") 0o644 disk temp-ne-path
