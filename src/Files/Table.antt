-- ===== src/Files/Table.antt =====
-- A file system as a list of named files.
use ubuntu_daemon.Base.{ℕ, ◌≡◌, refl, Option, none, some, List, [], ◌∷◌, arith, Text, if◌then◌else◌}
use ubuntu_daemon.Text.{text_eq, text_eq_iff}

pub record File : Type 0 where
  pub content : Text
  pub mode : ℕ

abbrev pub Disk : Type 0
Disk = List (Text × File)

unfoldable pub read : Disk → Text → Option File
read [] p = none
read ((q, f) ∷ d) p = if text_eq q p then some f else read d p

unfoldable pub write : Disk → Text → File → Disk
write [] p f = (p, f) ∷ []
write ((q, g) ∷ d) p f = if text_eq q p then (p, f) ∷ d else (q, g) ∷ write d p f

unfoldable pub remove : Disk → Text → Disk
remove [] p = []
remove ((q, g) ∷ d) p = let rest = remove d p in if text_eq q p then rest else (q, g) ∷ rest

pub read-write :
    (d : Disk) (p q : Text) (f : File)
    → read (write d p f) q ≡ (if text_eq p q then some f else read d q)
unfolding read write
read-write [] p q f = refl
read-write ((r, g) ∷ d) p q f =
    ground (arith, text_eq_iff p q, text_eq_iff r p, text_eq_iff r q, read-write d p q f)

pub read-remove :
    (d : Disk) (p q : Text) → read (remove d p) q ≡ (if text_eq p q then none else read d q)
unfolding read remove
read-remove [] p q = ground arith
read-remove ((r, g) ∷ d) p q =
    ground (arith, text_eq_iff p q, text_eq_iff r p, text_eq_iff r q, read-remove d p q)
