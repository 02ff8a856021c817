-- ===== src/Json/Laws.antt =====
-- Reading a map behind a change of it.
use ubuntu_daemon.Base.{◌≡◌, refl, false, none, some, arith, Text, if◌then◌else◌}
use ubuntu_daemon.Text.{text_eq, text_eq_iff, text_eq_refl}
use ubuntu_daemon.Json.{Value, Fields, end, field, get, put, delete}

pub get-put :
    (fs : Fields) (k q : Text) (v : Value)
    → get (put fs k v) q ≡ (if text_eq k q then some v else get fs q)
unfolding get put
get-put end k q v = refl
get-put (field l u fs) k q v =
    ground (arith, text_eq_iff k q, text_eq_iff l k, text_eq_iff l q, get-put fs k q v)

pub get-delete :
    (fs : Fields) (k q : Text) → get (delete fs k) q ≡ (if text_eq k q then none else get fs q)
unfolding get delete
get-delete end k q = ground arith
get-delete (field l u fs) k q =
    ground (arith, text_eq_iff k q, text_eq_iff l k, text_eq_iff l q, get-delete fs k q)

pub get-put_self : (fs : Fields) (k : Text) (v : Value) → get (put fs k v) k ≡ some v
get-put_self fs k v = rw (get-put fs k k v, text_eq_refl k) refl

pub get-put_other :
    (fs : Fields) (k q : Text) (v : Value) → text_eq k q ≡ false → get (put fs k v) q ≡ get fs q
get-put_other fs k q v h = rw (get-put fs k q v, h) refl

pub get-delete_self : (fs : Fields) (k : Text) → get (delete fs k) k ≡ none
get-delete_self fs k = rw (get-delete fs k k, text_eq_refl k) refl

pub get-delete_other :
    (fs : Fields) (k q : Text) → text_eq k q ≡ false → get (delete fs k) q ≡ get fs q
get-delete_other fs k q h = rw (get-delete fs k q, h) refl
