-- ===== src/Config/Paths.antt =====
-- `absPath`, and the part of `path/filepath` (on Linux) that it and its callers use.
use ubuntu_daemon.Base.{
  Bool, false, ◌&&◌, ◌||◌, not, List, [], ◌∷◌, ◌++◌, reverse, Text, is_nil, ◌==◌, if◌then◌else◌,
}
use ubuntu_daemon.Text.{lit, text_eq, split, join}

unfoldable pub is_abs : Text → Bool
is_abs [] = false
is_abs (c ∷ s) = c == b'/'

-- One element of a path onto the stack of those before it, its top first. An element `..` removes
-- the one before it; at the root it is dropped, and in a relative path it stays.
unfoldable pub push_part : Bool → List Text → Text → List Text
push_part rooted [] part =
    if text_eq part [] || text_eq part (lit ".")
    then []
    else if rooted && text_eq part (lit "..")
    then []
    else part ∷ []
push_part rooted (top ∷ stack) part =
    if text_eq part [] || text_eq part (lit ".")
    then top ∷ stack
    else if text_eq part (lit "..") && not (text_eq top (lit ".."))
    then stack
    else part ∷ top ∷ stack

unfoldable pub push_parts : Bool → List Text → List Text → List Text
unfolding push_part
push_parts rooted stack [] = stack
push_parts rooted stack (part ∷ parts) = push_parts rooted (push_part rooted stack part) parts

-- `filepath.Clean`.
unfoldable pub clean : Text → Text
unfolding push_parts is_abs split join
clean p =
    let rooted = is_abs p in
    let parts = reverse (push_parts rooted [] (split b'/' p)) in
    if rooted
    then b'/' ∷ join (lit "/") parts
    else if is_nil parts
    then lit "."
    else join (lit "/") parts

-- `filepath.Join` of two elements.
unfoldable pub join_paths : Text → Text → Text
unfolding clean
join_paths [] [] = []
join_paths [] b = clean b
join_paths a [] = clean a
join_paths a b = clean (a ++ (b'/' ∷ b))

-- What follows the last slash, and what stands up to it, reversed.
unfoldable pub last_part : Text → Text → Text × Text
last_part [] acc = (acc, [])
last_part (c ∷ s) acc = let more = last_part s (c ∷ acc) in if c == b'/' then (acc, c ∷ s) else more

-- `filepath.Dir`.
unfoldable pub dir : Text → Text
unfolding clean last_part
dir p = clean (reverse (last_part (reverse p) []).1)

unfoldable pub drop_slashes : Text → Text
drop_slashes [] = []
drop_slashes (c ∷ s) = if c == b'/' then drop_slashes s else c ∷ s

-- `filepath.Base`.
unfoldable pub base : Text → Text
unfolding last_part drop_slashes
base [] = lit "."
base (c ∷ s) =
    let name = (last_part (drop_slashes (reverse (c ∷ s))) []).0 in
    if is_nil name then lit "/" else name

unfoldable pub abs_path : Text → Text → Text
unfolding is_abs join_paths
abs_path base_dir value =
    if is_nil value || is_abs value then value else clean (join_paths base_dir value)

-- `filepath.Ext`: from the last dot of the last element on.
unfoldable pub ext_from : Text → Text → Text
ext_from [] acc = []
ext_from (c ∷ s) acc =
    let more = ext_from s (c ∷ acc) in if c == b'/' then [] else if c == b'.' then c ∷ acc else more

unfoldable pub ext : Text → Text
unfolding ext_from
ext p = ext_from (reverse p) []
