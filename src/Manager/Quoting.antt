-- ===== src/Manager/Quoting.antt =====
-- The values of the environment file, read back: by a shell, and by the daemon itself.
use mathlib.Core.List.{reverse-append, reverse-cons, reverse-reverse}
use ubuntu_daemon.Base.{
  ℕ, suc, ◌-◌, ◌≡◌, refl, sym, ap, ◌∙◌, Bool, true, false, ◌||◌, Option, none, some, [], ◌∷◌, ◌++◌,
  map, reverse, arith, Text, ◌==◌, ==_iff, length, length-append, take, Bool-cases, inl, inr,
  if◌then◌else◌,
}
use ubuntu_daemon.Text.{trim_space, replace_byte, has_prefix, spaces, drop_front, front_size}
use ubuntu_daemon.Manager.{single_quote, double_quote, shell_escape, is_quoted_by, trim_env_value}

-- Where a shell stands in a word.
pub data Quoting : Type 0 where
  bare single double : Quoting

abbrev then_byte : ℕ → Option Text → Option Text
then_byte c none = none
then_byte c (some s) = some (c ∷ s)

-- The word that a POSIX shell reads, if each part of it is quoted. The bytes that keep a meaning
-- between double quotes are refused.
unfoldable pub read_word : Quoting → Text → Option Text
read_word bare [] = some []
read_word single [] = none
read_word double [] = none
read_word bare (c ∷ s) =
    let in_single = read_word single s in
    let in_double = read_word double s in
    if c == single_quote then in_single else if c == double_quote then in_double else none
read_word single (c ∷ s) =
    let outside = read_word bare s in
    let inside = read_word single s in if c == single_quote then outside else then_byte c inside
read_word double (c ∷ s) =
    let outside = read_word bare s in
    let inside = read_word double s in
    if c == double_quote
    then outside
    else if c == b'$' || c == b'`' || c == 0x5C
    then none
    else then_byte c inside

read_word-replaced :
    (v : Text)
    → read_word single (
        replace_byte single_quote
          (single_quote ∷ double_quote ∷ single_quote ∷ double_quote ∷ single_quote ∷ [])
          v
        ++ (single_quote ∷ []))
      ≡ some v
unfolding read_word replace_byte
read_word-replaced [] = refl
read_word-replaced (c ∷ v) = elim (Bool-cases (c == single_quote)) [
  | inl quote ↦
      rw (quote, replace_byte)
        (ap (λ w. then_byte single_quote w) (read_word-replaced v)
          ∙ ap (λ b. some (b ∷ v)) (sym ((==_iff c single_quote).0 quote)))
  | inr other ↦ rw (other, replace_byte) (rw (other, read_word) (rw (read_word-replaced v) refl))
]

-- A shell that reads an escaped value has the value again, whatever bytes it holds.
pub read_word-shell_escape : (v : Text) → read_word bare (shell_escape v) ≡ some v
unfolding shell_escape read_word
read_word-shell_escape v = read_word-replaced v

-- `strings.Contains(s, string(b))` for a byte.
unfoldable pub has_byte : ℕ → Text → Bool
has_byte b [] = false
has_byte b (c ∷ s) = c == b || has_byte b s

replace_byte_of_none : (b : ℕ) (new v : Text) → has_byte b v ≡ false → replace_byte b new v ≡ v
unfolding replace_byte has_byte
replace_byte_of_none b new [] h = refl
replace_byte_of_none b new (c ∷ v) h = ground (arith, replace_byte_of_none b new v)

drop_front-quote : (s : Text) → drop_front spaces 0 (single_quote ∷ s) ≡ single_quote ∷ s
unfolding drop_front front_size has_prefix
drop_front-quote s = refl

drop_front-quote_end :
    (s : Text) → drop_front (map reverse spaces) 0 (single_quote ∷ s) ≡ single_quote ∷ s
unfolding drop_front front_size has_prefix
drop_front-quote_end s = refl

reverse-quoted :
    (v : Text)
    → reverse (single_quote ∷ (v ++ (single_quote ∷ [])))
      ≡ single_quote ∷ (reverse v ++ (single_quote ∷ []))
reverse-quoted v =
    reverse-append (single_quote ∷ v) (single_quote ∷ [])
    ∙ ap (λ w. single_quote ∷ w) (reverse-cons single_quote v)

trim_space-quoted :
    (v : Text)
    → trim_space (single_quote ∷ (v ++ (single_quote ∷ [])))
      ≡ single_quote ∷ (v ++ (single_quote ∷ []))
unfolding trim_space
trim_space-quoted v =
    rw (drop_front-quote (v ++ (single_quote ∷ [])), reverse-quoted v, trim_space)
      (rw (drop_front-quote_end (reverse v ++ (single_quote ∷ []))) (
        ap (λ w. reverse w) (sym (reverse-quoted v))
        ∙ reverse-reverse (single_quote ∷ (v ++ (single_quote ∷ [])))))

is_quoted_by-quoted :
    (v : Text) → is_quoted_by single_quote (single_quote ∷ (v ++ (single_quote ∷ []))) ≡ true
unfolding is_quoted_by has_prefix
is_quoted_by-quoted [] = refl
is_quoted_by-quoted (c ∷ v) = rw (reverse-quoted (c ∷ v)) refl

take-append : (v w : Text) → take (length v) (v ++ w) ≡ v
take-append [] w = refl
take-append (c ∷ v) w = rw (take-append v w) refl

inner_length : (v : Text) → suc (length (v ++ (single_quote ∷ []))) - 2 ≡ length v
inner_length v = omega (arith, length-append v (single_quote ∷ []))

-- A value without a single quote is read back by the daemon as it was: `trimEnvValue` undoes
-- `shellEscape`, also for a value that begins or ends with white space or double quotes.
pub trim_env_value-shell_escape :
    (v : Text) → has_byte single_quote v ≡ false → trim_env_value (shell_escape v) ≡ v
unfolding shell_escape trim_env_value
trim_env_value-shell_escape v h =
    rw (replace_byte_of_none single_quote _ v h, trim_space-quoted v, is_quoted_by-quoted v)
      (ap (λ (n : ℕ). take n (v ++ (single_quote ∷ []))) (inner_length v)
        ∙ take-append v (single_quote ∷ []))
