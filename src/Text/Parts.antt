-- ===== src/Text/Parts.antt =====
-- `strings.Split`, `Cut`, `Join`, `ReplaceAll` with a separator of one byte, and decimal numbers.
use ubuntu_daemon.Base.{
  ℕ, zero, suc, ◌+◌, ◌/◌, ◌%◌, Option, none, some, List, [], ◌∷◌, ◌++◌, Text, ◌==◌, if◌then◌else◌,
}
use ubuntu_daemon.Base.Int.{ℤ, pos, negsuc}

-- `strings.Split(s, sep)`: at least one part.
unfoldable pub split_from : ℕ → Text → Text → List Text
split_from sep cur [] = cur ∷ []
split_from sep cur (c ∷ s) =
    let closed = cur ∷ split_from sep [] s in
    let longer = split_from sep (cur ++ c ∷ []) s in if c == sep then closed else longer

unfoldable pub split : ℕ → Text → List Text
unfolding split_from
split sep s = split_from sep [] s

-- `strings.Cut(s, sep)`: what stands before and after the first separator.
unfoldable pub cut : ℕ → Text → Option (Text × Text)
cut sep [] = none
cut sep (c ∷ s) =
    let later : Option (Text × Text) = elim (cut sep s) [
      | none ↦ none
      | some (l, r) ↦ some (c ∷ l, r)
    ] in
    if c == sep then some ([], s) else later

unfoldable pub join : Text → List Text → Text
join sep [] = []
join sep (p ∷ []) = p
join sep (p ∷ q ∷ ps) = p ++ (sep ++ join sep (q ∷ ps))

-- `strings.ReplaceAll(s, old, new)` for an `old` of one byte.
unfoldable pub replace_byte : ℕ → Text → Text → Text
replace_byte old new [] = []
replace_byte old new (c ∷ s) =
    let rest = replace_byte old new s in if c == old then new ++ rest else c ∷ rest

-- Decimal digits, most significant first; the fuel `suc n` is enough for `n`.
unfoldable pub digits_from : ℕ → ℕ → Text → Text
digits_from zero n acc = acc
digits_from (suc f) n acc =
    let out = (b'0' + n % 10) ∷ acc in
    let more = digits_from f (n / 10) out in if n / 10 == 0 then out else more

-- `%d` of an integer.
unfoldable pub decimal : ℤ → Text
unfolding digits_from
decimal (pos n) = digits_from (suc n) n []
decimal (negsuc n) = b'-' ∷ digits_from (suc (suc n)) (suc n) []
