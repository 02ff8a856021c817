-- ===== src/Text/Case.antt =====
-- `strings.ToLower`, `ToUpper` and `EqualFold`. The code only compares the results with ASCII words
-- and with Chinese ones, which have no case. So a letter outside ASCII is kept as it is, but for the
-- four whose other case is an ASCII letter: U+0130 and U+212A go down to `i` and `k`, U+0131 and
-- U+017F go up to `I` and `S`.
use ubuntu_daemon.Base.{ℕ, ◌+◌, ◌-◌, Bool, ◌&&◌, [], ◌∷◌, map, Text, leb, ◌==◌, if◌then◌else◌}
use ubuntu_daemon.Text.Basic.{text_eq}

abbrev pub lower_byte : ℕ → ℕ
lower_byte c = if leb b'A' c && leb c b'Z' then c + 32 else c

abbrev pub upper_byte : ℕ → ℕ
upper_byte c = if leb b'a' c && leb c b'z' then c - 32 else c

unfoldable pub to_lower : Text → Text
to_lower [] = []
to_lower (a ∷ []) = lower_byte a ∷ []
to_lower (a ∷ b ∷ []) =
    if a == 0xC4 && b == 0xB0 then b'i' ∷ [] else lower_byte a ∷ lower_byte b ∷ []
to_lower (a ∷ b ∷ c ∷ s) =
    let dotted = b'i' ∷ to_lower (c ∷ s) in
    let kelvin = b'k' ∷ to_lower s in
    let plain = lower_byte a ∷ to_lower (b ∷ c ∷ s) in
    if a == 0xC4 && b == 0xB0
    then dotted
    else if a == 0xE2 && b == 0x84 && c == 0xAA
    then kelvin
    else plain

unfoldable pub to_upper : Text → Text
to_upper [] = []
to_upper (a ∷ []) = upper_byte a ∷ []
to_upper (a ∷ b ∷ s) =
    let dotless = b'I' ∷ to_upper s in
    let long = b'S' ∷ to_upper s in
    let plain = upper_byte a ∷ to_upper (b ∷ s) in
    if a == 0xC4 && b == 0xB1 then dotless else if a == 0xC5 && b == 0xBF then long else plain

-- `strings.EqualFold` against a word with no `k` and no `s`.
unfoldable pub equal_fold : Text → Text → Bool
unfolding text_eq
equal_fold s t = text_eq (map lower_byte s) (map lower_byte t)
