-- ===== src/Text/Space.antt =====
-- `strings.TrimSpace`, `Trim`, `TrimLeft` and `TrimRight`.
use ubuntu_daemon.Base.{
  ℕ, zero, suc, ◌≡◌, refl, Bool, true, false, ◌||◌, List, [], ◌∷◌, map, reverse, Text, ◌==◌, length,
  is_nil, if◌then◌else◌,
}
use ubuntu_daemon.Text.Basic.{has_prefix}

-- The UTF-8 forms of the code points with `unicode.IsSpace`.
abbrev pub spaces : List Text
spaces =
    (0x20 ∷ [])
    ∷ (0x0A ∷ [])
    ∷ (0x09 ∷ [])
    ∷ (0x0D ∷ [])
    ∷ (0x0B ∷ [])
    ∷ (0x0C ∷ [])
    ∷ (0xC2 ∷ 0x85 ∷ [])
    ∷ (0xC2 ∷ 0xA0 ∷ [])
    ∷ (0xE1 ∷ 0x9A ∷ 0x80 ∷ [])
    ∷ (0xE2 ∷ 0x80 ∷ 0x80 ∷ [])
    ∷ (0xE2 ∷ 0x80 ∷ 0x81 ∷ [])
    ∷ (0xE2 ∷ 0x80 ∷ 0x82 ∷ [])
    ∷ (0xE2 ∷ 0x80 ∷ 0x83 ∷ [])
    ∷ (0xE2 ∷ 0x80 ∷ 0x84 ∷ [])
    ∷ (0xE2 ∷ 0x80 ∷ 0x85 ∷ [])
    ∷ (0xE2 ∷ 0x80 ∷ 0x86 ∷ [])
    ∷ (0xE2 ∷ 0x80 ∷ 0x87 ∷ [])
    ∷ (0xE2 ∷ 0x80 ∷ 0x88 ∷ [])
    ∷ (0xE2 ∷ 0x80 ∷ 0x89 ∷ [])
    ∷ (0xE2 ∷ 0x80 ∷ 0x8A ∷ [])
    ∷ (0xE2 ∷ 0x80 ∷ 0xA8 ∷ [])
    ∷ (0xE2 ∷ 0x80 ∷ 0xA9 ∷ [])
    ∷ (0xE2 ∷ 0x80 ∷ 0xAF ∷ [])
    ∷ (0xE2 ∷ 0x81 ∷ 0x9F ∷ [])
    ∷ (0xE3 ∷ 0x80 ∷ 0x80 ∷ [])
    ∷ []

-- The length of the first listed form that the text begins with, 0 if there is none.
unfoldable pub front_size : List Text → Text → ℕ
unfolding has_prefix
front_size [] s = 0
front_size (w ∷ ws) s = if has_prefix s w then length w else front_size ws s

-- Drop listed forms from the front; the number counts the bytes of a form that are still to go.
unfoldable pub drop_front : List Text → ℕ → Text → Text
unfolding front_size
drop_front ws k [] = []
drop_front ws (suc k) (c ∷ s) = drop_front ws k s
drop_front ws zero (c ∷ s) = elim (front_size ws (c ∷ s)) [
  | zero ↦ c ∷ s
  | suc k ↦ drop_front ws k s
]

-- UTF-8 is self-synchronising, so from the end the reversed forms are looked for.
unfoldable pub trim_space : Text → Text
unfolding drop_front
trim_space s = reverse (drop_front (map reverse spaces) 0 (reverse (drop_front spaces 0 s)))

-- `strings.TrimSpace(s) == ""`.
unfoldable pub is_blank : Text → Bool
unfolding trim_space
is_blank s = elim (trim_space s) [ [] ↦ true | _ ∷ _ ↦ false ]

-- `strings.TrimLeft(s, cutset)` for a cutset of ASCII bytes.
unfoldable pub trim_left : (ℕ → Bool) → Text → Text
trim_left p [] = []
trim_left p (c ∷ s) = if p c then trim_left p s else c ∷ s

unfoldable pub trim_right : (ℕ → Bool) → Text → Text
unfolding trim_left
trim_right p s = reverse (trim_left p (reverse s))

-- `strings.Trim(s, cutset)`.
unfoldable pub trim : (ℕ → Bool) → Text → Text
unfolding trim_right
trim p s = trim_right p (trim_left p s)

abbrev pub is_newline : ℕ → Bool
is_newline c = c == 0x0A

abbrev pub is_slash : ℕ → Bool
is_slash c = c == b'/'

-- The cutset "\"'".
abbrev pub is_quote : ℕ → Bool
is_quote c = c == b'"' || c == 0x27

pub is_blank-nil : is_blank [] ≡ true
unfolding is_blank
is_blank-nil = refl

-- Blank is what trimming leaves nothing of.
pub is_blank_lem : (text : Text) → is_blank text ≡ is_nil (trim_space text)
unfolding is_blank
is_blank_lem text = from (trim_space text) refl
  where
    from : (t : Text) → trim_space text ≡ t → is_blank text ≡ is_nil (trim_space text)
    from [] e = rw (e, is_blank) refl
    from (x ∷ xs) e = rw (e, is_blank) refl
