-- ===== src/Text/Basic.antt =====
-- Literals, equality, prefixes, suffixes and searching (`strings.HasPrefix`, `Contains`, …).
use Prim.Native.Char.{code}
use ubuntu_daemon.Base.{
  ℕ, ◌+◌, ◌/◌, ◌%◌, ◌^◌, String, ◌≡◌, refl, ◌↔◌, Bool, true, false, ◌&&◌, ◌||◌, List, [], ◌∷◌, ◌++◌,
  reverse, arith, Text, ltb, ◌==◌, if◌then◌else◌,
}

-- The UTF-8 bytes of a code point.
abbrev pub utf8 : ℕ → Text
utf8 c =
    if ltb c 0x80
    then c ∷ []
    else if ltb c 0x800
    then (0xC0 + c / 2 ^ 6) ∷ (0x80 + c % 2 ^ 6) ∷ []
    else if ltb c 0x10000
    then (0xE0 + c / 2 ^ 12) ∷ (0x80 + c / 2 ^ 6 % 2 ^ 6) ∷ (0x80 + c % 2 ^ 6) ∷ []
    else (0xF0 + c / 2 ^ 18)
      ∷ (0x80 + c / 2 ^ 12 % 2 ^ 6)
      ∷ (0x80 + c / 2 ^ 6 % 2 ^ 6)
      ∷ (0x80 + c % 2 ^ 6)
      ∷ []

-- The bytes of a string literal.
unfoldable pub lit : String → Text
lit String.[] = []
lit (String.◌∷◌ c s) = utf8 (code c) ++ lit s

unfoldable pub text_eq : Text → Text → Bool
text_eq [] [] = true
text_eq [] (d ∷ t) = false
text_eq (c ∷ s) [] = false
text_eq (c ∷ s) (d ∷ t) = c == d && text_eq s t

pub text_eq_iff : (s t : Text) → (text_eq s t ≡ true) ↔ (s ≡ t)
unfolding text_eq
text_eq_iff [] [] = ground arith
text_eq_iff [] (d ∷ t) = ground arith
text_eq_iff (c ∷ s) [] = ground arith
text_eq_iff (c ∷ s) (d ∷ t) = ground (arith, text_eq_iff s t)

pub text_eq_refl : (s : Text) → text_eq s s ≡ true
text_eq_refl s = (text_eq_iff s s).1 refl

-- `slices.Contains` on a slice of strings.
unfoldable pub contains_text : List Text → Text → Bool
contains_text [] t = false
contains_text (s ∷ ss) t = text_eq s t || contains_text ss t

unfoldable pub has_prefix : Text → Text → Bool
has_prefix s [] = true
has_prefix [] (d ∷ p) = false
has_prefix (c ∷ s) (d ∷ p) = c == d && has_prefix s p

unfoldable pub has_suffix : Text → Text → Bool
unfolding has_prefix
has_suffix s p = has_prefix (reverse s) (reverse p)

unfoldable pub contains : Text → Text → Bool
unfolding has_prefix
contains [] p = has_prefix [] p
contains (c ∷ s) p = has_prefix (c ∷ s) p || contains s p

pub has_prefix-append : (p s : Text) → has_prefix (p ++ s) p ≡ true
unfolding has_prefix
has_prefix-append [] s = refl
has_prefix-append (c ∷ p) s = ground (arith, has_prefix-append p s)

-- What follows a prefix.
unfoldable pub after : Text → Text → Text
after s [] = s
after [] (d ∷ p) = []
after (c ∷ s) (d ∷ p) = after s p

-- A text with a prefix is the prefix and what follows it.
pub append-after : (s p : Text) → has_prefix s p ≡ true → s ≡ p ++ after s p
unfolding has_prefix after
append-after s [] h = refl
append-after [] (d ∷ p) h = ground arith
append-after (c ∷ s) (d ∷ p) h = ground (arith, append-after s p)

pub after-append : (p s : Text) → after (p ++ s) p ≡ s
unfolding after
after-append [] s = refl
after-append (c ∷ p) s = after-append p s
