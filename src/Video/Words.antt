-- ===== src/Video/Words.antt =====
-- What is read out of single texts: keywords, switches, numbers, names of models, the words of a
-- task's status.
use ubuntu_daemon.Base.{
  ℕ, zero, suc, ◌+◌, ◌-◌, ◌*◌, ◌^◌, Bool, true, false, ◌&&◌, ◌||◌, not, Option, none, some, List,
  [], ◌∷◌, Text, leb, ◌==◌, is_nil, if◌then◌else◌,
}
use ubuntu_daemon.Base.Int.{ℤ, pos, negsuc, leb_ℤ}
use ubuntu_daemon.Text.{lit, contains, contains_text, trim_space, is_blank, to_lower, cut}

abbrev video_keywords : List Text
video_keywords = lit "生成视频" ∷ lit "做个视频" ∷ lit "图生视频" ∷ lit "短视频" ∷ lit "文生视频" ∷ lit "video" ∷ []

unfoldable pub contains_any : Text → List Text → Bool
contains_any s [] = false
contains_any s (k ∷ ks) = contains s k || contains_any s ks

unfoldable pub is_video_request : Text → Bool
is_video_request text =
    let normalized = to_lower (trim_space text) in
    if is_nil normalized
    then false
    else if contains_any normalized video_keywords
    then true
    else contains normalized (lit "视频") && contains normalized (lit "生成")

abbrev pub normalize_prompt : Text → Text
normalize_prompt text = trim_space text

unfoldable pub parse_bool : Text → Bool
parse_bool raw =
    contains_text (lit "1" ∷ lit "true" ∷ lit "yes" ∷ lit "on" ∷ []) (to_lower (trim_space raw))

unfoldable pub is_success_status : Text → Bool
is_success_status status =
    contains_text (lit "success" ∷ lit "succeeded" ∷ []) (to_lower (trim_space status))

unfoldable pub is_failed_status : Text → Bool
is_failed_status status =
    contains_text (lit "fail" ∷ lit "failed" ∷ []) (to_lower (trim_space status))

-- The number of a text of decimal digits, behind those already read.
unfoldable pub digits_value : ℕ → Text → Option ℕ
digits_value acc [] = some acc
digits_value acc (c ∷ s) =
    let more = digits_value (acc * 10 + (c - b'0')) s in
    if leb b'0' c && leb c b'9' then more else none

-- Digits, at least one, in the range of an `int`.
unfoldable pub unsigned : ℕ → Text → Option ℕ
unsigned limit s = elim (digits_value 0 s) [
  | none ↦ none
  | some n ↦ if not (is_nil s) && leb n limit then some n else none
]

abbrev negated : Option ℕ → Option ℤ
negated none = none
negated (some zero) = some (pos 0)
negated (some (suc n)) = some (negsuc n)

abbrev as_pos : Option ℕ → Option ℤ
as_pos none = none
as_pos (some n) = some (pos n)

-- `strconv.Atoi`, without the text of its error.
unfoldable pub atoi : Text → Option ℤ
atoi [] = none
atoi (c ∷ s) =
    if c == b'-'
    then negated (unsigned (2 ^ 63) s)
    else if c == b'+'
    then as_pos (unsigned (2 ^ 63 - 1) s)
    else as_pos (unsigned (2 ^ 63 - 1) (c ∷ s))

unfoldable pub parse_int_or_default : Text → ℤ → ℤ
parse_int_or_default raw default =
    let text = trim_space raw in
    if is_nil text then default else elim (atoi text) [
      | none ↦ default
      | some value ↦ if leb_ℤ value (pos 0) then default else value
    ]

unfoldable pub normalize_model_name : Text → Text
normalize_model_name raw =
    let value = trim_space raw in
    if is_nil value then [] else elim (cut b'/' value) [
      | none ↦ value
      | some (provider, model) ↦
          if not (is_blank provider) && not (is_blank model) then trim_space model else value
    ]

unfoldable pub first_non_empty : List Text → Text
first_non_empty [] = []
first_non_empty (v ∷ vs) = if is_blank v then first_non_empty vs else trim_space v
