-- ===== src/Gateway/Images.antt =====
-- The pattern `!\[[^\]]*\]\((https?://[^)\s]+)\)` of images in Markdown, and the two functions that
-- use it. The parts of a match are fixed by the next byte, so no backtracking is needed.
use ubuntu_daemon.Base.{
  ℕ, zero, suc, ◌+◌, Bool, ◌&&◌, ◌||◌, not, Option, none, some, List, [], ◌∷◌, ◌++◌, map, Text,
  is_nil, length, drop, ◌==◌, if◌then◌else◌,
}
use ubuntu_daemon.Text.{lit, text_eq, has_prefix, after, is_blank, trim_space}
use ubuntu_daemon.Protocol.{ChatAttachment}
use ubuntu_daemon.Json.{Fields}
use ubuntu_daemon.Gateway.Attachments.{
  normalize_media_type, media_attachment_from_ref, extract_media_lines,
  extract_media_refs_from_payload,
}

-- The bytes up to the first that passes the test, and those from it on.
unfoldable pub span : (ℕ → Bool) → Text → Text × Text
span stop [] = ([], [])
span stop (c ∷ s) = let (l, r) = span stop s in if stop c then ([], c ∷ s) else (c ∷ l, r)

-- The class `\s`.
abbrev pub is_regexp_space : ℕ → Bool
is_regexp_space c = c == 0x09 || (c == 0x0A || (c == 0x0C || (c == 0x0D || c == 0x20)))

abbrev is_bracket : ℕ → Bool
is_bracket c = c == b']'

abbrev ends_url : ℕ → Bool
ends_url c = c == b')' || is_regexp_space c

-- The URL behind the parenthesis, if it is longer than its scheme and the match is closed.
unfoldable pub close_match : Text → Text → Option (Text × Text)
close_match before s =
    let url = (span ends_url s).0 in
    let bare = text_eq url (lit "http://") || text_eq url (lit "https://") in
    if has_prefix (span ends_url s).1 (lit ")") && not bare then some (before, url) else none

-- A match at the front of the text: what stands before the URL, and the URL. The match ends with
-- the parenthesis behind the URL.
unfoldable pub match_image : Text → Option (Text × Text)
match_image s =
    let (alt, rest) = span is_bracket s in
    if has_prefix s (lit "![")
      && (has_prefix rest (lit "](http://") || has_prefix rest (lit "](https://"))
    then close_match (alt ++ lit "](") (drop 2 rest)
    else none

-- `FindAllStringSubmatch`: the URL of each match; the number counts the bytes of a match that are
-- still to be passed over.
unfoldable pub image_refs : ℕ → Text → List Text
image_refs skip [] = []
image_refs (suc skip) (c ∷ s) = image_refs skip s
image_refs zero (c ∷ s) = elim (match_image (c ∷ s)) [
  | none ↦ image_refs 0 s
  | some (before, url) ↦ url ∷ image_refs (length before + length url) s
]

unfoldable pub trimmed_refs : List Text → List Text
trimmed_refs [] = []
trimmed_refs (r ∷ rs) =
    let ref = trim_space r in if is_nil ref then trimmed_refs rs else ref ∷ trimmed_refs rs

unfoldable pub extract_markdown_image_refs : Text → List Text
extract_markdown_image_refs text = if is_blank text then [] else trimmed_refs (image_refs 0 text)

-- `strings.Replace(s, old, new, 1)`.
unfoldable pub replace_first : Text → Text → Text → Text
replace_first old new [] = if is_nil old then new else []
replace_first old new (c ∷ s) =
    let later = c ∷ replace_first old new s in
    if has_prefix (c ∷ s) old then new ++ after (c ∷ s) old else later

-- `ReplaceAllStringFunc`: the URL of a match is replaced where it occurs first in the match.
unfoldable pub rewrite_from : ℕ → List Text → Text → Text
rewrite_from skip urls [] = []
rewrite_from (suc skip) urls (c ∷ s) = rewrite_from skip urls s
rewrite_from zero [] (c ∷ s) = c ∷ s
rewrite_from zero (u ∷ urls) (c ∷ s) = elim (match_image (c ∷ s)) [
  | none ↦ c ∷ rewrite_from 0 (u ∷ urls) s
  | some (before, url) ↦
      replace_first url u (before ++ (url ++ lit ")"))
      ++ rewrite_from (length before + length url) urls s
]

-- The URLs of the attachments that count as images.
unfoldable pub replacement_urls : List ChatAttachment → List Text
replacement_urls [] = []
replacement_urls (a ∷ rest) =
    if is_blank a.preview_url
    then replacement_urls rest
    else if text_eq (normalize_media_type a.media_type) (lit "image")
    then trim_space a.preview_url ∷ replacement_urls rest
    else replacement_urls rest

unfoldable pub rewrite_markdown_image_urls : Text → List ChatAttachment → Text
rewrite_markdown_image_urls text items =
    if is_blank text then text else rewrite_from 0 (replacement_urls items) text

unfoldable pub extract_media_attachments :
    (Text → Option Text) → Fields → Text → List ChatAttachment
extract_media_attachments scheme fs text = map (media_attachment_from_ref scheme) (
    extract_media_lines text
    ++ (extract_markdown_image_refs text ++ extract_media_refs_from_payload fs))
