-- ===== src/Gateway/Attachments.antt =====
-- Attachments: their kinds, the references to them, duplicates, and failed uploads. The parsing of
-- URLs by `net/url` is an argument: `scheme` is the scheme of a URL that parses.
use ubuntu_daemon.Base.{
  Bool, true, false, ◌&&◌, ◌||◌, not, Option, none, some, List, [], ◌∷◌, ◌++◌, Text, is_nil, drop,
  if◌then◌else◌,
}
use ubuntu_daemon.Text.{
  lit, text_eq, contains_text, has_prefix, is_blank, trim_space, to_lower, to_upper, split,
}
use ubuntu_daemon.Json.{Value, arr, Items, nil, cons, Fields, get, is_empty}
use ubuntu_daemon.Config.{ext}
use ubuntu_daemon.Protocol.{ChatAttachment, zero_attachment}
use ubuntu_daemon.Gateway.Values.{deep_string, deep_string_at}

unfoldable pub detect_media_type : Text → Text
detect_media_type ref =
    let lower = to_lower (ext ref) in
    if contains_text
      (lit ".jpg" ∷ lit ".jpeg" ∷ lit ".png" ∷ lit ".webp" ∷ lit ".gif" ∷ lit ".bmp" ∷ []) lower
    then lit "image"
    else if contains_text (lit ".mp4" ∷ lit ".webm" ∷ lit ".mov" ∷ lit ".m4v" ∷ []) lower
    then lit "video"
    else lit "unknown"

-- The entry of a table, the empty text if there is none.
unfoldable pub entry_of : List (Text × Text) → Text → Text
entry_of [] key = []
entry_of ((k, v) ∷ rows) key = if text_eq k key then v else entry_of rows key

abbrev mime_types : List (Text × Text)
mime_types =
    (lit ".jpg", lit "image/jpeg")
    ∷ (lit ".jpeg", lit "image/jpeg")
    ∷ (lit ".png", lit "image/png")
    ∷ (lit ".webp", lit "image/webp")
    ∷ (lit ".gif", lit "image/gif")
    ∷ (lit ".bmp", lit "image/bmp")
    ∷ (lit ".mp4", lit "video/mp4")
    ∷ (lit ".webm", lit "video/webm")
    ∷ (lit ".mov", lit "video/quicktime")
    ∷ (lit ".m4v", lit "video/x-m4v")
    ∷ []

unfoldable pub detect_mime_type : Text → Text
detect_mime_type ref = entry_of mime_types (to_lower (ext ref))

unfoldable pub normalize_media_type : Text → Text
normalize_media_type raw =
    let value = trim_space (to_lower raw) in
    if text_eq value (lit "image") || text_eq value (lit "video") then value else lit "image"

unfoldable pub is_http_url : (Text → Option Text) → Text → Bool
is_http_url scheme raw = elim (scheme raw) [
  | none ↦ false
  | some s ↦ text_eq s (lit "http") || text_eq s (lit "https")
]

unfoldable pub media_attachment_from_ref : (Text → Option Text) → Text → ChatAttachment
media_attachment_from_ref scheme raw =
    let ref = trim_space raw in
    let plain = record zero_attachment {
      media_type = detect_media_type ref;
      mime_type = detect_mime_type ref;
    } in
    if is_http_url scheme ref then record plain { preview_url = ref } else (record plain {
      local_path = ref;
      error_code = lit "MEDIA_LOCAL_PATH_PENDING_UPLOAD";
      error_message = lit "local media path requires daemon upload workflow";
    })

-- The reference behind `MEDIA:` on each line. The prefix is looked for in the upper-case line, and
-- its six bytes are cut from the line as it is.
unfoldable pub media_lines : List Text → List Text
media_lines [] = []
media_lines (line ∷ lines) =
    let trimmed = trim_space line in
    let ref = trim_space (drop 6 trimmed) in
    if has_prefix (to_upper trimmed) (lit "MEDIA:") && not (is_nil ref)
    then ref ∷ media_lines lines
    else media_lines lines

unfoldable pub extract_media_lines : Text → List Text
extract_media_lines text = if is_blank text then [] else media_lines (split 0x0A text)

unfoldable pub texts_at : Fields → List Text → List Text
texts_at fs [] = []
texts_at fs (key ∷ keys) =
    let text = trim_space (deep_string_at fs key) in
    if is_nil text then texts_at fs keys else text ∷ texts_at fs keys

unfoldable pub item_texts : Items → List Text
item_texts nil = []
item_texts (cons v vs) =
    let text = trim_space (deep_string v) in
    if is_nil text then item_texts vs else text ∷ item_texts vs

abbrev array_texts : Option Value → List Text
array_texts (some (arr vs)) = item_texts vs
array_texts _ = []

unfoldable pub extract_media_refs_from_payload : Fields → List Text
extract_media_refs_from_payload fs =
    if is_empty fs
    then []
    else texts_at fs (lit "mediaUrl" ∷ lit "media_url" ∷ lit "url" ∷ [])
      ++ (array_texts (get fs (lit "mediaUrls"))
          ++ (array_texts (get fs (lit "media_urls")) ++ array_texts (get fs (lit "urls"))))

unfoldable pub attachment_key : ChatAttachment → Text
attachment_key a = a.preview_url ++ (lit "|" ++ a.local_path)

-- The loop of `deduplicateAttachments`, with the keys seen so far.
unfoldable pub deduplicate_from : List Text → List ChatAttachment → List ChatAttachment
deduplicate_from seen [] = []
deduplicate_from seen (a ∷ rest) =
    let new = a ∷ deduplicate_from (attachment_key a ∷ seen) rest in
    let old = deduplicate_from seen rest in
    if contains_text seen (attachment_key a) then old else new

unfoldable pub deduplicate_attachments : List ChatAttachment → List ChatAttachment
deduplicate_attachments [] = []
deduplicate_attachments (a ∷ []) = a ∷ []
deduplicate_attachments (a ∷ b ∷ rest) = deduplicate_from [] (a ∷ b ∷ rest)

unfoldable pub has_local_attachment : List ChatAttachment → Bool
has_local_attachment [] = false
has_local_attachment (a ∷ rest) = not (is_blank a.local_path) || has_local_attachment rest

unfoldable pub preferred_transcript_attachments :
    List ChatAttachment → List ChatAttachment → List ChatAttachment
preferred_transcript_attachments tools assistant =
    let t = deduplicate_attachments tools in
    let a = deduplicate_attachments assistant in
    if has_local_attachment t then t else deduplicate_attachments (t ++ a)

-- An attachment that has no place to be fetched from, and an error.
unfoldable pub is_failed : ChatAttachment → Bool
is_failed a = is_blank a.preview_url && is_blank a.media_id && not (is_blank a.error_code)

unfoldable pub all_failed : List ChatAttachment → Bool
all_failed [] = true
all_failed (a ∷ rest) = is_failed a && all_failed rest

unfoldable pub first_message : List ChatAttachment → Text
first_message [] = lit "media upload failed"
first_message (a ∷ rest) = if is_blank a.error_message then first_message rest else a.error_message

-- The code and the message, if there are attachments and every one of them has failed.
unfoldable pub summarize_attachment_failures : List ChatAttachment → Option (Text × Text)
summarize_attachment_failures [] = none
summarize_attachment_failures (a ∷ rest) =
    if all_failed (a ∷ rest)
    then some (lit "MEDIA_UPLOAD_FAILED", first_message (a ∷ rest))
    else none
