-- ===== src/Gateway/Texts.antt =====
-- `incrementalReplyText`, `joinMarkdownBlocks`, `buildMarkdownCodeFence`,
-- `appendAttachmentFailureNotice`, `gatewayResponseError`.
use ubuntu_daemon.Base.{
  ◌&&◌, not, Option, none, some, List, [], ◌∷◌, ◌++◌, Text, is_nil, ◌≡◌, append-nil, arith,
  if◌then◌else◌,
}
use ubuntu_daemon.Text.{
  lit, text_eq, has_prefix, has_suffix, contains, after, append-after, trim, trim_right, trim_space,
  is_newline,
}

-- The new part of the current text, and the whole text after it.
unfoldable pub incremental_reply_text : Text → Text → Text × Text
incremental_reply_text assembled current =
    let text = trim is_newline current in
    if is_nil text
    then ([], assembled)
    else if is_nil assembled
    then (text, text)
    else if text_eq text assembled
    then ([], assembled)
    else if has_prefix text assembled
    then (after text assembled, text)
    else (text, assembled ++ text)

-- What stands between two blocks, so that a blank line separates them.
unfoldable pub block_gap : Text → Text → Text
block_gap prev block =
    (if has_suffix prev (lit "\n") then [] else lit "\n")
    ++ (if has_suffix prev (lit "\n\n")
        then []
        else if has_prefix block (lit "\n")
        then []
        else lit "\n")

unfoldable pub join_from : Text → List Text → Text
join_from prev [] = []
join_from prev (block ∷ blocks) = block_gap prev block ++ (block ++ join_from block blocks)

unfoldable pub join_markdown_blocks : List Text → Text
join_markdown_blocks [] = []
join_markdown_blocks (block ∷ blocks) = block ++ join_from block blocks

unfoldable pub build_markdown_code_fence : Text → Text → Text
build_markdown_code_fence language code =
    let body = trim is_newline code in
    let name = trim_space language in
    if is_nil body
    then []
    else if not (is_nil name)
    then lit "```" ++ (name ++ (lit "\n" ++ (body ++ lit "\n```")))
    else lit "```\n" ++ (body ++ lit "\n```")

unfoldable pub append_attachment_failure_notice : Text → Text → Text
append_attachment_failure_notice text message =
    let reason = trim_space message in
    let notice = if is_nil reason then lit "媒体文件上传失败" else lit "媒体文件上传失败" ++ (lit "：" ++ reason) in
    let trimmed = trim_space text in
    if is_nil trimmed
    then notice
    else if contains trimmed notice
    then text
    else trim_right is_newline text ++ (lit "\n\n" ++ notice)

pub record GatewayError : Type 0 where
  pub code : Text
  pub message : Text

unfoldable pub gateway_response_error : Text → Option GatewayError → Text
gateway_response_error prefix none = prefix
gateway_response_error prefix (some e) =
    if not (is_nil e.code) && not (is_nil e.message)
    then prefix ++ (lit ": " ++ (e.message ++ (lit " (" ++ (e.code ++ lit ")"))))
    else if not (is_nil e.message)
    then prefix ++ (lit ": " ++ e.message)
    else if not (is_nil e.code)
    then prefix ++ (lit ": " ++ e.code)
    else prefix

-- The part that is sent and the text kept fit together: the whole text after a step is the text
-- before it followed by the part, on every branch.
pub incremental_reply_text-append :
    (assembled current : Text)
    → (incremental_reply_text assembled current).1
      ≡ assembled ++ (incremental_reply_text assembled current).0
unfolding incremental_reply_text
incremental_reply_text-append [] current = ground (arith, append-nil (trim is_newline current))
incremental_reply_text-append (c ∷ s) current =
    ground (arith, append-nil s, append-after (trim is_newline current) (c ∷ s))
