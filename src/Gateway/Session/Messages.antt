-- ===== src/Gateway/Session/Messages.antt =====
-- What the adapter asks the gateway: the parameters of `connect`, `sessions.messages.subscribe` and
-- `chat.send`, with `buildGatewayMessage` and `metadataString`.
use ubuntu_daemon.Base.{
  ℕ, suc, ◌||◌, not, Option, none, some, List, [], ◌∷◌, ◌++◌, Text, is_nil, if◌then◌else◌,
}
use ubuntu_daemon.Base.Int.{ℤ, pos}
use ubuntu_daemon.Text.{lit, decimal, trim_space, is_blank, equal_fold}
use ubuntu_daemon.Json.{Value, num, str, arr, obj, Items, nil, cons, Fields, end, field, get_string}
use ubuntu_daemon.Protocol.{ChatMessagePayload, ChatInputAttachment}
use ubuntu_daemon.Store.{DeviceIdentity}
use ubuntu_daemon.Gateway.Session.Tokens.{Adapter, ConnectAuth}
use ubuntu_daemon.Gateway.Session.Crypto.{DeviceAuthPayloadParams}
use ubuntu_daemon.Gateway.Session.Wire.{GatewayRequest}

unfoldable pub metadata_string : Option Fields → Text → Text
metadata_string none key = []
metadata_string (some fs) key = elim (get_string fs key) [ none ↦ [] | some text ↦ trim_space text ]

-- What `time.Now().UnixMilli()` gives at each of its calls in `Chat`.
pub record Times : Type 0 where
  pub signed : ℤ
  pub connect : ℤ
  pub cloud_msg : ℤ
  pub subscribe : ℤ
  pub chat : ℤ

abbrev pub operator_scopes : List Text
operator_scopes = lit "operator.read" ∷ lit "operator.write" ∷ []

-- The payload that `completeHandshake` signs.
unfoldable pub device_payload :
    Adapter → DeviceIdentity → ConnectAuth → ℤ → Text → DeviceAuthPayloadParams
device_payload a identity auth signed nonce = record {
  device_id = identity.device_id;
  client_id = lit "cli";
  client_mode = lit "cli";
  role = lit "operator";
  scopes = operator_scopes;
  signed_at_ms = signed;
  token = auth.signature_token;
  nonce = nonce;
  platform = a.goos;
  device_family = lit "headless";
}

abbrev pub strings : List Text → Items
strings [] = nil
strings (s ∷ ss) = cons (str s) (strings ss)

abbrev pub fields_of : List (Text × Value) → Fields
fields_of [] = end
fields_of ((k, v) ∷ kvs) = field k v (fields_of kvs)

abbrev client_fields : Text → Text → Fields
client_fields version platform = fields_of (
    (lit "id", str (lit "cli"))
    ∷ (lit "displayName", str (lit "openclaw-daemon"))
    ∷ (lit "version", str version)
    ∷ (lit "platform", str platform)
    ∷ (lit "deviceFamily", str (lit "headless"))
    ∷ (lit "mode", str (lit "cli"))
    ∷ [])

abbrev device_fields : Text → Text → Text → ℤ → Text → Fields
device_fields id public_key signature signed nonce = fields_of (
    (lit "id", str id)
    ∷ (lit "publicKey", str public_key)
    ∷ (lit "signature", str signature)
    ∷ (lit "signedAt", num signed)
    ∷ (lit "nonce", str nonce)
    ∷ [])

unfoldable pub connect_request :
    Adapter → DeviceIdentity → ConnectAuth → Text → Text → Times → Text → GatewayRequest
connect_request a identity auth public_key signature times nonce = record {
  id = lit "connect-" ++ decimal times.connect;
  method = lit "connect";
  params = fields_of (
      (lit "minProtocol", num (pos 3))
      ∷ (lit "maxProtocol", num (pos 3))
      ∷ (lit "client", obj (client_fields a.daemon_version a.goos))
      ∷ (lit "role", str (lit "operator"))
      ∷ (lit "scopes", arr (strings operator_scopes))
      ∷ (lit "caps", arr nil)
      ∷ (lit "commands", arr nil)
      ∷ (lit "permissions", obj end)
      ∷ (lit "auth", obj (field auth.connect_auth_key (str auth.connect_token) end))
      ∷ (
        lit "device",
        obj (device_fields identity.device_id public_key signature times.signed nonce),
      )
      ∷ (lit "locale", str (lit "zh-CN"))
      ∷ (lit "userAgent", str (lit "openclaw-daemon/" ++ a.daemon_version))
      ∷ []);
}

unfoldable pub subscribe_request : ℤ → Text → GatewayRequest
subscribe_request now session = record {
  id = lit "session-sub-" ++ decimal now;
  method = lit "sessions.messages.subscribe";
  params = field (lit "key") (str session) end;
}

unfoldable pub reference_text : ℕ → Text → Text
reference_text n url =
    lit "参考图"
    ++ (decimal (pos n)
        ++ (lit "（请把这张图作为参考输入，而不是只描述它）：\n![reference-"
            ++ (decimal (pos n) ++ (lit "](" ++ (url ++ lit ")")))))

-- The loop over the attachments; `n` counts the references, and `built` is the builder's text.
unfoldable pub add_references : ℕ → Text → List ChatInputAttachment → Text
add_references n built [] = built
add_references n built (a ∷ rest) =
    let skipped = add_references n built rest in
    let gap = if is_nil built then [] else lit "\n\n" in
    let added =
      add_references (suc n) (built ++ (gap ++ reference_text (suc n) a.preview_url)) rest in
    if not (equal_fold (trim_space a.media_type) (lit "image")) || is_blank a.preview_url
    then skipped
    else added

unfoldable pub build_gateway_message : ChatMessagePayload → Text
build_gateway_message p =
    if is_nil p.input_attachments
    then p.text
    else let built = add_references 0 (trim_space p.text) p.input_attachments in
      if is_blank built then p.text else built

unfoldable pub chat_request : ℤ → ChatMessagePayload → Text → GatewayRequest
chat_request now p cloud_msg = record {
  id = lit "chat-" ++ decimal now;
  method = lit "chat.send";
  params = fields_of (
      (lit "sessionKey", str p.session_id)
      ∷ (lit "idempotencyKey", str cloud_msg)
      ∷ (lit "message", str (build_gateway_message p))
      ∷ []);
}

-- The id of the cloud's message, made up where the metadata has none.
unfoldable pub cloud_msg_id : Times → ChatMessagePayload → Text
cloud_msg_id times p =
    let given = metadata_string p.metadata (lit "cloud_msg_id") in
    if is_nil given then lit "chat-" ++ decimal times.cloud_msg else given
