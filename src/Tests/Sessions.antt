-- ===== src/Tests/Sessions.antt =====
-- A chat with a gateway that answers each request at once, and what it leaves behind.
use ubuntu_daemon.Base.{◌≡◌, refl, true, none, some, List, [], ◌∷◌, Text, ok, if◌then◌else◌}
use ubuntu_daemon.Base.Int.{pos}
use ubuntu_daemon.Text
use ubuntu_daemon.Text.{lit, text_eq, decimal}
use ubuntu_daemon.Json.{str, field, end}
use ubuntu_daemon.Config.{default_config}
use ubuntu_daemon.Protocol.{ChatMessagePayload, ChatReplyPayload}
use ubuntu_daemon.Files.{all_succeed}
use ubuntu_daemon.Store.{DeviceIdentity}
use ubuntu_daemon.Gateway.Collect.{Services, Frame, fields, reply_of}
use ubuntu_daemon.Gateway.Session.Tokens.{
  Adapter, StateAccess, ConnectAuth, auth_by, persist_gateway_device_token,
  load_or_create_gateway_identity, resolve_connect_auth,
}
use ubuntu_daemon.Gateway.Session.Crypto.{
  ed25519, Crypto, hex, base64_url, build_device_auth_payload_v3,
}
use ubuntu_daemon.Gateway.Session.Wire.{
  GatewayResponse, GatewayChallenge, HelloAuth, Head, Control, Codec, Received, cancelled, Wire,
  handle_control_frame,
}
use ubuntu_daemon.Gateway.Session.Messages.{Times, device_payload}
use ubuntu_daemon.Gateway.Session.Requests.{Link, Setting, answers, await_response}
use ubuntu_daemon.Gateway.Session.Chat.{reads, chat}
use ubuntu_daemon.Gateway.Session.Triples.{Ends}
use ubuntu_daemon.Gateway.Session.Responses
use ubuntu_daemon.Gateway.Session.Responses.{
  AgreesOnType, first_answer, response_from, await_response_lem,
}
use ubuntu_daemon.Gateway.Session.Returns.{IsAccepted, Cooperates, chat-Returns}
use ubuntu_daemon.Gateway.Session.Requests
use ubuntu_daemon.Gateway.Session.Crypto
use ubuntu_daemon.Gateway.Session.Messages
use ubuntu_daemon.Gateway.Session.Tokens
use ubuntu_daemon.Gateway.Session.Wire
use ubuntu_daemon.Gateway.Session.Chat
use ubuntu_daemon.Tests.Chat.{run_loop}
use ubuntu_daemon.Gateway.Session.Asked.{FailedAsking}
use ubuntu_daemon.Gateway.Session.Answers.{Answered, chat-Answered}

abbrev pub services : Services
services = record {
  parse_time = λ s. none;
  url_scheme = λ s. none;
  transcript = λ id ms. ok (lit "Hi", []);
  upload = λ items. items;
}

abbrev pub access : StateAccess
access = record { load_failure = none; calls = all_succeed (lit "t") }

abbrev pub frame_of : Text → Received
frame_of text = record { text = text; access = access }

abbrev pub adapter : Adapter
adapter = record {
  cfg = default_config.openclaw;
  daemon_version = lit "1";
  state_store = none;
  environment = λ key. lit "tok";
  goos = lit "linux";
  missing = lit "no file";
  quote = λ s. s;
}

-- Every frame is a response whose id is its text, but for the two events.
abbrev event_frame : Frame
event_frame = record {
  kind = lit "event";
  event = lit "chat";
  payload = fields (
      field (lit "runId") (str (lit "r1"))
        (field (lit "text") (str (lit "Hi")) (field (lit "status") (str (lit "done")) end)));
}

abbrev kind_of : Text → Text
kind_of text = if text_eq text (lit "chat event") then lit "event" else lit "res"

abbrev pub codec : Codec
codec = record {
  kind = λ text. ok (kind_of text);
  head = λ text. ok (record { kind = kind_of text; id = text });
  control = λ text. ok (record { kind = kind_of text; event = lit "chat" });
  hello = λ text. ok none;
  challenge =
      λ text. ok (record { kind = lit "event"; event = lit "connect.challenge"; nonce = lit "n" });
  response = λ text.
      ok (record {
        kind = lit "res";
        id = text;
        succeeded = true;
        payload = lit "{}";
        error = none;
      });
  run_id = λ text. lit "r1";
  event = λ text. ok event_frame;
}

abbrev pub link : Link
link = record {
  dial = λ url token. none;
  write_failure = λ request. none;
  ending = cancelled (lit "deadline");
}

abbrev pub crypto : Crypto
crypto = record {
  marshal_public = λ key. ok key;
  marshal_private = λ key. ok key;
  sum256 = λ text. text;
  pem_encode = λ kind bytes. bytes;
  pem_decode = λ text. some text;
  parse_public = λ der. ok (ed25519 der);
  parse_private = λ der. ok (ed25519 der);
  sign = λ key text. text;
}

abbrev times : Times
times = record {
  signed = pos 1;
  connect = pos 2;
  cloud_msg = pos 3;
  subscribe = pos 4;
  chat = pos 5;
}

abbrev pub setting : Setting
setting = record {
  crypto = crypto;
  generated = ok (lit "pub", lit "priv");
  token_failure = none;
  identity_access = access;
  times = times;
}

abbrev pub message : ChatMessagePayload
message = record {
  session_id = lit "s";
  user_id = [];
  role = [];
  text = lit "hi";
  stream = true;
  metadata = none;
  input_attachments = [];
}

abbrev pub wire : Wire
wire = record {
  incoming =
      frame_of (lit "challenge")
      ∷ frame_of (lit "connect-2")
      ∷ frame_of (lit "session-sub-4")
      ∷ frame_of (lit "chat-5")
      ∷ frame_of (lit "chat event")
      ∷ [];
  sent = [];
  disk = [];
}

chat-Answered_example :
    Ends
      (FailedAsking codec wire.incoming)
      (Answered codec wire.incoming setting message)
      (chat adapter codec link setting services message wire)
chat-Answered_example = chat-Answered adapter codec link setting services message wire refl

-- All that the requests compute with.
run_session : Unit {0}
unfolding run_loop Text.decimal Requests.challenge_of Requests.signature_for Requests.prepare
    Requests.accept_response Crypto.sign_device_payload Crypto.build_device_auth_payload_v3
    Crypto.normalize_device_metadata_for_auth Crypto.public_key_raw_base64_url_from_pem
    Crypto.create_device_identity Crypto.base64_url Crypto.hex Text.join Messages.device_payload
    Messages.connect_request Messages.subscribe_request Messages.chat_request Messages.cloud_msg_id
    Messages.metadata_string Tokens.resolve_connect_auth Tokens.load_stored_gateway_device_token
    Tokens.load_gateway_token Tokens.trim_env_value Tokens.load_or_create_gateway_identity
    Responses.first_answer Wire.handle_control_frame Chat.read_of Chat.reads
run_session = tt

agrees : AgreesOnType codec
agrees text head control e q = cc

abbrev pub identity : DeviceIdentity
identity = record {
  device_id = hex (lit "pub");
  public_key_pem = lit "pub";
  private_key_pem = lit "priv";
}

abbrev signature : Text
signature = base64_url (
    build_device_auth_payload_v3
      (device_payload adapter identity (auth_by (lit "token") (lit "tok")) (pos 1) (lit "n")))

abbrev granted_by : Text → GatewayResponse
granted_by id = record {
  kind = lit "res";
  id = id;
  succeeded = true;
  payload = lit "{}";
  error = none;
}

abbrev accepted_at_once :
    (id : Text) (rest : List Received)
    → answers id (record { kind = kind_of id; id = id }) ≡ true
    → IsAccepted codec id (frame_of id ∷ rest)
unfolding first_answer
accepted_at_once id rest e = record {
  found = record { before = []; answer = frame_of id; rest = rest };
  first = rw e refl;
  response = granted_by id;
  decoded = refl;
  granted = refl;
}

abbrev after_challenge : List Received
after_challenge =
    frame_of (lit "connect-2")
    ∷ frame_of (lit "session-sub-4")
    ∷ frame_of (lit "chat-5")
    ∷ frame_of (lit "chat event")
    ∷ []

abbrev cooperates : Cooperates adapter codec link setting message wire
unfolding run_session
cooperates = record {
  agrees = agrees;
  identity = identity;
  auth = auth_by (lit "token") (lit "tok");
  prepared = refl;
  writes = λ r. refl;
  greeting = frame_of (lit "challenge");
  behind = after_challenge;
  begins = refl;
  challenge = record { kind = lit "event"; event = lit "connect.challenge"; nonce = lit "n" };
  challenged = refl;
  signature = signature;
  signed = refl;
  connects = accepted_at_once (lit "connect-2") _ refl;
  subscribes = accepted_at_once (lit "session-sub-4") _ refl;
  sends = accepted_at_once (lit "chat-5") _ refl;
}

abbrev said : ChatReplyPayload
said =
    record (reply_of (record { session = lit "s"; run = lit "r1"; cloud_msg = lit "chat-3" })
      (lit "Hi") 1) { is_final = true; is_end = true; finish_reason = lit "stop" }

chat-Returns_example : (chat adapter codec link setting services message wire).0 ≡ ok (said ∷ [])
unfolding run_session
chat-Returns_example =
    chat-Returns adapter codec link setting message wire cooperates services (said ∷ []) refl

await_response_lem_example :
    await_response adapter codec link (lit "chat.send") (lit "chat-5") wire.incoming []
    ≡ response_from adapter codec link
        (lit "chat-5")
        (lit "chat.send")
        wire.incoming
        []
        (first_answer codec (lit "chat-5") wire.incoming)
await_response_lem_example =
    await_response_lem adapter codec link (lit "chat-5") (lit "chat.send") wire.incoming [] agrees
