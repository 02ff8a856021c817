-- ===== src/Video/MiniMax.antt =====
-- internal/video/minimax_client.go: the client of the video provider. `encoding/json` is a record of
-- functions; an answer that decodes is given as its fields.
pub mod Sent
use ubuntu_daemon.Base.{
  ℕ, ◌+◌, ◌/◌, ◌%◌, Bool, ◌&&◌, ◌||◌, not, Option, none, some, List, [], ◌∷◌, ◌++◌, Text, Result,
  ok, err, is_nil, ltb, leb, ◌==◌, if◌then◌else◌,
}
use ubuntu_daemon.Base.Int.{ℤ, pos, eqb_ℤ}
use ubuntu_daemon.Text.{lit, decimal, trim_space, trim_right, is_slash, is_blank}
use ubuntu_daemon.Json.{Value, null, bool, num, str, arr, obj}
use ubuntu_daemon.Http.{HttpRequest, HttpResponse, HttpClient, is_failure}
use ubuntu_daemon.Video.Task.{GenerationRequest, TaskStatus}

-- `base_resp`.
pub record BaseResp : Type 0 where
  pub status_code : ℤ
  pub status_msg : Text

pub record Created : Type 0 where
  pub task_id : Value
  pub base_resp : BaseResp

pub record Queried : Type 0 where
  pub task_id : Value
  pub status : Value
  pub file_id : Value
  pub base_resp : BaseResp

pub record Retrieved : Type 0 where
  pub download_url : Text
  pub base_resp : BaseResp

pub record MiniMaxJson : Type 0 where
  pub marshal : GenerationRequest → Result Text
  pub created : Text → Result Created
  pub queried : Text → Result Queried
  pub retrieved : Text → Result Retrieved

pub record MiniMaxClient : Type 0 where
  pub base_url : Text
  pub api_key : Text
  pub http_client : HttpClient

unfoldable pub new_mini_max_client : HttpClient → Text → Text → MiniMaxClient
new_mini_max_client http base_url api_key = record {
  base_url = trim_right is_slash (trim_space base_url);
  api_key = trim_space api_key;
  http_client = http;
}

-- `applyAuth` on the headers of a request.
unfoldable pub apply_auth : MiniMaxClient → List (Text × Text) → List (Text × Text)
apply_auth c headers =
    if is_nil c.api_key
    then headers
    else headers ++ ((lit "Authorization", lit "Bearer " ++ c.api_key) ∷ [])

-- A value of `interface{}`: numbers are `float64` there, and converted to `int64`.
unfoldable pub normalize_string : Value → Text
normalize_string (str s) = trim_space s
normalize_string (num n) = decimal n
normalize_string null = []
normalize_string (bool b) = []
normalize_string (arr vs) = []
normalize_string (obj fs) = []

-- `url.QueryEscape`.
abbrev pub is_unreserved : ℕ → Bool
is_unreserved c =
    (leb b'A' c && leb c b'Z')
    || (leb b'a' c && leb c b'z')
    || (leb b'0' c && leb c b'9')
    || c == b'-'
    || c == b'_'
    || c == b'.'
    || c == b'~'

abbrev pub upper_hex : ℕ → ℕ
upper_hex n = if ltb n 10 then b'0' + n else b'A' + n % 10

unfoldable pub query_escape : Text → Text
query_escape [] = []
query_escape (c ∷ s) =
    let rest = query_escape s in
    if is_unreserved c
    then c ∷ rest
    else if c == 0x20
    then b'+' ∷ rest
    else b'%' ∷ upper_hex (c / 16) ∷ upper_hex (c % 16) ∷ rest

-- What the status of the answer, and that in it, say against it.
unfoldable pub refused : Text → HttpResponse → BaseResp → Option Text
refused name resp base =
    if is_failure resp
    then some (name ++ (lit " failed http=" ++ decimal resp.status_code))
    else if not (eqb_ℤ base.status_code (pos 0))
    then some (
        name
        ++ (lit " failed code="
            ++ (decimal base.status_code ++ (lit " message=" ++ base.status_msg))))
    else none

module _ (c : MiniMaxClient) (j : MiniMaxJson) where
  abbrev pub create_request : Text → HttpRequest
  create_request body = record {
    method = lit "POST";
    url = c.base_url ++ lit "/v1/video_generation";
    headers = apply_auth c ((lit "Content-Type", lit "application/json") ∷ []);
    body = body;
  }

  unfoldable pub task_of : HttpResponse → Result Text
  task_of resp = elim (j.created resp.body) [
    | err why ↦ err (lit "decode create video response: " ++ why)
    | ok parsed ↦ elim (refused (lit "create video task") resp parsed.base_resp) [
      | some why ↦ err why
      | none ↦
          let task_id = normalize_string parsed.task_id in
          if is_nil task_id
          then err (lit "create video task response missing task_id")
          else ok task_id
    ]
  ]

  unfoldable pub create_text_to_video : GenerationRequest → Result Text
  create_text_to_video req = elim (j.marshal req) [
    | err why ↦ err (lit "marshal create video request: " ++ why)
    | ok body ↦ elim (c.http_client.build (lit "POST") (c.base_url ++ lit "/v1/video_generation")) [
      | some why ↦ err (lit "build create video request: " ++ why)
      | none ↦ elim (c.http_client.send (create_request body)) [
        | err why ↦ err (lit "request create video task: " ++ why)
        | ok resp ↦ task_of resp
      ]
    ]
  ]

  -- A GET with one query value.
  abbrev pub query_request : Text → Text → Text → HttpRequest
  query_request path key value = record {
    method = lit "GET";
    url = c.base_url ++ (path ++ (lit "?" ++ (key ++ (lit "=" ++ query_escape value))));
    headers = apply_auth c [];
    body = [];
  }

  unfoldable pub status_of : HttpResponse → Result TaskStatus
  status_of resp = elim (j.queried resp.body) [
    | err why ↦ err (lit "decode query video response: " ++ why)
    | ok parsed ↦ elim (refused (lit "query video task") resp parsed.base_resp) [
      | some why ↦ err why
      | none ↦ ok (record {
        task_id = normalize_string parsed.task_id;
        status = trim_space (normalize_string parsed.status);
        file_id = normalize_string parsed.file_id;
      })
    ]
  ]

  unfoldable pub query_task : Text → Result TaskStatus
  query_task task_id =
      let request = query_request (lit "/v1/query/video_generation") (lit "task_id") task_id in
      elim (c.http_client.build (lit "GET") request.url) [
        | some why ↦ err (lit "build query video request: " ++ why)
        | none ↦ elim (c.http_client.send request) [
          | err why ↦ err (lit "request query video task: " ++ why)
          | ok resp ↦ status_of resp
        ]
      ]

  unfoldable pub url_of : HttpResponse → Result Text
  url_of resp = elim (j.retrieved resp.body) [
    | err why ↦ err (lit "decode retrieve file response: " ++ why)
    | ok parsed ↦ elim (refused (lit "retrieve file") resp parsed.base_resp) [
      | some why ↦ err why
      | none ↦
          if is_blank parsed.download_url
          then err (lit "retrieve file response missing download_url")
          else ok (trim_space parsed.download_url)
    ]
  ]

  unfoldable pub retrieve_file : Text → Result Text
  retrieve_file file_id =
      let request = query_request (lit "/v1/files/retrieve") (lit "file_id") file_id in
      elim (c.http_client.build (lit "GET") request.url) [
        | some why ↦ err (lit "build retrieve file request: " ++ why)
        | none ↦ elim (c.http_client.send request) [
          | err why ↦ err (lit "request retrieve file: " ++ why)
          | ok resp ↦ url_of resp
        ]
      ]
