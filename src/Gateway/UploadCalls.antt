-- ===== src/Gateway/UploadCalls.antt =====
-- `callUploadInit`, `putFileToPresignedURL` and `callUploadComplete`: the three HTTP calls behind an
-- upload. `encoding/json` and the opening of the file are functions.
pub mod Confirmed
use ubuntu_daemon.Base.{
  ◌≡◌, refl, Bool, true, false, ◌&&◌, ◌||◌, not, Option, none, some, List, [], ◌∷◌, ◌++◌, arith,
  Text, Result, ok, err, is_nil, Bool-cases, inl, inr, take, if◌then◌else◌,
}
use ubuntu_daemon.Base.Int.{ℤ, pos, eqb_ℤ}
use ubuntu_daemon.Text.{lit, decimal, trim_space, is_blank}
use ubuntu_daemon.Protocol.{ChatAttachment}
use ubuntu_daemon.Config.{MediaConfig}
use ubuntu_daemon.Http.{HttpRequest, HttpResponse, HttpClient, is_failure}
use ubuntu_daemon.Gateway.Uploads.{
  MediaUploadInitRequest, MediaUploadInitData, MediaUploadCompleteRequest, Stat, Uploader, transfer,
  upload_attachment_file,
}

pub record MediaUploadCompleteData : Type 0 where
  pub media_id : Text
  pub preview_url : Text
  pub status : Text

-- `resultWrapper`.
pub record ResultWrapper (D : Type 0) : Type 0 where
  pub code : ℤ
  pub message : Text
  pub error_code : Text
  pub payload : D  -- Data

pub record UploadBackend : Type 0 where
  pub client : HttpClient
  pub media : MediaConfig
  pub marshal_init : MediaUploadInitRequest → Result Text
  pub decode_init : Text → Result (ResultWrapper MediaUploadInitData)
  pub marshal_complete : MediaUploadCompleteRequest → Result Text
  pub decode_complete : Text → Result (ResultWrapper MediaUploadCompleteData)
  pub open_file : Text → Result Text

abbrev json_type : Text × Text
json_type = (lit "Content-Type", lit "application/json")

unfoldable pub upload_headers : UploadBackend → List (Text × Text)
upload_headers b =
    let token = trim_space b.media.upload_token in
    if is_nil token then json_type ∷ [] else json_type ∷ (lit "X-Device-Upload-Token", token) ∷ []

abbrev post : Text → List (Text × Text) → Text → HttpRequest
post url headers body = record { method = lit "POST"; url = url; headers = headers; body = body }

-- Both calls that post JSON report a refusal alike.
unfoldable pub refusal : {D : Type 0} → Text → HttpResponse → ResultWrapper D → Text
refusal name resp r =
    name
    ++ (lit " failed http="
        ++ (decimal resp.status_code
            ++ (lit " code="
                ++ (decimal r.code
                    ++ (lit " errorCode=" ++ (r.error_code ++ (lit " message=" ++ r.message)))))))

unfoldable pub accepted : {D : Type 0} → HttpResponse → ResultWrapper D → Bool
accepted resp r = not (is_failure resp || not (eqb_ℤ r.code (pos 200)))

module _ (b : UploadBackend) where
  -- The answer of `upload-init`.
  unfoldable pub init_data : HttpResponse → Result MediaUploadInitData
  init_data resp = elim (b.decode_init resp.body) [
    | err why ↦ err (lit "decode upload-init response: " ++ why)
    | ok r ↦
        if not (accepted resp r)
        then err (refusal (lit "upload-init") resp r)
        else if is_blank r.payload.upload_url || is_blank r.payload.media_id
        then err (lit "upload-init response missing uploadUrl/mediaId")
        else ok r.payload
  ]

  unfoldable pub call_upload_init : Text → MediaUploadInitRequest → Result MediaUploadInitData
  call_upload_init backend_base payload =
      let endpoint = backend_base ++ lit "/internal/media/upload-init" in
      elim (b.marshal_init payload) [
        | err why ↦ err (lit "marshal upload-init payload: " ++ why)
        | ok body ↦ elim (b.client.build (lit "POST") endpoint) [
          | some why ↦ err (lit "build upload-init request: " ++ why)
          | none ↦ elim (b.client.send (post endpoint (upload_headers b) body)) [
            | err why ↦ err (lit "request upload-init: " ++ why)
            | ok resp ↦ init_data resp
          ]
        ]
      ]

  abbrev pub put_request : Text → Text → Text → HttpRequest
  put_request upload_url mime_type content = record {
    method = lit "PUT";
    url = upload_url;
    headers = if is_blank mime_type then [] else (lit "Content-Type", mime_type) ∷ [];
    body = content;
  }

  -- `some` is an error.
  unfoldable pub put_file_to_presigned_url : Text → Text → Text → Option Text
  put_file_to_presigned_url upload_url local_path mime_type = elim (b.open_file local_path) [
    | err why ↦ some (lit "open media file: " ++ why)
    | ok content ↦ elim (b.client.build (lit "PUT") upload_url) [
      | some why ↦ some (lit "build presigned put request: " ++ why)
      | none ↦ elim (b.client.send (put_request upload_url mime_type content)) [
        | err why ↦ some (lit "put media file: " ++ why)
        | ok resp ↦
            if is_failure resp
            then some (
                lit "put media file failed http="
                ++ (decimal resp.status_code ++ (lit " body=" ++ trim_space (take 2048 resp.body))))
            else none
      ]
    ]
  ]

  unfoldable pub complete_data : HttpResponse → Result MediaUploadCompleteData
  complete_data resp = elim (b.decode_complete resp.body) [
    | err why ↦ err (lit "decode upload-complete response: " ++ why)
    | ok r ↦
        if not (accepted resp r) then err (refusal (lit "upload-complete") resp r) else ok r.payload
  ]

  unfoldable pub call_upload_complete :
      Text → MediaUploadCompleteRequest → Result MediaUploadCompleteData
  call_upload_complete backend_base payload =
      let endpoint = backend_base ++ lit "/internal/media/upload-complete" in
      elim (b.marshal_complete payload) [
        | err why ↦ err (lit "marshal upload-complete payload: " ++ why)
        | ok body ↦ elim (b.client.build (lit "POST") endpoint) [
          | some why ↦ err (lit "build upload-complete request: " ++ why)
          | none ↦ elim (b.client.send (post endpoint (upload_headers b) body)) [
            | err why ↦ err (lit "request upload-complete: " ++ why)
            | ok resp ↦ complete_data resp
          ]
        ]
      ]

  -- The adapter's uploads over these calls.
  abbrev pub uploader : Text → (Text → Result Stat) → Uploader
  uploader device_id stat = record {
    media = b.media;
    device_id = device_id;
    stat = stat;
    init = call_upload_init;
    put = put_file_to_presigned_url;
    complete = λ backend payload. elim (call_upload_complete backend payload) [
      | err why ↦ err why
      | ok r ↦ ok r.preview_url
    ];
  }
