-- ===== src/Gateway/Uploads.antt =====
-- `uploadLocalAttachments`, `UploadLocalAttachment` and `uploadAttachmentFile`. The file system and
-- the three HTTP calls are functions.
use ubuntu_daemon.Base.{
  ◌≡◌, ◌⊎◌, Bool, true, false, not, Option, none, some, List, [], ◌∷◌, ◌++◌, arith, Text, Result,
  ok, err, is_nil, if◌then◌else◌,
}
use ubuntu_daemon.Base.Int.{ℤ}
use ubuntu_daemon.Text.{lit, trim_space, trim_right, is_slash, is_blank}
use ubuntu_daemon.Protocol.{ChatAttachment}
use ubuntu_daemon.Config.{MediaConfig, base}
use ubuntu_daemon.Gateway.Attachments.{normalize_media_type}

pub record MediaUploadInitRequest : Type 0 where
  pub device_uuid : Text
  pub session_id : Text
  pub msg_id : Text
  pub media_type : Text
  pub origin_name : Text
  pub file_size : ℤ

pub record MediaUploadInitData : Type 0 where
  pub media_id : Text
  pub upload_url : Text
  pub preview_url : Text

pub record MediaUploadCompleteRequest : Type 0 where
  pub media_id : Text
  pub mime_type : Text
  pub file_size : ℤ

pub record Stat : Type 0 where
  pub is_dir : Bool
  pub size : ℤ

pub record Uploader : Type 0 where
  pub media : MediaConfig
  pub device_id : Text
  pub stat : Text → Result Stat
  pub init : Text → MediaUploadInitRequest → Result MediaUploadInitData
  pub put : Text → Text → Text → Option Text  -- the URL, the path, the MIME type, and the error
  pub complete : Text → MediaUploadCompleteRequest → Result Text  -- the preview URL

module _ (u : Uploader) (session msg : Text) where
  abbrev uploaded : MediaUploadInitData → ℤ → Text → ChatAttachment → ChatAttachment
  uploaded data_ size preview a = record a {
    media_id = data_.media_id;
    file_size = size;
    local_path = [];
    error_code = [];
    error_message = [];
    preview_url =
        if not (is_blank preview)
        then preview
        else if not (is_blank data_.preview_url)
        then data_.preview_url
        else a.preview_url;
  }

  abbrev pub init_request : ℤ → ChatAttachment → MediaUploadInitRequest
  init_request size a = record {
    device_uuid = u.device_id;
    session_id = session;
    msg_id = msg;
    media_type = normalize_media_type a.media_type;
    origin_name = base a.local_path;
    file_size = size;
  }

  abbrev pub complete_request :
      MediaUploadInitData → ℤ → ChatAttachment → MediaUploadCompleteRequest
  complete_request started size a = record {
    media_id = started.media_id;
    mime_type = a.mime_type;
    file_size = size;
  }

  -- The calls to the back end for a file of this size.
  unfoldable pub transfer : Text → ℤ → ChatAttachment → Result ChatAttachment
  transfer backend size a = elim (u.init backend (init_request size a)) [
    | err why ↦ err why
    | ok started ↦ elim (u.put started.upload_url a.local_path a.mime_type) [
      | some why ↦ err why
      | none ↦ elim (u.complete backend (complete_request started size a)) [
        | err why ↦ err why
        | ok preview ↦ ok (uploaded started size preview a)
      ]
    ]
  ]

  unfoldable pub upload_attachment_file : ChatAttachment → Result ChatAttachment
  upload_attachment_file a =
      let backend = trim_space u.media.backend_base_url in
      if is_nil backend
      then err (lit "media.backend_base_url is empty")
      else elim (u.stat a.local_path) [
        | err why ↦ err (lit "stat media file: " ++ why)
        | ok s ↦
            if s.is_dir
            then err (lit "media path is directory: " ++ a.local_path)
            else transfer (trim_right is_slash backend) s.size a
      ]

  unfoldable pub upload_one : ChatAttachment → ChatAttachment
  upload_one a = if is_blank a.local_path then a else elim (upload_attachment_file a) [
    | ok b ↦ b
    | err why ↦ record a { error_code = lit "MEDIA_UPLOAD_FAILED"; error_message = why }
  ]

  unfoldable pub upload_local_attachments : List ChatAttachment → List ChatAttachment
  upload_local_attachments [] = []
  upload_local_attachments (a ∷ rest) = upload_one a ∷ upload_local_attachments rest

  unfoldable pub upload_local_attachment : ChatAttachment → Result ChatAttachment
  upload_local_attachment a =
      if is_blank a.local_path then err (lit "local_path is required") else upload_attachment_file a

  -- What becomes of an attachment: one without a local path stays, another is uploaded, with no
  -- local path and no error left, or carries the error of its upload.
  abbrev pub IsSettled : ChatAttachment → ChatAttachment → Type 0
  IsSettled a b =
      ((is_blank a.local_path ≡ true) × (b ≡ a))
      ⊎ ((is_blank a.local_path ≡ false)
          × (((b.local_path ≡ []) × (b.error_code ≡ []) × (b.error_message ≡ []))
              ⊎ ((b.local_path ≡ a.local_path) × (b.error_code ≡ lit "MEDIA_UPLOAD_FAILED"))))

  abbrev pub AreSettled : List ChatAttachment → List ChatAttachment → Type 0
  AreSettled [] [] = Unit
  AreSettled [] (b ∷ bs) = ⊥
  AreSettled (a ∷ rest) [] = ⊥
  AreSettled (a ∷ rest) (b ∷ bs) = IsSettled a b × AreSettled rest bs

  upload_one-IsSettled : (a : ChatAttachment) → IsSettled a (upload_one a)
  unfolding upload_one upload_attachment_file transfer
  upload_one-IsSettled a = ground arith

  -- Whatever the file system and the back end answer: the attachments stay in their number and
  -- order, and each of them is settled.
  pub upload_local_attachments-AreSettled :
      (items : List ChatAttachment) → AreSettled items (upload_local_attachments items)
  unfolding upload_local_attachments
  upload_local_attachments-AreSettled [] = tt
  upload_local_attachments-AreSettled (a ∷ rest) =
      (upload_one-IsSettled a, upload_local_attachments-AreSettled rest)
