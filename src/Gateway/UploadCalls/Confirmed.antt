-- ===== src/Gateway/UploadCalls/Confirmed.antt =====
-- What a successful upload has behind it.
use ubuntu_daemon.Base.{◌≡◌, false, none, [], Text, ok}
use ubuntu_daemon.Base.Int.{ℤ}
use ubuntu_daemon.Text.{is_blank, trim_space, trim_right, is_slash}
use ubuntu_daemon.Protocol.{ChatAttachment}
use ubuntu_daemon.Http.{HttpResponse, is_failure}
use ubuntu_daemon.Gateway.Uploads.{MediaUploadInitData, Uploader, init_request, complete_request}
use ubuntu_daemon.Gateway.UploadCalls.{
  UploadBackend, put_request, call_upload_init, MediaUploadCompleteData, call_upload_complete,
}

module _ (b : UploadBackend) where
  -- The bytes of the file have been put to an address, and the server has taken them.
  pub record IsStored (url path mime : Text) : Type 0 where
    pub content : Text
    pub opened : b.open_file path ≡ ok content
    pub response : HttpResponse
    pub sent : b.client.send (put_request b url mime content) ≡ ok response
    pub taken : is_failure response ≡ false

-- The calls that a transfer without an error has made.
record HasTransferred (u : Uploader) (session msg backend : Text) (a out : ChatAttachment)
    : Type 0 where
  size : ℤ
  started : MediaUploadInitData
  begun : u.init backend (init_request u session msg size a) ≡ ok started
  put_done : u.put started.upload_url a.local_path a.mime_type ≡ none
  preview : Text
  completed : u.complete backend (complete_request u session msg started size a) ≡ ok preview
  same_id : out.media_id ≡ started.media_id
  no_path : out.local_path ≡ []

-- The three calls behind an upload, in their order: the back end starts an upload of the file; its
-- bytes are put to the address of that answer; and the back end confirms the medium of that answer.
pub record IsConfirmed (b : UploadBackend) (u : Uploader) (session msg : Text)
    (a out : ChatAttachment) : Type 0 where
  pub size : ℤ
  pub started : MediaUploadInitData
  pub begun :
      call_upload_init b
        (trim_right is_slash (trim_space b.media.backend_base_url))
        (init_request u session msg size a)
      ≡ ok started
  pub addressed : is_blank started.upload_url ≡ false
  pub named : is_blank started.media_id ≡ false
  pub stored : IsStored b started.upload_url a.local_path a.mime_type
  pub confirmation : MediaUploadCompleteData
  pub confirmed :
      call_upload_complete b
        (trim_right is_slash (trim_space b.media.backend_base_url))
        (complete_request u session msg started size a)
      ≡ ok confirmation
  pub same_id : out.media_id ≡ started.media_id
  pub no_path : out.local_path ≡ []
