-- ===== src/Http.antt =====
-- What the clients use of net/http: a request, and the answer to it. Building a request and sending
-- it can fail; a body is its bytes.
use ubuntu_daemon.Base.{Bool, ◌||◌, Option, List, Text, Result}
use ubuntu_daemon.Base.Int.{ℤ, pos, ltb_ℤ, leb_ℤ}

pub record HttpRequest : Type 0 where
  pub method : Text
  pub url : Text
  pub headers : List (Text × Text)
  pub body : Text

pub record HttpResponse : Type 0 where
  pub status_code : ℤ
  pub body : Text

-- `build` is the error of `http.NewRequestWithContext`, `send` is `httpClient.Do`.
pub record HttpClient : Type 0 where
  pub build : Text → Text → Option Text
  pub send : HttpRequest → Result HttpResponse

-- `resp.StatusCode < 200 || resp.StatusCode >= 300`.
abbrev pub is_failure : HttpResponse → Bool
is_failure r = ltb_ℤ r.status_code (pos 200) || leb_ℤ (pos 300) r.status_code
