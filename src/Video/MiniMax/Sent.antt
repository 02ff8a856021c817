-- ===== src/Video/MiniMax/Sent.antt =====
-- What the provider can read from the client's requests, and what the client's results say.
use mathlib.Core.Path.{subst}
use ubuntu_daemon.Base.{
  ℕ, ◌+◌, ◌-◌, ◌*◌, ◌/◌, ◌%◌, ◌<◌, ◌≡◌, refl, sym, ap, ◌∙◌, ==_iff, true, false, none, [], ◌∷◌,
  arith, Text, Result, ok, err, is_nil, ltb, ◌==◌, All, ◌++◌, Bool-cases, Option-cases, inl, inr,
  if◌then◌else◌,
}
use ubuntu_daemon.Base.Int.{pos}
use ubuntu_daemon.Text.{lit}
use ubuntu_daemon.Http.{HttpResponse, is_failure}
use ubuntu_daemon.Video.Task.{GenerationRequest}
use ubuntu_daemon.Video.MiniMax.{
  create_request, create_text_to_video, BaseResp, Created, MiniMaxJson, MiniMaxClient,
  normalize_string, is_unreserved, upper_hex, query_escape, refused, task_of,
}

-- The value of a query, as a server reads it: `+` is a space, `%` stands before two digits.
abbrev digit_value : ℕ → ℕ
digit_value c = if ltb c b'A' then c - b'0' else c - b'A' + 10

-- Whether a server stands behind a `%`, or behind one digit of that value.
pub data Unescaping : Type 0 where
  plain high : Unescaping
  low : ℕ → Unescaping

unfoldable pub query_unescape : Unescaping → Text → Text
query_unescape plain [] = []
query_unescape high [] = []
query_unescape (low n) [] = []
query_unescape high (c ∷ s) = query_unescape (low (digit_value c)) s
query_unescape (low n) (c ∷ s) = (n * 16 + digit_value c) ∷ query_unescape plain s
query_unescape plain (c ∷ s) =
    let escaped = query_unescape high s in
    let space = 0x20 ∷ query_unescape plain s in
    let same = c ∷ query_unescape plain s in
    if c == b'%' then escaped else if c == b'+' then space else same

digit_value-upper_hex : (n : ℕ) → n < 16 → digit_value (upper_hex n) ≡ n
digit_value-upper_hex n h = ground arith

unescape_kept :
    (c : ℕ) (s : Text)
    → is_unreserved c ≡ true
    → query_unescape plain (c ∷ s) ≡ c ∷ query_unescape plain s
unfolding query_unescape
unescape_kept c s h = ground arith

unescape_space : (s : Text) → query_unescape plain (b'+' ∷ s) ≡ 0x20 ∷ query_unescape plain s
unfolding query_unescape
unescape_space s = refl

unescape_byte :
    (c : ℕ) (s : Text)
    → c < 256
    → query_unescape plain (b'%' ∷ upper_hex (c / 16) ∷ upper_hex (c % 16) ∷ s)
      ≡ c ∷ query_unescape plain s
unfolding query_unescape
unescape_byte c s h =
    ap (λ (b : ℕ). b ∷ query_unescape plain s)
      (omega (
        arith,
        digit_value-upper_hex (c / 16) (omega arith),
        digit_value-upper_hex (c % 16) (omega arith),
      ))

-- A server that decodes the query has the text again, whatever its bytes.
pub query_unescape-query_escape :
    (s : Text) → All (λ c. c < 256) s → query_unescape plain (query_escape s) ≡ s
unfolding query_escape
query_unescape-query_escape [] h = unfold query_unescape in refl
query_unescape-query_escape (c ∷ s) (b, h) = elim (Bool-cases (is_unreserved c)) [
  | inl kept ↦
      rw (kept, query_escape)
        (unescape_kept c (query_escape s) kept ∙ ap (◌∷◌ c) (query_unescape-query_escape s h))
  | inr other ↦ elim (Bool-cases (c == 0x20)) [
    | inl space ↦
        rw (other, query_escape)
          (rw space (
            unescape_space (query_escape s)
            ∙ ap (λ (b : ℕ). b ∷ query_unescape plain (query_escape s))
                (sym ((==_iff c 0x20).0 space))
            ∙ ap (◌∷◌ c) (query_unescape-query_escape s h)))
    | inr rare ↦
        rw (other, query_escape)
          (rw rare
            (unescape_byte c (query_escape s) b ∙ ap (◌∷◌ c) (query_unescape-query_escape s h)))
  ]
]

-- An answer with a status of 200 to 299.
abbrev Succeeded : HttpResponse → BaseResp → Type 0
Succeeded resp base = (is_failure resp ≡ false) × (base.status_code ≡ pos 0)

not_refused :
    (name : Text) (resp : HttpResponse) (base : BaseResp)
    → refused name resp base ≡ none
    → Succeeded resp base
unfolding refused
not_refused name resp base e = ground arith

module _ (c : MiniMaxClient) (j : MiniMaxJson) (resp : HttpResponse) where
  abbrev pub IsTask : Text → Type 0
  IsTask id =
      (is_nil id ≡ false)
      × ((parsed : Created) × (j.created resp.body ≡ ok parsed) × Succeeded resp parsed.base_resp)

  task_of-IsTask : (id : Text) → task_of c j resp ≡ ok id → IsTask id
  unfolding task_of
  task_of-IsTask id e = from (j.created resp.body) refl
    where
      from : (r : Result Created) → j.created resp.body ≡ r → IsTask id
      from (err why) q = absurd (cc (rw (q, task_of) at e))
      from (ok parsed) q =
          elim (Option-cases (refused (lit "create video task") resp parsed.base_resp)) [
            | inr (why, bad) ↦ absurd (cc (rw (q, bad, task_of) at e))
            | inl fine ↦ elim (Bool-cases (is_nil (normalize_string parsed.task_id))) [
              | inl missing ↦ absurd (cc (rw (q, fine, missing, task_of) at e))
              | inr named ↦
                  let same : normalize_string parsed.task_id ≡ id =
                    cc (rw (q, fine, named, task_of) at e) in
                  (
                    subst (λ t. is_nil t ≡ false) same named,
                    (parsed, q, not_refused _ resp parsed.base_resp fine),
                  )
            ]
          ]

module _ (c : MiniMaxClient) (j : MiniMaxJson) where
  -- The request for a task, and an answer to it that names the task.
  abbrev pub Made : GenerationRequest → Text → Type 0
  Made req id =
      (body : Text) × (j.marshal req ≡ ok body)
      × ((resp : HttpResponse) × (c.http_client.send (create_request c j body) ≡ ok resp)
          × IsTask c j resp id)

  -- The client reports a new task only with an id that is not empty, and only if the provider has
  -- answered the request for it with a status of 200 to 299 and a status of 0 inside.
  pub create_text_to_video-IsTask :
      (req : GenerationRequest) (id : Text) → create_text_to_video c j req ≡ ok id → Made req id
  unfolding create_text_to_video
  create_text_to_video-IsTask req id e = from_body (j.marshal req) refl
    where
      from_answer :
          (body : Text) (r : Result HttpResponse)
          → j.marshal req ≡ ok body
          → c.http_client.build (lit "POST") (c.base_url ++ lit "/v1/video_generation") ≡ none
          → c.http_client.send (create_request c j body) ≡ r
          → Made req id
      from_answer body (err why) m b q = absurd (cc (rw (m, b, q, create_text_to_video) at e))
      from_answer body (ok resp) m b q =
          let answered = rw (m, b, q, create_text_to_video) at e in
          (body, m, (resp, q, task_of-IsTask c j resp id answered))

      from_body : (r : Result Text) → j.marshal req ≡ r → Made req id
      from_body (err why) m = absurd (cc (rw (m, create_text_to_video) at e))
      from_body (ok body) m =
          elim (Option-cases
            (c.http_client.build (lit "POST") (c.base_url ++ lit "/v1/video_generation"))) [
              | inr (why, bad) ↦ absurd (cc (rw (m, bad, create_text_to_video) at e))
              | inl built ↦ from_answer body _ m built refl
            ]
