-- ===== src/Gateway/Session/Asked.antt =====
-- What a session has asked the gateway, and which of its requests have been accepted.
use ubuntu_daemon.Base.{
  ℕ, suc, ◌≡◌, refl, ap, ◌∙◌, List, [], ◌∷◌, ◌++◌, map, Text, Result, ok, err, take, All,
  All-append,
}
use ubuntu_daemon.Text.{lit}
use ubuntu_daemon.Gateway.Session.Tokens.{Adapter}
use ubuntu_daemon.Gateway.Session.Wire.{GatewayRequest, GatewayResponse, Codec, Received, Wire}
use ubuntu_daemon.Gateway.Session.Requests.{
  Link, await_connect, await_response, connected, response_to,
}
use ubuntu_daemon.Gateway.Session.Granted.{
  Among, Grants, IfGranted, await_connect-Granted, await_response-Granted,
}
use ubuntu_daemon.Gateway.Session.Triples.{Ends, Triple}

abbrev pub all_requests : List Text
all_requests = lit "connect" ∷ lit "sessions.messages.subscribe" ∷ lit "chat.send" ∷ []

abbrev pub methods : Wire → List Text
methods w = map (λ r. r.method) w.sent

module _ (c : Codec) (all : List Received) where
  -- Every request but the last has been accepted by a frame among `all`.
  abbrev pub EarlierGranted : List GatewayRequest → Type 0
  EarlierGranted [] = Unit
  EarlierGranted (r ∷ []) = Unit
  EarlierGranted (r ∷ (q ∷ rest)) = Grants c all r.id × EarlierGranted (q ∷ rest)

  abbrev pub AllGranted : List GatewayRequest → Type 0
  AllGranted = All (λ r. Grants c all r.id)

  -- The first `k` requests have been written, and no other, and each has been accepted; what is
  -- still unread stands among `all`.
  abbrev pub HasAsked : ℕ → Wire → Type 0
  HasAsked k w = (methods w ≡ take k all_requests) × AllGranted w.sent × All (Among all) w.incoming

  -- As `HasAsked`, but the last request still waits for its response.
  abbrev pub Awaits : ℕ → GatewayRequest → Wire → Type 0
  Awaits k request w =
      (methods w ≡ take k all_requests)
      × ((before : List GatewayRequest) × (w.sent ≡ before ++ (request ∷ [])) × AllGranted before)
      × All (Among all) w.incoming

  -- How an error is left: behind some of the requests, in their order.
  abbrev pub FailedAsking : Text → Wire → Type 0
  FailedAsking why w = (k : ℕ) × (methods w ≡ take k all_requests) × EarlierGranted w.sent

  EarlierGranted-append :
      (sent : List GatewayRequest) (r : GatewayRequest)
      → AllGranted sent
      → EarlierGranted (sent ++ (r ∷ []))
  EarlierGranted-append [] r h = tt
  EarlierGranted-append (q ∷ []) r (x, h) = (x, tt)
  EarlierGranted-append (q ∷ (q' ∷ sent)) r (x, h) = (x, EarlierGranted-append (q' ∷ sent) r h)

  pub AllGranted-EarlierGranted :
      (sent : List GatewayRequest) → AllGranted sent → EarlierGranted sent
  AllGranted-EarlierGranted [] h = tt
  AllGranted-EarlierGranted (q ∷ []) h = tt
  AllGranted-EarlierGranted (q ∷ (q' ∷ sent)) (x, h) = (x, AllGranted-EarlierGranted (q' ∷ sent) h)

map_method-append :
    (sent : List GatewayRequest) (r : GatewayRequest)
    → map (λ r. r.method) (sent ++ (r ∷ [])) ≡ map (λ r. r.method) sent ++ (r.method ∷ [])
map_method-append [] r = refl
map_method-append (q ∷ sent) r = ap (◌∷◌ q.method) (map_method-append sent r)

module _ (a : Adapter) (c : Codec) (link : Link) (all : List Received) where
  pub failed : (k : ℕ) (w : Wire) (why : Text) → HasAsked c all k w → FailedAsking c all why w
  failed k w why (m, g, u) = (k, m, AllGranted-EarlierGranted c all w.sent g)

  pub asked :
      (k : ℕ) (request : GatewayRequest) (w : Wire)
      → take k all_requests ++ (request.method ∷ []) ≡ take (suc k) all_requests
      → HasAsked c all k w
      → Awaits c all (suc k) request (record w { sent = w.sent ++ (request ∷ []) })
  asked k request w next (m, g, u) = (
    map_method-append w.sent request ∙ ap (λ (l : List Text). l ++ (request.method ∷ [])) m ∙ next,
    (w.sent, refl, g),
    u,
  )

  -- A response that accepts the request, and any other end of the wait.
  answered :
      (k : ℕ) (request : GatewayRequest) (out : Result GatewayResponse) (w : Wire)
      → Awaits c all k request w
      → IfGranted a c link all request.id out
      → Ends (FailedAsking c all) (λ _. HasAsked c all k) (out, w)
  answered k request (err why) w (m, (before, e, g), u) h =
      (k, m, rw e (EarlierGranted-append c all before request g))
  answered k request (ok r) w (m, (before, e, g), u) h =
      (m, rw e (All-append (λ r. Grants c all r.id) before (request ∷ []) g (h, tt)), u)

  pub connected-HasAsked :
      (k : ℕ) (request : GatewayRequest)
      → Triple
          (Awaits c all k request)
          (connected a c link request.id)
          (λ _. HasAsked c all k)
          (FailedAsking c all)
  unfolding connected
  connected-HasAsked k request w (m, b, u) =
      let (rest, granted) = await_connect-Granted a c link all request.id w.incoming u in
      answered k request (await_connect a c link request.id w.incoming).0
        (record w { incoming = (await_connect a c link request.id w.incoming).1 }) (m, b, rest)
        granted

  pub response_to-HasAsked :
      (k : ℕ) (request : GatewayRequest)
      → Triple
          (Awaits c all k request)
          (response_to a c link request.method request.id)
          (λ _. HasAsked c all k)
          (FailedAsking c all)
  unfolding response_to
  response_to-HasAsked k request w (m, b, u) =
      let out = await_response a c link request.method request.id w.incoming w.disk in
      let (rest, granted) =
        await_response-Granted a c link all request.id request.method w.incoming w.disk u in
      answered k request out.0 (record w { incoming = out.1; disk = out.2 }) (m, b, rest) granted
