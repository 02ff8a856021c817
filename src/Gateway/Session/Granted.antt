-- ===== src/Gateway/Session/Granted.antt =====
-- What stands behind a wait that succeeds: a frame that accepts the request.
use ubuntu_daemon.Base.{
  ◌≡◌, refl, sym, ◌∙◌, true, List, [], ◌∷◌, ◌++◌, append_assoc, Text, Result, ok, err, All,
  Bool-cases, inl, inr,
}
use ubuntu_daemon.Files.{Disk}
use ubuntu_daemon.Gateway.Session.Tokens.{Adapter}
use ubuntu_daemon.Gateway.Session.Wire.{
  GatewayResponse, Head, Codec, Received, handle_control_frame,
}
use ubuntu_daemon.Gateway.Session.Requests.{
  Link, answers, accept_response, await_connect, await_response,
}

-- A frame that stands somewhere in the list.
abbrev pub Among : List Received → Received → Type 0
Among all f = (pre : List Received) × (rest : List Received) × (all ≡ pre ++ (f ∷ rest))

All-Among_rest : (all pre rest : List Received) → all ≡ pre ++ rest → All (Among all) rest
All-Among_rest all pre [] e = tt
All-Among_rest all pre (f ∷ rest) e = (
  (pre, rest, e),
  All-Among_rest all (pre ++ (f ∷ [])) rest (e ∙ sym (append_assoc pre (f ∷ []) rest)),
)

pub All-Among : (all : List Received) → All (Among all) all
All-Among all = All-Among_rest all [] all refl

-- One of the frames answers the request with this id, and accepts it.
pub record Grants (c : Codec) (all : List Received) (id : Text) : Type 0 where
  pub frame : Received
  pub among : Among all frame
  pub head : Head
  pub head_read : c.head frame.text ≡ ok head
  pub mine : answers id head ≡ true
  pub response : GatewayResponse
  pub response_read : c.response frame.text ≡ ok response
  pub succeeded : response.succeeded ≡ true

module _ (a : Adapter) (c : Codec) (link : Link) (all : List Received) (id : Text) where
  abbrev pub IfGranted : Result GatewayResponse → Type 0
  IfGranted (err why) = Unit
  IfGranted (ok r) = Grants c all id

  module _ (parsing rejected : Text) (f : Received) (head : Head) (among : Among all f)
      (e : c.head f.text ≡ ok head) (mine : answers id head ≡ true) where
    accepted_one :
        (r : Result GatewayResponse)
        → c.response f.text ≡ r
        → IfGranted (accept_response parsing rejected r)
    unfolding accept_response
    accepted_one (err why) q = tt
    accepted_one (ok r) q = elim (Bool-cases r.succeeded) [
      | inr refused ↦ rw (refused, accept_response) tt
      | inl granted ↦
          rw (granted, accept_response)
            (record {
              frame = f;
              among = among;
              head = head;
              head_read = e;
              mine = mine;
              response = r;
              response_read = q;
              succeeded = granted;
            })
    ]

  pub await_connect-Granted :
      (frames : List Received)
      → All (Among all) frames
      → All (Among all) (await_connect a c link id frames).1
        × IfGranted (await_connect a c link id frames).0
  unfolding await_connect
  await_connect-Granted [] h = (tt, tt)
  await_connect-Granted (f ∷ rest) (p, h) = from (c.head f.text) refl (await_connect-Granted rest h)
    where
      from :
          (r : Result Head)
          → c.head f.text ≡ r
          → All (Among all) (await_connect a c link id rest).1
            × IfGranted (await_connect a c link id rest).0
          → All (Among all) (await_connect a c link id (f ∷ rest)).1
            × IfGranted (await_connect a c link id (f ∷ rest)).0
      from (err why) e ih = rw (e, await_connect) ih
      from (ok head) e ih = elim (Bool-cases (answers id head)) [
        | inl mine ↦
            rw (e, await_connect)
              (rw mine (h, accepted_one _ _ f head p e mine (c.response f.text) refl))
        | inr other ↦ rw (e, await_connect) (rw other ih)
      ]

  pub await_response-Granted :
      (method : Text) (frames : List Received) (d : Disk)
      → All (Among all) frames
      → All (Among all) (await_response a c link method id frames d).1
        × IfGranted (await_response a c link method id frames d).0
  unfolding await_response
  await_response-Granted method [] d h = (tt, tt)
  await_response-Granted method (f ∷ rest) d (p, h) =
      from (c.head f.text) refl (λ d'. await_response-Granted method rest d' h)
    where
      from :
          (r : Result Head)
          → c.head f.text ≡ r
          → ((d' : Disk)
              → All (Among all) (await_response a c link method id rest d').1
                × IfGranted (await_response a c link method id rest d').0)
          → All (Among all) (await_response a c link method id (f ∷ rest) d).1
            × IfGranted (await_response a c link method id (f ∷ rest) d).0
      from (err why) e ih = rw (e, await_response) (ih d)
      from (ok head) e ih = elim (Bool-cases (handle_control_frame a c f d).0) [
        | inl control ↦ rw (e, await_response) (rw control (ih (handle_control_frame a c f d).1))
        | inr plain ↦ elim (Bool-cases (answers id head)) [
          | inl mine ↦
              rw (e, await_response)
                (rw plain (rw mine (h, accepted_one _ _ f head p e mine (c.response f.text) refl)))
          | inr other ↦
              rw (e, await_response) (rw plain (rw other (ih (handle_control_frame a c f d).1)))
        ]
      ]
