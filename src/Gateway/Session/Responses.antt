-- ===== src/Gateway/Session/Responses.antt =====
-- The loops that wait for a response, against the first frame that answers.
use ubuntu_daemon.Base.{
  ◌≡◌, refl, ap, ◌∙◌, Bool, true, false, Option, none, some, List, [], ◌∷◌, ◌++◌, arith, Text,
  Result, ok, err, Bool-cases, inl, inr, if◌then◌else◌,
}
use ubuntu_daemon.Text.{lit, text_eq_iff}
use ubuntu_daemon.Files.{Disk}
use ubuntu_daemon.Gateway.Session.Tokens.{Adapter}
use ubuntu_daemon.Gateway.Session.Wire.{
  GatewayResponse, Head, Control, Codec, Received, why_ended, handle_control_frame,
}
use ubuntu_daemon.Gateway.Session.Requests.{
  Link, answers, accept_response, await_connect, await_response,
}

-- A frame with its own type and id, and what stands before and behind it.
pub record Found : Type 0 where
  pub before : List Received
  pub answer : Received
  pub rest : List Received

abbrev pub has_answer : Codec → Text → Received → Bool
has_answer c id f = elim (c.head f.text) [ err why ↦ false | ok head ↦ answers id head ]

abbrev later_by : Received → Option Found → Option Found
later_by f none = none
later_by f (some found) = some (record found { before = f ∷ found.before })

-- The first frame of type `res` with the id.
unfoldable pub first_answer : Codec → Text → List Received → Option Found
first_answer c id [] = none
first_answer c id (f ∷ rest) =
    let later = later_by f (first_answer c id rest) in
    if has_answer c id f then some (record { before = []; answer = f; rest = rest }) else later

module _ (c : Codec) (id : Text) (f : Received) (rest : List Received) where
  first_answer_here :
      has_answer c id f ≡ true
      → first_answer c id (f ∷ rest) ≡ some (record { before = []; answer = f; rest = rest })
  unfolding first_answer
  first_answer_here h = rw h refl

  first_answer_later :
      has_answer c id f ≡ false → first_answer c id (f ∷ rest) ≡ later_by f (first_answer c id rest)
  unfolding first_answer
  first_answer_later h = rw h refl

-- What the control frames store, one after the other; a frame whose type and id cannot be decoded
-- is no control frame.
unfoldable pub stored_by : Adapter → Codec → List Received → Disk → Disk
stored_by a c [] d = d
stored_by a c (f ∷ rest) d =
    stored_by a c rest
      (elim (c.head f.text) [ err why ↦ d | ok head ↦ (handle_control_frame a c f d).1 ])

-- Both decoders read the same field `type`.
abbrev pub AgreesOnType : Codec → Type 0
AgreesOnType c =
    (text : Text) (head : Head) (control : Control)
    → c.head text ≡ ok head
    → c.control text ≡ ok control
    → control.kind ≡ head.kind

-- A frame with an id of its own is no control frame.
answer_is_no_control :
    (a : Adapter) (c : Codec) (id : Text) (f : Received) (head : Head) (d : Disk)
    → AgreesOnType c
    → c.head f.text ≡ ok head
    → answers id head ≡ true
    → handle_control_frame a c f d ≡ (false, d)
unfolding handle_control_frame lit
answer_is_no_control a c id f head d agrees e mine = from (c.control f.text) refl
  where
    from : (r : Result Control) → c.control f.text ≡ r → handle_control_frame a c f d ≡ (false, d)
    from (err why) q = rw (q, handle_control_frame) refl
    from (ok control) q =
        rw (q, handle_control_frame)
          (ground (
            arith,
            agrees f.text head control e q,
            text_eq_iff head.kind (lit "res"),
            text_eq_iff control.kind (lit "hello-ok"),
            text_eq_iff control.kind (lit "event"),
          ))

module _ (a : Adapter) (c : Codec) (link : Link) (id : Text) where
  abbrev pub connect_from : Option Found → Result GatewayResponse × List Received
  connect_from none = (err (lit "read connect response: " ++ why_ended link.ending), [])
  connect_from (some found) = (
    accept_response (lit "parse connect response: ") (lit "connect rejected")
        (c.response found.answer.text),
    found.rest,
  )

  connect_from-later_by :
      (f : Received) (o : Option Found) → connect_from (later_by f o) ≡ connect_from o
  connect_from-later_by f none = refl
  connect_from-later_by f (some found) = refl

  -- The loop of `completeHandshake` takes the first frame of type `res` with the id of its request,
  -- whatever stands before it, and leaves what stands behind it.
  pub await_connect_lem :
      (frames : List Received)
      → await_connect a c link id frames ≡ connect_from (first_answer c id frames)
  unfolding await_connect first_answer
  await_connect_lem [] = refl
  await_connect_lem (f ∷ rest) =
      ground (arith, await_connect_lem rest, connect_from-later_by f (first_answer c id rest))

  module _ (method : Text) where
    abbrev pub response_from :
        List Received → Disk → Option Found → Result GatewayResponse × List Received × Disk
    response_from frames d none = (
      err (lit "read " ++ (method ++ (lit " response: " ++ why_ended link.ending))),
      [],
      stored_by a c frames d,
    )
    response_from frames d (some found) = (
      accept_response (lit "parse " ++ (method ++ lit " response: ")) (method ++ lit " rejected")
          (c.response found.answer.text),
      found.rest,
      stored_by a c found.before d,
    )

    response_from-later_by :
        (f : Received) (rest : List Received) (d d' : Disk) (o : Option Found)
        → d' ≡ (elim (c.head f.text) [ err why ↦ d | ok head ↦ (handle_control_frame a c f d).1 ])
        → response_from rest d' o ≡ response_from (f ∷ rest) d (later_by f o)
    unfolding stored_by
    response_from-later_by f rest d d' none e = rw e refl
    response_from-later_by f rest d d' (some found) e = rw e refl

    -- The loops of `subscribeSessionMessages` and `sendChat` take the first frame of type `res` with
    -- the id of their request, if the decoders agree on the type. What stands before it is passed
    -- over, but for the tokens that its control frames store, and what stands behind it is left
    -- unread, and stores nothing.
    pub await_response_lem :
        (frames : List Received) (d : Disk)
        → AgreesOnType c
        → await_response a c link method id frames d
          ≡ response_from frames d (first_answer c id frames)
    unfolding await_response first_answer stored_by
    await_response_lem [] d agrees = refl
    await_response_lem (f ∷ rest) d agrees =
        from (λ d'. await_response_lem rest d' agrees) (c.head f.text) refl
      where
        from :
            ((d' : Disk)
              → await_response a c link method id rest d'
                ≡ response_from rest d' (first_answer c id rest))
            → (r : Result Head) → c.head f.text ≡ r
            → await_response a c link method id (f ∷ rest) d
              ≡ response_from (f ∷ rest) d (first_answer c id (f ∷ rest))
        from ih (err why) q =
            rw (first_answer_later c id f rest (rw (q, has_answer) refl), q, await_response)
              (ih d ∙ response_from-later_by f rest d d (first_answer c id rest) (rw q refl))
        from ih (ok head) q = elim (Bool-cases (answers id head)) [
          | inl mine ↦
              let plain = answer_is_no_control a c id f head d agrees q mine in
              rw (first_answer_here c id f rest (rw (q, has_answer) mine), q, await_response)
                (rw (ap (λ x. x.0) plain, mine, ap (λ x. x.1) plain) refl)
          | inr other ↦
              let later = first_answer_later c id f rest (rw (q, has_answer) other) in
              let d' = (handle_control_frame a c f d).1 in
              let passed =
                ih d' ∙ response_from-later_by f rest d d' (first_answer c id rest) (rw q refl) in
              elim (Bool-cases (handle_control_frame a c f d).0) [
                | inl control ↦ rw (later, q, await_response) (rw control passed)
                | inr plain ↦ rw (later, q, await_response) (rw (plain, other) passed)
              ]
        ]
