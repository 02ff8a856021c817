-- ===== src/Gateway/Session/Passed.antt =====
-- What the handshake makes of a greeting that comes before the response to `connect`.
use ubuntu_daemon.Base.{
  ◌≡◌, refl, sym, ◌∙◌, false, Option, none, some, List, [], ◌∷◌, ◌++◌, arith, Text, Result, ok, err,
}
use ubuntu_daemon.Text.{lit, text_eq_iff}
use ubuntu_daemon.Store.{DeviceIdentity}
use ubuntu_daemon.Gateway.Session.Tokens.{Adapter, ConnectAuth}
use ubuntu_daemon.Gateway.Session.Wire.{
  GatewayRequest, GatewayResponse, GatewayChallenge, Head, Codec, Received, Wire, ◌>>=◌, ◌>>◌,
  write_json, read_json,
}
use ubuntu_daemon.Gateway.Session.Requests.{
  Link, Setting, answers, await_connect, connected, challenge_of, signature_for, signed_request,
  complete_handshake,
}
use ubuntu_daemon.Gateway.Session.Stored.{complete_handshake-disk}

abbrev reading : Text
reading = lit "read connect.challenge: "

abbrev sending : Text
sending = lit "send connect request: "

abbrev finish : Result GatewayResponse → Result (Unit {0})
finish (err why) = err why
finish (ok r) = ok tt

module _ (a : Adapter) (c : Codec) (link : Link) (s : Setting) (identity : DeviceIdentity)
    (auth : ConnectAuth) where
  module _ (w : Wire) (first : Received) (frames : List Received)
      (h : w.incoming ≡ first ∷ frames) where
    first_read : (read_json link.ending reading w).0 ≡ ok first
    unfolding read_json
    first_read = simp (h, read_json)

    rest_waits : (read_json link.ending reading w).1.incoming ≡ frames
    unfolding read_json
    rest_waits = simp (h, read_json)

    refused_challenge :
        (why : Text)
        → challenge_of a c link first ≡ err why
        → (complete_handshake a c link s identity auth w).0 ≡ err why
    unfolding complete_handshake ◌>>◌ ◌>>=◌
    refused_challenge why q = rw (first_read, q, complete_handshake, ◌>>=◌) refl

    module _ (challenge : GatewayChallenge) (q : challenge_of a c link first ≡ ok challenge) where
      not_signed :
          (why : Text)
          → signature_for a c link s identity auth challenge.nonce ≡ err why
          → (complete_handshake a c link s identity auth w).0 ≡ err why
      unfolding complete_handshake ◌>>◌ ◌>>=◌
      not_signed why r = rw (first_read, q, r, complete_handshake, ◌>>=◌) refl

      module _ (signature : Text)
          (r : signature_for a c link s identity auth challenge.nonce ≡ ok signature) where
        abbrev asked : GatewayRequest
        asked = signed_request a c link s identity auth challenge.nonce signature

        not_written :
            (why : Text)
            → link.write_failure asked ≡ some why
            → (complete_handshake a c link s identity auth w).0 ≡ err (sending ++ why)
        unfolding complete_handshake ◌>>◌ ◌>>=◌ write_json
        not_written why o =
            let w₁ = (read_json link.ending reading w).1 in
            let failed : (write_json link.write_failure sending asked w₁).0 ≡ err (sending ++ why) =
              rw (o, write_json) refl in
            rw (first_read, q, r, failed, complete_handshake, ◌>>=◌) refl

        answered :
            (outcome : Result GatewayResponse)
            → link.write_failure asked ≡ none
            → (await_connect a c link asked.id frames).0 ≡ outcome
            → (complete_handshake a c link s identity auth w).0 ≡ finish outcome
        unfolding complete_handshake ◌>>◌ ◌>>=◌ write_json connected
        answered outcome o n =
            let w₁ = (read_json link.ending reading w).1 in
            let done : (write_json link.write_failure sending asked w₁).0 ≡ ok tt =
              rw (o, write_json) refl in
            let w₂ = (write_json link.write_failure sending asked w₁).1 in
            let still : w₂.incoming ≡ frames = rw (o, write_json) rest_waits in
            from outcome done (rw (still, connected) n)
          where
            from :
                (r : Result GatewayResponse)
                → (write_json link.write_failure sending asked
                    (read_json link.ending reading w).1).0
                  ≡ ok tt
                → (connected a c link asked.id
                    (write_json link.write_failure sending asked
                      (read_json link.ending reading w).1).1).0
                  ≡ r
                → (complete_handshake a c link s identity auth w).0 ≡ finish r
            from (err why) d m = rw (first_read, q, r, d, m, complete_handshake, ◌>>=◌) refl
            from (ok value) d m = rw (first_read, q, r, d, m, complete_handshake, ◌>>=◌) refl

  module _ (f : Received) (head : Head) (e : c.head f.text ≡ ok head)
      (greets : head.kind ≡ lit "hello-ok") where
    not_an_answer : (id : Text) → answers id head ≡ false
    unfolding lit
    not_an_answer id = ground (arith, text_eq_iff head.kind (lit "res"))

    await_connect_greeting :
        (id : Text) (pre rest : List Received)
        → (await_connect a c link id (pre ++ (f ∷ rest))).0
          ≡ (await_connect a c link id (pre ++ rest)).0
    unfolding await_connect
    await_connect_greeting id [] rest = rw (e, await_connect) (rw (not_an_answer id) refl)
    await_connect_greeting id (g ∷ pre) rest = ground (arith, await_connect_greeting id pre rest)

    -- The handshake with the greeting and the one without it end alike.
    handshake_greeting :
        (first : Received) (pre rest : List Received) (w w' : Wire)
        → w.incoming ≡ first ∷ (pre ++ (f ∷ rest))
        → w'.incoming ≡ first ∷ (pre ++ rest)
        → (complete_handshake a c link s identity auth w).0
          ≡ (complete_handshake a c link s identity auth w').0
    handshake_greeting first pre rest w w' h h' = from (challenge_of a c link first) refl
      where
        Same : Type 0
        Same =
            (complete_handshake a c link s identity auth w).0
            ≡ (complete_handshake a c link s identity auth w').0

        from_write :
            (challenge : GatewayChallenge) (signature : Text) (o : Option Text)
            → challenge_of a c link first ≡ ok challenge
            → signature_for a c link s identity auth challenge.nonce ≡ ok signature
            → link.write_failure (signed_request a c link s identity auth challenge.nonce signature)
              ≡ o
            → Same
        from_write challenge signature (some why) q r o =
            not_written w first _ h challenge q signature r why o
            ∙ sym (not_written w' first _ h' challenge q signature r why o)
        from_write challenge signature none q r o =
            let id = (signed_request a c link s identity auth challenge.nonce signature).id in
            answered w first _ h challenge q signature r _ o (await_connect_greeting id pre rest)
            ∙ sym (answered w' first _ h' challenge q signature r _ o refl)

        from_signature :
            (challenge : GatewayChallenge) (o : Result Text)
            → challenge_of a c link first ≡ ok challenge
            → signature_for a c link s identity auth challenge.nonce ≡ o
            → Same
        from_signature challenge (err why) q r =
            not_signed w first _ h challenge q why r
            ∙ sym (not_signed w' first _ h' challenge q why r)
        from_signature challenge (ok signature) q r = from_write challenge signature _ q r refl

        from : (o : Result GatewayChallenge) → challenge_of a c link first ≡ o → Same
        from (err why) q =
            refused_challenge w first _ h why q ∙ sym (refused_challenge w' first _ h' why q)
        from (ok challenge) q = from_signature challenge _ q refl

-- A greeting that the handshake finds behind the challenge is passed over, wherever it stands: the
-- handshake ends as it would without it, and stores nothing, so that the token in it is lost.
pub complete_handshake-greeting :
    (a : Adapter) (c : Codec) (link : Link) (s : Setting) (identity : DeviceIdentity)
    (auth : ConnectAuth) (f first : Received) (head : Head) (pre rest : List Received) (w w' : Wire)
    → c.head f.text ≡ ok head
    → head.kind ≡ lit "hello-ok"
    → w.incoming ≡ first ∷ (pre ++ (f ∷ rest))
    → w'.incoming ≡ first ∷ (pre ++ rest)
    → ((complete_handshake a c link s identity auth w).0
        ≡ (complete_handshake a c link s identity auth w').0)
      × ((complete_handshake a c link s identity auth w).1.disk ≡ w.disk)
complete_handshake-greeting a c link s identity auth f first head pre rest w w' e greets h h' = (
  handshake_greeting a c link s identity auth f head e greets first pre rest w w' h h',
  complete_handshake-disk a c link s identity auth w,
)
