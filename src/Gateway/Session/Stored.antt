-- ===== src/Gateway/Session/Stored.antt =====
-- The identity and the token that the state file carries from one connection to the next.
use ubuntu_daemon.Base.{
  ◌≡◌, refl, sym, ◌∙◌, true, false, none, some, arith, Text, Result, ok, err, is_nil, Option-cases,
  inl, inr,
}
use ubuntu_daemon.Text.{lit, text_eq, text_eq_iff, trim_space, is_blank, is_blank_lem}
use ubuntu_daemon.Files.{Calls, Disk}
use ubuntu_daemon.Store.{DeviceIdentity, State, FileStore, load, save}
use ubuntu_daemon.Gateway.Session.Tokens.{
  Adapter, StateAccess, ConnectAuth, auth_by, is_complete, stored_identity, save_identity,
  load_stored_gateway_device_token, persist_gateway_device_token, load_or_create_gateway_identity,
  resolve_connect_auth,
}
use ubuntu_daemon.Gateway.Session.Wire.{
  HelloAuth, Control, Codec, Received, Wire, persist_hello_ok, handle_control_frame,
}
use ubuntu_daemon.Gateway.Session.Requests.{Link, Setting, complete_handshake}
use ubuntu_daemon.Gateway.Session.Triples.{Ends_either}
use ubuntu_daemon.Gateway.Session.Rules.{connected-Triple, complete_handshake-Triple}
use ubuntu_daemon.Gateway.Session.Keeping.{RoundTrips, IsApart, load_after_save, load_quiet}

-- A complete identity in the state file is the one that is used, and nothing is written.
found_again :
    (s : FileStore) (created : Result DeviceIdentity) (access : StateAccess) (d : Disk)
    (state : State) (i : DeviceIdentity)
    → load s access.load_failure d ≡ ok state
    → stored_identity state ≡ some i
    → load_or_create_gateway_identity (some s) created access d ≡ (ok i, d)
unfolding load_or_create_gateway_identity
found_again s created access d state i e q = rw (e, load_or_create_gateway_identity) (rw q refl)

module _ (s : FileStore) (trips : RoundTrips s) where
  -- A saved identity is in the file.
  saved_identity :
      (calls : Calls) (state : State) (created : Result DeviceIdentity) (i : DeviceIdentity)
      (d : Disk)
      → IsApart s calls
      → is_complete i ≡ true
      → (save_identity s calls state created d).0 ≡ ok i
      → (after : State) × (load s none (save_identity s calls state created d).1 ≡ ok after)
        × (stored_identity after ≡ some i)
  unfolding save_identity
  saved_identity calls state (err why) i d apart complete e = absurd (cc)
  saved_identity calls state (ok j) i d apart complete e =
      from (save s calls (record state { gateway_device_identity = some j }) d).0 refl
    where
      from :
          (r : Result (Unit {0}))
          → (save s calls (record state { gateway_device_identity = some j }) d).0 ≡ r
          → (after : State) × (load s none (save_identity s calls state (ok j) d).1 ≡ ok after)
            × (stored_identity after ≡ some i)
      from (err why) q = absurd (cc (rw (q, save_identity) at e))
      from (ok _) q =
          let new = record state { gateway_device_identity = some j } in
          let same : j ≡ i = cc (rw (q, save_identity) at e) in
          let saved : load s none (save s calls new d).1 ≡ ok new =
            ground (arith, load_after_save s trips calls new d apart) in
          rw (q, save_identity) (new, saved, rw (same, complete) refl)

  -- Once `loadOrCreateGatewayIdentity` has succeeded, its identity is in the file.
  identity_stored :
      (created : Result DeviceIdentity) (access : StateAccess) (d : Disk) (i : DeviceIdentity)
      → IsApart s access.calls
      → is_complete i ≡ true
      → (load_or_create_gateway_identity (some s) created access d).0 ≡ ok i
      → (after : State) × (load s none (load_or_create_gateway_identity (some s) created access d).1
          ≡ ok after)
        × (stored_identity after ≡ some i)
  unfolding load_or_create_gateway_identity
  identity_stored created access d i apart complete e = from (load s access.load_failure d) refl
    where
      from :
          (r : Result State)
          → load s access.load_failure d ≡ r
          → (after : State) × (load s none
                (load_or_create_gateway_identity (some s) created access d).1
              ≡ ok after)
            × (stored_identity after ≡ some i)
      from (err why) q = absurd (cc (rw (q, load_or_create_gateway_identity) at e))
      from (ok state) q = elim (Option-cases (stored_identity state)) [
        | inr (j, h) ↦
            let same : j ≡ i = cc (rw (q, h, load_or_create_gateway_identity) at e) in
            rw (q, load_or_create_gateway_identity)
              (rw h (state, load_quiet s access.load_failure d state q, rw (h, same) refl))
        | inl h ↦
            rw (q, load_or_create_gateway_identity)
              (rw h (
                saved_identity access.calls state created i d apart complete
                  (rw (q, h, load_or_create_gateway_identity) at e)))
      ]

  -- If making the identity of a connection succeeded, the next connection gets the same one,
  -- whatever key pair is generated for it, and writes nothing: provided that the identity is
  -- complete, that the state's JSON decodes to the state, that the temporary file of the save is
  -- not the state file, and that the file can be read.
  pub load_or_create_gateway_identity_twice :
      (created created' : Result DeviceIdentity) (access access' : StateAccess) (d : Disk)
      (i : DeviceIdentity)
      → IsApart s access.calls
      → access'.load_failure ≡ none
      → is_complete i ≡ true
      → (load_or_create_gateway_identity (some s) created access d).0 ≡ ok i
      → let d' = (load_or_create_gateway_identity (some s) created access d).1 in
        load_or_create_gateway_identity (some s) created' access' d' ≡ (ok i, d')
  load_or_create_gateway_identity_twice created created' access access' d i apart readable complete
        e =
      let (after, loads, found) = identity_stored created access d i apart complete e in
      found_again s created' access' (load_or_create_gateway_identity (some s) created access d).1
        after i (rw readable loads) found

  -- A token that was saved is found.
  stored_token :
      (access : StateAccess) (token : Text) (d : Disk)
      → IsApart s access.calls
      → is_blank token ≡ false
      → (persist_gateway_device_token (some s) access token d).0 ≡ ok tt
      → load_stored_gateway_device_token
          (some s)
          none
          (persist_gateway_device_token (some s) access token d).1
        ≡ trim_space token
  unfolding persist_gateway_device_token load_stored_gateway_device_token
  stored_token access token d apart full e = from (load s access.load_failure d) refl
    where
      from :
          (r : Result State)
          → load s access.load_failure d ≡ r
          → load_stored_gateway_device_token
              (some s)
              none
              (persist_gateway_device_token (some s) access token d).1
            ≡ trim_space token
      from (err why) q = absurd (cc (rw (full, q, persist_gateway_device_token) at e))
      from (ok state) q =
          let new = record state { gateway_device_token = trim_space token } in
          let saved : (save s access.calls new d).0 ≡ ok tt =
            rw (full, q, persist_gateway_device_token) at e in
          let loads : load s none (save s access.calls new d).1 ≡ ok new =
            ground (arith, load_after_save s trips access.calls new d apart) in
          rw (full, q, persist_gateway_device_token)
            (rw (loads, load_stored_gateway_device_token) refl)

-- A greeting saves its token.
greeting_disk :
    (a : Adapter) (c : Codec) (s : FileStore) (f : Received) (control : Control) (auth : HelloAuth)
    (d : Disk)
    → a.state_store ≡ some s
    → c.control f.text ≡ ok control
    → control.kind ≡ lit "hello-ok"
    → c.hello f.text ≡ ok (some auth)
    → trim_space auth.device_token ≡ auth.device_token
    → is_blank auth.device_token ≡ false
    → (handle_control_frame a c f d).1
      ≡ (persist_gateway_device_token (some s) f.access auth.device_token d).1
unfolding handle_control_frame persist_hello_ok
greeting_disk a c s f control auth d stored e kind hello trimmed full =
    let greets : text_eq control.kind (lit "hello-ok") ≡ true = (text_eq_iff _ _).1 kind in
    rw (e, handle_control_frame)
      (rw (greets, hello) (rw (full, persist_hello_ok) (rw (stored, trimmed) refl)))

-- A stored token with no white space around it comes first.
resolved_by_device :
    (a : Adapter) (d : Disk) (token : Text)
    → load_stored_gateway_device_token a.state_store none d ≡ token
    → trim_space token ≡ token
    → is_nil (trim_space token) ≡ false
    → resolve_connect_auth a none d ≡ ok (auth_by (lit "deviceToken") token)
unfolding resolve_connect_auth
resolved_by_device a d token found trimmed full =
    rw (found, resolve_connect_auth) (rw full (rw trimmed refl))

-- The token of a greeting, if it is saved, is what the next connection that can read the state file
-- authenticates with, in the header, in the request and under the signature, and it comes before any
-- token of the environment or of the environment file. The token is not blank and has no white space
-- around it, the state's JSON decodes to the state, and the temporary file of the save is not the
-- state file.
pub resolve_connect_auth-hello :
    (a : Adapter) (c : Codec) (s : FileStore) (f : Received) (control : Control) (auth : HelloAuth)
    (d : Disk)
    → a.state_store ≡ some s
    → RoundTrips s
    → IsApart s f.access.calls
    → c.control f.text ≡ ok control
    → control.kind ≡ lit "hello-ok"
    → c.hello f.text ≡ ok (some auth)
    → trim_space auth.device_token ≡ auth.device_token
    → is_blank auth.device_token ≡ false
    → (persist_gateway_device_token (some s) f.access auth.device_token d).0 ≡ ok tt
    → resolve_connect_auth a none (handle_control_frame a c f d).1
      ≡ ok (auth_by (lit "deviceToken") auth.device_token)
unfolding resolve_connect_auth handle_control_frame persist_hello_ok
resolve_connect_auth-hello a c s f control auth d stored trips apart e kind hello trimmed full
      saved =
    resolved_by_device a (handle_control_frame a c f d).1 auth.device_token found trimmed
      (sym (is_blank_lem auth.device_token) ∙ full)
  where
    found :
        load_stored_gateway_device_token a.state_store none (handle_control_frame a c f d).1
        ≡ auth.device_token
    found =
        rw (greeting_disk a c s f control auth d stored e kind hello trimmed full, stored)
          (stored_token s trips f.access auth.device_token d apart full saved ∙ trimmed)

-- The handshake leaves the disk as it is.
pub complete_handshake-disk :
    (a : Adapter) (c : Codec) (link : Link) (s : Setting) (identity : DeviceIdentity)
    (auth : ConnectAuth) (w : Wire)
    → (complete_handshake a c link s identity auth w).1.disk ≡ w.disk
complete_handshake-disk a c link s identity auth w =
    Ends_either (λ why out. out.disk ≡ w.disk) (λ _ out. out.disk ≡ w.disk)
      (λ out. out.disk ≡ w.disk) (complete_handshake a c link s identity auth w) (λ out why h. h)
      (λ out value h. h)
      (complete_handshake-Triple a c link (λ why out. out.disk ≡ w.disk) (λ out. out.disk ≡ w.disk)
        (λ nonce signature out. out.disk ≡ w.disk) (λ out. out.disk ≡ w.disk) (λ out why h. h)
        (λ out why h. h) s identity auth (λ out f rest e h. h) (λ nonce signature out h. h)
        (λ nonce signature.
          connected-Triple a c link (λ why out. out.disk ≡ w.disk) (λ out. out.disk ≡ w.disk)
            (λ out why h. h) _ (λ out h. h))
        w refl)
