-- ===== src/Gateway/Session/Keeping/Chats.antt =====
-- The whole of `Chat`.
use ubuntu_daemon.Base.{
  ◌≡◌, refl, sym, ◌∙◌, ◌⊎◌, Option-cases, none, some, List, [], ◌∷◌, Text, Result, ok, err, All,
  Bool-cases, inl, inr,
}
use ubuntu_daemon.Protocol.{ChatMessagePayload}
use ubuntu_daemon.Files.{Disk}
use ubuntu_daemon.Store.{DeviceIdentity, State, FileStore, load}
use ubuntu_daemon.Gateway.Collect.{Services, Ids, new_turn}
use ubuntu_daemon.Gateway.Session.Tokens.{Adapter, ConnectAuth, stored_identity}
use ubuntu_daemon.Gateway.Session.Crypto.{create_device_identity}
use ubuntu_daemon.Gateway.Session.Wire.{Head, Codec, Received, Wire}
use ubuntu_daemon.Gateway.Session.Messages.{cloud_msg_id}
use ubuntu_daemon.Gateway.Session.Requests.{
  Link, Setting, answers, await_connect, await_response, prepare, connect, complete_handshake,
}
use ubuntu_daemon.Gateway.Session.Chat.{collect, chat}
use ubuntu_daemon.Gateway.Session.Triples.{
  Triple, bind-Triple, then-Triple, Ends_always, Ends_either,
}
use ubuntu_daemon.Gateway.Session.Rules.{
  response_to-Triple, connected-Triple, prepare-Triple, subscribe-Triple, send_chat-Triple,
  complete_handshake-Triple,
}
use ubuntu_daemon.Gateway.Session.Keeping.{
  RoundTrips, IsApart, Keeps, KeepsState, KeepsState-refl, KeepsState-trans,
  load_or_create_gateway_identity-KeepsState,
}
use ubuntu_daemon.Gateway.Session.Keeping.Frames.{
  IsSafe, Standing, await_response-Standing, collected_disk-KeepsState,
}

-- What all frames have, those that the handshake leaves have.
await_connect-All {ℓ} :
    (a : Adapter) (c : Codec) (link : Link) (id : Text) (P : Received → Type ℓ)
    (frames : List Received)
    → All P frames
    → All P (await_connect a c link id frames).1
unfolding await_connect
await_connect-All a c link id P [] h = tt
await_connect-All a c link id P (f ∷ rest) (p, h) =
    from (c.head f.text) refl (await_connect-All a c link id P rest h)
  where
    from :
        (r : Result Head)
        → c.head f.text ≡ r
        → All P (await_connect a c link id rest).1
        → All P (await_connect a c link id (f ∷ rest)).1
    from (err why) e ih = rw (e, await_connect) ih
    from (ok head) e ih = elim (Bool-cases (answers id head)) [
      | inl mine ↦ rw (e, await_connect) (rw mine h)
      | inr other ↦ rw (e, await_connect) (rw other ih)
    ]

module _ (a : Adapter) (c : Codec) (link : Link) (s : Setting) (fs : FileStore)
    (stored : a.state_store ≡ some fs) (trips : RoundTrips fs) (d₀ : Disk) where
  abbrev Kept : Wire → Type 0
  Kept w = Standing fs d₀ w.incoming w.disk

  abbrev Failed : Text → Wire → Type 0
  Failed why w = KeepsState fs d₀ w.disk

  waits :
      (method id : Text) (w : Wire)
      → Kept w
      → let out = await_response a c link method id w.incoming w.disk in Standing fs d₀ out.1 out.2
  waits method id w h =
      await_response-Standing a fs stored trips d₀ c link method id w.incoming w.disk h

  handshake-Kept :
      (identity : DeviceIdentity) (auth : ConnectAuth)
      → Triple Kept (complete_handshake a c link s identity auth) (λ _. Kept) Failed
  handshake-Kept identity auth =
      complete_handshake-Triple a c link Failed Kept (λ nonce signature. Kept) Kept (λ w why h. h.1)
        (λ w why h. h.1) s identity auth (λ w f rest e h. ((rw e at h.0).1, h.1))
        (λ nonce signature w h. h)
        (λ nonce signature.
          connected-Triple a c link Failed Kept (λ w why h. h.1) _
            (λ w h. (await_connect-All a c link _ (IsSafe fs) w.incoming h.0, h.1)))

  prepare-Kept :
      IsApart fs s.identity_access.calls → Triple Kept (prepare a c link s) (λ _. Kept) Failed
  prepare-Kept apart =
      prepare-Triple a c link Failed Kept (λ w why h. h.1) s
        (λ w h. (
          h.0,
          KeepsState-trans fs d₀ w.disk _ h.1 (
              rw stored (
                load_or_create_gateway_identity-KeepsState fs trips
                  (create_device_identity s.crypto s.generated) s.identity_access w.disk apart)),
        ))

  collect-Kept :
      (sv : Services) (ids : Ids) → Triple Kept (collect a c link sv ids) (λ _. Kept) Failed
  unfolding collect
  collect-Kept sv ids w h =
      let kept =
        collected_disk-KeepsState a fs stored trips d₀ c sv ids new_turn w.incoming w.disk h in
      Ends_always Failed (λ _. Kept) (collect a c link sv ids w) (λ why. kept) (λ value. (tt, kept))

  chat-Kept :
      (sv : Services) (p : ChatMessagePayload)
      → IsApart fs s.identity_access.calls
      → Triple Kept (chat a c link s sv p) (λ _. Kept) Failed
  unfolding chat connect
  chat-Kept sv p apart =
      then-Triple Failed Kept Kept (λ _. Kept) _ _
        (bind-Triple Failed Kept (λ _. Kept) (λ _. Kept) _ _ (prepare-Kept apart)
          (λ x. handshake-Kept x.0 x.1))
        (then-Triple Failed Kept Kept (λ _. Kept) _ _
          (subscribe-Triple a c link Failed Kept Kept Kept (λ w why h. h.1) (λ w why h. h.1) s
            p.session_id (λ w h. h)
            (response_to-Triple a c link Failed Kept (λ w why h. h.1) _ _ (waits _ _)))
          (bind-Triple Failed Kept (λ _. Kept) (λ _. Kept) _ _
            (send_chat-Triple a c link Failed Kept Kept Kept (λ w why h. h.1) (λ w why h. h.1) s p
              (cloud_msg_id s.times p) (λ w h. h)
              (response_to-Triple a c link Failed Kept (λ w why h. h.1) _ _ (waits _ _)))
            (λ run. collect-Kept sv _)))

kept_identity :
    (before after : State)
    → Keeps before after
    → (stored_identity before ≡ none) ⊎ (stored_identity after ≡ stored_identity before)
kept_identity before after (version, identity) = elim (Option-cases (stored_identity before)) [
  | inl missing ↦ inl missing
  | inr (i, found) ↦ inr (identity i found ∙ sym found)
]

-- Whatever the gateway sends, and wherever `Chat` fails: if the state file held a state before, it
-- holds one after, with the same version of the configuration and with the device's identity, if
-- there was a complete one. Only the JSON of a state must decode to the state, and the temporary
-- files of the saves must not be the state file itself.
pub chat-KeepsState :
    (a : Adapter) (c : Codec) (link : Link) (s : Setting) (sv : Services) (p : ChatMessagePayload)
    (fs : FileStore) (w : Wire) (before : State)
    → a.state_store ≡ some fs
    → RoundTrips fs
    → IsApart fs s.identity_access.calls
    → All (IsSafe fs) w.incoming
    → load fs none w.disk ≡ ok before
    → (after : State) × (load fs none (chat a c link s sv p w).1.disk ≡ ok after)
      × (after.last_config_version ≡ before.last_config_version)
      × ((stored_identity before ≡ none) ⊎ (stored_identity after ≡ stored_identity before))
chat-KeepsState a c link s sv p fs w before stored trips apart safe held =
    let kept : KeepsState fs w.disk (chat a c link s sv p w).1.disk =
      Ends_either (Failed a c link s fs stored trips w.disk)
        (λ _. Kept a c link s fs stored trips w.disk) (λ out. KeepsState fs w.disk out.disk)
        (chat a c link s sv p w) (λ out why h. h) (λ out value h. h.1)
        (chat-Kept a c link s fs stored trips w.disk sv p apart w
          (safe, KeepsState-refl fs w.disk)) in
    let (after, loads, keeps) = kept before held in
    (after, loads, keeps.0, kept_identity before after keeps)
