-- ===== src/Gateway/Session/Keeping.antt =====
-- What a chat leaves of the state file: it may put a new token or a first identity there, and loses
-- nothing else.
pub mod Frames
pub mod Chats
use mathlib.Core.Path.{subst}
use ubuntu_daemon.Base.{
  ◌≡◌, ◌≢◌, refl, ap, ◌∙◌, ◌⊎◌, inl, inr, Bool, true, false, Option, none, some, List, [], ◌∷◌,
  arith, Text, Result, ok, err, is_ok, All, Bool-cases, if◌then◌else◌,
}
use ubuntu_daemon.Base.Int.{ℤ}
use ubuntu_daemon.Text.{is_blank, trim_space}
use ubuntu_daemon.Files.{Calls, Disk}
use ubuntu_daemon.Store.{DeviceIdentity, State, FileStore, load, save}
use ubuntu_daemon.Store.Laws.{load-save}
use ubuntu_daemon.Gateway.Session.Tokens.{
  Adapter, StateAccess, persist_gateway_device_token, stored_identity, save_identity,
  load_or_create_gateway_identity,
}
use ubuntu_daemon.Gateway.Session.Wire.{
  HelloAuth, Control, Codec, Received, persist_hello_ok, handle_control_frame,
}

-- What the JSON of a state decodes to is the state.
abbrev pub RoundTrips : FileStore → Type 0
RoundTrips s = (state : State) (text : Text) → s.encode state ≡ ok text → s.decode text ≡ ok state

-- The temporary file of a save is not the state file.
abbrev pub IsApart : FileStore → Calls → Type 0
IsApart s calls = calls.temp_name ≢ s.path

-- A complete identity stays, and so does the version of the configuration.
abbrev pub Keeps : State → State → Type 0
Keeps before after =
    (after.last_config_version ≡ before.last_config_version)
    × ((i : DeviceIdentity) → stored_identity before ≡ some i → stored_identity after ≡ some i)

-- Where a state could be loaded before, one that keeps it can be loaded after.
abbrev pub KeepsState : FileStore → Disk → Disk → Type 0
KeepsState s d d' =
    (state : State)
    → load s none d ≡ ok state
    → (after : State) × (load s none d' ≡ ok after) × Keeps state after

module _ (s : FileStore) where
  pub KeepsState-refl : (d : Disk) → KeepsState s d d
  KeepsState-refl d state e = (state, e, (refl, λ i h. h))

  pub KeepsState-trans :
      (d d' d'' : Disk) → KeepsState s d d' → KeepsState s d' d'' → KeepsState s d d''
  KeepsState-trans d d' d'' h k state e =
      let (middle, e', (v, i)) = h state e in
      let (after, e'', (v', i')) = k middle e' in (after, e'', (v' ∙ v, λ j q. i' j (i j q)))

  -- The load of a call, if it succeeds, gives what is stored.
  pub load_quiet :
      (failure : Option Text) (d : Disk) (state : State)
      → load s failure d ≡ ok state
      → load s none d ≡ ok state
  unfolding load
  load_quiet none d state e = e
  load_quiet (some why) d state e = absurd (cc)

  not_encoded :
      (calls : Calls) (state : State) (d : Disk) (why : Text)
      → s.encode state ≡ err why
      → load s none (save s calls state d).1
        ≡ (if is_ok (save s calls state d).0 then ok state else load s none d)
  unfolding save
  not_encoded calls state d why e = ground arith

  save_identity_disk :
      (calls : Calls) (state : State) (i : DeviceIdentity) (d : Disk)
      → (save_identity s calls state (ok i) d).1
        ≡ (save s calls (record state { gateway_device_identity = some i }) d).1
  unfolding save_identity
  save_identity_disk calls state i d = ground arith

  module _ (trips : RoundTrips s) where
    pub load_after_save :
        (calls : Calls) (state : State) (d : Disk)
        → IsApart s calls
        → load s none (save s calls state d).1
          ≡ (if is_ok (save s calls state d).0 then ok state else load s none d)
    load_after_save calls state d apart = from (s.encode state) refl
      where
        from :
            (r : Result Text)
            → s.encode state ≡ r
            → load s none (save s calls state d).1
              ≡ (if is_ok (save s calls state d).0 then ok state else load s none d)
        from (ok text) e = load-save s calls state text d apart e (trips state text e)
        from (err why) e = not_encoded calls state d why e

    -- A save of a state that keeps the one that is there.
    save-KeepsState :
        (calls : Calls) (before state : State) (d : Disk)
        → IsApart s calls
        → load s none d ≡ ok before
        → Keeps before state
        → KeepsState s d (save s calls state d).1
    save-KeepsState calls before state d apart e kept other q =
        elim (Bool-cases (is_ok (save s calls state d).0)) [
          | inl saved ↦
              let now = rw saved at (load_after_save calls state d apart) in
              let same : before ≡ other = cc in (state, now, subst (λ b. Keeps b state) same kept)
          | inr failed ↦
              let now = rw failed at (load_after_save calls state d apart) in
              (other, now ∙ q, (refl, λ j h. h))
        ]

    pub persist_gateway_device_token-KeepsState :
        (access : StateAccess) (token : Text) (d : Disk)
        → IsApart s access.calls
        → KeepsState s d (persist_gateway_device_token (some s) access token d).1
    unfolding persist_gateway_device_token
    persist_gateway_device_token-KeepsState access token d apart =
        elim (Bool-cases (is_blank token)) [
          | inl blank ↦ rw (blank, persist_gateway_device_token) (KeepsState-refl d)
          | inr full ↦ from (load s access.load_failure d) refl full
        ]
      where
        from :
            (r : Result State)
            → load s access.load_failure d ≡ r
            → is_blank token ≡ false
            → KeepsState s d (persist_gateway_device_token (some s) access token d).1
        from (err why) e full = rw (full, e, persist_gateway_device_token) (KeepsState-refl d)
        from (ok state) e full =
            rw (full, e, persist_gateway_device_token)
              (save-KeepsState access.calls state
                (record state { gateway_device_token = trim_space token }) d apart
                (load_quiet access.load_failure d state e) (refl, λ i h. h))

    save_identity-KeepsState :
        (calls : Calls) (state : State) (created : Result DeviceIdentity) (d : Disk)
        → IsApart s calls
        → load s none d ≡ ok state
        → stored_identity state ≡ none
        → KeepsState s d (save_identity s calls state created d).1
    unfolding save_identity
    save_identity-KeepsState calls state (err why) d apart e fresh = KeepsState-refl d
    save_identity-KeepsState calls state (ok i) d apart e fresh =
        let new = record state { gateway_device_identity = some i } in
        let kept = save-KeepsState calls state new d apart e (refl, λ j h. absurd (cc)) in
        rw (save_identity_disk calls state i d) kept

    pub load_or_create_gateway_identity-KeepsState :
        (created : Result DeviceIdentity) (access : StateAccess) (d : Disk)
        → IsApart s access.calls
        → KeepsState s d (load_or_create_gateway_identity (some s) created access d).1
    unfolding load_or_create_gateway_identity
    load_or_create_gateway_identity-KeepsState created access d apart =
        from (load s access.load_failure d) refl
      where
        from_stored :
            (state : State) (o : Option DeviceIdentity)
            → load s access.load_failure d ≡ ok state
            → stored_identity state ≡ o
            → KeepsState s d (load_or_create_gateway_identity (some s) created access d).1
        from_stored state (some i) e q =
            rw (e, load_or_create_gateway_identity) (rw q (KeepsState-refl d))
        from_stored state none e q =
            rw (e, load_or_create_gateway_identity)
              (rw q (
                save_identity-KeepsState access.calls state created d apart
                  (load_quiet access.load_failure d state e) q))

        from :
            (r : Result State)
            → load s access.load_failure d ≡ r
            → KeepsState s d (load_or_create_gateway_identity (some s) created access d).1
        from (err why) e = rw (e, load_or_create_gateway_identity) (KeepsState-refl d)
        from (ok state) e = from_stored state (stored_identity state) e refl

    pub saved_state :
        (calls : Calls) (state : State) (d : Disk)
        → IsApart s calls
        → (save s calls state d).0 ≡ ok tt
        → load s none (save s calls state d).1 ≡ ok state
    saved_state calls state d apart e = ground (arith, load_after_save calls state d apart)
