-- ===== src/Gateway/Session/Keeping/Frames.antt =====
-- The frames that one request, or the collecting of the replies, reads.
use ubuntu_daemon.Base.{
  ◌≡◌, refl, inl, inr, Bool, true, false, Option, none, some, List, [], ◌∷◌, arith, Text, Result,
  ok, err, All, Bool-cases, Option-cases,
}
use ubuntu_daemon.Text.{lit, text_eq, is_blank, trim_space}
use ubuntu_daemon.Files.{Disk}
use ubuntu_daemon.Store.{FileStore}
use ubuntu_daemon.Gateway.Events.{is_terminal_chat_event}
use ubuntu_daemon.Gateway.Collect
use ubuntu_daemon.Gateway.Collect.{Read, Services, Ids, Turn, Frame, note_event, matched}
use ubuntu_daemon.Gateway.Session.Tokens.{Adapter}
use ubuntu_daemon.Gateway.Session.Wire.{
  HelloAuth, Head, Control, Codec, Received, persist_hello_ok, handle_control_frame,
}
use ubuntu_daemon.Gateway.Session.Requests.{Link, answers, await_response}
use ubuntu_daemon.Gateway.Session.Chat.{read_of, noted, collected_disk}
use ubuntu_daemon.Gateway.Session.Keeping.{
  RoundTrips, IsApart, KeepsState, KeepsState-refl, KeepsState-trans,
  persist_gateway_device_token-KeepsState,
}

abbrev pub IsSafe : FileStore → Received → Type 0
IsSafe s f = IsApart s f.access.calls

-- What is still to be read is safe, and the state of `d₀` is kept.
abbrev pub Standing : FileStore → Disk → List Received → Disk → Type 0
Standing s d₀ frames d = All (IsSafe s) frames × KeepsState s d₀ d

-- What holds of the disk before a frame, and behind each greeting, holds behind the frame.
module _ (a : Adapter) (c : Codec) (f : Received) (d : Disk) where
  plain_disk :
      (control : Control)
      → c.control f.text ≡ ok control
      → text_eq control.kind (lit "hello-ok") ≡ false
      → (handle_control_frame a c f d).1 ≡ d
  unfolding handle_control_frame
  plain_disk control e other = ground arith

  frame_cases {ℓ} :
      (P : Disk → Type ℓ)
      → P d
      → ((auth : Option HelloAuth) → P (persist_hello_ok a f.access auth d))
      → P (handle_control_frame a c f d).1
  unfolding handle_control_frame
  frame_cases P here greeted = from (c.control f.text) refl
    where
      greeting :
          (control : Control) (r : Result (Option HelloAuth))
          → c.control f.text ≡ ok control
          → text_eq control.kind (lit "hello-ok") ≡ true
          → c.hello f.text ≡ r
          → P (handle_control_frame a c f d).1
      greeting control (err why) e h q = rw (e, handle_control_frame) (rw (h, q) here)
      greeting control (ok auth) e h q = rw (e, handle_control_frame) (rw (h, q) (greeted auth))

      from : (r : Result Control) → c.control f.text ≡ r → P (handle_control_frame a c f d).1
      from (err why) e = rw (e, handle_control_frame) here
      from (ok control) e = elim (Bool-cases (text_eq control.kind (lit "hello-ok"))) [
        | inl h ↦ greeting control (c.hello f.text) e h refl
        | inr other ↦ rw (plain_disk control e other) here
      ]

-- What every frame that is handled or passed over keeps, waiting for a response keeps.
module _ (a : Adapter) (c : Codec) (link : Link) (method id : Text) where
  await_induction {ℓ} :
      (P : List Received → Disk → Type ℓ)
      → ((f : Received) (rest : List Received) (d : Disk)
          → P (f ∷ rest) d
          → P rest (handle_control_frame a c f d).1)
      → ((f : Received) (rest : List Received) (d : Disk) → P (f ∷ rest) d → P rest d)
      → (frames : List Received) (d : Disk) → P frames d
      → let out = await_response a c link method id frames d in P out.1 out.2
  unfolding await_response
  await_induction P handled passed [] d h = h
  await_induction P handled passed (f ∷ rest) d h =
      from (c.head f.text) (handle_control_frame a c f d).0 refl refl
        (await_induction P handled passed rest)
    where
      from :
          (r : Result Head) (b : Bool)
          → c.head f.text ≡ r
          → (handle_control_frame a c f d).0 ≡ b
          → ((d : Disk)
              → P rest d
              → let out = await_response a c link method id rest d in P out.1 out.2)
          → let out = await_response a c link method id (f ∷ rest) d in P out.1 out.2
      from (err why) b e q ih = rw (e, await_response) (ih d (passed f rest d h))
      from (ok head) true e q ih = rw (e, await_response) (rw q (ih _ (handled f rest d h)))
      from (ok head) false e q ih = elim (Bool-cases (answers id head)) [
        | inl mine ↦ rw (e, await_response) (rw (q, mine) (handled f rest d h))
        | inr other ↦ rw (e, await_response) (rw (q, other) (ih _ (handled f rest d h)))
      ]

module _ (a : Adapter) (s : FileStore) (stored : a.state_store ≡ some s)
    (trips : RoundTrips s) where
  module _ (f : Received) (d : Disk) (safe : IsSafe s f) where
    persist_hello_ok-KeepsState :
        (auth : Option HelloAuth) → KeepsState s d (persist_hello_ok a f.access auth d)
    unfolding persist_hello_ok
    persist_hello_ok-KeepsState none = KeepsState-refl s d
    persist_hello_ok-KeepsState (some auth) = elim (Bool-cases (is_blank auth.device_token)) [
      | inl blank ↦ rw (blank, persist_hello_ok) (KeepsState-refl s d)
      | inr full ↦
          rw (full, persist_hello_ok)
            (rw stored (
              persist_gateway_device_token-KeepsState s trips f.access
                (trim_space auth.device_token) d safe))
    ]

    pub handle_control_frame-KeepsState :
        (c : Codec) → KeepsState s d (handle_control_frame a c f d).1
    handle_control_frame-KeepsState c =
        frame_cases a c f d (λ d'. KeepsState s d d') (KeepsState-refl s d)
          persist_hello_ok-KeepsState

  frame-Standing :
      (d₀ : Disk) (c : Codec) (f : Received) (rest : List Received) (d : Disk)
      → Standing s d₀ (f ∷ rest) d
      → Standing s d₀ rest (handle_control_frame a c f d).1
  frame-Standing d₀ c f rest d ((safe, all), kept) = (
    all,
    KeepsState-trans s d₀ d (handle_control_frame a c f d).1 kept
        (handle_control_frame-KeepsState f d safe c),
  )

  pub await_response-Standing :
      (d₀ : Disk) (c : Codec) (link : Link) (method id : Text) (frames : List Received) (d : Disk)
      → Standing s d₀ frames d
      → let out = await_response a c link method id frames d in Standing s d₀ out.1 out.2
  await_response-Standing d₀ c link method id =
      await_induction a c link method id (Standing s d₀) (frame-Standing d₀ c)
        (λ f rest d (h, k). (h.1, k))

  noted-Standing :
      (d₀ : Disk) (c : Codec) (f : Received) (rest : List Received) (d : Disk)
      → Standing s d₀ (f ∷ rest) d
      → Standing s d₀ rest (noted a c f d)
  unfolding noted
  noted-Standing d₀ c f rest d h = from (c.kind f.text) refl
    where
      from : (r : Result Text) → c.kind f.text ≡ r → Standing s d₀ rest (noted a c f d)
      from (err why) e = rw (e, noted) (h.0.1, h.1)
      from (ok kind) e = rw (e, noted) (frame-Standing d₀ c f rest d h)

  pub collected_disk-KeepsState :
      (d₀ : Disk) (c : Codec) (sv : Services) (ids : Ids) (t : Turn) (frames : List Received)
      (d : Disk)
      → Standing s d₀ frames d
      → KeepsState s d₀ (collected_disk a c sv ids t frames d)
  unfolding collected_disk
  collected_disk-KeepsState d₀ c sv ids t [] d h = h.1
  collected_disk-KeepsState d₀ c sv ids t (f ∷ rest) d h =
      from (read_of a c f) refl (noted-Standing d₀ c f rest d h)
        (λ t'. collected_disk-KeepsState d₀ c sv ids t' rest (noted a c f d))
    where
      from :
          (r : Read)
          → read_of a c f ≡ r
          → Standing s d₀ rest (noted a c f d)
          → ((t' : Turn)
              → Standing s d₀ rest (noted a c f d)
              → KeepsState s d₀ (collected_disk a c sv ids t' rest (noted a c f d)))
          → KeepsState s d₀ (collected_disk a c sv ids t (f ∷ rest) d)
      from (Collect.cancelled why) e k ih = rw (e, collected_disk) (ih t k)
      from (Collect.failed why) e k ih = rw (e, collected_disk) (ih t k)
      from Collect.garbled e k ih = rw (e, collected_disk) (ih t k)
      from (Collect.frame event) e k ih = elim (Option-cases (matched ids event)) [
        | inl m ↦ rw (e, collected_disk) (rw m (ih t k))
        | inr (fs, m) ↦ elim (Bool-cases (is_terminal_chat_event event.event fs)) [
          | inl ends ↦ rw (e, collected_disk) (rw (m, ends) k.1)
          | inr on ↦ rw (e, collected_disk) (rw (m, on) (ih (note_event sv ids fs t) k))
        ]
      ]
