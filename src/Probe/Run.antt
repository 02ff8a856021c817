-- ===== src/Probe/Run.antt =====
-- cmd/wsprobe/main.go: `main`, over the frames that it reads.
use ubuntu_daemon.Base.{
  ℕ, ◌+◌, ◌*◌, ltb, Bool, false, ◌&&◌, none, some, List, [], ◌∷◌, ◌++◌, Text, Result, ok, err,
  if◌then◌else◌,
}
use ubuntu_daemon.Text.{lit, text_eq}
use ubuntu_daemon.Config.{second}
use ubuntu_daemon.Gateway.Session.Wire.{GatewayRequest}
use ubuntu_daemon.Probe.Device.{
  settings, Surroundings, ProbeIdentity, probe_sign, load_or_create_identity,
}
use ubuntu_daemon.Probe.Requests.{probe_payload, probe_connect, probe_chat}

-- A frame, with the time at which the program is ready to read it. Behind the last one, reading
-- fails; a program that ends at its deadline leaves one frame unread.
pub record Timed : Type 0 where
  pub now : ℕ
  pub text : Text

-- What the program leaves: the frames it printed, what it sent, and whether it ran to its end.
pub record Trace : Type 0 where
  pub printed : List Text
  pub sent : List GatewayRequest
  pub outcome : Result (Unit {0})

abbrev printing : Text → Trace → Trace
printing text t = record t { printed = text ∷ t.printed }

abbrev sending : GatewayRequest → Trace → Trace
sending request t = record t { sent = request ∷ t.sent }

abbrev fatal : Text → Trace
fatal why = record { printed = []; sent = []; outcome = err why }

module _ (s : Surroundings) where
  -- The last loop: frames until the deadline.
  unfoldable pub watch : ℕ → List Timed → Trace
  watch deadline [] = fatal s.ending
  watch deadline (f ∷ rest) =
      let more = printing f.text (watch deadline rest) in
      if ltb f.now deadline then more else record { printed = []; sent = []; outcome = ok tt }

  unfoldable pub chat_and_watch : List Timed → Trace
  chat_and_watch rest = elim (s.write_failure (probe_chat s)) [
    | some why ↦ fatal why
    | none ↦ sending (probe_chat s) (watch (s.watch_from + 45 * second) rest)
  ]

  unfoldable pub is_response : Text → Text → Bool
  is_response id text = elim (s.decode_head text) [
    | err why ↦ false
    | ok head ↦ text_eq head.kind (lit "res") && text_eq head.id id
  ]

  -- The loop that waits for the response, whether that accepts or refuses.
  unfoldable pub wait_response : (List Timed → Trace) → Text → List Timed → Trace
  wait_response go_on id [] = fatal s.ending
  wait_response go_on id (f ∷ rest) =
      let later = wait_response go_on id rest in
      printing f.text (if is_response id f.text then go_on rest else later)

  unfoldable pub greet : ProbeIdentity → Text → List Timed → Trace
  greet i nonce rest =
      let token = (settings s.env).token in
      elim (probe_sign s.crypto i.private_key_pem
        (probe_payload i.device_id s.signed_at token nonce s.goos)) [
          | err why ↦ fatal why
          | ok signature ↦
              let request = probe_connect s i token nonce signature in
              elim (s.write_failure request) [
                | some why ↦ fatal why
                | none ↦ sending request (wait_response chat_and_watch request.id rest)
              ]
        ]

  -- `main`.
  unfoldable pub probe : List Timed → Trace
  probe frames = elim (load_or_create_identity s) [
    | err why ↦ fatal why
    | ok i ↦ elim (s.dial (settings s.env).ws_url (settings s.env).token) [
      | some why ↦ fatal (lit "dial: " ++ why)
      | none ↦ elim frames [
        | [] ↦ fatal s.ending
        | f ∷ rest ↦
            printing f.text
              (elim (s.decode_nonce f.text) [ err why ↦ fatal why | ok nonce ↦ greet i nonce rest ])
      ]
    ]
  ]
