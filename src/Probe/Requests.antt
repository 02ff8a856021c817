-- ===== src/Probe/Requests.antt =====
-- cmd/wsprobe/main.go: what the probe signs and sends.
use ubuntu_daemon.Base.{[], ◌∷◌, ◌++◌, Text}
use ubuntu_daemon.Base.Int.{ℤ, pos}
use ubuntu_daemon.Text.{lit, decimal}
use ubuntu_daemon.Json.{num, str, arr, obj, nil, Fields, end, field}
use ubuntu_daemon.Gateway.Session.Wire.{GatewayRequest}
use ubuntu_daemon.Gateway.Session.Messages.{fields_of, strings, operator_scopes}
use ubuntu_daemon.Probe.Device.{settings, Surroundings, ProbeIdentity}

-- `fmt.Sprintf` of ten parts.
unfoldable pub probe_payload : Text → ℤ → Text → Text → Text → Text
probe_payload device_id signed_at token nonce goos =
    device_id
    ++ (lit "|"
        ++ (lit "cli"
            ++ (lit "|"
                ++ (lit "cli"
                    ++ (lit "|"
                        ++ (lit "operator"
                            ++ (lit "|"
                                ++ (lit "operator.read,operator.write"
                                    ++ (lit "|"
                                        ++ (decimal signed_at
                                            ++ (lit "|"
                                                ++ (token
                                                    ++ (lit "|"
                                                        ++ (nonce
                                                            ++ (lit "|"
                                                            ++ (goos
                                                            ++ (lit "|"
                                                            ++ lit "headless")))))))))))))))))

abbrev probe_client : Text → Fields
probe_client goos = fields_of (
    (lit "id", str (lit "cli"))
    ∷ (lit "displayName", str (lit "wsprobe"))
    ∷ (lit "version", str (lit "0.0.1"))
    ∷ (lit "platform", str goos)
    ∷ (lit "deviceFamily", str (lit "headless"))
    ∷ (lit "mode", str (lit "cli"))
    ∷ [])

unfoldable pub probe_connect : Surroundings → ProbeIdentity → Text → Text → Text → GatewayRequest
probe_connect s i token nonce signature = record {
  id = lit "connect-" ++ decimal s.connect_at;
  method = lit "connect";
  params = fields_of (
      (lit "minProtocol", num (pos 3))
      ∷ (lit "maxProtocol", num (pos 3))
      ∷ (lit "client", obj (probe_client s.goos))
      ∷ (lit "role", str (lit "operator"))
      ∷ (lit "scopes", arr (strings operator_scopes))
      ∷ (lit "caps", arr nil)
      ∷ (lit "commands", arr nil)
      ∷ (lit "permissions", obj end)
      ∷ (lit "auth", obj (field (lit "token") (str token) end))
      ∷ (
        lit "device",
        obj (
            fields_of (
              (lit "id", str i.device_id)
              ∷ (lit "publicKey", str i.public_key)
              ∷ (lit "signature", str signature)
              ∷ (lit "signedAt", num s.signed_at)
              ∷ (lit "nonce", str nonce)
              ∷ [])),
      )
      ∷ (lit "locale", str (lit "zh-CN"))
      ∷ (lit "userAgent", str (lit "wsprobe/0.0.1"))
      ∷ []);
}

unfoldable pub probe_chat : Surroundings → GatewayRequest
probe_chat s =
    let id = lit "chat-" ++ decimal s.chat_at in
    record {
      id = id;
      method = lit "chat.send";
      params = fields_of (
          (lit "sessionKey", str (settings s.env).session_key)
          ∷ (lit "idempotencyKey", str id)
          ∷ (lit "message", str (settings s.env).message)
          ∷ []);
    }
