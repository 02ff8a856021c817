-- ===== src/Probe/Payload.antt =====
-- What the probe signs, against what the adapter signs.
use ubuntu_daemon.Base.{◌≡◌, ◌≢◌, refl, sym, ap, ◌∙◌, ◌++◌, arith, Text, length}
use ubuntu_daemon.Base.Int.{ℤ}
use ubuntu_daemon.Text.{lit, join, to_lower, trim_space, drop_front, front_size, has_prefix}
use ubuntu_daemon.Store.{DeviceIdentity}
use ubuntu_daemon.Gateway.Session.Tokens.{Adapter, ConnectAuth}
use ubuntu_daemon.Gateway.Session.Crypto.{
  build_device_auth_payload_v3, normalize_device_metadata_for_auth,
}
use ubuntu_daemon.Gateway.Session.Messages.{device_payload}
use ubuntu_daemon.Probe.Requests.{probe_payload}

headless_is_normal : normalize_device_metadata_for_auth (lit "headless") ≡ lit "headless"
unfolding normalize_device_metadata_for_auth lit to_lower trim_space drop_front front_size
    has_prefix
headless_is_normal = refl

behind_version :
    (a : Adapter) (i : DeviceIdentity) (auth : ConnectAuth) (signed : ℤ) (nonce : Text)
    → build_device_auth_payload_v3 (device_payload a i auth signed nonce)
      ≡ lit "v3|"
        ++ probe_payload i.device_id signed auth.signature_token nonce
            (normalize_device_metadata_for_auth a.goos)
unfolding build_device_auth_payload_v3 device_payload probe_payload join lit
behind_version a i auth signed nonce = rw headless_is_normal refl

longer : (text : Text) → lit "v3|" ++ text ≢ text
unfolding lit
longer text e =
    let counted : length (lit "v3|" ++ text) ≡ length text = ap (λ (t : Text). length t) e in
    absurd (omega (arith, counted))

-- For the same device, token, time and nonce, and on a platform whose name is in its normal form,
-- the adapter signs the text that the probe signs behind `v3|`; so the two never sign the same.
pub build_device_auth_payload_v3-probe_payload :
    (a : Adapter) (i : DeviceIdentity) (auth : ConnectAuth) (signed : ℤ) (nonce : Text)
    → normalize_device_metadata_for_auth a.goos ≡ a.goos
    → let by_adapter = build_device_auth_payload_v3 (device_payload a i auth signed nonce) in
      let by_probe = probe_payload i.device_id signed auth.signature_token nonce a.goos in
      (by_adapter ≡ lit "v3|" ++ by_probe) × (by_adapter ≢ by_probe)
build_device_auth_payload_v3-probe_payload a i auth signed nonce normal =
    let behind =
      behind_version a i auth signed nonce
      ∙ ap (λ goos. lit "v3|" ++ probe_payload i.device_id signed auth.signature_token nonce goos)
          normal in
    (behind, λ same. longer _ (sym behind ∙ same))
