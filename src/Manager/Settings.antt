-- ===== src/Manager/Settings.antt =====
-- What `ensureJSONConfig` keeps of the gateway's settings, and what it sees to.
use ubuntu_daemon.Base.{
  ◌≡◌, refl, ap, ◌∙◌, false, Option, none, some, [], ◌∷◌, arith, Text, is_nil, Bool-cases,
  Option-cases, inl, inr,
}
use ubuntu_daemon.Text.{lit, text_eq}
use ubuntu_daemon.Json.{Value, str, obj, Fields, get, delete}
use ubuntu_daemon.Json.Laws.{get-put_self, get-put_other, get-delete_self, get-delete_other}
use ubuntu_daemon.Config.{OpenClawConfig}
use ubuntu_daemon.Manager.{
  Values, first_non_empty_value, map_at, in_map, put_new, reference, token_key, gateway_defaults,
  apply_provider_config, configure,
}

get-in_map_other :
    (key q : Text) (change : Fields → Fields) (fs : Fields)
    → text_eq key q ≡ false
    → get (in_map key change fs) q ≡ get fs q
unfolding in_map
get-in_map_other key q change fs h = get-put_other fs key q _ h

get-in_map_self :
    (key : Text) (change : Fields → Fields) (fs : Fields)
    → get (in_map key change fs) key ≡ some (obj (change (map_at (get fs key))))
unfolding in_map
get-in_map_self key change fs = get-put_self fs key _

get-apply_provider_config :
    (vs : Values) (fs : Fields) (q : Text)
    → text_eq (lit "models") q ≡ false
    → get (apply_provider_config vs fs) q ≡ get fs q
unfolding apply_provider_config
get-apply_provider_config vs fs q h =
    grind (arith, λ (change : Fields → Fields). get-in_map_other (lit "models") q change fs h)

-- Behind the two entries that depend on the models, a key has what the first part has written.
get-configure :
    (cfg : OpenClawConfig) (vs : Values) (current : Fields) (q : Text)
    → text_eq (lit "models") q ≡ false
    → text_eq (lit "agents") q ≡ false
    → get (configure cfg vs current) q
      ≡ get (delete (in_map (lit "gateway") (gateway_defaults cfg) current) (lit "default_model")) q
unfolding configure
get-configure cfg vs current q m a =
    elim (Bool-cases
      (is_nil (first_non_empty_value vs (lit "CHAT_MODEL" ∷ lit "LLM_MODEL" ∷ [])))) [
        | inl none_set ↦ rw (none_set, configure) refl
        | inr set ↦
            rw (set, configure)
              (get-apply_provider_config vs _ q m ∙ get-in_map_other (lit "agents") q _ _ a)
      ]

-- Whatever models are configured, the gateway's section is the old one with its defaults, and the
-- entry `default_model`, which OpenClaw no longer accepts, is gone.
pub configure-gateway :
    (cfg : OpenClawConfig) (vs : Values) (current : Fields)
    → (get (configure cfg vs current) (lit "gateway")
        ≡ some (obj (gateway_defaults cfg (map_at (get current (lit "gateway"))))))
      × (get (configure cfg vs current) (lit "default_model") ≡ none)
unfolding lit text_eq
configure-gateway cfg vs current = (
  get-configure cfg vs current (lit "gateway") refl refl
      ∙ (get-delete_other _ (lit "default_model") (lit "gateway") refl
          ∙ get-in_map_self (lit "gateway") (gateway_defaults cfg) current),
  get-configure cfg vs current (lit "default_model") refl refl
      ∙ get-delete_self (in_map (lit "gateway") (gateway_defaults cfg) current)
          (lit "default_model"),
)

-- The value that was there, or the default.
abbrev pub kept_or : Option Value → Value → Value
kept_or (some old) v = old
kept_or none v = v

get-put_new_self :
    (key : Text) (v : Value) (fs : Fields)
    → get (put_new key v fs) key ≡ some (kept_or (get fs key) v)
unfolding put_new
get-put_new_self key v fs = elim (Option-cases (get fs key)) [
  | inl e ↦ rw (e, put_new) (get-put_self fs key v)
  | inr (old, e) ↦ rw (e, put_new) e
]

get-put_new_other :
    (key q : Text) (v : Value) (fs : Fields)
    → text_eq key q ≡ false
    → get (put_new key v fs) q ≡ get fs q
unfolding put_new
get-put_new_other key q v fs h = grind (arith, get-put_other fs key q v h)

-- A mode, an address and a token that the section has are kept as they are, whatever their values;
-- each of them that is missing is set to its default, the token to a reference to the variable
-- that the configuration names.
pub gateway_defaults_lem :
    (cfg : OpenClawConfig) (g : Fields)
    → (get (gateway_defaults cfg g) (lit "mode")
        ≡ some (kept_or (get g (lit "mode")) (str (lit "local"))))
      × (get (gateway_defaults cfg g) (lit "bind")
          ≡ some (kept_or (get g (lit "bind")) (str (lit "127.0.0.1:18789"))))
      × (get (map_at (get (gateway_defaults cfg g) (lit "auth"))) (lit "token")
          ≡ some (
              kept_or
                (get (map_at (get g (lit "auth"))) (lit "token"))
                (reference (token_key cfg))))
unfolding gateway_defaults lit text_eq map_at
gateway_defaults_lem cfg g =
    let moded = put_new (lit "mode") (str (lit "local")) g in
    let bound = put_new (lit "bind") (str (lit "127.0.0.1:18789")) moded in
    let auth = put_new (lit "token") (reference (token_key cfg)) in
    (
      get-in_map_other (lit "auth") (lit "mode") auth bound refl
          ∙ (get-put_new_other (lit "bind") (lit "mode") (str (lit "127.0.0.1:18789")) moded refl
              ∙ get-put_new_self (lit "mode") (str (lit "local")) g),
      get-in_map_other (lit "auth") (lit "bind") auth bound refl
          ∙ (get-put_new_self (lit "bind") (str (lit "127.0.0.1:18789")) moded
              ∙ ap (λ (o : Option Value). some (kept_or o (str (lit "127.0.0.1:18789"))))
                  (get-put_new_other (lit "mode") (lit "bind") (str (lit "local")) g refl)),
      ap (λ (o : Option Value). get (map_at o) (lit "token"))
            (get-in_map_self (lit "auth") auth bound)
          ∙ (get-put_new_self (lit "token") (reference (token_key cfg))
                (map_at (get bound (lit "auth")))
              ∙ ap
                  (λ (o : Option Value).
                    some (kept_or (get (map_at o) (lit "token")) (reference (token_key cfg))))
                  (get-put_new_other (lit "bind") (lit "auth") (str (lit "127.0.0.1:18789")) moded
                      refl
                    ∙ get-put_new_other (lit "mode") (lit "auth") (str (lit "local")) g refl)),
    )
