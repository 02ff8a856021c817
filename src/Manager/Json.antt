-- ===== src/Manager/Json.antt =====
-- `ensureJSONConfig` and what it calls. `ensureMap` gives a reference into the tree, which the
-- code then writes through: here the write is a function on the map inside.
use ubuntu_daemon.Base.{
  ◌&&◌, ◌||◌, Option, none, some, List, [], ◌∷◌, ◌++◌, Text, is_nil, if◌then◌else◌,
}
use ubuntu_daemon.Text.{lit, text_eq, contains_text, trim_space, cut}
use ubuntu_daemon.Json.{Value, str, arr, obj, Items, nil, cons, Fields, end, get, put, delete}
use ubuntu_daemon.Config.{OpenClawConfig}
use ubuntu_daemon.Manager.Env.{Values, value_at, token_key}

-- The map at the key, empty where there is none.
unfoldable pub map_at : Option Value → Fields
map_at (some (obj fs)) = fs
map_at _ = end

-- `ensureMap(root, key)` and a change of the map that it gives.
unfoldable pub in_map : Text → (Fields → Fields) → Fields → Fields
in_map key change root = put root key (obj (change (map_at (get root key))))

-- `if _, ok := m[key]; !ok { m[key] = value }`.
unfoldable pub put_new : Text → Value → Fields → Fields
put_new key value root = elim (get root key) [ some v ↦ root | none ↦ put root key value ]

unfoldable pub reference : Text → Value
reference name = str (lit "${" ++ (name ++ lit "}"))

unfoldable pub gateway_defaults : OpenClawConfig → Fields → Fields
gateway_defaults cfg gateway =
    in_map (lit "auth") (put_new (lit "token") (reference (token_key cfg))) (
      put_new (lit "bind") (str (lit "127.0.0.1:18789"))
        (put_new (lit "mode") (str (lit "local")) gateway))

unfoldable pub first_non_empty_value : Values → List Text → Text
first_non_empty_value vs [] = []
first_non_empty_value vs (k ∷ ks) =
    let value = trim_space (value_at vs k) in
    if is_nil value then first_non_empty_value vs ks else value

-- A capability's model, or no entry.
unfoldable pub capability_model : Text → Text → Fields → Fields
capability_model key model defaults =
    if is_nil model
    then delete defaults key
    else in_map key (λ fs. put fs (lit "primary") (str model)) defaults

unfoldable pub apply_capability_models : Values → Fields → Fields
apply_capability_models vs defaults =
    delete
      (capability_model (lit "imageGenerationModel")
        (trim_space (value_at vs (lit "IMAGE_GENERATION_MODEL")))
        (capability_model (lit "imageModel") (trim_space (value_at vs (lit "IMAGE_MODEL")))
          defaults))
      (lit "videoGenerationModel")

unfoldable pub refs_from : Values → List Text → List Text → List Text
refs_from vs refs [] = refs
refs_from vs refs (k ∷ ks) =
    let value = trim_space (value_at vs k) in
    refs_from vs (if is_nil value || contains_text refs value then refs else refs ++ (value ∷ []))
      ks

unfoldable pub collect_configured_model_refs : Values → List Text
collect_configured_model_refs vs =
    refs_from vs []
      (lit "CHAT_MODEL" ∷ lit "LLM_MODEL" ∷ lit "IMAGE_MODEL" ∷ lit "IMAGE_GENERATION_MODEL" ∷ [])

unfoldable pub split_model_ref : Text → Option (Text × Text)
split_model_ref ref = elim (cut b'/' (trim_space ref)) [
  | none ↦ none
  | some (provider, model) ↦
      if is_nil provider || is_nil model then none else some (provider, model)
]

-- The models of each provider, in the order in which they came.
abbrev pub Grouped : Type 0
Grouped = List (Text × List Text)

unfoldable pub add_model : Text → Text → Grouped → Grouped
add_model provider model [] = (provider, model ∷ []) ∷ []
add_model provider model ((p, ms) ∷ g) =
    let rest = add_model provider model g in
    if text_eq p provider
    then (p, (if contains_text ms model then ms else ms ++ (model ∷ []))) ∷ g
    else (p, ms) ∷ rest

unfoldable pub models_by_provider : List Text → Grouped → Grouped
models_by_provider [] g = g
models_by_provider (ref ∷ refs) g =
    models_by_provider refs (elim (split_model_ref ref) [
      | none ↦ g
      | some (provider, model) ↦ add_model provider model g
    ])

unfoldable pub definition : Text → Value
definition model =
    let named = put (put end (lit "id") (str model)) (lit "name") (str model) in
    obj (
      if contains_text (lit "MiniMax-M2.7" ∷ lit "MiniMax-M2.7-highspeed" ∷ []) model
      then put named (lit "input") (arr (cons (str (lit "text")) (cons (str (lit "image")) nil)))
      else named)

unfoldable pub definitions : List Text → Items
definitions [] = nil
definitions (m ∷ ms) = cons (definition m) (definitions ms)

abbrev put_if_set : Text → Text → Value → Fields → Fields
put_if_set set key value fs = if is_nil set then fs else put fs key value

unfoldable pub provider_config : Text → Text → Text → List Text → Fields → Fields
provider_config api base_url api_key_env models fs =
    put
      (put_if_set api_key_env (lit "apiKey") (reference api_key_env)
        (put_if_set base_url (lit "baseUrl") (str base_url) (put fs (lit "api") (str api))))
      (lit "models") (arr (definitions models))

-- The loop over the providers; they are different, so the order of a Go map does not matter.
unfoldable pub each_provider : Text → Text → Text → Grouped → Fields → Fields
each_provider api base_url api_key_env [] providers = providers
each_provider api base_url api_key_env ((p, models) ∷ g) providers =
    each_provider api base_url api_key_env g
      (in_map p (provider_config api base_url api_key_env models) providers)

unfoldable pub apply_provider_config : Values → Fields → Fields
apply_provider_config vs current =
    let base_url = trim_space (value_at vs (lit "PROVIDER_BASE_URL")) in
    let api_key_env = trim_space (value_at vs (lit "PROVIDER_API_KEY_ENV")) in
    let given = trim_space (value_at vs (lit "PROVIDER_API_TYPE")) in
    let api = if is_nil given then lit "openai-completions" else given in
    let refs = collect_configured_model_refs vs in
    if is_nil refs || (is_nil base_url && is_nil api_key_env)
    then current
    else in_map (lit "models")
        (λ models.
          in_map (lit "providers")
            (each_provider api base_url api_key_env (models_by_provider refs []))
            (put_new (lit "mode") (str (lit "merge")) models))
        current

-- The configuration that is written, from the one that was read.
unfoldable pub configure : OpenClawConfig → Values → Fields → Fields
configure cfg vs current =
    let chat_model = first_non_empty_value vs (lit "CHAT_MODEL" ∷ lit "LLM_MODEL" ∷ []) in
    let based =
      delete (in_map (lit "gateway") (gateway_defaults cfg) current) (lit "default_model") in
    if is_nil chat_model
    then based
    else apply_provider_config vs (
        in_map (lit "agents")
          (in_map (lit "defaults") (λ defaults.
            apply_capability_models vs (
              in_map (lit "model") (λ model. put model (lit "primary") (str chat_model)) defaults)))
          based)
