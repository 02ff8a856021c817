-- ===== src/Gateway/Values.antt =====
-- Texts read out of JSON values: `deepString`, `firstString`, `extractMarkdownBlocks` and their
-- kin. A function that calls itself on `m[key]` first computes its result at every field, and then
-- looks the key up: recursion on the value is structural that way.
use ubuntu_daemon.Base.{none, some, List, [], ◌∷◌, ◌++◌, Text, is_nil, if◌then◌else◌}
use ubuntu_daemon.Text.{lit, text_eq, contains_text, is_blank, trim_space, to_lower}
use ubuntu_daemon.Json.{
  Value, null, bool, num, str, arr, obj, Items, nil, cons, Fields, end, field, get, get_string,
}
use ubuntu_daemon.Gateway.Texts.{join_markdown_blocks, build_markdown_code_fence}

-- The results at the fields of a map, by key.
unfoldable pub result_at {ℓ} : {R : Type ℓ} → R → List (Text × R) → Text → R
result_at missing [] key = missing
result_at missing ((k, r) ∷ rs) key = if text_eq k key then r else result_at missing rs key

-- The first of the keys whose text is not empty.
unfoldable pub first_text : List (Text × Text) → List Text → Text
first_text texts [] = []
first_text texts (key ∷ keys) =
    let here = result_at [] texts key in if is_nil here then first_text texts keys else here

abbrev deep_keys : List Text
deep_keys = lit "text" ∷ lit "delta" ∷ lit "content" ∷ lit "message" ∷ lit "value" ∷ []

unfoldable mutual
  pub deep_string : Value → Text
  deep_string null = []
  deep_string (bool b) = []
  deep_string (num n) = []
  deep_string (str s) = s
  deep_string (arr vs) = deep_items vs
  deep_string (obj fs) = first_text (deep_fields fs) deep_keys

  pub deep_items : Items → Text
  deep_items nil = []
  deep_items (cons v vs) = deep_string v ++ deep_items vs

  pub deep_fields : Fields → List (Text × Text)
  deep_fields end = []
  deep_fields (field k v fs) = (k, deep_string v) ∷ deep_fields fs

unfoldable pub deep_string_at : Fields → Text → Text
deep_string_at fs key = elim (get fs key) [ none ↦ [] | some v ↦ deep_string v ]

-- `firstString`: the first key with a string that is not blank.
unfoldable pub first_string : Fields → List Text → Text
first_string fs [] = []
first_string fs (key ∷ keys) = elim (get_string fs key) [
  | none ↦ first_string fs keys
  | some s ↦ if is_blank s then first_string fs keys else s
]

unfoldable pub first_non_empty_string : Fields → List Text → Text
first_non_empty_string fs [] = []
first_non_empty_string fs (key ∷ keys) =
    let s = deep_string_at fs key in if is_blank s then first_non_empty_string fs keys else s

-- `strings.ToLower(strings.TrimSpace(firstString(m, keys...)))`.
unfoldable pub word_of : Fields → List Text → Text
word_of fs keys = to_lower (trim_space (first_string fs keys))

abbrev or_else : Text → Text → Text
or_else s t = if is_nil s then t else s

unfoldable pub markdown_from_content_block : Fields → Text
markdown_from_content_block fs =
    let kind = word_of fs (lit "type" ∷ lit "kind" ∷ []) in
    let text = deep_string_at fs (lit "text") in
    let value = deep_string_at fs (lit "value") in
    let code =
      first_non_empty_string fs (lit "code" ∷ lit "text" ∷ lit "value" ∷ lit "content" ∷ []) in
    let language = first_non_empty_string fs (lit "language" ∷ lit "lang" ∷ []) in
    if contains_text ([] ∷ lit "text" ∷ lit "markdown" ∷ lit "md" ∷ []) kind
    then text
    else if contains_text (lit "input_text" ∷ lit "output_text" ∷ []) kind
    then or_else text value
    else if contains_text (lit "code" ∷ lit "input_code" ∷ lit "output_code" ∷ []) kind
    then if is_blank code then [] else build_markdown_code_fence language code
    else or_else text value

abbrev unless_blank : Text → List Text → List Text
unless_blank block blocks = if is_blank block then blocks else block ∷ blocks

unfoldable mutual
  pub extract_markdown_blocks : Value → Text
  extract_markdown_blocks null = []
  extract_markdown_blocks (bool b) = []
  extract_markdown_blocks (num n) = []
  extract_markdown_blocks (str s) = []
  extract_markdown_blocks (arr vs) = join_markdown_blocks (markdown_items vs)
  extract_markdown_blocks (obj fs) =
      or_else (result_at [] (markdown_fields fs) (lit "content")) (markdown_from_content_block fs)

  pub markdown_items : Items → List Text
  markdown_items nil = []
  markdown_items (cons v vs) = unless_blank (extract_markdown_blocks v) (markdown_items vs)

  pub markdown_fields : Fields → List (Text × Text)
  markdown_fields end = []
  markdown_fields (field k v fs) = (k, extract_markdown_blocks v) ∷ markdown_fields fs

unfoldable pub markdown_at : Fields → Text → Text
markdown_at fs key = elim (get fs key) [ none ↦ [] | some v ↦ extract_markdown_blocks v ]

-- A function on maps that calls itself on maps inside them: `step` is given the results at the
-- fields, `missing` standing for fields that are no maps.
module _ {ℓ} {R : Type ℓ} (step : Fields → List (Text × R) → R) (missing : R) where
  unfoldable mutual
    pub nested : Value → R
    nested null = missing
    nested (bool b) = missing
    nested (num n) = missing
    nested (str s) = missing
    nested (arr vs) = missing
    nested (obj fs) = step fs (nested_fields fs)

    pub nested_fields : Fields → List (Text × R)
    nested_fields end = []
    nested_fields (field k v fs) = (k, nested v) ∷ nested_fields fs
