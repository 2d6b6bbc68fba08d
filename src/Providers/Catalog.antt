-- ===== src/Providers/Catalog.antt =====
-- The catalogues of models in apps/control-plane/src/providers.rs.
use trunk_scope.Common.{
  ℕ, ◌+◌, Bool, ◌||◌, Option, none, some, List, [], ◌∷◌, ◌++◌, if◌then◌else◌, is_some_and,
  unwrap_or, map_some, and_then, length, take, drop, Text, codes, text_eq, is_empty, trim, contains,
  find_text, ends_with, id_eq, text_key,
}
use trunk_scope.Common.Json.{Json, Items, end, item, array, get_key, as_str}
use trunk_scope.State.Settings.{AppSettings}
use trunk_scope.Start.Defaults.{Environment, effective_summary_url}
use trunk_scope.Providers.Http.{
  Reply, received, failed, Services, unreachable, refused, unreadable, payload, from_settings,
  apply, request_to, no_body, effective_transcribe_url, effective_transcribe_api_key,
  effective_summary_api_key,
}

pub record DiscoveredModels : Type 0 where
  pub models : List Text
  pub source : Text
  pub catalog_url : Text

-- The scheme, with `://`, and the host of a trimmed text.
abbrev origin_at : Text → ℕ → Option Text
origin_at trimmed scheme_end =
    let after_scheme = drop (scheme_end + 3) trimmed in
    let path_start = unwrap_or (find_text (codes "/") after_scheme) (length after_scheme) in
    let origin = take (scheme_end + 3 + path_start) trimmed in
    if ends_with (codes "://") origin then none else some origin

unfoldable pub service_origin : Text → Option Text
unfolding trim find_text ends_with
service_origin url =
    let trimmed = trim url in
    if is_empty trimmed
    then none
    else and_then (find_text (codes "://") trimmed) (origin_at trimmed)

unfoldable pub openai_models_catalog_url : Text → Option Text
unfolding service_origin
openai_models_catalog_url url =
    map_some (λ origin. origin ++ codes "/v1/models") (service_origin url)

unfoldable pub ollama_tags_catalog_url : Text → Option Text
unfolding service_origin
ollama_tags_catalog_url url = map_some (λ origin. origin ++ codes "/api/tags") (service_origin url)

unfoldable pub is_ollama_summary : Environment → AppSettings → Bool
unfolding trim text_eq contains
is_ollama_summary env settings =
    text_eq (trim settings.summary_provider) (codes "ollama")
    || is_some_and (effective_summary_url env settings) (contains (codes "/api/generate"))

-- `items.iter().filter_map(|item| item.get(key).as_str())`
abbrev named_items : Text → Items → List Text
named_items key end = []
named_items key (item value items) = elim (and_then (get_key key value) as_str) [
  | none ↦ named_items key items
  | some name ↦ name ∷ named_items key items
]

abbrev array_items : Option Json → Items
array_items (some (array items)) = items
array_items _ = end

unfoldable pub parse_openai_models : Json → List Text
parse_openai_models value = named_items (codes "id") (array_items (get_key (codes "data") value))

unfoldable pub parse_ollama_models : Json → List Text
parse_ollama_models value =
    named_items (codes "name") (array_items (get_key (codes "models") value))

abbrev catalog_models : Text → Json → List Text
catalog_models source value =
    if text_eq source (codes "ollama") then parse_ollama_models value else parse_openai_models value

abbrev discovered : Text → Text → List Text → Reply DiscoveredModels
discovered source catalog_url models =
    if is_empty models
    then failed (codes "provider returned no models")
    else received (record { models = models; source = source; catalog_url = catalog_url })

unfoldable pub fetch_model_catalog : Services → Text → Text → Text → Reply DiscoveredModels
unfolding text_eq parse_ollama_models parse_openai_models
fetch_model_catalog services catalog_url api_key source =
    elim (services.listing (apply (from_settings api_key) (request_to catalog_url no_body))) [
      | unreachable cause ↦ failed cause
      | refused status ↦ failed (codes "model catalog returned " ++ status)
      | unreadable cause ↦ failed cause
      | payload value ↦ discovered source catalog_url (catalog_models source value)
    ]

-- The catalogue at the URL that the configured one leads to.
abbrev list_at : Services → Text → Text → Text → Option Text → Reply DiscoveredModels
list_at services key source invalid none = failed invalid
list_at services key source invalid (some catalog_url) =
    fetch_model_catalog services catalog_url key source

unfoldable pub list_transcribe_models :
    Services → Environment → AppSettings → Reply DiscoveredModels
unfolding openai_models_catalog_url fetch_model_catalog
list_transcribe_models services env settings = elim (effective_transcribe_url env settings) [
  | none ↦ failed (codes "transcription URL is not configured")
  | some configured ↦
      list_at services (effective_transcribe_api_key env settings) (codes "openai-compatible")
        (codes "transcription URL is invalid") (openai_models_catalog_url configured)
]

unfoldable pub list_summary_models : Services → Environment → AppSettings → Reply DiscoveredModels
unfolding openai_models_catalog_url ollama_tags_catalog_url fetch_model_catalog is_ollama_summary
list_summary_models services env settings = elim (effective_summary_url env settings) [
  | none ↦ failed (codes "summary URL is not configured")
  | some configured ↦
      let key = effective_summary_api_key env settings in
      let invalid = codes "summary URL is invalid" in
      if is_ollama_summary env settings
      then list_at services key (codes "ollama") invalid (ollama_tags_catalog_url configured)
      else list_at services key (codes "openai-compatible") invalid
          (openai_models_catalog_url configured)
]
