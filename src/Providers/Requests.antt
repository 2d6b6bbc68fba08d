-- ===== src/Providers/Requests.antt =====
-- The transcription and the summary of apps/control-plane/src/providers.rs.
use trunk_scope.Common.{
  Bool, true, false, not, ◌||◌, Option, none, some, List, [], ◌∷◌, ◌++◌, if◌then◌else◌, Text, codes,
  text_eq, is_empty, trim, eq_ignore_ascii_case, join_with, id_eq, text_key,
}
use trunk_scope.State.Settings.{AppSettings}
use trunk_scope.Start.Defaults.{Environment, effective_summary_url}
use trunk_scope.Providers.Http.{
  no_auth, bearer, api_key_header, ProviderCredentials, from_settings, prompt_body, chat_body,
  anthropic_body, form, HttpRequest, request_to, apply, Reply, received, failed, Services,
  effective_transcribe_url, effective_transcribe_api_key, effective_summary_api_key,
}

abbrev pub map_reply : {A B : Type 0} → (A → B) → Reply A → Reply B
map_reply f (received a) = received (f a)
map_reply f (failed cause) = failed cause

abbrev part_if : Bool → Text → Text → List (Text × Text) → List (Text × Text)
part_if true name value parts = (name, value) ∷ parts
part_if false name value parts = parts

-- The parts behind the file.
unfoldable pub form_parts : AppSettings → List (Text × Text)
unfolding trim text_eq
form_parts settings =
    let prompt = trim settings.transcription_system_prompt in
    (codes "model", settings.transcribe_model)
    ∷ part_if (not (is_empty prompt)) (codes "prompt") prompt (
        part_if (not (is_empty settings.radio_vocabulary)) (codes "vocabulary")
          (join_with (codes ", ") settings.radio_vocabulary)
          (part_if (not (text_eq settings.transcribe_provider (codes "openai-whisper")))
            (codes "response_format") (codes "json") []))

unfoldable pub transcribe : Services → Environment → AppSettings → Text → Reply Text
unfolding form_parts trim
transcribe services env settings path = elim (effective_transcribe_url env settings) [
  | none ↦ failed (codes "transcription provider is not configured")
  | some url ↦
      let creds = from_settings (effective_transcribe_api_key env settings) in
      elim (services.read_file path) [
        | none ↦ failed (codes "the audio file cannot be read")
        | some audio ↦ map_reply trim (
            services.transcription
              (apply creds (request_to url (form audio (form_parts settings)))))
      ]
]

abbrev first_trimmed : List Text → Text
first_trimmed [] = []
first_trimmed (text ∷ texts) = trim text

-- The request to Anthropic has the key in a header of its own.
abbrev with_api_key : ProviderCredentials → HttpRequest → HttpRequest
with_api_key creds request = elim creds.auth [
  | bearer ↦ record request { headers = (codes "x-api-key", creds.api_key) ∷ request.headers }
  | api_key_header header ↦ record request { headers = (header, creds.api_key) ∷ request.headers }
  | no_auth ↦ request
]

unfoldable pub summary_request : ProviderCredentials → AppSettings → Text → Text → HttpRequest
unfolding trim text_eq apply
summary_request creds settings url prompt =
    let provider = trim settings.summary_provider in
    let model = trim settings.summary_model in
    if text_eq provider (codes "ollama")
    then apply creds (request_to url (prompt_body model prompt))
    else if text_eq provider (codes "anthropic")
    then with_api_key creds (record (request_to url (anthropic_body model prompt)) {
      headers = (codes "anthropic-version", codes "2023-06-01") ∷ [];
    })
    else apply creds (request_to url (chat_body model prompt))

abbrev send_summary : Services → Text → HttpRequest → Reply Text
send_summary services provider request =
    if text_eq provider (codes "ollama")
    then map_reply trim (services.ollama request)
    else if text_eq provider (codes "anthropic")
    then map_reply first_trimmed (services.anthropic request)
    else map_reply first_trimmed (services.openai request)

unfoldable pub summarize : Services → Environment → AppSettings → Text → Reply Text
unfolding summary_request trim text_eq
summarize services env settings prompt = elim (effective_summary_url env settings) [
  | none ↦ failed (codes "summary provider is not configured")
  | some url ↦
      let creds = from_settings (effective_summary_api_key env settings) in
      send_summary services (trim settings.summary_provider)
        (summary_request creds settings url prompt)
]

abbrev hint_of : Reply Text → Option Text
hint_of (failed cause) = none
hint_of (received text) =
    if is_empty (trim text) || eq_ignore_ascii_case (trim text) (codes "none")
    then none
    else some (trim text)

unfoldable pub llm_location_hint : Services → Environment → AppSettings → Text → Option Text
unfolding summarize trim eq_ignore_ascii_case
llm_location_hint services env settings transcript = elim (effective_summary_url env settings) [
  | none ↦ none
  | some url ↦ hint_of (
      summarize services env settings
        (trim settings.location_extraction_prompt ++ codes "\n\nTranscript:\n" ++ transcript))
]

unfoldable pub test_summary : Services → Environment → AppSettings → Reply Text
unfolding summarize
test_summary services env settings =
    summarize services env settings
      (codes "Reply with the single word OK if you can read this test prompt.")
