-- ===== src/Providers/Http.antt =====
-- The requests that apps/control-plane/src/providers.rs makes, and the keys that they carry. What a
-- service answers is a field of Services: for a request, the contents of the response that serde
-- reads, or the error.
use trunk_scope.Common.{
  Option, none, some, List, [], ◌∷◌, if◌then◌else◌, Text, codes, is_empty, trim, id_eq, text_key,
}
use trunk_scope.Common.Json.{Json}
use trunk_scope.State.Settings.{AppSettings}
use trunk_scope.Start.Defaults.{Environment, var_or_empty, setting_or_var}

pub data ProviderAuth : Type 0 where
  no_auth bearer : ProviderAuth
  api_key_header : Text → ProviderAuth

pub record ProviderCredentials : Type 0 where
  pub auth : ProviderAuth
  pub api_key : Text

unfoldable pub from_settings : Text → ProviderCredentials
unfolding trim
from_settings api_key =
    if is_empty (trim api_key)
    then record { auth = no_auth; api_key = [] }
    else record { auth = bearer; api_key = trim api_key }

pub data Body : Type 0 where
  no_body : Body
  prompt_body : Text → Text → Body  -- OllamaRequest: model and prompt
  chat_body : Text → Text → Body  -- OpenAiChatRequest: model, and one message of the user
  anthropic_body : Text → Text → Body  -- AnthropicRequest, of at most 512 tokens
  form : Text → List (Text × Text) → Body  -- the audio file, and the other parts

pub record HttpRequest : Type 0 where
  pub url : Text
  pub query : List (Text × Text)
  pub headers : List (Text × Text)
  pub bearer_token : Option Text
  pub body : Body

abbrev pub request_to : Text → Body → HttpRequest
request_to url body = record {
  url = url;
  query = [];
  headers = [];
  bearer_token = none;
  body = body;
}

-- `credentials.apply(request)`.
unfoldable pub apply : ProviderCredentials → HttpRequest → HttpRequest
apply creds request = elim creds.auth [
  | no_auth ↦ request
  | bearer ↦ record request { bearer_token = some creds.api_key }
  | api_key_header header ↦ record request { headers = (header, creds.api_key) ∷ request.headers }
]

-- A result, or an error's text.
pub data Reply (A : Type 0) : Type 0 where
  received : A → Reply A
  failed : Text → Reply A

-- An answer to a request for a catalogue of models.
pub data Listing : Type 0 where
  unreachable : Text → Listing
  refused : Text → Listing  -- a status that is no success
  unreadable : Text → Listing
  payload : Json → Listing

pub record Services : Type 0 where
  pub read_file : Text → Option Text  -- the bytes of an audio file, as the form has them
  pub transcription : HttpRequest → Reply Text  -- the field `text`
  pub ollama : HttpRequest → Reply Text  -- the field `response`
  pub anthropic : HttpRequest → Reply (List Text)  -- the texts of the blocks
  pub openai : HttpRequest → Reply (List Text)  -- the contents of the choices
  pub listing : HttpRequest → Listing
  pub json : HttpRequest → Option Json

-- The setting, trimmed, or the variable as it is.
abbrev key_or_var : Environment → Text → Text → Text
key_or_var env setting name =
    if is_empty (trim setting) then var_or_empty env name else trim setting

unfoldable pub effective_transcribe_url : Environment → AppSettings → Option Text
unfolding setting_or_var
effective_transcribe_url env settings =
    setting_or_var env settings.transcribe_url (codes "TRUNKSCOPE_TRANSCRIBE_URL")

unfoldable pub effective_transcribe_api_key : Environment → AppSettings → Text
unfolding trim
effective_transcribe_api_key env settings =
    key_or_var env settings.transcribe_api_key (codes "TRUNKSCOPE_TRANSCRIBE_API_KEY")

unfoldable pub effective_summary_api_key : Environment → AppSettings → Text
unfolding trim
effective_summary_api_key env settings =
    key_or_var env settings.summary_api_key (codes "TRUNKSCOPE_SUMMARY_API_KEY")

unfoldable pub effective_geocoder_api_key : Environment → AppSettings → Text
unfolding trim
effective_geocoder_api_key env settings =
    key_or_var env settings.geocoder_api_key (codes "TRUNKSCOPE_GEOCODER_API_KEY")
