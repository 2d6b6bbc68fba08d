-- ===== src/Auth.antt =====
-- Administrator credentials and sessions, apps/control-plane/src/auth.rs. The password hash of the
-- argon2 crate is a parameter: `hash` with the salt drawn for it, and `verify`, whose outer result
-- is whether the stored hash parses. The sessions are the field of AppState; the stored file and the
-- environment are the fields of Store.
pub mod Login
use trunk_scope.Common.{
  ℕ, Bool, true, not, ◌&&◌, ◌||◌, Option, none, some, List, [], ◌∷◌, arith, ltb, if◌then◌else◌,
  is_some_and, is_some, or_else, and_then, length, Text, codes, text_eq, is_empty, trim,
  eq_ignore_ascii_case, strip_prefix, split, get, insert, remove, id_eq, text_key, Eq,
}
use trunk_scope.State.App.{AppState}

pub record Argon2 : Type 0 where
  pub hash : ℕ → Text → Option Text
  pub verify : Text → Text → Option Bool  -- the password, the stored hash

pub record StoredCredentials : Type 0 where
  pub username : Text
  pub password_hash : Text

-- The environment's variables, the credentials' file if it parses, and whether it can be written.
pub record Store : Type 0 where
  pub admin_username : Option Text
  pub admin_password_hash : Option Text
  pub local_only : Option Text
  pub insecure_mode : Option Text
  pub file : Option StoredCredentials
  pub writable : Bool

pub data Response : Type 0 where
  conflict bad_request internal_error unavailable unauthorized created no_content : Response
  session : Text → Response  -- the administrator's name
  signed_in : Text → Text → Response  -- the name, and the cookie's token
  signed_out : Response

abbrev from_environment : Option Text → Option Text → Option StoredCredentials
from_environment (some username) (some hash) =
    some (record { username = username; password_hash = hash })
from_environment _ _ = none

abbrev pub credentials : Store → Option StoredCredentials
credentials store =
    or_else (from_environment store.admin_username store.admin_password_hash) store.file

abbrev is_true : Option Text → Bool
is_true value = is_some_and value (λ v. eq_ignore_ascii_case v (codes "true"))

abbrev pub insecure : Store → Bool
insecure store = is_true store.local_only || is_true store.insecure_mode

pub record AuthStatus : Type 0 where
  pub enabled : Bool
  pub setup_required : Bool
  pub local_only : Bool

unfoldable pub status : Store → AuthStatus
unfolding eq_ignore_ascii_case
status store =
    let enabled = is_some (credentials store) && not (insecure store) in
    record {
      enabled = enabled;
      setup_required = not enabled && not (insecure store);
      local_only = insecure store;
    }

pub record LoginRequest : Type 0 where
  pub username : Text
  pub password : Text

-- `split(';')`, and the value behind the name in the first part that has it.
abbrev find_token : List Text → Option Text
find_token [] = none
find_token (part ∷ parts) =
    or_else (strip_prefix (codes "trunkscope_session=") (trim part)) (find_token parts)

-- `headers` is the cookie header, if it is there and visible ASCII.
unfoldable pub cookie : Option Text → Option Text
unfolding split strip_prefix trim
cookie headers = and_then headers (λ header. find_token (split b';' header))

unfoldable pub authenticated : AppState → Option Text → Bool
unfolding cookie get
authenticated s headers = is_some_and (cookie headers) (λ token. is_some (get token s.sessions))

unfoldable pub admin_accessible : Store → AppState → Option Text → Bool
unfolding authenticated eq_ignore_ascii_case
admin_accessible store s headers = insecure store || authenticated s headers

abbrev reply_of : Option Text → Response
reply_of none = unauthorized
reply_of (some username) = session username

unfoldable pub me : Store → Option Text → AppState → Response
unfolding cookie get eq_ignore_ascii_case
me store headers s =
    if insecure store
    then session (codes "local")
    else reply_of (and_then (cookie headers) (λ token. get token s.sessions))

abbrev drop_session : Option Text → AppState → AppState
drop_session none s = s
drop_session (some token) s = record s { sessions = remove token s.sessions }

unfoldable pub logout : Option Text → AppState → Response × AppState
unfolding cookie remove
logout headers s = (signed_out, drop_session (cookie headers) s)

abbrev write_credentials : StoredCredentials → Response → Store → Response × Store
write_credentials stored reply store =
    if store.writable then (reply, record store { file = some stored }) else (internal_error, store)

module _ (argon : Argon2) where
  abbrev store_hashed : Text → Response → Store → Option Text → Response × Store
  store_hashed username reply store none = (internal_error, store)
  store_hashed username reply store (some hash) =
      write_credentials (record { username = username; password_hash = hash }) reply store

  -- `salt` is drawn for the hash.
  unfoldable pub setup : ℕ → LoginRequest → Store → Response × Store
  unfolding trim
  setup salt request store =
      if is_some (credentials store)
      then (conflict, store)
      else if is_empty (trim request.username) || ltb (length request.password) 12
      then (bad_request, store)
      else store_hashed (trim request.username) created store (argon.hash salt request.password)

  abbrev renamed : Text → StoredCredentials → Text
  renamed username stored = if is_empty (trim username) then stored.username else trim username

  abbrev store_new : ℕ → LoginRequest → Store → Option StoredCredentials → Response × Store
  store_new salt request store none = (unavailable, store)
  store_new salt request store (some stored) =
      store_hashed (renamed request.username stored) no_content store
        (argon.hash salt request.password)

  unfoldable pub change_password :
      ℕ → Option Text → LoginRequest → AppState → Store → Response × Store
  unfolding authenticated trim
  change_password salt headers request s store =
      if not (authenticated s headers)
      then (unauthorized, store)
      else if is_some store.admin_password_hash
      then (conflict, store)
      else if ltb (length request.password) 12
      then (bad_request, store)
      else store_new salt request store (credentials store)

  abbrev sign_in : Text → Text → AppState → Response × AppState
  sign_in token username s =
      (signed_in username token, record s { sessions = insert token username s.sessions })

  abbrev check_password :
      Text → LoginRequest → StoredCredentials → AppState → Option Bool → Response × AppState
  check_password token request stored s none = (internal_error, s)
  check_password token request stored s (some verified) =
      if text_eq (trim request.username) stored.username && verified
      then sign_in token (trim request.username) s
      else (unauthorized, s)

  abbrev check_stored :
      Text → LoginRequest → AppState → Option StoredCredentials → Response × AppState
  check_stored token request s none = (unavailable, s)
  check_stored token request s (some stored) =
      check_password token request stored s (argon.verify request.password stored.password_hash)

  -- `token` is the text of a fresh id.
  unfoldable pub login : Text → LoginRequest → Store → AppState → Response × AppState
  unfolding insert trim text_eq
  login token request store s = check_stored token request s (credentials store)
