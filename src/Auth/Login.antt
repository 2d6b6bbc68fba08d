-- ===== src/Auth/Login.antt =====
-- Who is signed in after a run of logins and logouts, apps/control-plane/src/auth.rs.
use trunk_scope.Common.{
  ◌≡◌, refl, ap, ◌∙◌, inl, inr, Bool, false, not, ◌&&◌, ◌||◌, Option, none, some, List, [], ◌∷◌,
  arith, Bool-cases, Option-cases, is_some_and, is_some, unwrap_or, Text, text_eq, trim, Map, get,
  insert, remove, get-insert, get-remove, id_eq, text_key,
}
use trunk_scope.State.App.{AppState}
use trunk_scope.Auth.{
  Argon2, StoredCredentials, Store, LoginRequest, credentials, cookie, authenticated, login, logout,
  check_password, check_stored, drop_session,
}

-- A login with the token drawn for it and the credentials' store of that moment, or a logout with
-- its cookie header.
pub data Event : Type 0 where
  logged_in : Text → LoginRequest → Store → Event
  logged_out : Option Text → Event

-- A login with the stored name, up to blanks at the ends, and a password that the hash verifies.
unfoldable pub is_accepted : Argon2 → LoginRequest → Store → Bool
is_accepted argon request store = is_some_and (credentials store) (λ (stored : StoredCredentials).
    text_eq (trim request.username) stored.username
    && unwrap_or (argon.verify request.password stored.password_hash) false)

module _ (argon : Argon2) where
  unfoldable pub run : List Event → AppState → AppState
  unfolding login logout
  run [] s = s
  run (logged_in token request store ∷ events) s = run events (login argon token request store s).1
  run (logged_out headers ∷ events) s = run events (logout headers s).1

  -- Whether a token is signed in afterwards: the last accepted login or logout with it says.
  unfoldable pub signed_in_after : Text → List Event → Bool → Bool
  unfolding is_accepted cookie
  signed_in_after token [] before = before
  signed_in_after token (logged_in drawn request store ∷ events) before =
      signed_in_after token events
        (before || (text_eq drawn token && is_accepted argon request store))
  signed_in_after token (logged_out headers ∷ events) before =
      signed_in_after token events
        (before && not (is_some_and (cookie headers) (λ c. text_eq c token)))

  is_some-get-insert :
      (drawn token name : Text) (m : Map Text Text)
      → is_some (get token (insert drawn name m)) ≡ (is_some (get token m) || text_eq drawn token)
  is_some-get-insert drawn token name m = rw (get-insert drawn token name m) (ground arith)

  is_some-get-remove :
      (t token : Text) (m : Map Text Text)
      → is_some (get token (remove t m)) ≡ (is_some (get token m) && not (text_eq t token))
  is_some-get-remove t token m = rw (get-remove t token m) (ground arith)

  sessions-check_password :
      (drawn : Text) (request : LoginRequest) (stored : StoredCredentials) (s : AppState)
      (token : Text) (verified : Option Bool)
      → (is_some (get token (check_password argon drawn request stored s verified).1.sessions) ≡ (
          is_some (get token s.sessions)
          || (text_eq drawn token
              && (text_eq (trim request.username) stored.username && unwrap_or verified false))))
  sessions-check_password drawn request stored s token none = ground arith
  sessions-check_password drawn request stored s token (some verified) =
      elim (Bool-cases (text_eq (trim request.username) stored.username && verified)) [
        | inl e ↦
            rw e (ground (arith, is_some-get-insert drawn token (trim request.username) s.sessions))
        | inr e ↦ rw e (ground arith)
      ]

  sessions-check_stored :
      (drawn : Text) (request : LoginRequest) (s : AppState) (token : Text)
      (c : Option StoredCredentials)
      → (is_some (get token (check_stored argon drawn request s c).1.sessions) ≡ (
          is_some (get token s.sessions)
          || (text_eq drawn token
              && is_some_and c (λ (stored : StoredCredentials).
                text_eq (trim request.username) stored.username
                && unwrap_or (argon.verify request.password stored.password_hash) false))))
  sessions-check_stored drawn request s token none = ground arith
  sessions-check_stored drawn request s token (some stored) =
      sessions-check_password drawn request stored s token
        (argon.verify request.password stored.password_hash)

  sessions-drop_session :
      (s : AppState) (token : Text) (c : Option Text)
      → (is_some (get token (drop_session c s).sessions)
          ≡ (is_some (get token s.sessions) && not (is_some_and c (λ t. text_eq t token))))
  sessions-drop_session s token none = ground arith
  sessions-drop_session s token (some t) = is_some-get-remove t token s.sessions

  run-signed_in_after :
      (events : List Event) (s : AppState) (token : Text)
      → (is_some (get token (run events s).sessions)
          ≡ signed_in_after token events (is_some (get token s.sessions)))
  unfolding run signed_in_after login logout is_accepted
  run-signed_in_after [] s token = refl
  run-signed_in_after (logged_in drawn request store ∷ events) s token =
      run-signed_in_after events (login argon drawn request store s).1 token
      ∙ ap (signed_in_after token events)
          (sessions-check_stored drawn request s token (credentials store))
  run-signed_in_after (logged_out headers ∷ events) s token =
      run-signed_in_after events (logout headers s).1 token
      ∙ ap (signed_in_after token events) (sessions-drop_session s token (cookie headers))

  -- After any run of logins and logouts a request is authenticated if and only if its cookie has a
  -- token whose last accepted login came after every logout with it, or that was signed in at the
  -- start and not logged out since.
  pub authenticated-run :
      (events : List Event) (s : AppState) (headers : Option Text)
      → (authenticated (run events s) headers
          ≡ is_some_and
              (cookie headers)
              (λ token. signed_in_after token events (is_some (get token s.sessions))))
  unfolding authenticated
  authenticated-run events s headers = elim (Option-cases (cookie headers)) [
    | inl e ↦ rw e refl
    | inr (token, e) ↦ rw e (run-signed_in_after events s token)
  ]
