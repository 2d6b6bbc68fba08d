-- ===== src/Tests/Handlers.antt =====
-- The theorems on the talkgroup and system handlers and on auth.rs at concrete requests.
use trunk_scope.Common.{
  ◌+◌, ◌≡◌, refl, true, false, none, some, List, [], ◌∷◌, All, codes, text_eq, trim, starts_with,
  decimal, id_eq, text_key,
}
use trunk_scope.Domain.{Talkgroup}
use trunk_scope.State.Profiles.{SystemProfile}
use trunk_scope.Imports.Talkgroups.{new_talkgroup}
use trunk_scope.Api.Talkgroups.Table.{
  Request, save, update, delete, view, handle_all, means, handle_all-means,
}
use trunk_scope.Api.Systems.{Tones}
use trunk_scope.Api.Systems.Stored
use trunk_scope.Api.Systems.Stored.{handle_all-IsTunable}
use trunk_scope.Api.Systems.Tunable.{IsTunable}
use trunk_scope.Auth.{Argon2, Store, authenticated}
use trunk_scope.Auth.Login.{Event, logged_in, logged_out, run, signed_in_after, authenticated-run}
use trunk_scope.Tests.Samples.{sample_state, sample_system}

abbrev fire : Talkgroup
fire = new_talkgroup 0 7 101 (codes "Fire") [] []

abbrev requests : List Request
requests =
    save 5 50 fire
    ∷ update 6 51 60 fire
    ∷ save 7 61 (new_talkgroup 0 7 0 [] [] [])
    ∷ delete 8 50
    ∷ []

handle_all-means_example :
    view (handle_all decimal requests sample_state) ≡ means requests (view sample_state)
handle_all-means_example = handle_all-means decimal requests sample_state

abbrev sample_tones : Tones
sample_tones = record { parse_f32 = λ text. some 0; in_50_300 = λ hz. false }

abbrev uploaded_dmr : SystemProfile
uploaded_dmr = record sample_system {
  id = 0;
  protocol = codes "dmr";
  control_channel_hz = some 451000000;
  frequency_hz = some 451000000;
}

abbrev system_requests : List Stored.Request
system_requests =
    Stored.save true 70 (record sample_system { id = 0 })
    ∷ Stored.delete true 9 (codes "7") 7
    ∷ Stored.upload true (λ n. 80 + n)
        (some (record sample_system { id = 0; name = codes " West " } ∷ uploaded_dmr ∷ []))
    ∷ []

handle_all-IsTunable_example :
    All IsTunable (Stored.handle_all sample_tones system_requests sample_state).systems
unfolding starts_with trim text_eq
handle_all-IsTunable_example =
    handle_all-IsTunable sample_tones system_requests sample_state
      (tt, (tt, ((refl, (refl, tt)), tt))) (refl, tt)

abbrev sample_argon : Argon2
sample_argon = record {
  hash = λ salt password. some password;
  verify = λ password hash. some (text_eq password hash);
}

abbrev sample_store : Store
sample_store = record {
  admin_username = none;
  admin_password_hash = none;
  local_only = none;
  insecure_mode = none;
  file = some (record { username = codes "admin"; password_hash = codes "correct horse" });
  writable = true;
}

abbrev logins : List Event
logins =
    logged_in (codes "t1") (record { username = codes "admin"; password = codes "correct horse" })
      sample_store
    ∷ logged_in (codes "t2") (record { username = codes "admin"; password = codes "guess" })
        sample_store
    ∷ logged_out (some (codes "a=b; trunkscope_session=t3"))
    ∷ []

authenticated-run_example :
    authenticated (run sample_argon logins sample_state) (some (codes "trunkscope_session=t1"))
    ≡ true
unfolding authenticated signed_in_after text_eq
authenticated-run_example =
    authenticated-run sample_argon logins sample_state (some (codes "trunkscope_session=t1"))
