-- ===== src/Retention/Limits.antt =====
-- What run_once of apps/control-plane/src/retention.rs leaves of the calls, and which files it removes.
use trunk_scope.Common.{
  ◌≤◌, ◌≡◌, refl, sym, ap, ◌∙◌, inl, inr, true, not, ◌||◌, none, some, List, [], ◌∷◌, ◌++◌, map,
  arith, leb, Bool-cases, Option-cases, is_some, retain, All, All-append, id_eq, text_key,
}
use mathlib.Core.Path.{subst}
use trunk_scope.Common.Clock.{Time}
use trunk_scope.Common.Paths.{Component, components, strip_components}
use trunk_scope.Domain.{Uuid, Call}
use trunk_scope.State.App.{AppState, delete_calls, delete_row, execute}
use trunk_scope.Retention.{
  Cutoffs, is_expired, loses_audio, cutoffs, retained_call, retained_calls, expired_file,
  remove_expired, run_once,
}

-- What a call may still have after a run.
abbrev pub Within : Cutoffs → Call → Type 0
Within limits call =
    (limits.metadata ≤ call.started_at)
    × ((leb limits.transcript call.started_at || not (is_some call.transcript)) ≡ true)
    × ((leb limits.audio call.started_at || not (is_some call.audio)) ≡ true)

retained_call-Within :
    (limits : Cutoffs) (call kept : Call)
    → retained_call limits call ≡ some kept
    → Within limits kept × (retained_call limits kept ≡ some kept)
unfolding retained_call
retained_call-Within limits call kept e = ground arith

retained_calls-none :
    (limits : Cutoffs) (call : Call) (calls : List Call)
    → retained_call limits call ≡ none
    → retained_calls limits (call ∷ calls) ≡ retained_calls limits calls
unfolding retained_calls
retained_calls-none limits call calls e = rw (e, retained_calls) refl

retained_calls-some :
    (limits : Cutoffs) (call kept : Call) (calls : List Call)
    → retained_call limits call ≡ some kept
    → retained_calls limits (call ∷ calls) ≡ kept ∷ retained_calls limits calls
unfolding retained_calls
retained_calls-some limits call kept calls e = rw (e, retained_calls) refl

retained_calls-Within :
    (limits : Cutoffs) (calls : List Call)
    → All (Within limits) (retained_calls limits calls)
      × (retained_calls limits (retained_calls limits calls) ≡ retained_calls limits calls)
unfolding retained_calls
retained_calls-Within limits [] = (tt, refl)
retained_calls-Within limits (call ∷ calls) = elim (Option-cases (retained_call limits call)) [
  | inl e ↦ rw (retained_calls-none limits call calls e) (retained_calls-Within limits calls)
  | inr (kept, e) ↦
      let (within, again) = retained_call-Within limits call kept e in
      let (rest, rest_again) = retained_calls-Within limits calls in
      rw (retained_calls-some limits call kept calls e) (
        (within, rest),
        retained_calls-some limits kept kept (retained_calls limits calls) again
            ∙ ap (λ r. kept ∷ r) rest_again,
      )
]

delete_calls-frame :
    (ids : List Uuid) (s : AppState)
    → ((delete_calls ids s).calls ≡ s.calls)
      × ((delete_calls ids s).settings ≡ s.settings)
      × ((delete_calls ids s).removed_files ≡ s.removed_files)
unfolding delete_calls execute
delete_calls-frame [] s = (refl, refl, refl)
delete_calls-frame (id ∷ ids) s = delete_calls-frame ids (execute (delete_row id) s)

run_once-parts :
    (root : List Component) (now : Time) (s : AppState)
    → ((run_once root now s).calls ≡ retained_calls (cutoffs now s.settings) s.calls)
      × ((run_once root now s).settings ≡ s.settings)
      × ((run_once root now s).removed_files
          ≡ remove_expired root
              (retain (loses_audio (cutoffs now s.settings)) s.calls)
              s.removed_files)
unfolding run_once
run_once-parts root now s =
    delete_calls-frame
      (map (λ (c : Call). c.id) (retain (is_expired (cutoffs now s.settings)) s.calls))
      (record s {
        calls = retained_calls (cutoffs now s.settings) s.calls;
        removed_files =
            remove_expired root (retain (loses_audio (cutoffs now s.settings)) s.calls)
              s.removed_files;
      })

-- After a run no call is older than the metadata limit, one older than the transcript limit has
-- no transcript, one older than the audio limit has no recording; and a second run at the same
-- time changes no call.
pub run_once-Within :
    (root : List Component) (now : Time) (s : AppState)
    → All (Within (cutoffs now s.settings)) (run_once root now s).calls
      × ((run_once root now (run_once root now s)).calls ≡ (run_once root now s).calls)
run_once-Within root now s =
    let (within, again) = retained_calls-Within (cutoffs now s.settings) s.calls in
    let (kept, same, _) = run_once-parts root now s in
    (
      subst (All (Within (cutoffs now s.settings))) (sym kept) within,
      (run_once-parts root now (run_once root now s)).0 ∙ (rw same (rw kept again)),
    )

expired_file-All :
    (root : List Component) (call : Call)
    → All (λ path. is_some (strip_components root path) ≡ true) (expired_file root call)
unfolding expired_file
expired_file-All root call = elim (Option-cases call.audio) [
  | inl e ↦ rw (e, expired_file) tt
  | inr (asset, e) ↦
      elim (Bool-cases (is_some (strip_components root (components asset.object_key)))) [
        | inl b ↦ rw (e, expired_file) (rw b (b, tt))
        | inr b ↦ rw (e, expired_file) (rw b tt)
      ]
]

remove_expired-All :
    (root : List Component) (calls : List Call) (removed : List (List Component))
    → All (λ path. is_some (strip_components root path) ≡ true) removed
    → All (λ path. is_some (strip_components root path) ≡ true) (remove_expired root calls removed)
unfolding remove_expired
remove_expired-All root [] removed h = h
remove_expired-All root (call ∷ calls) removed h =
    remove_expired-All root calls (expired_file root call ++ removed) (
      All-append (λ path. is_some (strip_components root path) ≡ true) (expired_file root call)
        removed (expired_file-All root call) h)

-- If the calls' root is a prefix of the path of every file removed before, it is one of every file
-- that a run removes.
pub run_once-removed_files :
    (root : List Component) (now : Time) (s : AppState)
    → All (λ path. is_some (strip_components root path) ≡ true) s.removed_files
    → All (λ path. is_some (strip_components root path) ≡ true) (run_once root now s).removed_files
run_once-removed_files root now s h =
    subst (All (λ path. is_some (strip_components root path) ≡ true))
      (sym (run_once-parts root now s).2)
      (remove_expired-All root (retain (loses_audio (cutoffs now s.settings)) s.calls)
        s.removed_files h)
