-- ===== src/Processing/Attempts.antt =====
-- The retries of apps/control-plane/src/processor.rs.
use trunk_scope.Common.{
  ℕ, zero, suc, ◌≡◌, Option, none, some, List, [], ◌∷◌, arith, Text, id_eq, text_key,
}
use trunk_scope.Domain.{Uuid}
use trunk_scope.State.Settings.{AppSettings}
use trunk_scope.State.App.{AppState}
use trunk_scope.Processing.{
  World, Attempt, transcript, cause, replying, store_transcript, attempts, attempt_numbers,
}

module _ (w : World) (settings : AppSettings) (path : Text) where
  -- The first of the attempts that gets a transcript.
  abbrev pub first_reply : List ℕ → Option (ℕ × Text)
  first_reply [] = none
  first_reply (n ∷ ns) = elim (w.transcribe n settings path) [
    | transcript text ↦ some (n, text)
    | cause text ↦ first_reply ns
  ]

  -- The state at the n-th reply, as the other tasks leave it.
  abbrev pub at_reply : ℕ → AppState → AppState
  at_reply zero s = s
  at_reply (suc n) s = w.others (replying (suc n)) (at_reply n s)

  abbrev cause_of : Attempt → Option Text
  cause_of (transcript text) = none
  cause_of (cause text) = some text

  -- What five attempts come to.
  abbrev pub outcome : Uuid → Option (ℕ × Text) → AppState → AppState
  outcome id none s = record (at_reply 5 s) {
    ai_last_error = cause_of (w.transcribe 5 settings path);
  }
  outcome id (some (n, text)) s = store_transcript w settings id text (at_reply n s)

  -- The worker asks at most five times: the first transcript is stored in the state of its moment
  -- and no request follows; only if all five fail is the error shown, that of the fifth, and no
  -- attempt changes anything else.
  pub attempts-first_reply :
      (id : Uuid) (s : AppState)
      → attempts w settings path id attempt_numbers s ≡ outcome id (first_reply attempt_numbers) s
  unfolding attempts
  attempts-first_reply id s = ground arith
