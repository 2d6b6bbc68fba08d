-- ===== src/Radio/Supervisor/Attempts.antt =====
-- How often the supervisor of apps/control-plane/src/radiod.rs tries before it waits for a command.
use trunk_scope.Common.{
  ℕ, suc, ◌+◌, ◌≤◌, min, ◌≡◌, sym, ◌∙◌, Bool, true, false, ◌||◌, none, some, arith, ltb, leb, id_eq,
  text_key,
}
use mathlib.Core.Option.{some-injective}
use mathlib.Core.Path.{subst}
use trunk_scope.Common.Clock.{Time}
use trunk_scope.Domain.{Uuid}
use trunk_scope.State.App.{AppState}
use trunk_scope.Radio.{Environment, from_settings, RadioConfig}
use trunk_scope.Radio.Events.{Arithmetic}
use trunk_scope.Radio.Supervisor.{
  Supervisor, Turn, Ending, exited, failed, changed, heard, turn, end_run, after_run, begin_run,
  apply_happenings,
}

abbrev pub is_interruption : Ending → Bool
is_interruption changed = true
is_interruption (heard command) = true
is_interruption _ = false

-- Turns of the supervisor with no clean exit of the daemon and no waking from a pause, and the
-- number of failed runs in them. Within a turn and in between, the other tasks change the shared
-- state at will; a turn on invalid settings is such a change.
pub data Tries (x : Arithmetic) (env : Environment) (id : Uuid) (v : Supervisor)
    : ℕ → Supervisor → Type 0 where
  none_yet : Tries x env id v 0 v
  between :
      {n : ℕ} {w : Supervisor}
      → Tries x env id v n w
      → (s : AppState) → Tries x env id v n (record w { state = s })
  failure :
      {n : ℕ} {w u : Supervisor} {config : RadioConfig}
      → Tries x env id v n w
      → (t : Turn) → w.paused ≡ false
      → from_settings env w.state ≡ some config
      → t.ending ≡ failed
      → turn x env id t w ≡ some u
      → Tries x env id v (suc n) u
  interruption :
      {n : ℕ} {w u : Supervisor} {config : RadioConfig}
      → Tries x env id v n w
      → (t : Turn) → w.paused ≡ false
      → from_settings env w.state ≡ some config
      → is_interruption t.ending ≡ true
      → turn x env id t w ≡ some u
      → Tries x env id v n u

-- The counter is the number of failed runs, and one below three while it is not paused.
abbrev IsCounted : ℕ → Supervisor → Type 0
IsCounted n v = (v.failures ≡ n) × (n ≤ 3) × ((v.paused || ltb n 3) ≡ true)

module _ (x : Arithmetic) (env : Environment) (id : Uuid) where
  turn-open :
      (t : Turn) (w : Supervisor) (config : RadioConfig)
      → w.paused ≡ false
      → from_settings env w.state ≡ some config
      → (turn x env id t w
          ≡ end_run x env id t.now t.ending (record w {
            state =
                apply_happenings x env id t.happenings
                  (begin_run x env id t.now (t.meanwhile w.state));
          }))
  unfolding turn
  turn-open t w config p c = ground (arith, p, c)

  after_run-paused :
      (now : Time) (v : Supervisor)
      → (after_run x env id now v).paused ≡ (v.paused || leb 3 v.failures)
  unfolding after_run
  after_run-paused now v = ground arith

  after_run-failures :
      (now : Time) (v : Supervisor) → (after_run x env id now v).failures ≡ v.failures
  unfolding after_run
  after_run-failures now v = ground arith

  end_run-interrupted :
      (now : Time) (ending : Ending) (v u : Supervisor)
      → is_interruption ending ≡ true
      → end_run x env id now ending v ≡ some u
      → u.failures ≡ v.failures
  unfolding end_run
  end_run-interrupted now exited v u f e = absurd (ground (arith, f))
  end_run-interrupted now failed v u f e = absurd (ground (arith, f))
  end_run-interrupted now changed v u f e = ground (arith, e)
  end_run-interrupted now (heard none) v u f e = ground (arith, e)
  end_run-interrupted now (heard (some command)) v u f e = ground (arith, e)

  end_run-failed :
      (now : Time) (v u : Supervisor)
      → end_run x env id now failed v ≡ some u
      → (u.failures ≡ min (v.failures + 1) 255)
        × ((u.paused || ltb (min (v.failures + 1) 255) 3) ≡ true)
  unfolding end_run
  end_run-failed now v u e =
      subst
        (λ (r : Supervisor).
          (r.failures ≡ min (v.failures + 1) 255)
          × ((r.paused || ltb (min (v.failures + 1) 255) 3) ≡ true))
        (some-injective _ _ e)
        (
          after_run-failures now (record v { failures = min (v.failures + 1) 255 }),
          ground (arith, after_run-paused now (record v { failures = min (v.failures + 1) 255 })),
        )

  counted_failure :
      (n failures : ℕ) (paused : Bool) (w : Supervisor)
      → w.paused ≡ false
      → IsCounted n w
      → failures ≡ min (w.failures + 1) 255
      → (paused || ltb (min (w.failures + 1) 255) 3) ≡ true
      → (failures ≡ suc n) × (suc n ≤ 3) × ((paused || ltb (suc n) 3) ≡ true)
  counted_failure n failures paused w p (counted, most, few) f g =
      (omega (arith, below), below, ground (arith, counted, g, below))
    where
      below : suc n ≤ 3
      below = ground (arith, few, p)

  Tries-IsCounted :
      (v : Supervisor) {n : ℕ} {w : Supervisor}
      → v.failures ≡ 0
      → Tries x env id v n w
      → IsCounted n w
  Tries-IsCounted v h none_yet = (h, omega arith, ground arith)
  Tries-IsCounted v h (between r s) = Tries-IsCounted v h r
  Tries-IsCounted v h (failure {n} {w} {u} {config} r t p c f e) =
      let ran =
        end_run-failed t.now
          (record w {
            state =
                apply_happenings x env id t.happenings
                  (begin_run x env id t.now (t.meanwhile w.state));
          })
          u (ground (arith, turn-open t w config p c, e, f)) in
      counted_failure n u.failures u.paused w p (Tries-IsCounted v h r) ran.0 ran.1
  Tries-IsCounted v h (interruption {n} {w} {u} {config} r t p c f e) =
      let (counted, most, few) = Tries-IsCounted v h r in
      let ran =
        end_run-interrupted t.now t.ending
          (record w {
            state =
                apply_happenings x env id t.happenings
                  (begin_run x env id t.now (t.meanwhile w.state));
          })
          u f (sym (turn-open t w config p c) ∙ e) in
      (ran ∙ counted, most, ground (arith, few, p))

-- From a supervisor that has counted no failure, and without a clean exit of the daemon or a command
-- that wakes a paused supervisor, at most three runs fail, whatever commands and changes of settings
-- interrupt runs and whatever the other tasks do to the shared state during the runs and between
-- them; after the third failure the supervisor is paused.
pub Tries-bounded :
    (x : Arithmetic) (env : Environment) (id : Uuid) (v : Supervisor) (n : ℕ) (w : Supervisor)
    → v.failures ≡ 0
    → Tries x env id v n w
    → (n ≤ 3) × ((w.paused || ltb n 3) ≡ true)
Tries-bounded x env id v n w h r =
    let (_, most, few) = Tries-IsCounted x env id v h r in (most, few)
