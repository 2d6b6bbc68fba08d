-- ===== src/Radio/Supervisor.antt =====
-- The task that `spawn` of apps/control-plane/src/radiod.rs starts: it runs the daemon, restarts it
-- and pauses. One turn of its loop is a function of what happens in it.
pub mod Attempts
use trunk_scope.Common.{
  ℕ, ◌+◌, ◌*◌, min, Bool, true, false, ◌||◌, Option, none, some, List, [], ◌∷◌, arith, leb, ◌==◌,
  if◌then◌else◌, id_eq, text_key, Eq,
}
use trunk_scope.Common.Clock.{Time}
use trunk_scope.Domain.{Uuid, ReceiverState, probing, offline, faulted, degraded, stopped}
use trunk_scope.State.Profiles.{ReceiverCommand, probe, start, stop, restart}
use trunk_scope.State.App.{AppState}
use trunk_scope.State.Pipeline.{mark_config_applied, pending_apply}
use trunk_scope.Radio.{Environment, from_settings, set_state}
use trunk_scope.Radio.Events.{RadioEvent, Arithmetic, apply_event}

-- The loop's variables and the shared state; the delay is in seconds.
pub record Supervisor : Type 0 where
  pub paused : Bool
  pub failures : ℕ  -- u8
  pub restart_delay : ℕ
  pub state : AppState

-- How a turn ends: the daemon's exit, good or bad, a receive on the command channel (`none` is an
-- error of it), or the watch on the settings.
pub data Ending : Type 0 where
  exited failed changed : Ending
  heard : Option ReceiverCommand → Ending

-- An event of the daemon with the moment and the ids drawn for it.
pub record Arrival : Type 0 where
  pub at : Time
  pub id : Uuid
  pub session : Uuid
  pub event : RadioEvent

-- What befalls the shared state during a run: an event of the daemon, or what another task does.
pub data Happening : Type 0 where
  daemon : Arrival → Happening
  elsewhere : (AppState → AppState) → Happening

-- `meanwhile` is what other tasks do between the reading of the settings and the mark that they are
-- applied.
pub record Turn : Type 0 where
  pub now : Time
  pub meanwhile : AppState → AppState
  pub happenings : List Happening
  pub ending : Ending

-- `Start(id) | Restart(id) | Probe(id)) if id == receiver_id`
abbrev pub wakes : Uuid → ReceiverCommand → Bool
wakes receiver_id (probe id) = id == receiver_id
wakes receiver_id (start id) = id == receiver_id
wakes receiver_id (restart id) = id == receiver_id
wakes receiver_id (stop id) = false

abbrev pub stops : Uuid → ReceiverCommand → Bool
stops receiver_id (stop id) = id == receiver_id
stops receiver_id _ = false

module _ (x : Arithmetic) (env : Environment) (receiver_id : Uuid) where
  unfoldable pub apply_happenings : List Happening → AppState → AppState
  unfolding apply_event
  apply_happenings [] s = s
  apply_happenings (daemon a ∷ rest) s =
      apply_happenings rest (apply_event x a.at a.id a.session receiver_id a.event s)
  apply_happenings (elsewhere change ∷ rest) s = apply_happenings rest (change s)

  abbrev shown : Time → ReceiverState → AppState → AppState
  shown now state s = set_state now receiver_id state s

  -- A paused turn: it waits for a command, and ends the task on an error of the channel.
  unfoldable pub wait_paused : Time → Ending → Supervisor → Option Supervisor
  unfolding set_state
  wait_paused now (heard none) v = none
  wait_paused now (heard (some command)) v =
      if wakes receiver_id command
      then some (record v { paused = false; state = shown now probing v.state })
      else some v
  wait_paused now _ v = none

  -- The daemon's exit after the count of failures is set.
  unfoldable pub after_run : Time → Supervisor → Supervisor
  unfolding set_state
  after_run now v =
      if leb 3 v.failures
      then record v { paused = true; state = shown now faulted v.state }
      else record v {
        restart_delay = min (v.restart_delay * 2) 30;
        state = shown now degraded v.state;
      }

  abbrev on_command : Time → Option ReceiverCommand → Supervisor → Supervisor
  on_command now none v = v
  on_command now (some command) v =
      if stops receiver_id command
      then record v { paused = true; state = shown now stopped v.state }
      else if wakes receiver_id command
      then record v { state = shown now probing v.state }
      else v

  abbrev interrupted : Supervisor → Supervisor
  interrupted v = record v { restart_delay = 1 }

  -- The watch sees a change that another task made pending during the run, or a forced apply, or
  -- goes on waiting.
  abbrev on_change : Time → Supervisor → Option Supervisor
  on_change now v =
      if pending_apply v.state || v.state.force_apply
      then some (interrupted (record v { state = shown now probing v.state }))
      else none

  -- What the `select!` does with the end of a run.
  unfoldable pub end_run : Time → Ending → Supervisor → Option Supervisor
  unfolding after_run pending_apply set_state
  end_run now exited v = some (after_run now (record v { failures = 0 }))
  end_run now failed v = some (after_run now (record v { failures = min (v.failures + 1) 255 }))
  end_run now changed v = on_change now v
  end_run now (heard command) v = some (interrupted (on_command now command v))

  -- The settings are applied and the daemon runs.
  unfoldable pub begin_run : Time → AppState → AppState
  unfolding mark_config_applied set_state
  begin_run now s = shown now offline (record (mark_config_applied s) { force_apply = false })

  -- One turn of the loop; `none` is the task's end, or an ending that the turn cannot have.
  unfoldable pub turn : Turn → Supervisor → Option Supervisor
  unfolding wait_paused end_run begin_run apply_happenings from_settings set_state
  turn t v = if v.paused then wait_paused t.now t.ending v else elim (from_settings env v.state) [
    | none ↦ some (record v { state = shown t.now faulted v.state })
    | some config ↦
        end_run t.now t.ending (record v {
          state = apply_happenings t.happenings (begin_run t.now (t.meanwhile v.state));
        })
  ]
