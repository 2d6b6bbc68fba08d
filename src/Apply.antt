-- ===== src/Apply.antt =====
-- The loop of apps/control-plane/src/apply.rs that brings saved settings to the running pipeline.
use trunk_scope.Common.{Bool, false, not, ◌||◌, if◌then◌else◌, codes, text_eq, id_eq, text_key}
use trunk_scope.State.App.{AppState}
use trunk_scope.State.Pipeline.{mark_config_applied, pending_apply}

-- What a turn meets: whether supervisorctl restarts the decoder, and what the other tasks do while
-- the turn waits for saves to settle and for the restart.
pub record World : Type 0 where
  pub restarts : Bool
  pub settling : AppState → AppState
  pub restarting : AppState → AppState

abbrev pub is_wanted : AppState → Bool
is_wanted s = pending_apply s || s.force_apply

abbrev pub unforced : AppState → AppState
unforced s = record s { force_apply = false }

abbrev restarted : World → AppState → AppState
restarted w s = if w.restarts then mark_config_applied (w.restarting s) else w.restarting s

abbrev settled_turn : World → AppState → AppState
settled_turn w s = if not (is_wanted s) then s else restarted w (unforced s)

-- The turn of the mode `decoder`.
unfoldable pub decoder_turn : World → AppState → AppState
unfolding pending_apply mark_config_applied
decoder_turn w s = if is_wanted s then settled_turn w (w.settling s) else s

unfoldable pub apply_turn : World → AppState → AppState
unfolding decoder_turn mark_config_applied text_eq
apply_turn w s =
    if text_eq s.settings.radio_mode (codes "simulator")
    then unforced (mark_config_applied s)
    else if text_eq s.settings.radio_mode (codes "decoder")
    then decoder_turn w s
    else unforced s
