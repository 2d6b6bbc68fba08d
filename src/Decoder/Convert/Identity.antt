-- ===== src/Decoder/Convert/Identity.antt =====
-- One recording, one call (apps/control-plane/src/decoder.rs).
use trunk_scope.Common.{
  ℕ, ◌≡◌, refl, sym, ap, ◌∙◌, Bool, true, not, ◌&&◌, ◌||◌, Option, none, some, arith, if◌then◌else◌,
  is_some, map_some, and_then, Text, id_eq, text_key,
}
use trunk_scope.Common.Clock.{Time}
use trunk_scope.Domain.{Uuid, Call, complete, active, is_clear}
use trunk_scope.State.App.{AppState}
use trunk_scope.State.Pipeline.{resolve_call_for_audio}
use trunk_scope.State.Pipeline.Once.{remember_audio-found}
use trunk_scope.Decoder.Event.{DecoderCall, Conversions, text_value, bool_value, parse_u32}
use mathlib.Core.Path.{subst}
use trunk_scope.Decoder.Convert.{
  or_p25_system, tone_allowed, remember, Draws, audio_path, build_call, convert_call,
  entry_or_insert, identify,
}

module _ (x : Conversions) where
  -- A conversion that gives a call is `build_call` at some talkgroup and frequency.
  pub convert_call-build_call :
      (draws : Draws) (now : Time) (source : DecoderCall) (ended : Bool) (s : AppState)
      (r : Call × AppState)
      → convert_call x draws now source ended s ≡ some r
      → (talkgroup_id : ℕ) × (hz : ℕ) × (build_call x draws now source ended talkgroup_id hz s ≡ r)
  unfolding convert_call
  convert_call-build_call draws now source ended s r h =
      pick (parse_u32 (text_value x source.talkgroup))
        (map_some x.round_to_u64 (x.parse_f64 (text_value x source.freq))) h
    where
      pick :
          (a b : Option ℕ)
          → and_then a (λ g. and_then b λ hz.
            if tone_allowed s.systems hz (text_value x source.tone) (bool_value source.analog)
            then some (build_call x draws now source ended g hz s)
            else none)
            ≡ some r
          → (talkgroup_id : ℕ) × (hz : ℕ) × (build_call x draws now source ended talkgroup_id hz s
              ≡ r)
      pick none b h = cc
      pick (some g) none h = cc
      pick (some g) (some hz) h = (g, hz, ground arith)

  build_call-audio :
      (draws : Draws) (now : Time) (source : DecoderCall) (ended : Bool) (g hz : ℕ) (s : AppState)
      → let call = (build_call x draws now source ended g hz s).0 in
        ((not (is_some call.audio)
            || (ended
                && is_clear call.encryption
                && is_some (audio_path (text_value x source.filename))))
          ≡ true)
        × (call.state ≡ (if ended then complete else active))
        × (is_some call.ended_at ≡ ended)
  unfolding build_call
  build_call-audio draws now source ended g hz s = (ground arith, refl, ground arith)

  -- A call has audio only if it has ended, is clear and its event names a file; it is complete,
  -- with an end, exactly if it has ended, and active without one otherwise.
  pub convert_call-audio :
      (draws : Draws) (now : Time) (source : DecoderCall) (ended : Bool) (s : AppState)
      (call : Call) (t : AppState)
      → convert_call x draws now source ended s ≡ some (call, t)
      → ((not (is_some call.audio)
            || (ended
                && is_clear call.encryption
                && is_some (audio_path (text_value x source.filename))))
          ≡ true)
        × (call.state ≡ (if ended then complete else active))
        × (is_some call.ended_at ≡ ended)
  convert_call-audio draws now source ended s call t h =
      let (g, hz, e) = convert_call-build_call draws now source ended s (call, t) h in
      let same : (build_call x draws now source ended g hz s).0 ≡ call =
        ap (λ (r : Call × AppState). r.0) e in
      rw (← same) (build_call-audio draws now source ended g hz s)

  build_call-resolve :
      (draws : Draws) (now : Time) (source : DecoderCall) (ended : Bool) (g hz : ℕ) (s : AppState)
      (path : Text)
      → audio_path (text_value x source.filename) ≡ some path
      → let r = build_call x draws now source ended g hz s in
        resolve_call_for_audio path r.1 ≡ some r.0.id
  unfolding build_call
  build_call-resolve draws now source ended g hz s path h =
      rw (h, remember) (remember_audio-found path _ _)

resolve-audio_alias :
    (path : Text) (s t : AppState)
    → s.audio_alias ≡ t.audio_alias
    → resolve_call_for_audio path s ≡ resolve_call_for_audio path t
unfolding resolve_call_for_audio
resolve-audio_alias path s t e = ground arith

module _ (x : Conversions) where
  convert_call-resolve :
      (draws : Draws) (now : Time) (source : DecoderCall) (ended : Bool) (s : AppState)
      (call : Call) (t : AppState) (path : Text)
      → convert_call x draws now source ended s ≡ some (call, t)
      → audio_path (text_value x source.filename) ≡ some path
      → resolve_call_for_audio path t ≡ some call.id
  convert_call-resolve draws now source ended s call t path h file =
      let (g, hz, e) = convert_call-build_call x draws now source ended s (call, t) h in
      let found = build_call-resolve x draws now source ended g hz s path file in
      subst (λ (r : Call × AppState). resolve_call_for_audio path r.1 ≡ some r.0.id) e found

  build_call-id_of_resolve :
      (draws : Draws) (now : Time) (source : DecoderCall) (ended : Bool) (g hz : ℕ) (s : AppState)
      (path : Text) (id : Uuid)
      → audio_path (text_value x source.filename) ≡ some path
      → resolve_call_for_audio path s ≡ some id
      → (build_call x draws now source ended g hz s).0.id ≡ id
  unfolding build_call identify
  build_call-id_of_resolve draws now source ended g hz s path id file found =
      let t : AppState = record s {
        decoder_systems =
            (entry_or_insert (or_p25_system (text_value x source.short_name)) draws.for_system
              s.decoder_systems).1;
      } in
      rw file (rw (resolve-audio_alias path t s refl ∙ found, identify))

  -- A recording belongs to one call: whatever event about the file comes first, any later one about
  -- the same file, whenever and under whatever identifier, gives a call with the same id, as long as
  -- the table of recordings is as the first event left it.
  pub convert_call-same_recording :
      (draws draws' : Draws) (now now' : Time) (first second : DecoderCall) (ended ended' : Bool)
      (s t between u : AppState) (a b : Call) (path : Text)
      → convert_call x draws now first ended s ≡ some (a, t)
      → between.audio_alias ≡ t.audio_alias
      → convert_call x draws' now' second ended' between ≡ some (b, u)
      → audio_path (text_value x first.filename) ≡ some path
      → audio_path (text_value x second.filename) ≡ some path
      → b.id ≡ a.id
  convert_call-same_recording draws draws' now now' first second ended ended' s t between u a b path
        h kept k file file' =
      let claimed =
        resolve-audio_alias path between t kept
        ∙ convert_call-resolve draws now first ended s a t path h file in
      let (g, hz, e) = convert_call-build_call x draws' now' second ended' between (b, u) k in
      ap (λ (r : Call × AppState). r.0.id) (sym e)
      ∙ build_call-id_of_resolve draws' now' second ended' g hz between path a.id file' claimed
