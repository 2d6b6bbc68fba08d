-- ===== src/Api/Operations/Brief.antt =====
-- The questions to a model about recent calls in apps/control-plane/src/api.rs: transcript_context,
-- generate_operations_ai_summary and operations_ask. A `str` is cut at a byte; where this byte is
-- inside a character the code panics, which is none here. The provider's answer is a parameter,
-- with none for one that comes too late.
use trunk_scope.Common.{
  ℕ, zero, suc, ◌-◌, min, max, ◌≡◌, refl, Bool, true, false, not, ◌||◌, Option, none, some, List,
  [], ◌∷◌, ◌++◌, reverse, ltb, leb, if◌then◌else◌, is_some, unwrap_or, map_some, take, Text, codes,
  is_empty, trim, contains, utf8_len, utf8_width, decimal, id_eq, text_key,
}
use trunk_scope.Common.Clock.{Time}
use trunk_scope.Domain.{Uuid, Call}
use trunk_scope.State.Settings.{AppSettings}
use trunk_scope.State.App.{AppState}
use trunk_scope.Start.Defaults.{Environment, effective_summary_url}
use trunk_scope.Providers.Http.{Reply, received, failed}
use trunk_scope.Api.Policy.{Status, unauthorized, bad_request, ok}
use trunk_scope.Api.Operations.{Printing, window}

-- `truncate(bytes)` of a text that is at least as long.
unfoldable pub truncate_bytes : ℕ → Text → Option Text
truncate_bytes zero text = some []
truncate_bytes (suc n) [] = some []
truncate_bytes (suc n) (c ∷ text) =
    let rest = truncate_bytes (suc n - utf8_width c) text in
    if ltb (suc n) (utf8_width c) then none else map_some (λ t. c ∷ t) rest

abbrev trimmed_transcript : Call → Text
trimmed_transcript call = trim (unwrap_or call.transcript [])

-- " · ", with the middle dot of U+00B7.
abbrev dot : Text
dot = 32 ∷ 183 ∷ 32 ∷ []

unfoldable pub context_line : Printing → Call → Text
unfolding trim
context_line p call =
    codes "["
    ++ p.rfc3339 call.started_at
    ++ codes "] "
    ++ call.system_name
    ++ dot
    ++ p.mhz call.frequency_hz
    ++ codes " MHz"
    ++ dot
    ++ call.talkgroup_label
    ++ codes ": "
    ++ trimmed_transcript call
    ++ 10 ∷ []

-- The loop, up to a limit in bytes.
unfoldable pub context_from : ℕ → Printing → List Call → Text → Option Text
unfolding context_line truncate_bytes trim utf8_len
context_from limit p [] context = some context
context_from limit p (call ∷ calls) context =
    let longer = context ++ context_line p call in
    let skipped = context_from limit p calls context in
    let added = context_from limit p calls longer in
    if is_empty (trimmed_transcript call)
    then skipped
    else if leb limit (utf8_len longer)
    then truncate_bytes limit longer
    else added

unfoldable pub transcript_context : Printing → Time → List Call → ℕ → Option Text
unfolding context_from
transcript_context p now calls hours = context_from 6000 p (window now hours calls) []

abbrev brief_prompt : AppSettings → ℕ → Text → Text
brief_prompt settings hours context =
    trim settings.summary_system_prompt
    ++ codes "\n\nWrite a concise factual radio-operations brief (maximum 120 words) for the last "
    ++ decimal hours
    ++ codes
        " hours. Group related activity, mention only details supported by the excerpts, call out notable incidents and locations, and say when there is not enough information. Do not invent names, addresses, or outcomes.\n\n"
    ++ context

abbrev brief_of : Option (Reply Text) → Option Text × Text
brief_of (some (received text)) =
    if is_empty (trim text)
    then (none, codes "provider-invalid-response")
    else (some text, codes "generated")
brief_of _ = (none, codes "provider-unavailable")

-- The brief and its status; none is a panic.
unfoldable pub generate_operations_ai_summary :
    (Text → Option (Reply Text))
    → Environment
    → Printing
    → Time
    → AppState
    → ℕ
    → List Call
    → Option (Option Text × Text)
unfolding effective_summary_url transcript_context trim
generate_operations_ai_summary ask env p now s hours calls =
    if not s.settings.ai_enabled
    then some (none, codes "disabled")
    else if not (is_some (effective_summary_url env s.settings))
    then some (none, codes "provider-unconfigured")
    else map_some
        (λ context.
          if is_empty context
          then (none, codes "no-transcripts")
          else brief_of (ask (brief_prompt s.settings hours context)))
        (transcript_context p now calls hours)

pub record OperationsAskResponse : Type 0 where
  pub answer : Text
  pub cited_call_ids : List Uuid
  pub status : Text

abbrev ask_line : Printing → Call → Text
ask_line p call =
    codes "- "
    ++ p.rfc3339 call.started_at
    ++ codes " "
    ++ call.talkgroup_label
    ++ codes " "
    ++ call.category
    ++ codes ": "
    ++ trimmed_transcript call
    ++ 10 ∷ []

-- The history and the calls that it cites, in order.
unfoldable pub history : Printing → List Call → Text → List Uuid → Text × List Uuid
unfolding trim utf8_len
history p [] context cited = (context, cited)
history p (call ∷ calls) context cited =
    let longer = context ++ ask_line p call in
    let skipped = history p calls context cited in
    let added = history p calls longer (cited ++ call.id ∷ []) in
    if is_empty (trimmed_transcript call)
    then skipped
    else if ltb 8000 (utf8_len longer)
    then (longer, cited ++ call.id ∷ [])
    else added

abbrev ask_prompt : Text → Text → Text
ask_prompt question context =
    codes
      "You are a radio operations assistant. Answer the operator question using only the call history below. Cite talkgroups and times when possible. If the history does not support an answer, say so.\n\nQuestion: "
    ++ question
    ++ codes "\n\nHistory:\n"
    ++ context

abbrev answer_of : Reply Text → Text
answer_of (received text) =
    if is_empty (trim text) then codes "Summary provider returned an invalid response." else text
answer_of (failed cause) = codes "Summary provider is unavailable."

abbrev answer_status : Text → Text
answer_status answer =
    if contains (codes "unavailable") answer || contains (codes "invalid") answer
    then codes "provider-unavailable"
    else codes "generated"

abbrev response : List Uuid → Text → Text → OperationsAskResponse
response cited status answer = record { answer = answer; cited_call_ids = cited; status = status }

abbrev asked : (Text → Reply Text) → Text → Text × List Uuid → OperationsAskResponse
asked ask question (context, cited) =
    let answer = answer_of (ask (ask_prompt question context)) in
    response cited (answer_status answer) answer

unfoldable pub operations_ask :
    (Text → Reply Text)
    → Environment
    → Printing
    → Time
    → Bool
    → Text
    → ℕ
    → AppState
    → Status × Option OperationsAskResponse
unfolding history trim contains effective_summary_url
operations_ask ask env p now false question hours s = (unauthorized, none)
operations_ask ask env p now true question hours s =
    let recent = window now (min 24 (max 1 hours)) s.calls in
    let found = history p (take 40 (reverse recent)) [] [] in
    if is_empty (trim question)
    then (bad_request, none)
    else if not s.settings.ai_enabled
    then (ok, some (response found.1 (codes "disabled") (codes "AI is disabled in settings.")))
    else if not (is_some (effective_summary_url env s.settings))
    then (
      ok,
      some (
          response found.1 (codes "provider-unconfigured")
            (codes "Summary provider URL is not configured.")),
    )
    else if is_empty found.0
    then (
      ok,
      some (
          response found.1 (codes "no-transcripts")
            (codes "No transcriptions are available in the requested window.")),
    )
    else (ok, some (asked ask (trim question) found))

-- A limit inside the middle dot: the cut fails for a text of plain letters.
cut_in_character : truncate_bytes 3 (codes "ab" ++ 183 ∷ codes "c") ≡ none
unfolding truncate_bytes
cut_in_character = refl
