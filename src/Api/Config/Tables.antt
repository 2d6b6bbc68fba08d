-- ===== src/Api/Config/Tables.antt =====
-- The tables that apps/control-plane/src/api.rs writes for the decoder: a system's talkgroups
-- (talkgroups_file_for_system) and the analog channels (write_analog_channel_file). Printing an
-- `f32` and an identifier, and whether a file could be written, are parameters.
use trunk_scope.Common.{
  ℕ, suc, ◌+◌, Bool, not, ◌||◌, Option, none, some, List, [], ◌∷◌, ◌++◌, map, ◌==◌, if◌then◌else◌,
  unwrap_or, filter_some, map_some, retain, Text, codes, text_eq, is_empty, trim,
  to_ascii_uppercase, join_with, decimal, id_eq, text_key,
}
use trunk_scope.Common.Float.{F32}
use trunk_scope.Common.Int.{ℤ, pos, negsuc, max_int}
use trunk_scope.Domain.{Uuid, Talkgroup}
use trunk_scope.State.Profiles.{SystemProfile}
use trunk_scope.Api.Talkgroups.{hex_3}

abbrev int_text : ℤ → Text
int_text (pos n) = decimal n
int_text (negsuc n) = b'-' ∷ decimal (suc n)

-- `value.replace('"', "'")`, in quotation marks.
unfoldable pub quoted : Text → Text
quoted value = b'"' ∷ (map (λ c. if c == b'"' then 39 else c) value ++ b'"' ∷ [])

unfoldable pub table_mode : Option Text → Text
unfolding trim to_ascii_uppercase
table_mode mode =
    unwrap_or
      (map_some to_ascii_uppercase
        (filter_some (λ value. not (is_empty value)) (map_some trim mode)))
      (codes "D")

-- How many recorders a talkgroup needs, or -1 for one that is not recorded.
abbrev pub table_priority : Talkgroup → ℤ
table_priority talkgroup =
    if talkgroup.record_calls then max_int talkgroup.priority (pos 1) else negsuc 0

unfoldable pub table_line : Talkgroup → Text
unfolding quoted table_mode
table_line talkgroup = join_with (codes ",") (
    decimal talkgroup.decimal_id
    ∷ hex_3 talkgroup.decimal_id
    ∷ table_mode talkgroup.mode
    ∷ quoted talkgroup.alpha_tag
    ∷ quoted talkgroup.description
    ∷ quoted talkgroup.category
    ∷ quoted talkgroup.category
    ∷ int_text (table_priority talkgroup)
    ∷ [])

abbrev pub text_lines : List Text → Text
text_lines [] = []
text_lines (line ∷ lines) = line ++ 10 ∷ text_lines lines

abbrev pub of_system : Uuid → List Talkgroup → List Talkgroup
of_system id = retain λ (talkgroup : Talkgroup). talkgroup.system_id == id

unfoldable pub talkgroup_table : List Talkgroup → Text
unfolding table_line
talkgroup_table scoped =
    text_lines
      (codes "Decimal,Hex,Mode,Alpha Tag,Description,Tag,Category,Priority" ∷ map table_line scoped)

-- The file that the configuration names for a system, and what is written to it.
unfoldable pub talkgroups_file_for_system :
    (Uuid → Text) → (Uuid → Bool) → List Talkgroup → Uuid → Text → Text × Option Text
unfolding talkgroup_table
talkgroups_file_for_system show written talkgroups id fallback =
    let scoped = of_system id talkgroups in
    if is_empty scoped then (fallback, none) else (
      if written id
          then codes "/var/lib/trunkscope/calls/talkgroups-" ++ show id ++ codes ".csv"
          else fallback,
      some (talkgroup_table scoped),
    )

-- `name.replace([',', '\n', '\r'], " ")`
unfoldable pub channel_label : Text → Text
channel_label = map λ c. if c == b',' || c == 10 || c == 13 then b' ' else c

abbrev pub is_analog_channel : SystemProfile → Bool
is_analog_channel system = text_eq system.protocol (codes "analog-fm")

unfoldable pub channel_line : (F32 → Text) → ℕ → SystemProfile → ℕ → Text
unfolding channel_label
channel_line print_f32 index system frequency = join_with (codes ",") (
    decimal (900000 + index)
    ∷ decimal frequency
    ∷ unwrap_or system.tone []
    ∷ channel_label system.name
    ∷ channel_label system.name
    ∷ codes "Analog"
    ∷ codes "true"
    ∷ codes "true"
    ∷ print_f32 (unwrap_or system.squelch_db 0xc28c_0000)
    ∷ [])

abbrev line_if : Option Text → List Text → List Text
line_if none lines = lines
line_if (some line) lines = line ∷ lines

unfoldable pub channel_lines : (F32 → Text) → ℕ → List SystemProfile → List Text
unfolding channel_line
channel_lines print_f32 index [] = []
channel_lines print_f32 index (system ∷ systems) =
    line_if (map_some (channel_line print_f32 index system) system.frequency_hz)
      (channel_lines print_f32 (suc index) systems)

unfoldable pub analog_channel_file : (F32 → Text) → List SystemProfile → Text
unfolding channel_lines text_eq
analog_channel_file print_f32 systems = text_lines (
    codes "TG Number,Frequency,Tone,Alpha Tag,Description,Category,Enable,Signal Detector,Squelch"
    ∷ channel_lines print_f32 0 (retain is_analog_channel systems))
