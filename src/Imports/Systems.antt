-- ===== src/Imports/Systems.antt =====
-- The systems file of apps/control-plane/src/imports.rs.
use trunk_scope.Common.{
  ℕ, suc, true, not, Option, none, some, List, [], ◌∷◌, ◌++◌, unwrap_or, or_else, filter_some,
  map_some, and_then, length, get_elem?, Text, codes, is_empty, trim, trim_by, to_ascii_lowercase,
  parse_uint, Map, get, insert, id_eq, text_key,
}
use trunk_scope.Domain.{Uuid}
use trunk_scope.State.Profiles.{SystemProfile}
use trunk_scope.Imports.{split_csv_line, filled_lines, unquoted}
use trunk_scope.Imports.Sites.{parse_nac}

-- The header's names with their places; of two alike the last counts.
unfoldable pub columns_from : ℕ → Map Text ℕ → List Text → Map Text ℕ
unfolding insert to_ascii_lowercase
columns_from i columns [] = columns
columns_from i columns (field ∷ fields) =
    columns_from (suc i) (insert (to_ascii_lowercase field) i columns) fields

abbrev find_map {ℓ κ} : {A : Type ℓ} {B : Type κ} → (A → Option B) → List A → Option B
find_map f [] = none
find_map f (x ∷ xs) = or_else (f x) (find_map f xs)

unfoldable pub field_at : List Text → Map Text ℕ → List Text → Option Text
unfolding get trim trim_by
field_at fields columns keys =
    filter_some (λ value. not (is_empty value))
      (map_some unquoted
        (and_then (find_map (λ key. get key columns) keys) (λ index. get_elem? fields index)))

abbrev system_of : Uuid → List Text → Map Text ℕ → Text → SystemProfile
system_of id fields columns name = record {
  id = id;
  name = name;
  enabled = true;
  protocol =
      unwrap_or (field_at fields columns (codes "protocol" ∷ codes "type" ∷ [])) (codes "p25");
  control_channel_hz =
      and_then (field_at fields columns (codes "controlchannelhz" ∷ codes "control channel" ∷ []))
        (parse_uint 18446744073709551616);
  control_channels_hz = [];
  nac = and_then (field_at fields columns (codes "nac" ∷ [])) parse_nac;
  frequency_hz =
      and_then (field_at fields columns (codes "frequencyhz" ∷ codes "frequency" ∷ []))
        (parse_uint 18446744073709551616);
  bandwidth_hz = none;
  modulation = none;
  squelch_db = none;
  tone = none;
  deviation_hz = none;
  step_hz = none;
  dwell_ms = none;
  sites = [];
  receiver_id = none;
  decode_mdc = none;
  monitor_encrypted = none;
  color_code = none;
  time_slot = none;
  contact_id = none;
  counties = [];
  townships = [];
  municipalities = [];
  local_context = none;
}

-- One turn of the loop; a row without a name is passed over.
unfoldable pub read_system : Uuid → Map Text ℕ → Text → Option SystemProfile
unfolding split_csv_line field_at parse_nac parse_uint
read_system id columns line =
    let fields = split_csv_line line in
    map_some (system_of id fields columns)
      (field_at fields columns (codes "name" ∷ codes "system" ∷ codes "description" ∷ []))

-- `fresh n` is the id drawn after `n` others.
unfoldable pub read_systems :
    (ℕ → Uuid) → Map Text ℕ → List SystemProfile → List Text → List SystemProfile
unfolding read_system
read_systems fresh columns done [] = done
read_systems fresh columns done (line ∷ lines) =
    elim (read_system (fresh (length done)) columns line) [
      | none ↦ read_systems fresh columns done lines
      | some system ↦ read_systems fresh columns (done ++ system ∷ []) lines
    ]

abbrev systems_of : (ℕ → Uuid) → List Text → List SystemProfile
systems_of fresh [] = []
systems_of fresh (header ∷ lines) =
    read_systems fresh (columns_from 0 [] (split_csv_line header)) [] lines

unfoldable pub parse_systems_csv : (ℕ → Uuid) → Text → List SystemProfile
unfolding read_systems columns_from
parse_systems_csv fresh csv = systems_of fresh (filled_lines csv)
