-- ===== src/Scanner.antt =====
-- apps/control-plane/src/scanner.rs: the squelch, the choice of the next channel, and one turn of
-- the scan loop. The retune file is a state of its own, and a turn gives the milliseconds it sleeps.
pub mod Order
use trunk_scope.Common.{
  ℕ, zero, suc, ◌+◌, ◌%◌, Bool, true, false, not, ◌&&◌, Option, none, some, List, [], ◌∷◌, arith,
  ◌==◌, if◌then◌else◌, is_some_and, is_some, length, get_elem?, head?, find, Text, trim,
  eq_ignore_ascii_case, decimal, id_eq, text_key, Eq,
}
use trunk_scope.Common.Float.{F32, lt32, max32, f32_neg_120}
use trunk_scope.State.Profiles.{ScanChannel, ScanList}
use trunk_scope.State.App.{AppState}

abbrev same_tone : Option Text → Option Text → Bool
same_tone (some expected) (some actual) = eq_ignore_ascii_case (trim expected) (trim actual)
same_tone _ _ = false

unfoldable pub opens_squelch : F32 → F32 → Option Text → ScanChannel → Bool
opens_squelch signal threshold detected channel =
    if lt32 signal (max32 threshold channel.squelch_db)
    then false
    else if not channel.tone_required
    then true
    else same_tone channel.tone detected

-- The indices `from`, `from + 1`, ..., `count` of them, the range of the iterator.
abbrev pub indices : ℕ → ℕ → List ℕ
indices from zero = []
indices from (suc count) = from ∷ indices (suc from) count

-- The iterator's chain, over the offsets. An index out of range, which panics, is never made.
unfoldable pub first_unlocked : List ScanChannel → ℕ → List ℕ → Option (ℕ × ScanChannel)
first_unlocked channels start [] = none
first_unlocked channels start (offset ∷ offsets) =
    let index = (start + offset) % length channels in
    let rest = first_unlocked channels start offsets in
    elim (get_elem? channels index) [
      | none ↦ none
      | some channel ↦ if channel.locked_out then rest else some (index, channel)
    ]

abbrev pub start_after : Option ℕ → ℕ → ℕ
start_after none count = 0
start_after (some index) count = (index + 1) % count

unfoldable pub next_channel : ScanList → Option ℕ → Option (ℕ × ScanChannel)
unfolding first_unlocked
next_channel list current =
    let count = length list.channels in
    if count == 0
    then none
    else first_unlocked list.channels (start_after current count) (indices 0 count)

-- What the loop keeps from turn to turn, and the retune file's content.
pub record Scan : Type 0 where
  pub current : Option ℕ
  pub retune_file : Option Text

abbrev active_receiver : AppState → ScanChannel → Bool
active_receiver s channel =
    is_some_and (head? s.receivers)
      λ receiver. opens_squelch receiver.health.signal_dbfs f32_neg_120 none channel

abbrev dwell : ScanList → ScanChannel → ℕ → AppState → Scan → Scan × AppState × ℕ
dwell list channel index s scan =
    if list.pause_on_activity && (active_receiver s channel && not channel.tone_required)
    then (record scan { current = some index }, s, list.resume_after_ms)
    else if is_some (head? s.receivers)
    then (
      record scan { current = some index; retune_file = some (decimal channel.frequency_hz) },
      s,
      channel.dwell_ms,
    )
    else (record scan { current = some index }, s, channel.dwell_ms)

unfoldable pub scan_turn : Scan → AppState → Scan × AppState × ℕ
unfolding next_channel
scan_turn scan s = elim s.active_scan_list [
  | none ↦ (record scan { current = none; retune_file = none }, s, 250)
  | some list_id ↦ elim (find (λ (l : ScanList). l.id == list_id) s.scan_lists) [
    | none ↦ (scan, record s { active_scan_list = none }, 0)
    | some list ↦ elim (next_channel list scan.current) [
      | none ↦ (scan, record s { active_scan_list = none }, 0)
      | some (index, channel) ↦ dwell list channel index s scan
    ]
  ]
]
