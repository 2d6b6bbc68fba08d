-- ===== src/Imports/Talkgroups/Keys.antt =====
-- A talkgroup file of apps/control-plane/src/imports.rs merged into a catalogue.
use trunk_scope.Common.{
  ℕ, ◌+◌, ◌≡◌, refl, ◌∙◌, inl, inr, true, false, not, Option, none, some, List, [], ◌∷◌, ◌++◌,
  arith, ◌==◌, Bool-cases, any, retain, update_first, Text, id_eq, text_key,
}
use mathlib.Core.Path.{subst}
use mathlib.Core.Option.{some-injective}
use trunk_scope.Domain.{Uuid, Talkgroup}
use trunk_scope.Imports.{filled_lines}
use trunk_scope.Imports.Talkgroups.{
  TalkgroupImportResult, TalkgroupColumns, detect_talkgroup_columns, Row, skipped, nameless, entry,
  read_row, same_key, rewritten, new_talkgroup, put_row, read_rows, parse_talkgroup_csv, from_lines,
}

-- No two talkgroups have the same system and number.
abbrev pub IsDistinct : List Talkgroup → Type 0
IsDistinct [] = Unit
IsDistinct (t ∷ ts) = (any (same_key t.system_id t.decimal_id) ts ≡ false) × IsDistinct ts

abbrev pub others : Uuid → List Talkgroup → List Talkgroup
others system_id ts = retain (λ (t : Talkgroup). not (t.system_id == system_id)) ts

module _ (system_id : Uuid) (decimal_id : ℕ) (alpha_tag description category : Text) where
  any-put :
      (a : Uuid) (b : ℕ) (ts : List Talkgroup)
      → (any (same_key a b) (
            update_first
              (same_key system_id decimal_id)
              (rewritten alpha_tag description category)
              ts)
          ≡ any (same_key a b) ts)
  any-put a b [] = refl
  any-put a b (t ∷ ts) = ground (arith, any-put a b ts)

  update_first-IsDistinct :
      (ts : List Talkgroup)
      → IsDistinct ts
      → IsDistinct (
          update_first
            (same_key system_id decimal_id)
            (rewritten alpha_tag description category)
            ts)
  update_first-IsDistinct [] h = tt
  update_first-IsDistinct (t ∷ ts) (fresh, h) =
      elim (Bool-cases (same_key system_id decimal_id t)) [
        | inl e ↦ rw e (fresh, h)
        | inr e ↦ rw e (any-put t.system_id t.decimal_id ts ∙ fresh, update_first-IsDistinct ts h)
      ]

  append-IsDistinct :
      (id : Uuid) (ts : List Talkgroup)
      → any (same_key system_id decimal_id) ts ≡ false
      → IsDistinct ts
      → IsDistinct (ts ++ new_talkgroup id system_id decimal_id alpha_tag description category ∷ [])
  append-IsDistinct id [] e h = (refl, tt)
  append-IsDistinct id (t ∷ ts) e (fresh, h) =
      (last ts fresh, append-IsDistinct id ts (ground arith) h)
    where
      last :
          (us : List Talkgroup)
          → any (same_key t.system_id t.decimal_id) us ≡ false
          → (any
                (same_key t.system_id t.decimal_id)
                (us ++ new_talkgroup id system_id decimal_id alpha_tag description category ∷ [])
              ≡ false)
      last [] k = ground (arith, e)
      last (u ∷ us) k = ground (arith, last us)

  put_row-IsDistinct :
      (id : Uuid) (ts : List Talkgroup)
      → IsDistinct ts
      → IsDistinct (put_row id system_id decimal_id alpha_tag description category ts)
  unfolding put_row
  put_row-IsDistinct id ts h = elim (Bool-cases (any (same_key system_id decimal_id) ts)) [
    | inl e ↦ rw e (update_first-IsDistinct ts h)
    | inr e ↦ rw e (append-IsDistinct id ts e h)
  ]

  others-update_first :
      (ts : List Talkgroup)
      → (others system_id (
            update_first
              (same_key system_id decimal_id)
              (rewritten alpha_tag description category)
              ts)
          ≡ others system_id ts)
  others-update_first [] = refl
  others-update_first (t ∷ ts) = ground (arith, others-update_first ts)

  others-append :
      (id : Uuid) (ts : List Talkgroup)
      → (others system_id
            (ts ++ new_talkgroup id system_id decimal_id alpha_tag description category ∷ [])
          ≡ others system_id ts)
  others-append id [] = ground arith
  others-append id (t ∷ ts) = ground (arith, others-append id ts)

  others-put_row :
      (id : Uuid) (ts : List Talkgroup)
      → (others system_id (put_row id system_id decimal_id alpha_tag description category ts)
          ≡ others system_id ts)
  unfolding put_row
  others-put_row id ts = ground (arith, others-update_first ts, others-append id ts)

-- The keys are distinct afterwards, and what other systems have is as before.
abbrev pub Merged : Uuid → List Talkgroup → List Talkgroup → Type 0
Merged system_id before after =
    IsDistinct after × (others system_id after ≡ others system_id before)

module _ (fresh : ℕ → Uuid) (system_id : Uuid) (columns : TalkgroupColumns) where
  read_rows-Merged :
      (before : TalkgroupImportResult) (lines : List Text) (after : TalkgroupImportResult)
      → IsDistinct before.imported
      → read_rows fresh system_id columns before lines ≡ some after
      → Merged system_id before.imported after.imported
  unfolding read_rows
  read_rows-Merged before [] after h e =
      subst (λ (r : TalkgroupImportResult). Merged system_id before.imported r.imported)
        (some-injective _ _ e) (h, refl)
  read_rows-Merged before (line ∷ lines) after h e =
      by_row (λ b d k. read_rows-Merged b lines after d k) (read_row columns line) refl
    where
      by_row :
          ((b : TalkgroupImportResult)
            → IsDistinct b.imported
            → read_rows fresh system_id columns b lines ≡ some after
            → Merged system_id b.imported after.imported)
          → (row : Row) → read_row columns line ≡ row
          → Merged system_id before.imported after.imported
      by_row rest skipped k = rest before h (ground (arith, e, k))
      by_row rest nameless k = absurd (ground (arith, e, k))
      by_row rest (entry decimal_id alpha_tag description category) k =
          let put =
            put_row (fresh before.rows) system_id decimal_id alpha_tag description category
              before.imported in
          let kept =
            rest (record { imported = put; rows = before.rows + 1 })
              (put_row-IsDistinct system_id decimal_id alpha_tag description category
                (fresh before.rows) before.imported h)
              (ground (arith, e, k)) in
          (
            kept.0,
            kept.1
                ∙ others-put_row system_id decimal_id alpha_tag description category
                    (fresh before.rows) before.imported,
          )

-- A file that is merged into a catalogue without two talkgroups of one system and number leaves it
-- so, and leaves the talkgroups of other systems as they were and in their order.
pub parse_talkgroup_csv-Merged :
    (fresh : ℕ → Uuid) (csv : Text) (system_id : Uuid) (existing : List Talkgroup)
    (result : TalkgroupImportResult)
    → IsDistinct existing
    → parse_talkgroup_csv fresh csv (record { system_id = system_id; merge = true }) existing
      ≡ some result
    → Merged system_id existing result.imported
unfolding parse_talkgroup_csv
parse_talkgroup_csv-Merged fresh csv system_id existing result h e =
    by_lines (filled_lines csv) refl
  where
    by_columns :
        (header : Text) (lines : List Text)
        → from_lines fresh
            (record { system_id = system_id; merge = true })
            existing
            (header ∷ lines)
          ≡ some result
        → (columns : Option TalkgroupColumns) → detect_talkgroup_columns header ≡ columns
        → Merged system_id existing result.imported
    by_columns header lines e none k = absurd (ground (arith, e, k))
    by_columns header lines e (some columns) k =
        read_rows-Merged fresh system_id columns (record { imported = existing; rows = 0 }) lines
          result h (ground (arith, e, k))

    by_lines : (ls : List Text) → filled_lines csv ≡ ls → Merged system_id existing result.imported
    by_lines [] k = absurd (ground (arith, e, k))
    by_lines (header ∷ lines) k =
        by_columns header lines (ground (arith, e, k)) (detect_talkgroup_columns header) refl
