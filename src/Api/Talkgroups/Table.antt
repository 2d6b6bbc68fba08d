-- ===== src/Api/Talkgroups/Table.antt =====
-- The talkgroup handlers of apps/control-plane/src/api.rs as operations on a table by id.
use trunk_scope.Common.{
  ◌≡◌, refl, ap, ◌∙◌, inl, inr, Bool, true, not, ◌&&◌, ◌||◌, Option, none, some, List, [], ◌∷◌,
  arith, ◌==◌, if◌then◌else◌, ==_iff, Bool-cases, Option-cases, length, find, retain,
  length-retain-le, Text, codes, is_empty, trim, id_eq, text_key,
}
use mathlib.Core.Path.{fun_ext}
use trunk_scope.Common.Clock.{Time}
use trunk_scope.Domain.{Uuid, Talkgroup}
use trunk_scope.State.App.{AppState, Command, persist, write_document}
use trunk_scope.State.Calls.{audit}
use trunk_scope.Api.Talkgroups.{
  with_id, put_talkgroup, save_talkgroup, update_talkgroup, delete_talkgroup, announced,
  persist_talkgroups, regenerate_talkgroup_csv, write_decoder_config,
}

abbrev pub Table : Type 0
Table = Uuid → Option Talkgroup

-- The table that a state stands for.
abbrev pub view : AppState → Table
view s id = find (λ (t : Talkgroup). t.id == id) s.talkgroups

abbrev pub set_entry : Uuid → Option Talkgroup → Table → Table
set_entry id entry table j = if id == j then entry else table j

-- A request that is let through, with its moment and the id drawn for it.
pub data Request : Type 0 where
  save : Time → Uuid → Talkgroup → Request
  update : Time → Uuid → Uuid → Talkgroup → Request
  delete : Time → Uuid → Request

abbrev is_valid : Talkgroup → Bool
is_valid item = not (item.decimal_id == 0) && not (is_empty (trim item.alpha_tag))

abbrev set_valid : Talkgroup → Table → Table
set_valid item table = if is_valid item then set_entry item.id (some item) table else table

-- What a request means to the table.
abbrev pub meaning : Request → Table → Table
meaning (save now fresh item) table = set_valid (with_id fresh item) table
meaning (update now fresh id item) table = set_valid (with_id fresh (record item { id = id })) table
meaning (delete now id) table = set_entry id none table

abbrev pub means : List Request → Table → Table
means [] table = table
means (r ∷ rs) table = means rs (meaning r table)

module _ (show : Uuid → Text) where
  -- What the handlers do with it.
  unfoldable pub handle : Request → AppState → AppState
  unfolding save_talkgroup update_talkgroup delete_talkgroup
  handle (save now fresh item) s = (save_talkgroup show true now fresh item s).1
  handle (update now fresh id item) s = (update_talkgroup show true now fresh id item s).1
  handle (delete now id) s = (delete_talkgroup show true now id s).1

  unfoldable pub handle_all : List Request → AppState → AppState
  unfolding handle
  handle_all [] s = s
  handle_all (r ∷ rs) s = handle_all rs (handle r s)

  find-retain :
      (id j : Uuid) (ts : List Talkgroup)
      → (find (λ (t : Talkgroup). t.id == j) (retain (λ (t : Talkgroup). not (t.id == id)) ts)
          ≡ (if id == j then none else find (λ (t : Talkgroup). t.id == j) ts))
  find-retain id j [] = ground arith
  find-retain id j (t ∷ ts) = ground (arith, find-retain id j ts)

  find-put_talkgroup :
      (item : Talkgroup) (j : Uuid) (ts : List Talkgroup)
      → (find (λ (t : Talkgroup). t.id == j) (put_talkgroup item ts)
          ≡ (if item.id == j then some item else find (λ (t : Talkgroup). t.id == j) ts))
  find-put_talkgroup item j [] = refl
  find-put_talkgroup item j (t ∷ ts) = ground (arith, find-put_talkgroup item j ts)

  persist-talkgroups : (c : Command) (s : AppState) → (persist c s).talkgroups ≡ s.talkgroups
  unfolding persist
  persist-talkgroups c s = elim (Option-cases s.persistence) [
    | inl e ↦ rw (e, persist) refl
    | inr (sent, e) ↦ rw (e, persist) refl
  ]

  announced-talkgroups :
      (now : Time) (action shown : Text) (s : AppState)
      → (announced now action shown s).talkgroups ≡ s.talkgroups
  unfolding audit write_decoder_config regenerate_talkgroup_csv persist_talkgroups write_document
  announced-talkgroups now action shown s = persist-talkgroups _ _

  view-announced :
      (now : Time) (action shown : Text) (items : List Talkgroup) (s : AppState) (j : Uuid)
      → (view (announced now action shown (record s { talkgroups = items })) j
          ≡ find (λ (t : Talkgroup). t.id == j) items)
  view-announced now action shown items s j =
      ap (find (λ (t : Talkgroup). t.id == j))
        (announced-talkgroups now action shown (record s { talkgroups = items }))

  view-save_talkgroup :
      (now : Time) (fresh : Uuid) (item : Talkgroup) (s : AppState) (j : Uuid)
      → (view (save_talkgroup show true now fresh item s).1 j
          ≡ set_valid (with_id fresh item) (view s) j)
  unfolding save_talkgroup
  view-save_talkgroup now fresh item s j =
      elim (Bool-cases (item.decimal_id == 0 || is_empty (trim item.alpha_tag))) [
        | inl e ↦ ground (arith, e)
        | inr e ↦ ground (
          arith,
          e,
          view-announced now (codes "talkgroup.saved") (show (with_id fresh item).id)
              (put_talkgroup (with_id fresh item) s.talkgroups) s j,
          find-put_talkgroup (with_id fresh item) j s.talkgroups,
        )
      ]

  retain-same :
      (id : Uuid) (j : Uuid) (ts : List Talkgroup)
      → length (retain (λ (t : Talkgroup). not (t.id == id)) ts) ≡ length ts
      → (find (λ (t : Talkgroup). t.id == j) ts
          ≡ (if id == j then none else find (λ (t : Talkgroup). t.id == j) ts))
  retain-same id j [] e = ground arith
  retain-same id j (t ∷ ts) e =
      ground (arith, retain-same id j ts, length-retain-le (λ (u : Talkgroup). not (u.id == id)) ts)

  view-delete_talkgroup :
      (now : Time) (id : Uuid) (s : AppState) (j : Uuid)
      → view (delete_talkgroup show true now id s).1 j ≡ set_entry id none (view s) j
  unfolding delete_talkgroup
  view-delete_talkgroup now id s j =
      elim (Bool-cases (
        length (retain (λ (t : Talkgroup). not (t.id == id)) s.talkgroups)
        == length s.talkgroups)) [
          | inl e ↦ rw e (retain-same id j s.talkgroups ((==_iff _ _).0 e))
          | inr e ↦ rw e (
              view-announced now (codes "talkgroup.deleted") (show id)
                (retain (λ (t : Talkgroup). not (t.id == id)) s.talkgroups) s j
              ∙ find-retain id j s.talkgroups)
        ]

  view-handle : (r : Request) (s : AppState) (j : Uuid) → view (handle r s) j ≡ meaning r (view s) j
  unfolding handle update_talkgroup
  view-handle (save now fresh item) s j = view-save_talkgroup now fresh item s j
  view-handle (update now fresh id item) s j =
      view-save_talkgroup now fresh (record item { id = id }) s j
  view-handle (delete now id) s j = view-delete_talkgroup now id s j

  -- The talkgroup handlers implement a table by id: whatever requests come, each id finds
  -- afterwards what the requests mean to the table that the state stood for.
  pub handle_all-means :
      (rs : List Request) (s : AppState) → view (handle_all rs s) ≡ means rs (view s)
  unfolding handle_all
  handle_all-means [] s = refl
  handle_all-means (r ∷ rs) s =
      handle_all-means rs (handle r s) ∙ ap (means rs) (fun_ext (view-handle r s))
