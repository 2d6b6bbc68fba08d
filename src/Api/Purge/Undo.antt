-- ===== src/Api/Purge/Undo.antt =====
-- What purge_calls of apps/control-plane/src/api.rs keeps, and that undo_purge_calls brings the rest back.
use trunk_scope.Common.{
  ◌≤◌, ◌<◌, ◌≡◌, refl, sym, ap, ◌∙◌, inl, inr, Bool, true, false, not, Option, none, some, List, [],
  ◌∷◌, ◌++◌, map, arith, Bool-cases, and_then, length, retain, length-append, take_all, id_eq,
  text_key,
}
use mathlib.Core.Path.{subst}
use mathlib.Core.List.{Perm}
use mathlib.Core.List.Perm
use trunk_scope.Common.Clock.{Time}
use trunk_scope.Common.Sort.{
  sort_desc, IsSortedDesc, sort_desc-IsSortedDesc, sort_desc-perm, length-sort_desc,
}
use trunk_scope.Common.Paths.{Component}
use trunk_scope.Domain.{Uuid, Call, is_active}
use trunk_scope.State.App.{AppState, delete_calls, delete_row, execute, upsert_row}
use trunk_scope.Api.Audio.{resolve_audio_object_key}
use trunk_scope.Api.Purge.{
  remove_file, forget, remove_file, forget, PurgeCallsRequest, is_purged, remove_recordings,
  purge_calls, undo_purge_calls, upsert_rows, restore, start_of,
}

module _ {ℓ} {A : Type ℓ} where
  partition-perm :
      (p : A → Bool) (xs : List A) → Perm (retain (λ x. not (p x)) xs ++ retain p xs) xs
  partition-perm p [] = Perm.refl []
  partition-perm p (x ∷ xs) = elim (Bool-cases (p x)) [
    | inl e ↦ rw e (
        Perm.trans (middle x (retain (λ y. not (p y)) xs) (retain p xs))
          (Perm.cons x (partition-perm p xs)))
    | inr e ↦ rw e (Perm.cons x (partition-perm p xs))
  ]
    where
      middle : (y : A) (ys zs : List A) → Perm (ys ++ y ∷ zs) (y ∷ ys ++ zs)
      middle y [] zs = Perm.refl (y ∷ zs)
      middle y (w ∷ ys) zs = Perm.trans (Perm.cons w (middle y ys zs)) (Perm.swap y w (ys ++ zs))

delete_calls-calls : (ids : List Uuid) (s : AppState) → (delete_calls ids s).calls ≡ s.calls
unfolding delete_calls execute
delete_calls-calls [] s = refl
delete_calls-calls (id ∷ ids) s = delete_calls-calls ids (execute (delete_row id) s)

remove_recordings-calls :
    (root : List Component) (calls : List Call) (s : AppState)
    → (remove_recordings root calls s).calls ≡ s.calls
unfolding remove_recordings
remove_recordings-calls root [] s = refl
remove_recordings-calls root (call ∷ calls) s =
    remove_recordings-calls root calls
      (remove_file (and_then call.audio λ asset. resolve_audio_object_key root asset.object_key) s)
    ∙ file-calls (and_then call.audio λ asset. resolve_audio_object_key root asset.object_key)
  where
    file-calls : (path : Option (List Component)) → (remove_file path s).calls ≡ s.calls
    file-calls none = refl
    file-calls (some path) = refl

upsert_rows-calls : (calls : List Call) (s : AppState) → (upsert_rows calls s).calls ≡ s.calls
unfolding upsert_rows execute
upsert_rows-calls [] s = refl
upsert_rows-calls (call ∷ calls) s = upsert_rows-calls calls (execute (upsert_row call) s)

length-retain-append {ℓ} :
    {A : Type ℓ} (p : A → Bool) (xs : List A)
    → length (retain (λ x. not (p x)) xs ++ retain p xs) ≡ length xs
length-retain-append p [] = refl
length-retain-append p (x ∷ xs) = elim (Bool-cases (p x)) [
  | inl e ↦ rw e (
      omega (
        arith,
        length-append (retain (λ y. not (p y)) xs) (x ∷ retain p xs),
        length-append (retain (λ y. not (p y)) xs) (retain p xs),
        length-retain-append p xs,
      ))
  | inr e ↦ rw e (omega (arith, length-retain-append p xs))
]

forget-calls :
    (root : List Component) (request : PurgeCallsRequest) (removed : List Call) (s : AppState)
    → (forget root request removed s).calls ≡ s.calls
forget-calls root request [] s = refl
forget-calls root request (c ∷ cs) s = elim (Bool-cases request.delete_audio) [
  | inl e ↦ rw e (
      delete_calls-calls (map (λ (d : Call). d.id) (c ∷ cs)) (remove_recordings root (c ∷ cs) s)
      ∙ remove_recordings-calls root (c ∷ cs) s)
  | inr e ↦ rw e (delete_calls-calls (map (λ (d : Call). d.id) (c ∷ cs)) s)
]

forget-undo :
    (root : List Component) (request : PurgeCallsRequest) (removed : List Call) (s : AppState)
    → 0 < length removed
    → (forget root request removed s).purge_undo ≡ some removed
forget-undo root request [] s h = absurd (omega arith)
forget-undo root request (c ∷ cs) s h = refl

active-kept :
    (now : Time) (request : PurgeCallsRequest) (c : Call)
    → is_active c.state ≡ true
    → is_purged now request c ≡ false
unfolding is_purged
active-kept now request c e = rw (e, is_purged) refl

-- A purge keeps the active calls, in their order.
pub purge_calls-active :
    (allowed : Bool) (now : Time) (root : List Component) (request : PurgeCallsRequest)
    (s : AppState)
    → retain (λ c. is_active c.state) (purge_calls allowed now root request s).1.calls
      ≡ retain (λ c. is_active c.state) s.calls
unfolding purge_calls
purge_calls-active false now root request s = refl
purge_calls-active true now root request s =
    ap (retain (λ c. is_active c.state)) (
      forget-calls root request (retain (is_purged now request) s.calls)
        (record s { calls = retain (λ c. not (is_purged now request c)) s.calls }))
    ∙ kept s.calls
  where
    kept :
        (calls : List Call)
        → retain (λ c. is_active c.state) (retain (λ c. not (is_purged now request c)) calls)
          ≡ retain (λ c. is_active c.state) calls
    kept [] = refl
    kept (c ∷ calls) = ground (arith, kept calls, active-kept now request c)

undo_purge_calls-some :
    (s : AppState) (removed : List Call)
    → s.purge_undo ≡ some removed
    → (undo_purge_calls true s).1.calls ≡ restore removed s.calls
unfolding undo_purge_calls
undo_purge_calls-some s removed e =
    rw (e, undo_purge_calls)
      (upsert_rows-calls removed (record s { purge_undo = none; calls = restore removed s.calls }))

restore_all :
    (removed calls : List Call)
    → length (calls ++ removed) ≤ 5000
    → restore removed calls ≡ sort_desc start_of (calls ++ removed)
unfolding restore
restore_all removed calls h =
    take_all 5000 (sort_desc start_of (calls ++ removed))
      (omega (arith, length-sort_desc start_of (calls ++ removed)))

-- After a purge that removed a call, from a store of at most 5000 calls, an undo gives the calls
-- of before in some order, sorted with the latest first.
pub undo_purge_calls-purge :
    (now : Time) (root : List Component) (request : PurgeCallsRequest) (s : AppState)
    → length s.calls ≤ 5000
    → 0 < length (retain (is_purged now request) s.calls)
    → Perm (undo_purge_calls true (purge_calls true now root request s).1).1.calls s.calls
      × IsSortedDesc start_of
          (undo_purge_calls true (purge_calls true now root request s).1).1.calls
unfolding purge_calls
undo_purge_calls-purge now root request s bound some_removed =
    subst Restored
      (sym (
        undo_purge_calls-some (forget root request removed kept) removed
          (forget-undo root request removed kept some_removed)
        ∙ ap (restore removed) (forget-calls root request removed kept)))
      (subst Restored
        (sym (
          restore_all removed kept.calls
            (omega (arith, length-retain-append (is_purged now request) s.calls, bound))))
        (
          Perm.trans (sort_desc-perm start_of (kept.calls ++ removed))
              (partition-perm (is_purged now request) s.calls),
          sort_desc-IsSortedDesc start_of (kept.calls ++ removed),
        ))
  where
    Restored : List Call → Type 0
    Restored calls = Perm calls s.calls × IsSortedDesc start_of calls

    removed : List Call
    removed = retain (is_purged now request) s.calls

    kept : AppState
    kept = record s { calls = retain (λ c. not (is_purged now request c)) s.calls }
