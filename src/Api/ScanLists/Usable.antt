-- ===== src/Api/ScanLists/Usable.antt =====
-- The scan lists that apps/control-plane/src/api.rs stores can be scanned.
use trunk_scope.Common.{
  ◌≡◌, refl, sym, ◌∙◌, inl, inr, Bool, true, false, not, ◌||◌, List, [], ◌∷◌, arith, ◌==◌, ==_iff,
  Bool-cases, Option-cases, length, any, retain, update_first, All, length-retain-le, All-append,
  All-retain, Text, codes, is_empty, trim, id_eq, text_key,
}
use mathlib.Core.Path.{subst}
use trunk_scope.Common.Clock.{Time}
use trunk_scope.Domain.{Uuid}
use trunk_scope.State.Profiles.{ScanList}
use trunk_scope.State.App.{
  AppState, Command, persist, write_document, delete_scan_list_row, scan_lists_document,
}
use trunk_scope.State.Calls.{audit}
use trunk_scope.Api.ScanLists.{
  is_unusable, list_has_id, put_scan_list, with_id, save_scan_list, delete_scan_list,
}

-- A list with a name, no channel of which is unusable.
abbrev pub IsUsable : ScanList → Type 0
IsUsable list = (is_empty list.name ≡ false) × (any is_unusable list.channels ≡ false)

put_scan_list-IsUsable :
    (list : ScanList) (lists : List ScanList)
    → IsUsable list
    → All IsUsable lists
    → All IsUsable (put_scan_list list lists)
unfolding put_scan_list
put_scan_list-IsUsable list lists h k = elim (Bool-cases (any (list_has_id list.id) lists)) [
  | inl e ↦ rw e (overwritten lists k)
  | inr e ↦ rw e (All-append IsUsable lists (list ∷ []) k (h, tt))
]
  where
    overwritten :
        (ls : List ScanList)
        → All IsUsable ls
        → All IsUsable (update_first (list_has_id list.id) (λ _. list) ls)
    overwritten [] k = tt
    overwritten (l ∷ ls) (u, k) = elim (Bool-cases (l.id == list.id)) [
      | inl e ↦ rw e (h, k)
      | inr e ↦ rw e (u, overwritten ls k)
    ]

persist-scan_lists : (c : Command) (s : AppState) → (persist c s).scan_lists ≡ s.scan_lists
unfolding persist
persist-scan_lists c s = elim (Option-cases s.persistence) [
  | inl e ↦ rw (e, persist) refl
  | inr (sent, e) ↦ rw (e, persist) refl
]

audit-scan_lists :
    (now : Time) (action resource_type resource_id : Text) (s : AppState)
    → (audit now action resource_type resource_id s).scan_lists ≡ s.scan_lists
unfolding audit write_document
audit-scan_lists now action resource_type resource_id s = persist-scan_lists _ _

-- The state that a delete writes.
deleted : Time → Text → Uuid → List ScanList → AppState → AppState
deleted now shown id lists s =
    audit now (codes "scan-list.delete") (codes "scan-list") shown (record s { scan_lists = lists })

deleted-scan_lists :
    (now : Time) (shown : Text) (id : Uuid) (lists : List ScanList) (s : AppState)
    → (persist
        (delete_scan_list_row id)
        (write_document (scan_lists_document lists) (deleted now shown id lists s))).scan_lists
      ≡ lists
unfolding write_document deleted
deleted-scan_lists now shown id lists s =
    persist-scan_lists (delete_scan_list_row id)
      (write_document (scan_lists_document lists) (deleted now shown id lists s))
    ∙ audit-scan_lists now (codes "scan-list.delete") (codes "scan-list") shown
        (record s { scan_lists = lists })

-- Whatever list is sent to be saved, and whoever sends it, all stored lists are usable afterwards
-- if they were before.
pub save_scan_list-IsUsable :
    (allowed : Bool) (fresh : Uuid) (list : ScanList) (s : AppState)
    → All IsUsable s.scan_lists
    → All IsUsable (save_scan_list allowed fresh list s).1.scan_lists
unfolding save_scan_list write_document
save_scan_list-IsUsable false fresh list s h = h
save_scan_list-IsUsable true fresh list s h =
    elim (Bool-cases (is_empty (trim list.name) || any is_unusable list.channels)) [
      | inl e ↦ rw e h
      | inr e ↦ rw e (
          subst (All IsUsable) (sym (persist-scan_lists _ _))
            (put_scan_list-IsUsable (with_id fresh list) s.scan_lists (parts e) h))
    ]
  where
    both : (a b : Bool) → (a || b) ≡ false → (a ≡ false) × (b ≡ false)
    both a b e = ground arith

    parts :
        (is_empty (trim list.name) || any is_unusable list.channels) ≡ false
        → IsUsable (with_id fresh list)
    parts e = both (is_empty (trim list.name)) (any is_unusable list.channels) e

-- A delete keeps the stored lists usable and, if it is let through, leaves no list of the id.
pub delete_scan_list-gone :
    (now : Time) (shown : Text) (id : Uuid) (s : AppState)
    → All IsUsable s.scan_lists
    → All IsUsable (delete_scan_list true now shown id s).1.scan_lists
      × (any (list_has_id id) (delete_scan_list true now shown id s).1.scan_lists ≡ false)
unfolding delete_scan_list deleted
delete_scan_list-gone now shown id s h =
    elim (Bool-cases
      (length (retain (λ (l : ScanList). not (l.id == id)) s.scan_lists) == length s.scan_lists)) [
        | inl e ↦ rw e (h, absent s.scan_lists ((==_iff _ _).0 e))
        | inr e ↦ rw e (
            subst (λ ls. All IsUsable ls × (any (list_has_id id) ls ≡ false))
              (sym (
                deleted-scan_lists now shown id
                  (retain (λ (l : ScanList). not (l.id == id)) s.scan_lists) s))
              (
                All-retain IsUsable (λ (l : ScanList). not (l.id == id)) s.scan_lists h,
                gone s.scan_lists,
              ))
      ]
  where
    gone :
        (ls : List ScanList)
        → any (list_has_id id) (retain (λ (l : ScanList). not (l.id == id)) ls) ≡ false
    gone [] = refl
    gone (l ∷ ls) = ground (arith, gone ls)

    absent :
        (ls : List ScanList)
        → length (retain (λ (l : ScanList). not (l.id == id)) ls) ≡ length ls
        → any (list_has_id id) ls ≡ false
    absent [] e = refl
    absent (l ∷ ls) e =
        ground (arith, absent ls, length-retain-le (λ (m : ScanList). not (m.id == id)) ls)
