-- ===== src/Api/Sites/Merged.antt =====
-- What import_sites of apps/control-plane/src/api.rs leaves of a system's sites.
use trunk_scope.Common.{
  ℕ, ◌≡◌, refl, ap, ◌∙◌, inl, inr, Bool, true, false, Option, some, List, [], ◌∷◌, ◌++◌, arith,
  ◌==◌, if◌then◌else◌, ==_refl, Bool-cases, unwrap_or, map_some, any, find, update_first, Text,
  text_eq, text_eq_iff, id_eq, text_key,
}
use trunk_scope.Domain.{Uuid, nil_uuid}
use trunk_scope.State.Profiles.{SystemProfile, SystemSite}
use trunk_scope.State.App.{AppState, write_document}
use trunk_scope.Imports.Sites.{Floats, SiteImportResult, parse_site_csv}
use trunk_scope.Api.Policy.{ok}
use trunk_scope.Api.Talkgroups.{ImportQuery, import_merges, write_decoder_config}
use trunk_scope.Api.Sites.{has_name, put_site, merge_sites, with_sites, system_has_id, import_sites}

find-update_site :
    (name : Text) (site : SystemSite) (sites : List SystemSite)
    → any (has_name site.name) sites ≡ true
    → find (has_name name) (update_first (has_name site.name) (λ _. site) sites)
      ≡ (if text_eq site.name name then some site else find (has_name name) sites)
find-update_site name site [] h = cc
find-update_site name site (x ∷ sites) h = ground (
  arith,
  text_eq_iff site.name name,
  text_eq_iff x.name site.name,
  text_eq_iff x.name name,
  find-update_site name site sites,
)

find-append_site :
    (name : Text) (site : SystemSite) (sites : List SystemSite)
    → any (has_name site.name) sites ≡ false
    → find (has_name name) (sites ++ site ∷ [])
      ≡ (if text_eq site.name name then some site else find (has_name name) sites)
find-append_site name site [] h = refl
find-append_site name site (x ∷ sites) h = ground (
  arith,
  text_eq_iff site.name name,
  text_eq_iff x.name site.name,
  text_eq_iff x.name name,
  find-append_site name site sites,
)

find-put_site :
    (name : Text) (site : SystemSite) (sites : List SystemSite)
    → find (has_name name) (put_site site sites)
      ≡ (if text_eq site.name name then some site else find (has_name name) sites)
unfolding put_site
find-put_site name site sites = elim (Bool-cases (any (has_name site.name) sites)) [
  | inl e ↦ rw (e, put_site) (find-update_site name site sites e)
  | inr e ↦ rw (e, put_site) (find-append_site name site sites e)
]

-- The last site of the name in a list, or the one of before.
abbrev pub latest : Text → List SystemSite → Option SystemSite → Option SystemSite
latest name [] before = before
latest name (site ∷ imported) before =
    latest name imported (if text_eq site.name name then some site else before)

find-merge_sites :
    (name : Text) (imported sites : List SystemSite)
    → find (has_name name) (merge_sites imported sites)
      ≡ latest name imported (find (has_name name) sites)
unfolding merge_sites
find-merge_sites name [] sites = refl
find-merge_sites name (site ∷ imported) sites =
    find-merge_sites name imported (put_site site sites)
    ∙ ap (latest name imported) (find-put_site name site sites)

find-update_system :
    (id j : Uuid) (merge : Bool) (imported : List SystemSite) (systems : List SystemProfile)
    → find (system_has_id j) (update_first (system_has_id id) (with_sites merge imported) systems)
      ≡ (if j == id
          then map_some (with_sites merge imported) (find (system_has_id j) systems)
          else find (system_has_id j) systems)
find-update_system id j merge imported [] = ground arith
find-update_system id j merge imported (x ∷ systems) =
    ground (arith, find-update_system id j merge imported systems)

-- The sites that a name finds after an import.
abbrev pub after_import : Bool → Text → List SystemSite → SystemProfile → Option SystemSite
after_import true name imported system = latest name imported (find (has_name name) system.sites)
after_import false name imported system = find (has_name name) imported

find-with_sites :
    (merge : Bool) (name : Text) (imported : List SystemSite) (system : SystemProfile)
    → find (has_name name) (with_sites merge imported system).sites
      ≡ after_import merge name imported system
find-with_sites true name imported system = find-merge_sites name imported system.sites
find-with_sites false name imported system = refl

any-find :
    (id : Uuid) (systems : List SystemProfile) (system : SystemProfile)
    → find (system_has_id id) systems ≡ some system
    → any (system_has_id id) systems ≡ true
any-find id [] system h = cc
any-find id (x ∷ systems) system h = ground (arith, any-find id systems system)

-- Importing a site file that can be read into a system that is there leaves the other systems as
-- they were. In the system each name finds, when the import merges, the last site of that name in
-- the file or else the one of before, and otherwise the file's first.
pub import_sites-sites :
    (floats : Floats) (fresh : ℕ → Uuid) (query : ImportQuery) (csv : Text) (s : AppState)
    (result : SiteImportResult) (system : SystemProfile)
    → parse_site_csv floats fresh csv ≡ some result
    → find (system_has_id (unwrap_or query.system_id nil_uuid)) s.systems ≡ some system
    → let after = import_sites floats true fresh query (some csv) s in
      let id = unwrap_or query.system_id nil_uuid in
      (after.0 ≡ ok)
      × ((j : Uuid)
          → (j == id) ≡ false
          → find (system_has_id j) after.1.systems ≡ find (system_has_id j) s.systems)
      × ((name : Text)
          → map_some
              (λ (found : SystemProfile). find (has_name name) found.sites)
              (find (system_has_id id) after.1.systems)
            ≡ some (after_import (import_merges query) name result.sites system))
unfolding import_sites write_document write_decoder_config
import_sites-sites floats fresh query csv s result system e k =
    let id = unwrap_or query.system_id nil_uuid in
    let merge = import_merges query in
    rw (e, import_sites)
      (rw (any-find id s.systems system k) (
        refl,
        λ j h. rw (find-update_system id j merge result.sites s.systems) (rw h refl),
        λ name.
            rw (find-update_system id id merge result.sites s.systems)
              (rw (==_refl id) (rw k (ap some (find-with_sites merge name result.sites system)))),
      ))
