-- ===== src/Api/Sites.antt =====
-- import_sites of apps/control-plane/src/api.rs.
pub mod Merged
use trunk_scope.Common.{
  ℕ, ◌+◌, Bool, true, false, Option, none, some, List, [], ◌∷◌, ◌++◌, arith, ◌==◌, if◌then◌else◌,
  unwrap_or, any, update_first, Text, text_eq, id_eq, text_key, Eq,
}
use trunk_scope.Domain.{Uuid, nil_uuid}
use trunk_scope.State.Profiles.{SystemProfile, SystemSite}
use trunk_scope.State.App.{AppState, write_document, systems_document}
use trunk_scope.Imports.Sites.{Floats, SiteImportResult, parse_site_csv}
use trunk_scope.Api.Policy.{Status, unauthorized, bad_request, not_found, ok}
use trunk_scope.Api.Talkgroups.{ImportQuery, import_merges, write_decoder_config}

abbrev pub has_name : Text → SystemSite → Bool
has_name name site = text_eq site.name name

-- A site of the file takes the place of the first one of its name, or comes last.
unfoldable pub put_site : SystemSite → List SystemSite → List SystemSite
unfolding text_eq
put_site site sites =
    if any (has_name site.name) sites
    then update_first (has_name site.name) (λ _. site) sites
    else sites ++ site ∷ []

unfoldable pub merge_sites : List SystemSite → List SystemSite → List SystemSite
unfolding put_site
merge_sites [] sites = sites
merge_sites (site ∷ imported) sites = merge_sites imported (put_site site sites)

abbrev pub with_sites : Bool → List SystemSite → SystemProfile → SystemProfile
with_sites merge imported system = record system {
  sites = if merge then merge_sites imported system.sites else imported;
}

abbrev pub system_has_id : Uuid → SystemProfile → Bool
system_has_id id system = system.id == id

-- The state once the file is read and the system is there.
abbrev pub imported_sites : Bool → Uuid → SiteImportResult → AppState → AppState
imported_sites merge id result s =
    let systems = update_first (system_has_id id) (with_sites merge result.sites) s.systems in
    write_decoder_config
      (write_document (systems_document systems) (record s { systems = systems }))

abbrev stored_sites : Bool → Uuid → Option SiteImportResult → AppState → Status × AppState
stored_sites merge id none s = (bad_request, s)
stored_sites merge id (some result) s =
    if any (system_has_id id) s.systems
    then (ok, imported_sites merge id result s)
    else (not_found, s)

-- `csv` is the body if it is UTF-8. Without a valid id the nil id is looked for.
unfoldable pub import_sites :
    Floats → Bool → (ℕ → Uuid) → ImportQuery → Option Text → AppState → Status × AppState
unfolding write_document write_decoder_config merge_sites
import_sites floats false fresh query csv s = (unauthorized, s)
import_sites floats true fresh query none s = (bad_request, s)
import_sites floats true fresh query (some csv) s =
    stored_sites (import_merges query) (unwrap_or query.system_id nil_uuid)
      (parse_site_csv floats fresh csv) s
