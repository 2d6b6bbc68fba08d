-- ===== src/Common/Paths.antt =====
-- `std::path` on Unix: a path as its components.
use trunk_scope.Common.{
  ◌≡◌, refl, Bool, true, false, ◌||◌, Option, none, some, List, [], ◌∷◌, ◌++◌, ◌==◌, if◌then◌else◌,
  map_some, Text, codes, text_eq, is_empty, split, id_eq, text_key,
}

pub data Component : Type 0 where
  root_dir cur_dir parent_dir : Component
  normal : Text → Component

abbrev pub component_eq : Component → Component → Bool
component_eq root_dir root_dir = true
component_eq cur_dir cur_dir = true
component_eq parent_dir parent_dir = true
component_eq (normal a) (normal b) = text_eq a b
component_eq _ _ = false

abbrev pub is_parent_dir : Component → Bool
is_parent_dir parent_dir = true
is_parent_dir _ = false

abbrev dot : Text
dot = codes "."

abbrev dot_dot : Text
dot_dot = codes ".."

abbrev piece : Text → Component
piece name = if text_eq name dot_dot then parent_dir else normal name

-- Empty pieces and inner dots say nothing.
unfoldable pub components_from : List Text → List Component
unfolding text_eq
components_from [] = []
components_from (name ∷ names) =
    let rest = components_from names in
    if is_empty name || text_eq name dot then rest else piece name ∷ rest

abbrev leading : List Text → List Component
leading [] = []
leading (name ∷ names) =
    if text_eq name dot then cur_dir ∷ components_from names else components_from (name ∷ names)

abbrev pub is_absolute : Text → Bool
is_absolute [] = false
is_absolute (c ∷ s) = c == b'/'

-- `Path::components`.
unfoldable pub components : Text → List Component
unfolding components_from split
components path =
    if is_absolute path
    then root_dir ∷ components_from (split b'/' path)
    else leading (split b'/' path)

-- `Path::strip_prefix`, whose success is `Path::starts_with`.
unfoldable pub strip_components : List Component → List Component → Option (List Component)
unfolding text_eq
strip_components [] path = some path
strip_components (p ∷ prefix) [] = none
strip_components (p ∷ prefix) (c ∷ path) =
    if component_eq p c then strip_components prefix path else none

-- `root.join(relative)` for a path that is not absolute.
unfoldable pub join_components : List Component → List Component → List Component
join_components [] relative = relative
join_components (c ∷ root) (cur_dir ∷ relative) = (c ∷ root) ++ relative
join_components (c ∷ root) relative = (c ∷ root) ++ relative

abbrev last_component : List Component → Option Component
last_component [] = none
last_component (c ∷ []) = some c
last_component (c ∷ d ∷ cs) = last_component (d ∷ cs)

-- The text in front of the last dot.
unfoldable pub before_last_dot : Text → Option Text
before_last_dot [] = none
before_last_dot (c ∷ s) = elim (before_last_dot s) [
  | none ↦ if c == b'.' then some [] else none
  | some before ↦ some (c ∷ before)
]

abbrev stem_of_name : Text → Text
stem_of_name name = elim (before_last_dot name) [
  | none ↦ name
  | some before ↦ if is_empty before then name else before
]

abbrev file_name : Option Component → Option Text
file_name (some (normal name)) = some name
file_name _ = none

-- `Path::file_stem`.
unfoldable pub file_stem : Text → Option Text
unfolding components before_last_dot
file_stem path = map_some stem_of_name (file_name (last_component (components path)))

stem_tests :
    (file_stem (codes "/a/b.c/fm-9.x.wav") ≡ some (codes "fm-9.x"))
    × (file_stem (codes "a/.wav/") ≡ some (codes ".wav"))
    × (file_stem (codes "a/..") ≡ none)
unfolding file_stem
stem_tests = (refl, refl, refl)
