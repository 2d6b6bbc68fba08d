-- ===== src/Api/Audio.antt =====
-- resolve_audio_object_key of apps/control-plane/src/api.rs: the file of a recording's key, below the root.
use trunk_scope.Common.{
  ◌≡◌, refl, inl, inr, true, false, Option, none, some, List, [], ◌∷◌, ◌++◌, arith, if◌then◌else◌,
  Bool-cases, or_else, and_then, any, Text, codes, text_eq_refl, is_empty, trim, id_eq, text_key,
}
use mathlib.Core.Path.{subst}
use trunk_scope.Common.Paths.{
  Component, root_dir, cur_dir, parent_dir, normal, component_eq, components, strip_components,
  join_components, is_absolute, is_parent_dir,
}

abbrev calls_dir : List Component
calls_dir = components (codes "/var/lib/trunkscope/calls")

abbrev relative_key : List Component → Text → Option (List Component)
relative_key root key =
    if is_absolute key
    then or_else (strip_components root (components key))
        (strip_components calls_dir (components key))
    else some (components key)

unfoldable pub resolve_audio_object_key : List Component → Text → Option (List Component)
unfolding components strip_components join_components
resolve_audio_object_key root key =
    if is_empty (trim key)
    then none
    else and_then (relative_key root (trim key)) λ relative.
      if any is_parent_dir relative then none else some (join_components root relative)

component_eq_refl : (c : Component) → component_eq c c ≡ true
component_eq_refl root_dir = refl
component_eq_refl cur_dir = refl
component_eq_refl parent_dir = refl
component_eq_refl (normal name) = text_eq_refl name

strip_components-append :
    (root path : List Component) → strip_components root (root ++ path) ≡ some path
unfolding strip_components
strip_components-append [] path = refl
strip_components-append (c ∷ root) path =
    rw (component_eq_refl c) (strip_components-append root path)

-- What a path has behind the root, none of it a step up.
abbrev pub IsBelow : List Component → List Component → Type 0
IsBelow root path =
    (relative : List Component) × (strip_components root path ≡ some relative)
    × (any is_parent_dir relative ≡ false)

join_components-IsBelow :
    (root relative : List Component)
    → any is_parent_dir relative ≡ false
    → IsBelow root (join_components root relative)
unfolding strip_components join_components
join_components-IsBelow [] relative h = (relative, refl, h)
join_components-IsBelow (c ∷ root) [] h = ([], strip_components-append (c ∷ root) [], refl)
join_components-IsBelow (c ∷ root) (cur_dir ∷ relative) h =
    (relative, strip_components-append (c ∷ root) relative, h)
join_components-IsBelow (c ∷ root) (root_dir ∷ relative) h =
    (root_dir ∷ relative, strip_components-append (c ∷ root) (root_dir ∷ relative), h)
join_components-IsBelow (c ∷ root) (parent_dir ∷ relative) h = absurd cc
join_components-IsBelow (c ∷ root) (normal name ∷ relative) h =
    (normal name ∷ relative, strip_components-append (c ∷ root) (normal name ∷ relative), h)

-- The file of any key lies below the root: what the path has behind the root's components has no
-- `..` in it.
pub resolve_audio_object_key-IsBelow :
    (root : List Component) (key : Text) (path : List Component)
    → resolve_audio_object_key root key ≡ some path
    → IsBelow root path
unfolding resolve_audio_object_key
resolve_audio_object_key-IsBelow root key path e = elim (Bool-cases (is_empty (trim key))) [
  | inl b ↦ absurd (blank b)
  | inr b ↦ below (relative_key root (trim key)) (filled b)
]
  where
    joined : Option (List Component) → Option (List Component)
    joined r = and_then r λ relative.
        if any is_parent_dir relative then none else some (join_components root relative)

    blank : is_empty (trim key) ≡ true → ⊥
    blank b = ground arith

    filled : is_empty (trim key) ≡ false → joined (relative_key root (trim key)) ≡ some path
    filled b = ground arith

    joined_path :
        (relative : List Component)
        → any is_parent_dir relative ≡ false
        → joined (some relative) ≡ some path
        → join_components root relative ≡ path
    joined_path relative u h = ground arith

    below : (r : Option (List Component)) → joined r ≡ some path → IsBelow root path
    below none h = absurd cc
    below (some relative) h = elim (Bool-cases (any is_parent_dir relative)) [
      | inl u ↦ absurd (ground arith)
      | inr u ↦
          subst (IsBelow root) (joined_path relative u h) (join_components-IsBelow root relative u)
    ]
