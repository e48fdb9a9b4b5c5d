-- ===== src/Samples/Maps.antt =====
-- Instances of `Pointers`, `TagTools` and `Compare`.
use mathlib.Core.Option
use mwaa_controller.Common.{String, ◌≡◌, refl, ◌∙◌, ap, string_eq, true, Option, none, some}
use mwaa_controller.Common.{List, [], ◌∷◌, arith, if◌then◌else◌, is_some, All, inl, inr, Bool-cases}
use mwaa_controller.Common.Dict.{Dict, lookup, insert, NodupKeys, lookup-insert, insert-NodupKeys}
use mwaa_controller.Ext.Runtime.{Pointers, PointersIsLawful, TagTools, TagToolsIsLawful, text_of}

abbrev pub map_values : {V W : Type 0} → (V → W) → Dict V → Dict W
map_values f [] = []
map_values f ((k, v) ∷ d) = (k, f v) ∷ map_values f d

abbrev pub map_list : {V W : Type 0} → (V → W) → List V → List W
map_list f [] = []
map_list f (x ∷ xs) = f x ∷ map_list f xs

lookup-map_values :
    {V W : Type 0} (f : V → W) (k : String) (d : Dict V)
    → lookup k (map_values f d) ≡ Option.map f (lookup k d)
lookup-map_values f k [] = refl
lookup-map_values f k ((j, v) ∷ d) = ground (arith, lookup-map_values f k d)

map_values-NodupKeys :
    {V W : Type 0} (f : V → W) (d : Dict V) → NodupKeys d → NodupKeys (map_values f d)
map_values-NodupKeys f [] u = tt
map_values-NodupKeys f ((k, v) ∷ d) (fresh, u) =
    (lookup-map_values f k d ∙ ap (Option.map f) fresh, map_values-NodupKeys f d u)

abbrev pub pointers : Pointers
pointers = record {
  string_map = map_values some;
  to_string_map = map_values text_of;
  string_slice = map_list some;
  to_string_slice = map_list text_of;
}

slice_back :
    (xs : List (Option String))
    → All (λ x. is_some x ≡ true) xs
    → map_list some (map_list text_of xs) ≡ xs
slice_back [] h = refl
slice_back (none ∷ xs) h = cc
slice_back (some x ∷ xs) (_, h) = ap (λ ys. some x ∷ ys) (slice_back xs h)

pub pointers-IsLawful : PointersIsLawful pointers
pointers-IsLawful = record {
  lookup-string_map = lookup-map_values some;
  lookup-to_string_map = lookup-map_values text_of;
  string_map-NodupKeys = map_values-NodupKeys some;
  to_string_map-NodupKeys = map_values-NodupKeys text_of;
  string_slice_back = slice_back;
}

-- The second map's entries whose keys are not in the first, inserted into the first.
abbrev pub merge_maps : Dict String → Dict String → Dict String
merge_maps a [] = a
merge_maps a ((k, v) ∷ b) =
    if is_some (lookup k a) then merge_maps a b else insert k v (merge_maps a b)

lookup-merge_maps :
    (k : String) (a b : Dict String)
    → lookup k (merge_maps a b) ≡ (if is_some (lookup k a) then lookup k a else lookup k b)
lookup-merge_maps k a [] = ground arith
lookup-merge_maps k a ((j, v) ∷ b) =
    ground (arith, lookup-merge_maps k a b, lookup-insert k j v (merge_maps a b))

merge_maps-NodupKeys : (a b : Dict String) → NodupKeys a → NodupKeys (merge_maps a b)
merge_maps-NodupKeys a [] u = u
merge_maps-NodupKeys a ((j, v) ∷ b) u = elim (Bool-cases (is_some (lookup j a))) [
  | inl present ↦ rw present (merge_maps-NodupKeys a b u)
  | inr absent ↦ rw absent (insert-NodupKeys j v (merge_maps a b) (merge_maps-NodupKeys a b u))
]

abbrev pub tag_tools : TagTools
tag_tools = record {
  merge = merge_maps;
  default_tags = λ r. ("services.k8s.aws/namespace", r.meta.namespace) ∷ [];
}

pub tag_tools-IsLawful : TagToolsIsLawful tag_tools
tag_tools-IsLawful = record {
  lookup-merge = lookup-merge_maps;
  merge-NodupKeys = merge_maps-NodupKeys;
}
