-- ===== src/Tags/Plan.antt =====
-- What `SyncTags` decides to set and to remove, read key by key.
use mwaa_controller.Common.{String, ◌≡◌, refl, not, ◌&&◌, ◌||◌, Option}
use mwaa_controller.Common.{none, some, List, [], ◌∷◌, ◌++◌, arith, ◌==◌, string_eq, contains}
use mwaa_controller.Common.{if◌then◌else◌, is_some}
use mwaa_controller.Common.Dict.{Dict, lookup, has, insert, lookup-insert, NodupKeys}
use mwaa_controller.Tags.{is_stale, collect_add, collect_delete}

-- The value to set for a key: its desired one, if the existing one is another or missing.
abbrev pub wanted : Option String → Option String → Option String
wanted none existing = none
wanted (some v) existing = if is_stale existing v then some v else none

module _ (existing : Dict String) (k : String) where
  lookup-collect_add_onto :
      (desired acc : Dict String)
      → NodupKeys desired
      → lookup k (collect_add existing desired acc) ≡ (
          if is_some (wanted (lookup k desired) (lookup k existing))
          then wanted (lookup k desired) (lookup k existing)
          else lookup k acc)
  unfolding collect_add
  lookup-collect_add_onto [] acc u = refl
  lookup-collect_add_onto ((j, v) ∷ desired) acc (fresh, u) = ground (
    arith,
    lookup-collect_add_onto desired acc u,
    lookup-collect_add_onto desired (insert j v acc) u,
    lookup-insert k j v acc,
  )

  -- The first loop of `SyncTags` collects just the desired tags, a map, whose value the existing
  -- tags do not have, with their desired values.
  pub lookup-collect_add :
      (desired : Dict String)
      → NodupKeys desired
      → lookup k (collect_add existing desired []) ≡ wanted (lookup k desired) (lookup k existing)
  lookup-collect_add desired u = ground (arith, lookup-collect_add_onto desired [] u)

contains-append :
    (xs : List String) (j k : String) → contains (xs ++ (j ∷ [])) k ≡ (contains xs k || k == j)
contains-append [] j k = ground arith
contains-append (x ∷ xs) j k = ground (arith, contains-append xs j k)

module _ (desired : Dict String) (k : String) where
  contains-collect_delete_onto :
      (existing : Dict String) (acc : List String)
      → contains (collect_delete desired existing acc) k
        ≡ (contains acc k || (has k existing && not (has k desired)))
  unfolding collect_delete
  contains-collect_delete_onto [] acc = ground arith
  contains-collect_delete_onto ((j, v) ∷ existing) acc = ground (
    arith,
    contains-collect_delete_onto existing acc,
    contains-collect_delete_onto existing (acc ++ (j ∷ [])),
    contains-append acc j k,
  )

  -- The second loop of `SyncTags` collects just the keys of the existing tags that are not among
  -- the desired ones.
  pub contains-collect_delete :
      (existing : Dict String)
      → contains (collect_delete desired existing []) k ≡ (has k existing && not (has k desired))
  contains-collect_delete existing = contains-collect_delete_onto existing []
