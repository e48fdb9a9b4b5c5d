-- ===== src/Env/Factory.antt =====
-- pkg/resource/environment/manager_factory.go, and `newResourceManager` of manager.go: the cache of
-- resource managers. A manager is a pointer, `Handle`, to the fields of `Manager`; the clients and
-- the configuration that it holds besides are those of the call.
pub mod Keys
pub mod Threads
pub mod Lock
pub mod Managers
pub mod Progress
pub mod Liveness
pub mod Race
mod Tests
use mwaa_controller.Common.{ℕ, String, ◌<>◌, ◌+◌, Option, none, some, []}
use mwaa_controller.Common.Dict.{Dict, lookup, insert}
use mwaa_controller.Env.Status.{Manager}

-- The arguments of `ManagerFor` that it reads itself.
pub record Call : Type 0 where
  pub id : String
  pub region : String
  pub role_arn : String

pub record Handle : Type 0 where
  pub address : ℕ
  pub manager : Manager

-- `resourceManagerFactory` without its lock, and the number of managers created so far.
pub record Factory : Type 0 where
  pub rm_cache : Dict Handle
  pub created : ℕ

-- `newResourceManagerFactory`
abbrev pub new_factory : Factory
new_factory = record { rm_cache = []; created = 0 }

-- `fmt.Sprintf("%s/%s/%s", id, region, roleARN)`
unfoldable pub rm_id : Call → String
rm_id c = c.id <> ("/" <> (c.region <> ("/" <> c.role_arn)))

abbrev pub manager_of : Call → Manager
manager_of c = record { aws_account_id = c.id; aws_region = c.region }

-- `newResourceManager`: it never fails.
abbrev pub new_resource_manager : Call → Factory → Handle
new_resource_manager c f = record { address = f.created; manager = manager_of c }

-- The part of `ManagerFor` under the lock.
unfoldable pub store : Call → Factory → Handle × Factory
store c f =
    let rm = new_resource_manager c f in
    (rm, record { rm_cache = insert (rm_id c) rm f.rm_cache; created = f.created + 1 })

-- What a call returns at once, if the cache has a manager, or after `store`.
abbrev pub found_or : Option Handle → Call → Factory → Handle × Factory
found_or none c f = store c f
found_or (some rm) c f = (rm, f)

-- `ManagerFor`, with no other call at the same time.
unfoldable pub manager_for : Call → Factory → Handle × Factory
manager_for c f = found_or (lookup (rm_id c) f.rm_cache) c f
