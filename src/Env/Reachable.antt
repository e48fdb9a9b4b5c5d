-- ===== src/Env/Reachable.antt =====
-- The resources that the methods of the manager lead to, one call after another, in any order, with
-- edits by users between them.
mod Tests
use mwaa_controller.Common.{
  ◌≡◌, Bool, true, false, if◌then◌else◌, Option, none, some, [], returns, panics, ◌>>=◌,
}
use mathlib.Core.Path.{subst}
use mwaa_controller.Common.{Outcome, sym, ap, elements, Bool-cases, inl, inr}
use mwaa_controller.Api.{Environment}
use mwaa_controller.Ext.Errors.{Errors}
use mwaa_controller.Ext.Sdk.{Client}
use mwaa_controller.Ext.Compare.{Deltas}
use mwaa_controller.Ext.Runtime.{Conditions, Pointers}
use mwaa_controller.Env.Calls.{Cloud}
use mwaa_controller.Env.Status.{Manager, Answer}
use mwaa_controller.Env.Status.Reports.{conditions_of, UniqueKinds}
use mwaa_controller.Env.Status.Holds.{Holds, Holds-bind, Holds-returned, Answered}
use mwaa_controller.Env.Manage.{create, update, delete, read_one}
use mwaa_controller.Env.Manage.Uniqueness.{KeepsKinds, Read, read_one-Unique}
use mwaa_controller.Env.Manage.Writes.{create-Unique, update-Unique, delete-Unique}
use mwaa_controller.Env.LateInit.{
  late_initialize, after_read, read_failed, finish_late, late_initialize_from,
  incomplete_late_initialization,
}

module _ (E : Errors) (K : Conditions) (P : Pointers) (C : Client E) (rm : Manager)
    (D : Deltas) where
  -- A resource starts without conditions. `edited` is every change that leaves the status: that of a
  -- user, of references, of default tags, of finalizers.
  pub data Reachable : Environment → Type 0 where
    applied : (r : Environment) → conditions_of r ≡ [] → Reachable r
    edited : (r r1 : Environment) → Reachable r → r1.status ≡ r.status → Reachable r1
    read :
        (r r1 copy : Environment) (e : Option E.Error) (cloud : Cloud E C)
        → Reachable r
        → (read_one E rm K P C (some r) cloud).0 ≡ returns ((some r1, e), copy)
        → Reachable r1
    created :
        (r r1 : Environment) (e : Option E.Error) (cloud : Cloud E C)
        → Reachable r
        → (create E rm K P C (some r) cloud).0 ≡ returns (some r1, e)
        → Reachable r1
    updated :
        (desired latest r1 : Environment) (e : Option E.Error) (delta : D.Delta) (cloud : Cloud E C)
        → Reachable desired
        → Reachable latest
        → (update E rm K P C D (some desired) (some latest) delta cloud).0 ≡ returns (some r1, e)
        → Reachable r1
    deleted :
        (r r1 : Environment) (e : Option E.Error) (cloud : Cloud E C)
        → Reachable r
        → (delete E rm K P C (some r) cloud).0 ≡ returns (some r1, e)
        → Reachable r1
    late_initialized :
        (r r1 : Environment) (e : Option E.Error) (cloud : Cloud E C)
        → Reachable r
        → (late_initialize E K rm P C r cloud).0 ≡ returns (r1, e)
        → Reachable r1

  module _ (L : KeepsKinds K) where
    -- A resource returned beside an error or nil.
    abbrev Late : Environment × Option E.Error → Type 0
    Late a = UniqueKinds (conditions_of a.0)

    read_failed-UniqueKinds :
        (copy : Environment)
        → UniqueKinds (conditions_of copy)
        → UniqueKinds (conditions_of (read_failed E K copy))
    unfolding read_failed
    read_failed-UniqueKinds copy u =
        L.set_synced _ _ _ _ (L.set_late_initialized (conditions_of copy) _ _ _ u)

    finish_late-Late : (r : Environment) → UniqueKinds (conditions_of r) → Late (finish_late E K r)
    unfolding finish_late
    finish_late-Late r u = elim (Bool-cases (incomplete_late_initialization r)) [
      | inl incomplete ↦
          rw incomplete (L.set_synced _ _ _ _ (L.set_late_initialized (conditions_of r) _ _ _ u))
      | inr complete ↦ rw complete (L.set_late_initialized (conditions_of r) _ _ _ u)
    ]

    after_read-Late : (a : Answer E × Environment) → Read a → Holds Late (after_read E K a)
    unfolding late_initialize_from
    after_read-Late ((observed, some e), copy) (u, v) = read_failed-UniqueKinds copy v
    after_read-Late ((none, none), copy) (u, v) = tt
    after_read-Late ((some observed, none), copy) (u, v) = finish_late-Late _ v

    late_initialize-Late :
        (r : Environment) (cloud : Cloud E C)
        → UniqueKinds (conditions_of r)
        → Holds Late (late_initialize E K rm P C r cloud).0
    unfolding late_initialize
    late_initialize-Late r cloud u =
        Holds-bind Read Late (read_one E rm K P C (some r) cloud).0 _
          (read_one-Unique E K P C rm L r cloud u) after_read-Late

    -- A resource that starts without conditions has at most one condition of each of the types
    -- Terminal, Recoverable and ResourceSynced after any sequence of `ReadOne`, `Create`,
    -- `Update`, `Delete` and `LateInitialize`, on every path on which they return a resource, with
    -- or without an error, and with any changes between them that leave the status. `SetSynced`
    -- and `SetLateInitialized` of the runtime keep this too.
    pub Reachable-UniqueKinds : (r : Environment) → Reachable r → UniqueKinds (conditions_of r)
    Reachable-UniqueKinds r (applied _ bare) =
        subst UniqueKinds (sym bare)
          (record { one_terminal = tt; one_recoverable = tt; one_synced = tt })
    Reachable-UniqueKinds r (edited r0 _ before same) =
        subst UniqueKinds (ap (λ s. elements s.conditions) (sym same))
          (Reachable-UniqueKinds r0 before)
    Reachable-UniqueKinds r (read r0 _ copy e cloud before h) =
        (Holds-returned Read _ _ h
          (read_one-Unique E K P C rm L r0 cloud (Reachable-UniqueKinds r0 before))).0
    Reachable-UniqueKinds r (created r0 _ e cloud before h) =
        Holds-returned Answered _ _ h
          (create-Unique E K P C rm r0 cloud (Reachable-UniqueKinds r0 before))
    Reachable-UniqueKinds r (updated desired latest _ e delta cloud before at h) =
        Holds-returned Answered _ _ h (
          update-Unique E K P C rm D delta desired latest cloud
            (Reachable-UniqueKinds desired before) (Reachable-UniqueKinds latest at))
    Reachable-UniqueKinds r (deleted r0 _ e cloud before h) =
        Holds-returned Answered _ _ h
          (delete-Unique E K P C rm r0 cloud (Reachable-UniqueKinds r0 before))
    Reachable-UniqueKinds r (late_initialized r0 _ e cloud before h) =
        Holds-returned Late _ _ h (late_initialize-Late r0 cloud (Reachable-UniqueKinds r0 before))
