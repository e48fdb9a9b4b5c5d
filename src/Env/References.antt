-- ===== src/Env/References.antt =====
-- pkg/resource/environment/references.go. `ResolveReferences` and the resolvers that it calls
-- change the resource they are given: it is returned as they leave it, with whether references
-- were found and an error or nil.
pub mod Clearing
pub mod Valid
pub mod Resolved
pub mod Keeps
pub mod Done
pub mod Resolution
mod State
mod Tests
unfoldable pub use State.*
use mwaa_controller.Common.{
  String, ◌<>◌, Bool, true, false, not, ◌||◌, ◌&&◌, Option, none, some, List, [], ◌∷◌, ◌++◌,
}
use mwaa_controller.Common.{
  if◌then◌else◌, is_some, elements, length, ◌==◌, string_eq, Result, ok, err,
}
use mwaa_controller.Common.Int.{ltb}
use mwaa_controller.Api.{Environment, EnvironmentSpec, NetworkConfiguration, ResourceRef, RefFrom}
use mwaa_controller.Ext.Errors.{Errors}
use mwaa_controller.Ext.Kubernetes.{Reader}
use mathlib.Core.Option

abbrev pub with_spec : Environment → EnvironmentSpec → Environment
with_spec ko spec = record ko { spec = spec }

-- `len(xs) > 0`
abbrev pub some_elements : {X : Type 0} → List X → Bool
some_elements xs = ltb 0 (length xs)

abbrev pub clear_network : NetworkConfiguration → NetworkConfiguration
clear_network n = record n {
  security_group_ids = if some_elements n.security_group_refs then none else n.security_group_ids;
  subnet_ids = if some_elements n.subnet_refs then none else n.subnet_ids;
}

-- `ClearResolvedReferences`
unfoldable pub clear_resolved_references : Environment → Environment
clear_resolved_references ko =
    let s = ko.spec in
    with_spec ko (record s {
      execution_role_arn = if is_some s.execution_role_ref then none else s.execution_role_arn;
      kms_key = if is_some s.kms_key_ref then none else s.kms_key;
      network_configuration = Option.map clear_network s.network_configuration;
      source_bucket_arn = if is_some s.source_bucket_ref then none else s.source_bucket_arn;
    })

-- The namespace of the reference, or else the resource's.
abbrev pub or_namespace : Option String → String → String
or_namespace none d = d
or_namespace (some n) d = if n == "" then d else n

-- `ref != nil && ref.From != nil`
abbrev pub from_of : Option ResourceRef → Option RefFrom
from_of none = none
from_of (some r) = r.from

module _ (E : Errors) where
  -- The tests of two fields of which one may be set.
  abbrev pub validate_both : String → String → Bool → Bool → Option E.Error → Option E.Error
  validate_both id ref has_ref has_id rest =
      if has_ref && has_id then some (E.reference_and_id_not_supported_for id ref) else rest

  -- The same, of which one must be set.
  abbrev pub validate_required : String → String → Bool → Bool → Option E.Error → Option E.Error
  validate_required id ref has_ref has_id rest =
      validate_both id ref has_ref has_id
        (if not has_ref && not has_id then some (E.reference_or_id_required_for id ref) else rest)

  abbrev pub validate_network : Option NetworkConfiguration → Option E.Error → Option E.Error
  validate_network none rest = rest
  validate_network (some n) rest =
      validate_both "NetworkConfiguration.SecurityGroupIDs" "NetworkConfiguration.SecurityGroupRefs"
        (some_elements n.security_group_refs) (some_elements (elements n.security_group_ids))
        (validate_both "NetworkConfiguration.SubnetIDs" "NetworkConfiguration.SubnetRefs"
          (some_elements n.subnet_refs) (some_elements (elements n.subnet_ids)) rest)

  -- `validateReferenceFields`
  unfoldable pub validate_reference_fields : EnvironmentSpec → Option E.Error
  validate_reference_fields s =
      validate_required "ExecutionRoleARN" "ExecutionRoleRef" (is_some s.execution_role_ref)
        (is_some s.execution_role_arn)
        (validate_both "KMSKey" "KMSKeyRef" (is_some s.kms_key_ref) (is_some s.kms_key) (
          validate_network s.network_configuration (
            validate_required "SourceBucketARN" "SourceBucketRef" (is_some s.source_bucket_ref)
              (is_some s.source_bucket_arn) none)))

  -- A resource as a resolver leaves it, whether it has references, and an error or nil.
  abbrev pub Resolved : Type 0
  Resolved = Environment × Bool × Option E.Error

  module _ (R : Reader E) where
    -- The value that a reference stands for; `path` is the field of the reference.
    unfoldable pub resolve_from :
        String → StateOf E → String → String → RefFrom → Result E.Error String
    resolve_from kind state path namespace arr = elim arr.name [
      | none ↦ err (E.errorf ("provided resource reference is nil or empty: " <> path))
      | some name ↦
          if name == ""
          then err (E.errorf ("provided resource reference is nil or empty: " <> path))
          else (let ns = or_namespace arr.namespace namespace in state ns name (R.get kind ns name))
    ]

    -- A reference in a field of its own: `set` puts the value into the resource.
    abbrev pub resolve_field :
        String
        → StateOf E
        → String
        → Environment
        → Option RefFrom
        → (String → Environment)
        → Resolved
    resolve_field kind state path ko none set = (ko, false, none)
    resolve_field kind state path ko (some arr) set =
        elim (resolve_from kind state path ko.meta.namespace arr) [
          | err e ↦ (ko, true, some e)
          | ok arn ↦ (set arn, true, none)
        ]

    -- `resolveReferenceForExecutionRoleARN`
    unfoldable pub resolve_role : Environment → Resolved
    resolve_role ko =
        resolve_field "Role" (role_state E) "ExecutionRoleRef" ko
          (from_of ko.spec.execution_role_ref)
          (λ arn. with_spec ko (record (ko.spec) { execution_role_arn = some arn }))

    -- `resolveReferenceForKMSKey`
    unfoldable pub resolve_key : Environment → Resolved
    resolve_key ko =
        resolve_field "Key" (key_state E) "KMSKeyRef" ko (from_of ko.spec.kms_key_ref)
          (λ arn. with_spec ko (record (ko.spec) { kms_key = some arn }))

    -- `resolveReferenceForSourceBucketARN`
    unfoldable pub resolve_bucket : Environment → Resolved
    resolve_bucket ko =
        resolve_field "Bucket" (bucket_state E) "SourceBucketRef" ko
          (from_of ko.spec.source_bucket_ref)
          (λ arn. with_spec ko (record (ko.spec) { source_bucket_arn = some arn }))

    -- The loop over references; the identifiers are appended one by one.
    abbrev pub resolve_each :
        String
        → StateOf E
        → String
        → String
        → List (Option ResourceRef)
        → Option (List (Option String))
        → Bool
        → Option (List (Option String)) × Bool × Option E.Error
    resolve_each kind state path namespace [] ids has = (ids, has, none)
    resolve_each kind state path namespace (ref ∷ refs) ids has = elim (from_of ref) [
      | none ↦ resolve_each kind state path namespace refs ids has
      | some arr ↦ elim (resolve_from kind state path namespace arr) [
        | err e ↦ (ids, true, some e)
        | ok id ↦
            resolve_each kind state path namespace refs (some (elements ids ++ (some id ∷ []))) true
      ]
    ]

    abbrev pub with_network : Environment → NetworkConfiguration → Environment
    with_network ko n = with_spec ko (record (ko.spec) { network_configuration = some n })

    -- `resolveReferenceForNetworkConfiguration_SecurityGroupIDs`
    unfoldable pub resolve_security_groups : Environment → Resolved
    resolve_security_groups ko = elim ko.spec.network_configuration [
      | none ↦ (ko, false, none)
      | some n ↦
          let (ids, has, e) =
            resolve_each "SecurityGroup" (security_group_state E)
              "NetworkConfiguration.SecurityGroupRefs" ko.meta.namespace n.security_group_refs
              n.security_group_ids false in
          (with_network ko (record n { security_group_ids = ids }), has, e)
    ]

    -- `resolveReferenceForNetworkConfiguration_SubnetIDs`
    unfoldable pub resolve_subnets : Environment → Resolved
    resolve_subnets ko = elim ko.spec.network_configuration [
      | none ↦ (ko, false, none)
      | some n ↦
          let (ids, has, e) =
            resolve_each "Subnet" (subnet_state E) "NetworkConfiguration.SubnetRefs"
              ko.meta.namespace n.subnet_refs n.subnet_ids false in
          (with_network ko (record n { subnet_ids = ids }), has, e)
    ]

    -- The next resolver, unless the last one failed.
    abbrev pub and_then : Resolved → (Environment → Resolved) → Resolved
    and_then (ko, has, some e) next = (ko, has, some e)
    and_then (ko, has, none) next = let (ko', has', e) = next ko in (ko', has || has', e)

    -- At the end, the error of the validation is returned.
    abbrev pub or_invalid : Option E.Error → Resolved → Resolved
    or_invalid invalid (ko, has, some e) = (ko, has, some e)
    or_invalid invalid (ko, has, none) = (ko, has, invalid)

    -- `ResolveReferences`
    unfoldable pub resolve_references : Environment → Resolved
    resolve_references ko = or_invalid (validate_reference_fields ko.spec) (
        and_then
          (and_then (and_then (and_then (resolve_role ko) resolve_key) resolve_security_groups)
            resolve_subnets)
          resolve_bucket)
