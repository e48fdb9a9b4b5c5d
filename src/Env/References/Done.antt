-- ===== src/Env/References/Done.antt =====
-- What each field of the spec is after its resolver returns no error.
use mwaa_controller.Common.{String, ◌≡◌, refl, sym, ap, Option, none, some, inl, inr, Option-cases}
use mathlib.Core.Path.{subst}
use mwaa_controller.Api.{Environment, EnvironmentSpec, NetworkConfiguration}
use mwaa_controller.Ext.Errors.{Errors}
use mwaa_controller.Ext.Kubernetes.{Reader}
use mwaa_controller.Env.References.{resolve_role, resolve_key, resolve_bucket}
use mwaa_controller.Env.References.{resolve_security_groups, resolve_subnets}
use mwaa_controller.Env.References.{role_state, key_state, bucket_state, from_of}
use mwaa_controller.Env.References.{security_group_state, subnet_state}
use mwaa_controller.Env.References.Resolved.{FieldResolved, IdsResolved, field-resolved}
use mwaa_controller.Env.References.Resolved.{groups-none, subnets-none}
use mwaa_controller.Env.References.Keeps.{groups-keep}
use mwaa_controller.Env.References.Resolved.{groups-resolved, subnets-resolved}

module _ (E : Errors) (R : Reader E) where
  -- Both lists of identifiers, if there is a network configuration.
  abbrev pub NetworkResolved :
      String → Option NetworkConfiguration → Option NetworkConfiguration → Type 0
  NetworkResolved namespace none after = after ≡ none
  NetworkResolved namespace (some n) after =
      (m : NetworkConfiguration) × (after ≡ some m)
      × IdsResolved E R "SecurityGroup" (security_group_state E)
          "NetworkConfiguration.SecurityGroupRefs" namespace n.security_group_refs
          n.security_group_ids m.security_group_ids
      × IdsResolved E R "Subnet" (subnet_state E) "NetworkConfiguration.SubnetRefs" namespace
          n.subnet_refs n.subnet_ids m.subnet_ids

  -- The spec after every reference of it is resolved.
  pub record AllResolved (namespace : String) (s t : EnvironmentSpec) : Type 0 where
    pub role :
        FieldResolved E R "Role"
          (role_state E)
          "ExecutionRoleRef"
          namespace
          (from_of s.execution_role_ref)
          s.execution_role_arn
          t.execution_role_arn
    pub key :
        FieldResolved E R "Key"
          (key_state E)
          "KMSKeyRef"
          namespace
          (from_of s.kms_key_ref)
          s.kms_key
          t.kms_key
    pub network : NetworkResolved namespace s.network_configuration t.network_configuration
    pub bucket :
        FieldResolved E R "Bucket"
          (bucket_state E)
          "SourceBucketRef"
          namespace
          (from_of s.source_bucket_ref)
          s.source_bucket_arn
          t.source_bucket_arn

  pub role-done :
      (ko : Environment)
      → (resolve_role E R ko).2 ≡ none
      → FieldResolved E R "Role"
          (role_state E)
          "ExecutionRoleRef"
          ko.meta.namespace
          (from_of ko.spec.execution_role_ref)
          ko.spec.execution_role_arn
          (resolve_role E R ko).0.spec.execution_role_arn
  unfolding resolve_role
  role-done ko h =
      field-resolved E R "Role" (role_state E) "ExecutionRoleRef" ko _ _
        (λ k. k.spec.execution_role_arn) (λ v. refl) h

  pub key-done :
      (ko : Environment)
      → (resolve_key E R ko).2 ≡ none
      → FieldResolved E R "Key"
          (key_state E)
          "KMSKeyRef"
          ko.meta.namespace
          (from_of ko.spec.kms_key_ref)
          ko.spec.kms_key
          (resolve_key E R ko).0.spec.kms_key
  unfolding resolve_key
  key-done ko h =
      field-resolved E R "Key" (key_state E) "KMSKeyRef" ko _ _ (λ k. k.spec.kms_key) (λ v. refl) h

  pub bucket-done :
      (ko : Environment)
      → (resolve_bucket E R ko).2 ≡ none
      → FieldResolved E R "Bucket"
          (bucket_state E)
          "SourceBucketRef"
          ko.meta.namespace
          (from_of ko.spec.source_bucket_ref)
          ko.spec.source_bucket_arn
          (resolve_bucket E R ko).0.spec.source_bucket_arn
  unfolding resolve_bucket
  bucket-done ko h =
      field-resolved E R "Bucket" (bucket_state E) "SourceBucketRef" ko _ _
        (λ k. k.spec.source_bucket_arn) (λ v. refl) h

  -- The two loops over the network configuration.
  pub network-done :
      (ko : Environment)
      → (resolve_security_groups E R ko).2 ≡ none
      → (resolve_subnets E R (resolve_security_groups E R ko).0).2 ≡ none
      → NetworkResolved ko.meta.namespace ko.spec.network_configuration
          (resolve_subnets E R (resolve_security_groups E R ko).0).0.spec.network_configuration
  network-done ko g h =
      let k = (resolve_security_groups E R ko).0 in
      let after = (resolve_subnets E R k).0.spec.network_configuration in
      elim (Option-cases ko.spec.network_configuration) [
        | inl without ↦
            subst (λ before. NetworkResolved ko.meta.namespace before after) (sym without)
              (subnets-none E R k (groups-none E R ko without))
        | inr (n, given) ↦
            let (ids, at, all) = groups-resolved E R ko n given g in
            let (ids', at', all') =
              subnets-resolved E R k (record n { security_group_ids = ids }) at h in
            let same : k.meta.namespace ≡ ko.meta.namespace =
              ap (λ x. x.meta.namespace) (groups-keep E R ko) in
            subst (λ before. NetworkResolved ko.meta.namespace before after) (sym given)
              (record n { security_group_ids = ids; subnet_ids = ids' }, at', all, rw same at all')
      ]
