-- ===== src/Env/References/Keeps.antt =====
-- What each resolver leaves alone.
use mwaa_controller.Common.{String, ◌≡◌, refl, Option, none, some}
use mwaa_controller.Common.{inl, inr, Option-cases}
use mwaa_controller.Common.Results.{Result-cases}
use mwaa_controller.Api.{Environment, RefFrom}
use mwaa_controller.Ext.Errors.{Errors}
use mwaa_controller.Ext.Kubernetes.{Reader}
use mwaa_controller.Env.References.{resolve_role, resolve_key, resolve_bucket, StateOf}
use mwaa_controller.Env.References.{resolve_security_groups, resolve_subnets, resolve_field}
use mwaa_controller.Env.References.{resolve_from, with_spec, role_state, key_state, bucket_state}

module _ (E : Errors) (R : Reader E) where
  -- What the setter keeps, the resolver keeps.
  pub field-keeps :
      {X : Type 0} (view : Environment → X) (kind : String) (state : StateOf E) (path : String)
      (ko : Environment) (o : Option RefFrom) (set : String → Environment)
      → ((v : String) → view (set v) ≡ view ko)
      → view (resolve_field E R kind state path ko o set).0 ≡ view ko
  field-keeps view kind state path ko none set g = refl
  field-keeps view kind state path ko (some arr) set g =
      elim (Result-cases (resolve_from E R kind state path ko.meta.namespace arr)) [
        | inl (e, failed) ↦ rw (resolve_field, failed) refl
        | inr (v, found) ↦ rw (resolve_field, found) (g v)
      ]

  -- The resource without the field of a resolver.
  abbrev pub but_role : Environment → Environment
  but_role ko = with_spec ko (record (ko.spec) { execution_role_arn = none })

  abbrev pub but_key : Environment → Environment
  but_key ko = with_spec ko (record (ko.spec) { kms_key = none })

  abbrev pub but_bucket : Environment → Environment
  but_bucket ko = with_spec ko (record (ko.spec) { source_bucket_arn = none })

  abbrev pub but_network : Environment → Environment
  but_network ko = with_spec ko (record (ko.spec) { network_configuration = none })

  pub role-keeps : (ko : Environment) → but_role (resolve_role E R ko).0 ≡ but_role ko
  unfolding resolve_role
  role-keeps ko = field-keeps but_role "Role" (role_state E) "ExecutionRoleRef" ko _ _ (λ v. refl)

  pub key-keeps : (ko : Environment) → but_key (resolve_key E R ko).0 ≡ but_key ko
  unfolding resolve_key
  key-keeps ko = field-keeps but_key "Key" (key_state E) "KMSKeyRef" ko _ _ (λ v. refl)

  pub bucket-keeps : (ko : Environment) → but_bucket (resolve_bucket E R ko).0 ≡ but_bucket ko
  unfolding resolve_bucket
  bucket-keeps ko =
      field-keeps but_bucket "Bucket" (bucket_state E) "SourceBucketRef" ko _ _ (λ v. refl)

  pub groups-keep :
      (ko : Environment) → but_network (resolve_security_groups E R ko).0 ≡ but_network ko
  unfolding resolve_security_groups
  groups-keep ko = elim (Option-cases ko.spec.network_configuration) [
    | inl without ↦ rw without refl
    | inr (n, h) ↦ rw h refl
  ]

  pub subnets-keep : (ko : Environment) → but_network (resolve_subnets E R ko).0 ≡ but_network ko
  unfolding resolve_subnets
  subnets-keep ko = elim (Option-cases ko.spec.network_configuration) [
    | inl without ↦ rw without refl
    | inr (n, h) ↦ rw h refl
  ]
