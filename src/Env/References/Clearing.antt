-- ===== src/Env/References/Clearing.antt =====
-- `ClearResolvedReferences` takes back what `ResolveReferences` did.
use mwaa_controller.Common.{
  String, ◌≡◌, refl, ◌∙◌, Bool, true, false, Option, none, some, List, [], ◌∷◌, ◌↔◌,
}
use mwaa_controller.Common.{if◌then◌else◌, is_some, ok, inl, inr, Option-cases, arith}
use mwaa_controller.Common.Results.{Result-cases}
use mwaa_controller.Api.{Environment, ResourceRef, RefFrom, is_terminal, is_resource_synced}
use mwaa_controller.Ext.Errors.{Errors}
use mwaa_controller.Ext.Kubernetes.{Reader, Referenced}
use mwaa_controller.Env.References.{
  clear_resolved_references, resolve_references, resolve_role, resolve_key,
}
use mwaa_controller.Env.References.{
  resolve_bucket, resolve_security_groups, resolve_subnets, resolve_field,
}
use mwaa_controller.Env.References.{
  resolve_each, from_of, some_elements, and_then, or_invalid, Resolved,
}
use mwaa_controller.Env.Status.{is_raised}
use mwaa_controller.Env.References.{
  referenced_state, validate_reference_fields, resolve_from, with_spec, StateOf, role_state,
  key_state, bucket_state, security_group_state, subnet_state,
}

is_some_of_from :
    (ref : Option ResourceRef) (a : RefFrom) → from_of ref ≡ some a → is_some ref ≡ true
is_some_of_from none a h = cc
is_some_of_from (some r) a h = refl

some_elements_cons : {X : Type 0} (x : X) (xs : List X) → some_elements (x ∷ xs) ≡ true
some_elements_cons x xs = ground arith

module _ (E : Errors) where
  -- A referenced resource that was read is resolved to a value exactly if no Terminal condition of
  -- it is True, some ResourceSynced condition is True, and the value is what its target field
  -- holds.
  pub referenced_state_iff :
      (kind field : String) (target : Referenced → Option String) (namespace name : String)
      (obj : Referenced) (v : String)
      → (referenced_state E kind field target namespace name (ok obj) ≡ ok v) ↔ (
          (is_raised is_terminal obj.conditions ≡ false)
          × (is_raised is_resource_synced obj.conditions ≡ true)
          × (target obj ≡ some v))
  unfolding referenced_state
  referenced_state_iff kind field target namespace name obj v = ground arith

module _ (E : Errors) (R : Reader E) where
  clear-resolve_field :
      (kind : String) (state : StateOf E) (path : String) (ko : Environment) (o : Option RefFrom)
      (set : String → Environment)
      → ((a : RefFrom)
          → o ≡ some a
          → (v : String) → clear_resolved_references (set v) ≡ clear_resolved_references ko)
      → clear_resolved_references (resolve_field E R kind state path ko o set).0
        ≡ clear_resolved_references ko
  clear-resolve_field kind state path ko none set h = refl
  clear-resolve_field kind state path ko (some a) set h =
      elim (Result-cases (resolve_from E R kind state path ko.meta.namespace a)) [
        | inl (e, failed) ↦ rw (resolve_field, failed) refl
        | inr (v, found) ↦ rw (resolve_field, found) (h a refl v)
      ]

  clear-resolve_role :
      (ko : Environment)
      → clear_resolved_references (resolve_role E R ko).0 ≡ clear_resolved_references ko
  unfolding resolve_role clear_resolved_references
  clear-resolve_role ko =
      clear-resolve_field "Role" (role_state E) "ExecutionRoleRef" ko
        (from_of ko.spec.execution_role_ref)
        (λ arn. with_spec ko (record (ko.spec) { execution_role_arn = some arn }))
        (λ a h v. rw (is_some_of_from ko.spec.execution_role_ref a h) refl)

  clear-resolve_key :
      (ko : Environment)
      → clear_resolved_references (resolve_key E R ko).0 ≡ clear_resolved_references ko
  unfolding resolve_key clear_resolved_references
  clear-resolve_key ko =
      clear-resolve_field "Key" (key_state E) "KMSKeyRef" ko (from_of ko.spec.kms_key_ref)
        (λ arn. with_spec ko (record (ko.spec) { kms_key = some arn }))
        (λ a h v. rw (is_some_of_from ko.spec.kms_key_ref a h) refl)

  clear-resolve_bucket :
      (ko : Environment)
      → clear_resolved_references (resolve_bucket E R ko).0 ≡ clear_resolved_references ko
  unfolding resolve_bucket clear_resolved_references
  clear-resolve_bucket ko =
      clear-resolve_field "Bucket" (bucket_state E) "SourceBucketRef" ko
        (from_of ko.spec.source_bucket_ref)
        (λ arn. with_spec ko (record (ko.spec) { source_bucket_arn = some arn }))
        (λ a h v. rw (is_some_of_from ko.spec.source_bucket_ref a h) refl)

  -- What is left of the identifiers is what was there.
  clear-resolve_each :
      (kind : String) (state : StateOf E) (path namespace : String)
      (refs : List (Option ResourceRef)) (ids : Option (List (Option String))) (has : Bool)
      → (if some_elements refs
          then none
          else (resolve_each E R kind state path namespace refs ids has).0)
        ≡ (if some_elements refs then none else ids)
  clear-resolve_each kind state path namespace [] ids has = refl
  clear-resolve_each kind state path namespace (r ∷ refs) ids has =
      rw (some_elements_cons r refs) refl

  clear-resolve_security_groups :
      (ko : Environment)
      → clear_resolved_references (resolve_security_groups E R ko).0 ≡ clear_resolved_references ko
  unfolding resolve_security_groups clear_resolved_references
  clear-resolve_security_groups ko = elim (Option-cases ko.spec.network_configuration) [
    | inl without ↦ rw without refl
    | inr (n, h) ↦ rw h (
        rw
          (clear-resolve_each "SecurityGroup" (security_group_state E)
            "NetworkConfiguration.SecurityGroupRefs" ko.meta.namespace n.security_group_refs
            n.security_group_ids false)
          refl)
  ]

  clear-resolve_subnets :
      (ko : Environment)
      → clear_resolved_references (resolve_subnets E R ko).0 ≡ clear_resolved_references ko
  unfolding resolve_subnets clear_resolved_references
  clear-resolve_subnets ko = elim (Option-cases ko.spec.network_configuration) [
    | inl without ↦ rw without refl
    | inr (n, h) ↦ rw h (
        rw
          (clear-resolve_each "Subnet" (subnet_state E) "NetworkConfiguration.SubnetRefs"
            ko.meta.namespace n.subnet_refs n.subnet_ids false)
          refl)
  ]

  clear-and_then :
      (ko : Environment) (first : Resolved E) (next : Environment → Resolved E)
      → clear_resolved_references first.0 ≡ clear_resolved_references ko
      → ((k : Environment) → clear_resolved_references (next k).0 ≡ clear_resolved_references k)
      → clear_resolved_references (and_then E R first next).0 ≡ clear_resolved_references ko
  clear-and_then ko (k, has, some e) next h f = h
  clear-and_then ko (k, has, none) next h f = f k ∙ h

  clear-or_invalid :
      (ko : Environment) (invalid : Option E.Error) (all : Resolved E)
      → clear_resolved_references all.0 ≡ clear_resolved_references ko
      → clear_resolved_references (or_invalid E R invalid all).0 ≡ clear_resolved_references ko
  clear-or_invalid ko invalid (k, has, some e) h = h
  clear-or_invalid ko invalid (k, has, none) h = h

  -- `ClearResolvedReferences` takes back what `ResolveReferences` did to the resource it was
  -- given: whatever the reader answers, and whether an error is returned or not, clearing what is
  -- left of the resource gives what clearing the resource itself gives.
  pub clear-resolve :
      (ko : Environment)
      → clear_resolved_references (resolve_references E R ko).0 ≡ clear_resolved_references ko
  unfolding resolve_references
  clear-resolve ko =
      let role = resolve_role E R ko in
      let key = and_then E R role (resolve_key E R) in
      let groups = and_then E R key (resolve_security_groups E R) in
      let subnets = and_then E R groups (resolve_subnets E R) in
      clear-or_invalid ko (validate_reference_fields E ko.spec)
        (and_then E R subnets (resolve_bucket E R))
        (clear-and_then ko subnets (resolve_bucket E R)
          (clear-and_then ko groups (resolve_subnets E R)
            (clear-and_then ko key (resolve_security_groups E R)
              (clear-and_then ko role (resolve_key E R) (clear-resolve_role ko) clear-resolve_key)
              clear-resolve_security_groups)
            clear-resolve_subnets)
          clear-resolve_bucket)
