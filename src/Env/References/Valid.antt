-- ===== src/Env/References/Valid.antt =====
-- What `validateReferenceFields` accepts.
use mwaa_controller.Common.{
  String, ◌≡◌, ◌↔◌, refl, Bool, false, not, ◌&&◌, Option, none, some, arith,
}
use mwaa_controller.Common.{is_some, elements}
use mwaa_controller.Api.{EnvironmentSpec, NetworkConfiguration}
use mwaa_controller.Ext.Errors.{Errors}
use mwaa_controller.Env.References.{validate_reference_fields, validate_network, validate_both}
use mwaa_controller.Env.References.{validate_required, some_elements}

-- Exactly one of a reference and its value is given.
abbrev pub OneOf : Bool → Bool → Type 0
OneOf has_ref has_id = has_id ≡ not has_ref

-- At most one is.
abbrev pub NotBoth : Bool → Bool → Type 0
NotBoth has_ref has_id = has_ref && has_id ≡ false

abbrev pub NetworkValid : Option NetworkConfiguration → Type 0
NetworkValid none = Unit
NetworkValid (some n) =
    NotBoth (some_elements n.security_group_refs) (some_elements (elements n.security_group_ids))
    × NotBoth (some_elements n.subnet_refs) (some_elements (elements n.subnet_ids))

pub record IsValid (s : EnvironmentSpec) : Type 0 where
  pub role : OneOf (is_some s.execution_role_ref) (is_some s.execution_role_arn)
  pub key : NotBoth (is_some s.kms_key_ref) (is_some s.kms_key)
  pub network : NetworkValid s.network_configuration
  pub bucket : OneOf (is_some s.source_bucket_ref) (is_some s.source_bucket_arn)

module _ (E : Errors) where
  both_iff :
      (id ref : String) (r i : Bool) (rest : Option E.Error)
      → (validate_both E id ref r i rest ≡ none) ↔ (NotBoth r i × (rest ≡ none))
  both_iff id ref r i rest = ground arith

  required_iff :
      (id ref : String) (r i : Bool) (rest : Option E.Error)
      → (validate_required E id ref r i rest ≡ none) ↔ (OneOf r i × (rest ≡ none))
  required_iff id ref r i rest = ground arith

  network_iff :
      (n : Option NetworkConfiguration) (rest : Option E.Error)
      → (validate_network E n rest ≡ none) ↔ (NetworkValid n × (rest ≡ none))
  network_iff none rest = ground arith
  network_iff (some n) rest = ground arith

  pub validate_iff : (s : EnvironmentSpec) → (validate_reference_fields E s ≡ none) ↔ IsValid s
  unfolding validate_reference_fields
  validate_iff s =
      let r = is_some s.execution_role_ref in
      let i = is_some s.execution_role_arn in
      let k = is_some s.kms_key_ref in
      let j = is_some s.kms_key in
      let b = is_some s.source_bucket_ref in
      let a = is_some s.source_bucket_arn in
      let n = s.network_configuration in
      let at_bucket = validate_required E "SourceBucketARN" "SourceBucketRef" b a none in
      let at_network = validate_network E n at_bucket in
      let at_key = validate_both E "KMSKey" "KMSKeyRef" k j at_network in
      let role = required_iff "ExecutionRoleARN" "ExecutionRoleRef" r i at_key in
      let key = both_iff "KMSKey" "KMSKeyRef" k j at_network in
      let network = network_iff n at_bucket in
      let bucket = required_iff "SourceBucketARN" "SourceBucketRef" b a none in
      (
        λ h.
            let (p, h) = role.0 h in
            let (q, h) = key.0 h in
            let (t, h) = network.0 h in
            let (u, h) = bucket.0 h in record { role = p; key = q; network = t; bucket = u },
        λ v. role.1 (v.role, key.1 (v.key, network.1 (v.network, bucket.1 (v.bucket, refl)))),
      )
