-- ===== src/Env/References/Tests.antt =====
-- The results on references, on a resource that refers to its role and to a security group.
use mwaa_controller.Common.{
  ◌≡◌, ◌↔◌, refl, ◌==◌, string_eq, true, false, none, some, [], ◌∷◌, ok, err, if◌then◌else◌,
}
use mathlib.Core.Option
use mwaa_controller.Common.{String}
use mwaa_controller.Api.{ResourceRef}
use mwaa_controller.Api.{Environment, is_terminal, is_resource_synced, resource_synced, status_true}
use mwaa_controller.Ext.Kubernetes.{Reader, Referenced}
use mwaa_controller.Env.Status.{is_raised}
use mwaa_controller.Env.References.{
  clear_resolved_references, resolve_references, referenced_state, target_arn, resolve_role,
}
use mwaa_controller.Env.References.{
  resolve_key, resolve_security_groups, resolve_subnets, resolve_bucket, resolve_from,
}
use mwaa_controller.Env.References.{validate_reference_fields}
use mwaa_controller.Env.References.Clearing.{clear-resolve, referenced_state_iff}
use mwaa_controller.Samples.Faults.{plain, faults}
use mwaa_controller.Samples.Resources.{prod, prod_spec}

abbrev role : Referenced
role = record {
  conditions =
      record { kind = resource_synced; status = status_true; message = none; reason = none } ∷ [];
  ack_resource_metadata =
      some (record {
        arn = some "arn:aws:iam::1:role/airflow";
        owner_account_id = none;
        region = none;
      });
  id = none;
}

abbrev group : Referenced
group = record {
  conditions =
      record { kind = resource_synced; status = status_true; message = none; reason = none } ∷ [];
  ack_resource_metadata = none;
  id = some "sg-1";
}

-- A cluster with one role, "airflow", one security group, "web", and nothing else.
abbrev cluster : Reader faults
cluster = record {
  get = λ kind namespace name.
      if kind == "Role"
      then (if name == "airflow" then ok role else err (plain "not found"))
      else if kind == "SecurityGroup"
      then (if name == "web" then ok group else err (plain "not found"))
      else err (plain "not found");
}

abbrev ref_to : String → ResourceRef
ref_to name = record { from = some (record { name = some name; namespace = none }) }

abbrev referring : Environment
referring =
    let r = prod none in
    record r {
      spec = record prod_spec {
        execution_role_arn = none;
        execution_role_ref = some (ref_to "airflow");
        network_configuration = some (record {
          security_group_ids = none;
          security_group_refs = some (ref_to "web") ∷ [];
          subnet_ids = some (some "subnet-1" ∷ some "subnet-2" ∷ []);
          subnet_refs = [];
        });
      };
    }

role_and_group_are_resolved :
    ((resolve_references faults cluster referring).0.spec.execution_role_arn
      ≡ some "arn:aws:iam::1:role/airflow")
    × (Option.map
          (λ n. n.security_group_ids)
          (resolve_references faults cluster referring).0.spec.network_configuration
        ≡ some (some (some "sg-1" ∷ [])))
    × ((resolve_references faults cluster referring).1 ≡ true)
unfolding resolve_references resolve_role resolve_key resolve_security_groups resolve_subnets
    resolve_bucket resolve_from referenced_state validate_reference_fields string_eq
role_and_group_are_resolved = (refl, refl, refl)

clear-resolve_example :
    clear_resolved_references (resolve_references faults cluster referring).0
    ≡ clear_resolved_references referring
clear-resolve_example = clear-resolve faults cluster referring

referenced_state_iff_example :
    (referenced_state faults "Role" "Status.ACKResourceMetadata.ARN" target_arn "default" "airflow"
        (ok role)
      ≡ ok "arn:aws:iam::1:role/airflow")
    ↔ ((is_raised is_terminal role.conditions ≡ false)
        × (is_raised is_resource_synced role.conditions ≡ true)
        × (target_arn role ≡ some "arn:aws:iam::1:role/airflow"))
referenced_state_iff_example =
    referenced_state_iff faults "Role" "Status.ACKResourceMetadata.ARN" target_arn "default"
      "airflow" role "arn:aws:iam::1:role/airflow"
