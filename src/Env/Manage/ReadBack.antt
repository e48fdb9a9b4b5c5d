-- ===== src/Env/Manage/ReadBack.antt =====
-- `ReadOne` of manager.go, of an environment that the service describes as its spec has it.
use mwaa_controller.Common.{String, ◌≡◌, refl, sym, ap, ◌∙◌, true, false, none, some, [], ok}
use mwaa_controller.Common.{returns, inl, inr, Option-cases, string_eq}
use mathlib.Core.Path.{subst}
use mwaa_controller.Common.Dict.{Dict}
use mwaa_controller.Common.{Option}
use mwaa_controller.Api.{Environment, EnvironmentSpec}
use mwaa_controller.Ext.Errors.{Errors}
use mwaa_controller.Ext.Sdk.{Client, SdkEnvironment}
use mwaa_controller.Ext.Compare.{Compare, CompareIsLawful}
use mwaa_controller.Ext.Runtime.{Conditions, Pointers, PointersIsLawful}
use mwaa_controller.Env.Calls.{Cloud}
use mwaa_controller.Env.Delta.{differences}
use mwaa_controller.Env.Delta.Matches.{HasMaps}
use mwaa_controller.Env.Delta.Complete.{differences-eq-nil}
use mwaa_controller.Env.Status.{Manager, set_status_defaults}
use mwaa_controller.Env.Status.Returns.{on_success_keeps}
use mwaa_controller.Env.TagFields.{mirror_aws_tags}
use mwaa_controller.Env.Read.{
  observe, read_spec, set_output, or_observed, enum_ptr, is_failure_state,
}
use mwaa_controller.Env.Payload.Bounds.{InRange, create_input_of, create_payload_iff}
use mwaa_controller.Env.Payload.Echoes.{Echoes, IsNormal}
use mwaa_controller.Env.Payload.RoundTrip.{echoed-HasMaps, echoed-FieldsMatch, create_round_trip}
use mwaa_controller.Env.Manage.{read_one, report, is_synced}
use mwaa_controller.Env.Manage.Reads.{NotFailed, read_one-named, check_state-other}
use mwaa_controller.Env.Manage.Reads.{handle_update_failed-other, observe-status}

-- The spec that `keep_options` leaves.
kept : Option (Dict (Option String)) → EnvironmentSpec → EnvironmentSpec
kept none t = t
kept (some o) t = record t { airflow_configuration_options = some o }

kept-spec :
    (o : Option (Dict (Option String))) (ko : Environment)
    → (elim o as (λ x. Environment) [
      | none ↦ ko
      | some options ↦ record ko {
        spec = record (ko.spec) { airflow_configuration_options = some options };
      }
    ]).spec
      ≡ kept o ko.spec
unfolding kept
kept-spec none ko = refl
kept-spec (some o) ko = refl

module _ (E : Errors) (K : Conditions) (P : Pointers) (C : Client E) (rm : Manager) where
  -- What is observed of an environment that the service describes as it was asked to create it
  -- shows no difference, with the desired options in place of the described ones if there are any.
  module _ (M : PointersIsLawful P) (Q : Compare) (L : CompareIsLawful Q) (r : Environment)
      (env : SdkEnvironment) where
    observed_matches :
        InRange r.spec
        → Echoes (create_input_of P r.spec) env
        → HasMaps r.spec
        → IsNormal r.spec
        → differences Q r.spec (observe P rm r env).spec ≡ []
    unfolding observe set_output set_status_defaults kept
    observed_matches fits e u n =
        let s = r.spec in
        let inp = create_input_of P s in
        let maps = echoed-HasMaps P M E s inp env e u in
        let made = (create_payload_iff E P s inp).1 (fits, refl) in
        let observed : (observe P rm r env).spec
            ≡ kept s.airflow_configuration_options (read_spec P env s) =
          kept-spec s.airflow_configuration_options (set_status_defaults rm (set_output P env r)) in
        let matches : differences Q s (kept s.airflow_configuration_options (read_spec P env s))
            ≡ [] =
          elim (Option-cases s.airflow_configuration_options) [
            | inl without ↦
                subst (λ o. differences Q s (kept o (read_spec P env s)) ≡ []) (sym without)
                  (create_round_trip P M E s inp env Q L made e u n)
            | inr (o, given) ↦
                let t = kept (some o) (read_spec P env s) in
                let maps' : HasMaps t = record {
                  options = rw given at u.options;
                  tags = maps.tags;
                } in
                subst (λ o. differences Q s (kept o (read_spec P env s)) ≡ []) (sym given)
                  ((differences-eq-nil Q L s t u maps').1
                    ((λ k. rw given refl), echoed-FieldsMatch P M E s inp env Q L e n (some o)))
          ] in
        ap (differences Q s) observed ∙ matches

  module _ (r : Environment) (cloud : Cloud E C) (n : String) (env : SdkEnvironment) where
    -- `ReadOne` ends well: what it returns.
    pub read_one-ok :
        r.spec.name ≡ some n
        → (C.get_environment (some n) cloud.world).0 ≡ ok (some env)
        → is_failure_state env.status ≡ false
        → NotFailed env
        → (r1 : Environment) × ((read_one E rm K P C (some r) cloud).0
            ≡ returns ((some r1, none), mirror_aws_tags r (some (observe P rm r env))))
          × (r1.spec ≡ (observe P rm r env).spec)
          × (r1.status.status ≡ enum_ptr env.status)
    unfolding report
    read_one-ok named described healthy other =
        let ko = observe P rm r env in
        let found =
          check_state-other E K P C rm r cloud n env healthy
          ∙ ap (or_observed E K ko) (handle_update_failed-other E K P C rm r cloud n env other) in
        let (r1, reported, spec, arn, status) = on_success_keeps E rm ko in
        (
          r1,
          read_one-named E K P C rm r cloud n env named described ∙ rw (found, reported) refl,
          spec,
          status ∙ observe-status E K P C rm r cloud n env,
        )

  available_is_healthy : is_failure_state "AVAILABLE" ≡ false
  unfolding is_failure_state string_eq
  available_is_healthy = refl

  available_is_synced :
      (r : Environment) → r.status.status ≡ enum_ptr "AVAILABLE" → is_synced r ≡ true
  unfolding is_synced enum_ptr string_eq
  available_is_synced r h = rw h refl

  module _ (M : PointersIsLawful P) (Q : Compare) (L : CompareIsLawful Q) where
    -- A resource with a spec that the service describes is read without a difference to it.
    pub read_back :
        (spec : EnvironmentSpec) (r : Environment) (cloud : Cloud E C) (n : String)
        (env : SdkEnvironment)
        → r.spec ≡ spec
        → InRange spec
        → HasMaps spec
        → IsNormal spec
        → spec.name ≡ some n
        → (C.get_environment (some n) cloud.world).0 ≡ ok (some env)
        → Echoes (create_input_of P spec) env
        → env.status ≡ "AVAILABLE"
        → NotFailed env
        → (r1 : Environment) × ((read_one E rm K P C (some r) cloud).0
            ≡ returns ((some r1, none), mirror_aws_tags r (some (observe P rm r env))))
          × (is_synced r1 ≡ true)
          × (differences Q spec r1.spec ≡ [])
    read_back spec r cloud n env at fits u normal named found e available other =
        let (r1, read, observed, state) =
          read_one-ok r cloud n env (ap (λ s. s.name) at ∙ named) found
            (ap is_failure_state available ∙ available_is_healthy) other in
        let same = sym at in
        let matches =
          observed_matches M Q L r env (subst InRange same fits)
            (subst (λ s. Echoes (create_input_of P s) env) same e) (subst HasMaps same u)
            (subst IsNormal same normal) in
        (
          r1,
          read,
          available_is_synced r1 (state ∙ ap enum_ptr available),
          subst (λ s. differences Q s r1.spec ≡ []) at
              (ap (differences Q r.spec) observed ∙ matches),
        )
