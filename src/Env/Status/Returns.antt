-- ===== src/Env/Status/Returns.antt =====
-- `onError` and `onSuccess` return, and keep the spec, the state and the ARN.
use mwaa_controller.Common.{◌≡◌, refl, ◌||◌, Option, none, some, List}
use mwaa_controller.Common.{returns, inl, inr, Bool-cases, Option-cases}
use mwaa_controller.Api.{Environment, Condition, is_terminal}
use mwaa_controller.Ext.Errors.{Errors, IsLawful}
use mwaa_controller.Env.Status.{Manager, Answer, arn_of, set_status_defaults, with_conditions}
use mwaa_controller.Env.Status.{is_terminal_error, conditions_after, update_conditions, lower}
use mwaa_controller.Env.Status.{on_error, on_success, has_kind}
use mwaa_controller.Env.Status.Reports.{conditions_of, terminal_message_total}
use mwaa_controller.Api.{is_recoverable, is_resource_synced}

module _ (E : Errors) (rm : Manager) where
  -- `onSuccess` returns the resource with its spec, its ARN and its state, and no error.
  pub on_success_keeps :
      (r : Environment)
      → (r1 : Environment) × (on_success E rm (some r) ≡ returns (some r1, none))
        × (r1.spec ≡ r.spec)
        × (arn_of r1.status ≡ arn_of r.status)
        × (r1.status.status ≡ r.status.status)
  unfolding on_success update_conditions conditions_after set_status_defaults
  on_success_keeps r =
      let down = lower is_recoverable (lower is_terminal (conditions_of r)) in
      let kept = with_conditions (set_status_defaults rm r) down in
      let arn : arn_of kept.status ≡ arn_of r.status =
        elim (Option-cases r.status.ack_resource_metadata) [
          | inl without ↦ rw without refl
          | inr (m, h) ↦ rw h refl
        ] in
      elim (Bool-cases (
        has_kind is_terminal down
        || (has_kind is_recoverable down || has_kind is_resource_synced down))) [
          | inl some_kind ↦ (kept, rw some_kind refl, refl, arn, refl)
          | inr no_kind ↦ (r, rw no_kind refl, refl, refl, refl)
        ]

  pub on_success_total :
      (res : Option Environment) → (a : Answer E) × (on_success E rm res ≡ returns a)
  unfolding on_success
  on_success_total none = (_, refl)
  on_success_total (some r) = let (r1, h, _, _, _) = on_success_keeps r in (_, h)

  module _ (L : IsLawful E) where
    conditions_after_total :
        (e : E.Error) (cs : List Condition)
        → (cs' : List Condition) × (conditions_after E (some e) cs ≡ returns cs')
    unfolding conditions_after
    conditions_after_total e cs = elim (Bool-cases (is_terminal_error E e)) [
      | inr mild ↦ rw mild (_, refl)
      | inl fatal ↦ let (m, h) = terminal_message_total E L e fatal in rw (fatal, h) (_, refl)
    ]

    -- `onError` returns: a terminal error has a message.
    pub on_error_total :
        (res : Option Environment) (e : E.Error)
        → (a : Answer E) × (on_error E rm res e ≡ returns a)
    unfolding on_error update_conditions
    on_error_total none e = (_, refl)
    on_error_total (some r) e =
        let (cs, h) = conditions_after_total e (conditions_of (set_status_defaults rm r)) in
        rw h (_, refl)
