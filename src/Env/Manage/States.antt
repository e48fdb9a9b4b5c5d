-- ===== src/Env/Manage/States.antt =====
-- What the controller makes of each state of an environment.
use mathlib.Core.Path.{subst}
use mwaa_controller.Common.{
  ◌≡◌, refl, sym, true, ◌↔◌, ◌⊎◌, inl, inr, string_eq, contains, none, some, [], ◌∷◌,
}
use mwaa_controller.Api.{Environment}
use mwaa_controller.Api.Enums.{EnvironmentStatusSdk, status_text, UpdateStatus, update_text}
use mwaa_controller.Api.Enums.{
  creating, create_failed, available, updating, deleting, deleted, unavailable, update_failed,
  rolling_back, creating_snapshot, pending, maintenance, update_success, update_pending,
  update_failure,
}
use mwaa_controller.Ext.Errors.{Errors}
use mwaa_controller.Ext.Runtime.{Pointers, Conditions}
use mwaa_controller.Ext.Sdk.{Client}
use mwaa_controller.Env.Status.{Manager}
use mwaa_controller.Env.Hooks.{handle_update_failed, unless_failed, check_last_update}
use mwaa_controller.Api.{LastUpdate}
use mwaa_controller.Env.Manage.{is_synced}
use mwaa_controller.Env.Read.{is_failure_state}
use mwaa_controller.Env.Write.{not_available}

available_iff :
    (s : EnvironmentStatusSdk)
    → (contains ("AVAILABLE" ∷ []) (status_text s) ≡ true) ↔ (s ≡ available)
unfolding string_eq is_failure_state
available_iff creating = (λ e. cc e, λ e. cc e)
available_iff create_failed = (λ e. cc e, λ e. cc e)
available_iff available = (λ e. refl, λ e. refl)
available_iff updating = (λ e. cc e, λ e. cc e)
available_iff deleting = (λ e. cc e, λ e. cc e)
available_iff deleted = (λ e. cc e, λ e. cc e)
available_iff unavailable = (λ e. cc e, λ e. cc e)
available_iff update_failed = (λ e. cc e, λ e. cc e)
available_iff rolling_back = (λ e. cc e, λ e. cc e)
available_iff creating_snapshot = (λ e. cc e, λ e. cc e)
available_iff pending = (λ e. cc e, λ e. cc e)
available_iff maintenance = (λ e. cc e, λ e. cc e)

failure_iff :
    (s : EnvironmentStatusSdk)
    → (is_failure_state (status_text s) ≡ true) ↔ ((s ≡ create_failed) ⊎ (s ≡ unavailable))
unfolding string_eq is_failure_state
failure_iff creating = (λ e. cc e, λ e. elim e [ inl d ↦ cc d | inr d ↦ cc d ])
failure_iff create_failed = (λ e. inl refl, λ e. refl)
failure_iff available = (λ e. cc e, λ e. elim e [ inl d ↦ cc d | inr d ↦ cc d ])
failure_iff updating = (λ e. cc e, λ e. elim e [ inl d ↦ cc d | inr d ↦ cc d ])
failure_iff deleting = (λ e. cc e, λ e. elim e [ inl d ↦ cc d | inr d ↦ cc d ])
failure_iff deleted = (λ e. cc e, λ e. elim e [ inl d ↦ cc d | inr d ↦ cc d ])
failure_iff unavailable = (λ e. inr refl, λ e. refl)
failure_iff update_failed = (λ e. cc e, λ e. elim e [ inl d ↦ cc d | inr d ↦ cc d ])
failure_iff rolling_back = (λ e. cc e, λ e. elim e [ inl d ↦ cc d | inr d ↦ cc d ])
failure_iff creating_snapshot = (λ e. cc e, λ e. elim e [ inl d ↦ cc d | inr d ↦ cc d ])
failure_iff pending = (λ e. cc e, λ e. elim e [ inl d ↦ cc d | inr d ↦ cc d ])
failure_iff maintenance = (λ e. cc e, λ e. elim e [ inl d ↦ cc d | inr d ↦ cc d ])

module _ (E : Errors) (P : Pointers) (C : Client E) (rm : Manager) where
  updatable_iff :
      (s : EnvironmentStatusSdk)
      → (not_available E P C rm (some (status_text s)) ≡ none) ↔ (s ≡ available)
  unfolding string_eq not_available
  updatable_iff creating = (λ e. cc e, λ e. cc e)
  updatable_iff create_failed = (λ e. cc e, λ e. cc e)
  updatable_iff available = (λ e. refl, λ e. refl)
  updatable_iff updating = (λ e. cc e, λ e. cc e)
  updatable_iff deleting = (λ e. cc e, λ e. cc e)
  updatable_iff deleted = (λ e. cc e, λ e. cc e)
  updatable_iff unavailable = (λ e. cc e, λ e. cc e)
  updatable_iff update_failed = (λ e. cc e, λ e. cc e)
  updatable_iff rolling_back = (λ e. cc e, λ e. cc e)
  updatable_iff creating_snapshot = (λ e. cc e, λ e. cc e)
  updatable_iff pending = (λ e. cc e, λ e. cc e)
  updatable_iff maintenance = (λ e. cc e, λ e. cc e)

  -- For each of the twelve states of an environment that the API lists: `IsSynced` is true only
  -- for AVAILABLE, `sdkUpdate` refuses an update for all but AVAILABLE, and only CREATE_FAILED and
  -- UNAVAILABLE count as failed. So a resource with a state is synced exactly if it may be
  -- updated, and no failed one is.
  pub states_agree :
      (s : EnvironmentStatusSdk) (r : Environment)
      → r.status.status ≡ some (status_text s)
      → ((is_synced r ≡ true) ↔ (s ≡ available))
        × ((not_available E P C rm r.status.status ≡ none) ↔ (s ≡ available))
        × ((is_failure_state (status_text s) ≡ true) ↔ ((s ≡ create_failed) ⊎ (s ≡ unavailable)))
  unfolding is_synced
  states_agree s r e = (rw (e) (available_iff s), rw (e) (updatable_iff s), failure_iff s)

module _ (E : Errors) (K : Conditions) where
  unless_failed_iff :
      (u : UpdateStatus) (r : Environment) (last_update : LastUpdate)
      → ((unless_failed E K r last_update (some (update_text u))).1 ≡ none) ↔ ¬ (u ≡ update_failure)
  unfolding string_eq
  unless_failed_iff update_success r last_update = (λ e d. cc d, λ f. refl)
  unless_failed_iff update_pending r last_update = (λ e d. cc d, λ f. refl)
  unless_failed_iff update_failure r last_update = (λ e d. cc e, λ f. elim (f refl) [ ])

  -- Of the states of an update, FAILED is the only one that `handleUpdateFailed` reports.
  update_reported :
      (u : UpdateStatus) (r : Environment) (last_update : LastUpdate)
      → r.status.last_update ≡ some last_update
      → last_update.status ≡ some (update_text u)
      → ((handle_update_failed E K r).1 ≡ none) ↔ ¬ (u ≡ update_failure)
  unfolding handle_update_failed
  update_reported u r last_update e f =
      subst (λ o. ((check_last_update E K r o).1 ≡ none) ↔ ¬ (u ≡ update_failure)) (sym e)
        (subst (λ t. ((unless_failed E K r last_update t).1 ≡ none) ↔ ¬ (u ≡ update_failure))
          (sym f) (unless_failed_iff u r last_update))
