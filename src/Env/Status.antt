-- ===== src/Env/Status.antt =====
-- The status that the manager keeps on a resource: `setStatusDefaults`, `updateConditions` and
-- `terminalAWSError` of sdk.go, `onError` and `onSuccess` of manager.go. A condition is found by
-- its type, the last one of the type if there are several, and is changed in place.
mod Kinds
pub mod Changes
pub mod Reports
pub mod Returns
pub mod Holds
pub mod Same
pub mod Synced
mod Tests
unfoldable pub use Kinds.*
use mwaa_controller.Common.{String, Bool, false, ◌||◌, ◌&&◌, Option, none, some, List}
use mwaa_controller.Common.{◌∷◌, ◌++◌, Outcome, returns, panics, ◌>>=◌, elements, ◌==◌}
use mwaa_controller.Common.{string_eq, if◌then◌else◌}
use mwaa_controller.Api.{Environment, EnvironmentStatus, ResourceMetadata, Condition, terminal}
use mwaa_controller.Api.{recoverable, is_terminal, is_recoverable, is_resource_synced}
use mwaa_controller.Ext.Errors.{Errors}

-- The fields of `resourceManager` that end up in a status.
pub record Manager : Type 0 where
  pub aws_account_id : String
  pub aws_region : String

abbrev pub or_default : Option String → String → Option String
or_default none d = some d
or_default (some s) d = some s

abbrev pub empty_metadata : ResourceMetadata
empty_metadata = record { arn = none; owner_account_id = none; region = none }

-- `&ackv1alpha1.ResourceMetadata{}` where there is none
abbrev pub metadata_of : Option ResourceMetadata → ResourceMetadata
metadata_of none = empty_metadata
metadata_of (some m) = m

-- `latest.ko.Status.ACKResourceMetadata.ARN`, which the code dereferences.
abbrev pub arn_of : EnvironmentStatus → Option String
arn_of status = elim status.ack_resource_metadata [ none ↦ none | some m ↦ m.arn ]

-- `setStatusDefaults`
unfoldable pub set_status_defaults : Manager → Environment → Environment
set_status_defaults rm ko =
    let m = metadata_of ko.status.ack_resource_metadata in
    record ko {
      status = record (ko.status) {
        ack_resource_metadata = some (record m {
          owner_account_id = or_default m.owner_account_id rm.aws_account_id;
          region = or_default m.region rm.aws_region;
        });
        conditions = some (elements ko.status.conditions);
      };
    }

abbrev pub with_conditions : Environment → List Condition → Environment
with_conditions ko cs = record ko { status = record (ko.status) { conditions = some cs } }

-- A resource or nil, and an error or nil.
abbrev pub Answer : Errors → Type 0
Answer E = Option Environment × Option E.Error

module _ (E : Errors) where
  -- `terminalAWSError`
  unfoldable pub terminal_aws_error : E.Error → Bool
  terminal_aws_error err = elim (E.as_api_error err) [
    | none ↦ false
    | some terminal_err ↦ terminal_err.code == "ValidationException"
  ]

  -- `err == ackerr.SecretTypeNotSupported || err == ackerr.SecretNotFound || errors.As(err, &termError)`
  unfoldable pub terminal_by_text : E.Error → Bool
  terminal_by_text err =
      E.same err E.secret_type_not_supported
      || (E.same err E.secret_not_found || E.as_terminal_error err)

  -- The test of `updateConditions` for a terminal error.
  unfoldable pub is_terminal_error : E.Error → Bool
  is_terminal_error err = terminal_aws_error err || terminal_by_text err

  -- The message of the terminal condition. `awsErr.Error()` on nil panics.
  unfoldable pub terminal_message : E.Error → Outcome String
  terminal_message err =
      if terminal_by_text err then returns (E.text err) else elim (E.aws_error err) [
        | none ↦ panics "nil pointer dereference"
        | some aws_err ↦ returns (aws_err.text)
      ]

  -- The message of the recoverable condition.
  unfoldable pub recoverable_message : E.Error → String
  recoverable_message err = elim (E.aws_error err) [
    | none ↦ E.text err
    | some aws_err ↦ aws_err.text
  ]

  -- The conditions after `updateConditions`, for an error or nil.
  unfoldable pub conditions_after : Option E.Error → List Condition → Outcome (List Condition)
  conditions_after none cs = returns (lower is_recoverable (lower is_terminal cs))
  conditions_after (some err) cs =
      if is_terminal_error err
      then (terminal_message err >>= λ message. returns (raise is_terminal terminal message cs))
      else returns
          (raise is_recoverable recoverable (recoverable_message err) (lower is_terminal cs))

  -- `updateConditions`: nil, false if there is no condition of the three types. What the code
  -- appends or has found is in the list, so the three tests for nil are tests on the list.
  unfoldable pub update_conditions :
      Manager → Environment → Option E.Error → Outcome (Option Environment)
  update_conditions rm r err =
      let ko = set_status_defaults rm r in
      conditions_after err (elements ko.status.conditions) >>= λ cs. returns (
        if has_kind is_terminal cs || (has_kind is_recoverable cs || has_kind is_resource_synced cs)
        then some (with_conditions ko cs)
        else none)

  -- `onError`
  unfoldable pub on_error : Manager → Option Environment → E.Error → Outcome (Answer E)
  on_error rm none err = returns (none, some err)
  on_error rm (some r) err = update_conditions rm r (some err) >>= λ updated.
      returns (elim updated [
        | none ↦ (some r, some err)
        | some r1 ↦
            if is_raised is_terminal (elements r1.status.conditions)
            then (some r1, some E.terminal)
            else (some r1, some err)
      ])

  -- `onSuccess`
  unfoldable pub on_success : Manager → Option Environment → Outcome (Answer E)
  on_success rm none = returns (none, none)
  on_success rm (some r) = update_conditions rm r none >>= λ updated.
      returns (elim updated [ none ↦ (some r, none) | some r1 ↦ (some r1, none) ])
