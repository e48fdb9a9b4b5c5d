-- ===== src/Env/Manage/Missing.antt =====
-- What `ReadOne` of manager.go reports where the service has no such environment.
use mwaa_controller.Common.{String, ◌≡◌, ◌∙◌, ap, refl, false, none, some, returns, err, arith}
use mwaa_controller.Common.{◌⊎◌, inl, inr}
use mwaa_controller.Api.{Environment, is_terminal, is_recoverable}
use mwaa_controller.Ext.Errors.{Errors, IsLawful}
use mwaa_controller.Ext.Sdk.{Client}
use mwaa_controller.Ext.Runtime.{Conditions, Pointers}
use mwaa_controller.Env.Calls.{Cloud}
use mwaa_controller.Env.Status.{Manager, is_raised, is_terminal_error, terminal_by_text}
use mwaa_controller.Env.Status.{terminal_aws_error, recoverable_message}
use mwaa_controller.Env.Status.Changes.{AtMostOne, Raised}
use mwaa_controller.Env.Status.Reports.{conditions_of, on_error_recoverable}
use mwaa_controller.Env.Status.Same.{Kept, on_error-Kept}
use mwaa_controller.Env.TagFields.{mirror_aws_tags}
use mwaa_controller.Env.Read.{sdk_find}
use mwaa_controller.Env.Read.Answers.{sdk_find-missing, error_code_of}
use mwaa_controller.Env.Manage.{read_one, finish_read, report}

module _ (E : Errors) (K : Conditions) (P : Pointers) (C : Client E) (rm : Manager) where
  -- The resource has no name, or the service does not know it.
  abbrev pub Missing : Environment → Cloud E C → Type 0
  Missing r cloud =
      (r.spec.name ≡ none)
      ⊎ ((n : String) × (e : E.Error) × (r.spec.name ≡ some n)
          × ((C.get_environment (some n) cloud.world).0 ≡ err e)
          × (error_code_of E K P C rm e ≡ some "ResourceNotFoundException"))

  sdk_find_lem :
      (r : Environment) (cloud : Cloud E C)
      → Missing r cloud
      → (sdk_find E K P C rm r cloud).0 ≡ returns (none, some E.not_found)
  unfolding sdk_find
  sdk_find_lem r cloud (inl unnamed) = rw unnamed refl
  sdk_find_lem r cloud (inr (n, e, named, failed, code)) =
      sdk_find-missing E K P C rm r cloud n e named failed code

  module _ (L : IsLawful E) where
    not_found_is_recoverable :
        (is_terminal_error E E.not_found ≡ false)
        × (recoverable_message E E.not_found ≡ E.text E.not_found)
    unfolding is_terminal_error terminal_aws_error terminal_by_text recoverable_message
    not_found_is_recoverable =
        let plain : E.aws_error E.not_found ≡ none = L.aws_error-eq E.not_found ∙ L.not_found_api in
        (
          ground (
            arith, L.not_found_api, L.not_found_terminal, L.not_found_secret_type,
            L.not_found_secret,
          ),
          rw (recoverable_message, plain) refl,
        )

    -- Of a resource without a name, or one for which GetEnvironment fails with the code
    -- ResourceNotFoundException, `ReadOne` returns `ackerr.NotFound`, from which the reconciler
    -- knows that it has to create one, and the resource it was given, the same but for its
    -- conditions and the account and region in its metadata, with its Recoverable condition True
    -- and its Terminal one not; the argument is unchanged. Errors behave as documented, and the
    -- resource has at most one Terminal condition.
    pub read_one-Missing :
        (r : Environment) (cloud : Cloud E C)
        → Missing r cloud
        → AtMostOne is_terminal (conditions_of r)
        → (r1 : Environment) × ((read_one E rm K P C (some r) cloud).0
            ≡ returns ((some r1, some E.not_found), r))
          × Kept r r1
          × Raised is_recoverable (E.text E.not_found) (conditions_of r1)
          × (is_raised is_terminal (conditions_of r1) ≡ false)
    unfolding read_one report mirror_aws_tags
    read_one-Missing r cloud missing one =
        let (mild, text) = not_found_is_recoverable in
        let (r1, reported, raised, calm) = on_error_recoverable E L rm r E.not_found mild one in
        (
          r1,
          ap (finish_read E rm K P C r) (sdk_find_lem r cloud missing) ∙ rw reported refl,
          on_error-Kept E rm r r1 E.not_found _ reported,
          rw text at raised,
          calm,
        )
