-- ===== src/Env/Read/Answers.antt =====
-- How `sdkFind` ends, by the answer of GetEnvironment and by the state of the environment.
use mathlib.Core.Option
use mwaa_controller.Common.{String, ◌≡◌, ◌∙◌, ap, Option, none, some}
use mwaa_controller.Common.{arith, returns, err, inl, inr}
use mwaa_controller.Common.{Option-cases, string_eq}
use mwaa_controller.Api.{Environment}
use mwaa_controller.Ext.Errors.{Errors}
use mwaa_controller.Ext.Sdk.{Client}
use mwaa_controller.Ext.Runtime.{Conditions, Pointers}
use mwaa_controller.Env.Calls.{Cloud, error_of, recording}
use mwaa_controller.Env.Status.{Manager}
use mwaa_controller.Env.Read.{sdk_find, find_answer, read_error}

module _ (E : Errors) (K : Conditions) (P : Pointers) (C : Client E) (rm : Manager) where
  -- With a name, one call is made and recorded, and its answer decides.
  pub sdk_find-named :
      (r : Environment) (cloud : Cloud E C) {n : String}
      → r.spec.name ≡ some n
      → let (resp, world) = C.get_environment (some n) cloud.world in
        sdk_find E K P C rm r cloud ≡ (
          find_answer E K P rm r resp,
          recording E C cloud world "READ_ONE" "GetEnvironment" (error_of resp),
        )
  unfolding sdk_find
  sdk_find-named r cloud named = rw named

  -- The code of the service's error, if it is one.
  abbrev pub error_code_of : E.Error → Option String
  error_code_of e = Option.map (λ a. a.code) (E.as_api_error e)

  -- Of a resource with a name, an error of GetEnvironment with the code ResourceNotFoundException
  -- becomes `ackerr.NotFound`, with no resource.
  pub sdk_find-missing :
      (r : Environment) (cloud : Cloud E C) (n : String) (e : E.Error)
      → r.spec.name ≡ some n
      → (C.get_environment (some n) cloud.world).0 ≡ err e
      → error_code_of e ≡ some "ResourceNotFoundException"
      → (sdk_find E K P C rm r cloud).0 ≡ returns (none, some E.not_found)
  unfolding read_error
  sdk_find-missing r cloud n e named failed code =
      ap (λ x. x.0) (sdk_find-named r cloud named)
      ∙ ap (find_answer E K P rm r) failed
      ∙ elim (Option-cases (E.as_api_error e)) [
        | inl plain ↦ ground (arith, plain)
        | inr (a, api) ↦ ground (arith, api)
      ]
