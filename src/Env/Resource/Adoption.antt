-- ===== src/Env/Resource/Adoption.antt =====
-- Adoption of an environment that exists already: the annotation gives the name that is read.

use mwaa_controller.Common.{String, ◌≡◌, ◌≢◌, refl, none, some}
use mwaa_controller.Common.{arith, string_eq}
use mwaa_controller.Common.Dict.{Dict, lookup}
use mwaa_controller.Api.{Environment}
use mwaa_controller.Ext.Errors.{Errors}
use mwaa_controller.Ext.Sdk.{Client}
use mwaa_controller.Ext.Runtime.{Conditions, Pointers}
use mwaa_controller.Env.Calls.{Cloud, recording, error_of}
use mwaa_controller.Env.Status.{Manager}
use mwaa_controller.Env.Read.{sdk_find, find_answer}
use mwaa_controller.Env.Read.Answers.{sdk_find-named}
use mwaa_controller.Env.Resource.{populate_resource_from_annotation, set_identifiers, with_name}

module _ (E : Errors) (K : Conditions) (P : Pointers) (C : Client E) (rm : Manager) where
  -- If the adoption fields have a name, `PopulateResourceFromAnnotation` succeeds, and `sdkFind`
  -- of the resource that it leaves makes one recorded call of GetEnvironment, with that name, and
  -- answers by what the call answers.
  pub adopted-sdk_find :
      (ko : Environment) (fields : Dict String) (name : String) (cloud : Cloud E C)
      → lookup "name" fields ≡ some name
      → let (adopted, e) = populate_resource_from_annotation E ko fields in
        let (resp, world) = C.get_environment (some name) cloud.world in
        (e ≡ none)
        × (sdk_find E K P C rm adopted cloud ≡ (
          find_answer E K P rm adopted resp,
          recording E C cloud world "READ_ONE" "GetEnvironment" (error_of resp),
        ))
  unfolding populate_resource_from_annotation
  adopted-sdk_find ko fields name cloud named = (
    rw (populate_resource_from_annotation, named) refl,
    rw (populate_resource_from_annotation, named)
        (sdk_find-named E K P C rm (with_name ko name) cloud refl),
  )

-- Both ways of naming a resource agree.
pub set_identifiers-populate :
    (E : Errors) (ko : Environment) (fields : Dict String) (name : String)
    → lookup "name" fields ≡ some name
    → name ≢ ""
    → set_identifiers E ko name ≡ populate_resource_from_annotation E ko fields
unfolding populate_resource_from_annotation set_identifiers
set_identifiers-populate E ko fields name named set =
    rw (populate_resource_from_annotation, named) (ground arith)
