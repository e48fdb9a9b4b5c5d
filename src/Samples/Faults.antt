-- ===== src/Samples/Faults.antt =====
-- An instance of `Errors`: errors as trees.
use mwaa_controller.Common.{
  String, refl, ◌==◌, string_eq, Bool, true, false, Option, none, some, ℕ, ◌<>◌,
}
use mwaa_controller.Ext.Errors.{Errors, IsLawful, ApiError}

pub data Fault : Type 0 where
  plain : String → Fault
  api : ApiError → Fault
  sentinel : String → Fault
  terminal_of : Fault → Fault
  requeue_of : Fault → ℕ → Fault
  requeue_only : ℕ → Fault

abbrev pub fault_text : Fault → String
fault_text (plain s) = s
fault_text (api a) = a.text
fault_text (sentinel s) = s
fault_text (terminal_of e) = fault_text e
fault_text (requeue_of e d) = fault_text e
fault_text (requeue_only d) = "requeue"

abbrev pub fault_api : Fault → Option ApiError
fault_api (api a) = some a
fault_api (terminal_of e) = fault_api e
fault_api (requeue_of e d) = fault_api e
fault_api _ = none

abbrev pub fault_terminal : Fault → Bool
fault_terminal (terminal_of e) = true
fault_terminal (requeue_of e d) = fault_terminal e
fault_terminal _ = false

abbrev pub fault_same : Fault → Fault → Bool
fault_same (sentinel s) (sentinel t) = s == t
fault_same _ _ = false

abbrev pub fault_requeue : Option Fault → ℕ → Fault
fault_requeue none d = requeue_only d
fault_requeue (some e) d = requeue_of e d

abbrev pub faults : Errors
faults = record {
  Error = Fault;
  text = fault_text;
  same = fault_same;
  as_api_error = fault_api;
  aws_error = fault_api;
  as_terminal_error = fault_terminal;
  not_found = sentinel "resource not found";
  terminal = sentinel "resource is in terminal condition";
  secret_type_not_supported = sentinel "only opaque secrets can be used";
  secret_not_found = sentinel "kubernetes secret not found";
  missing_name_identifier = sentinel "nameOrID is required";
  new_terminal_error = terminal_of;
  errorf = plain;
  needed_after = fault_requeue;
  default_requeue_after = 30;
  reference_and_id_not_supported_for = λ f r. plain ("both " <> (f <> (" and " <> r)));
  reference_or_id_required_for = λ f r. plain ("neither " <> (f <> (" nor " <> r)));
  reference_terminal_for = λ k s n. plain (k <> " terminal");
  reference_not_synced_for = λ k s n. plain (k <> " not synced");
  reference_missing_target_field_for = λ k s n f. plain (k <> f);
}

pub faults-IsLawful : IsLawful faults
unfolding string_eq
faults-IsLawful = record {
  aws_error-eq = λ e. refl;
  terminal_error = λ e. refl;
  errorf_api = λ s. refl;
  errorf_terminal = λ s. refl;
  needed_after_api = λ e d. refl;
  needed_after_terminal = λ e d. refl;
  needed_after_secret_type = λ e d. refl;
  needed_after_secret = λ e d. refl;
  not_found_api = refl;
  not_found_terminal = refl;
  not_found_secret_type = refl;
  not_found_secret = refl;
}

-- The answer of a service that does not know an environment.
abbrev pub gone : Fault
gone = api (record { code = "ResourceNotFoundException"; text = "no such environment" })
