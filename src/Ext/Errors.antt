-- ===== src/Ext/Errors.antt =====
-- Errors: `errors`, `fmt`, smithy, and the ACK runtime's packages `errors` and `requeue`.
use mwaa_controller.Common.{ℕ, String, ◌≡◌, Bool, true, false, Option, none, some}

-- What `smithy.APIError` gives: `ErrorCode()` and `Error()`.
pub record ApiError : Type 0 where
  pub code : String
  pub text : String

-- A `time.Duration` in nanoseconds.
abbrev pub Duration : Type 0
Duration = ℕ

pub record Errors : Type 1 where
  pub Error : Type 0
  -- `err.Error()`
  pub text : Error → String
  -- `==` on two `error` values
  pub same : Error → Error → Bool
  -- `errors.As` into a `smithy.APIError`
  pub as_api_error : Error → Option ApiError
  -- `ackerr.AWSError`
  pub aws_error : Error → Option ApiError
  -- `errors.As` into a `*ackerr.TerminalError`
  pub as_terminal_error : Error → Bool
  -- the sentinels of `ackerr`
  pub not_found : Error
  pub terminal : Error
  pub secret_type_not_supported : Error
  pub secret_not_found : Error
  pub missing_name_identifier : Error
  pub new_terminal_error : Error → Error
  -- `fmt.Errorf` with no `%w`: the text is made already
  pub errorf : String → Error
  -- `ackrequeue.NeededAfter` and its default
  pub needed_after : Option Error → Duration → Error
  pub default_requeue_after : Duration
  -- `ackerr.ResourceReference…For`
  pub reference_and_id_not_supported_for : String → String → Error
  pub reference_or_id_required_for : String → String → Error
  pub reference_terminal_for : String → String → String → Error
  pub reference_not_synced_for : String → String → String → Error
  pub reference_missing_target_field_for : String → String → String → String → Error

-- The documented behaviour of `errors.As` and of the helpers on it.
pub record IsLawful (E : Errors) : Type 0 where
  -- `AWSError` finds what `errors.As` finds
  pub aws_error-eq : (e : E.Error) → E.aws_error e ≡ E.as_api_error e
  -- `errors.As` finds a terminal error in itself
  pub terminal_error : (e : E.Error) → E.as_terminal_error (E.new_terminal_error e) ≡ true
  -- a plain error wraps nothing
  pub errorf_api : (s : String) → E.as_api_error (E.errorf s) ≡ none
  pub errorf_terminal : (s : String) → E.as_terminal_error (E.errorf s) ≡ false
  -- a requeue error wraps its cause
  pub needed_after_api :
      (e : E.Error) (d : Duration) → E.as_api_error (E.needed_after (some e) d) ≡ E.as_api_error e
  pub needed_after_terminal :
      (e : E.Error) (d : Duration)
      → E.as_terminal_error (E.needed_after (some e) d) ≡ E.as_terminal_error e
  -- a requeue error is a new value, other than the sentinels
  pub needed_after_secret_type :
      (e : E.Error) (d : Duration)
      → E.same (E.needed_after (some e) d) E.secret_type_not_supported ≡ false
  pub needed_after_secret :
      (e : E.Error) (d : Duration) → E.same (E.needed_after (some e) d) E.secret_not_found ≡ false
  -- a sentinel is a plain error, and no other one
  pub not_found_api : E.as_api_error E.not_found ≡ none
  pub not_found_terminal : E.as_terminal_error E.not_found ≡ false
  pub not_found_secret_type : E.same E.not_found E.secret_type_not_supported ≡ false
  pub not_found_secret : E.same E.not_found E.secret_not_found ≡ false
