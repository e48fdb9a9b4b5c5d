-- ===== src/Env/Status/Kinds.antt =====
-- Conditions by type.
use mwaa_controller.Common.{String, Bool, false, ◌||◌, ◌&&◌, Option, none, some, List, []}
use mwaa_controller.Common.{◌∷◌, ◌++◌, if◌then◌else◌}
use mwaa_controller.Api.{Condition, ConditionType, status_true, status_false, is_true}

-- The pointer that the loop over the conditions leaves: the last condition of the type.
abbrev pub last_of : (ConditionType → Bool) → List Condition → Option Condition
last_of p [] = none
last_of p (c ∷ cs) = elim (last_of p cs) [
  | some d ↦ some d
  | none ↦ if p c.kind then some c else none
]

-- Whether that pointer is not nil.
abbrev pub has_kind : (ConditionType → Bool) → List Condition → Bool
has_kind p [] = false
has_kind p (c ∷ cs) = has_kind p cs || p c.kind

-- A change through that pointer.
abbrev pub change_last :
    (ConditionType → Bool) → (Condition → Condition) → List Condition → List Condition
change_last p f [] = []
change_last p f (c ∷ cs) =
    if has_kind p cs then c ∷ change_last p f cs else if p c.kind then f c ∷ cs else c ∷ cs

-- The condition is found or appended, and gets the status True and the message.
unfoldable pub raise :
    (ConditionType → Bool) → ConditionType → String → List Condition → List Condition
raise p kind message cs =
    if has_kind p cs
    then change_last p (λ c. record c { status = status_true; message = some message }) cs
    else cs
      ++ (record { kind = kind; status = status_true; message = some message; reason = none } ∷ [])

-- The condition, if there is one, gets the status False and no message.
unfoldable pub lower : (ConditionType → Bool) → List Condition → List Condition
lower p cs = change_last p (λ c. record c { status = status_false; message = none }) cs

-- Some condition of the type has the status True.
abbrev pub is_raised : (ConditionType → Bool) → List Condition → Bool
is_raised p [] = false
is_raised p (c ∷ cs) = (p c.kind && is_true c.status) || is_raised p cs
