-- ===== src/Env/Status/Synced.antt =====
-- The ResourceSynced condition that `SetSynced` of the runtime sets, and `onError` leaves alone.
use mwaa_controller.Common.{
  String, ◌≡◌, refl, sym, ap, ◌∙◌, Bool, Option, none, some, List, [], ◌∷◌, ◌++◌,
}
use mwaa_controller.Common.{returns, arith, inl, inr, Bool-cases, if◌then◌else◌, true}
use mwaa_controller.Common.{false}
use mwaa_controller.Api.{Environment, Condition, ConditionType, ConditionStatus}
use mwaa_controller.Api.{is_terminal, is_recoverable, is_resource_synced, terminal, recoverable}
use mwaa_controller.Api.{resource_synced, other}
use mwaa_controller.Ext.Errors.{Errors}
use mwaa_controller.Ext.Runtime.{Conditions}
use mwaa_controller.Env.Status.{Manager, conditions_after, on_error}
use mwaa_controller.Env.Status.{change_last, raise, lower, has_kind, is_terminal_error}
use mwaa_controller.Env.Status.{recoverable_message}
use mwaa_controller.Env.Status.Changes.{Disjoint}
use mwaa_controller.Env.Status.Reports.{conditions_of}
use mwaa_controller.Env.Status.Holds.{Of, Holds-returned, on_error-Of}

-- `FirstOfType`
abbrev pub first_of : (ConditionType → Bool) → List Condition → Option Condition
first_of p [] = none
first_of p (c ∷ cs) = let rest = first_of p cs in if p c.kind then some c else rest

-- The ResourceSynced condition has the status and the message.
abbrev pub Synced : ConditionStatus → Option String → List Condition → Type 0
Synced status message cs =
    (c : Condition) × (first_of is_resource_synced cs ≡ some c)
    × (c.status ≡ status)
    × (c.message ≡ message)

-- `SetSynced` sets the ResourceSynced condition to the status and the message it is given.
pub record SetsSynced (K : Conditions) : Type 0 where
  pub set_synced-Synced :
      (cs : List Condition) (status : ConditionStatus) (message reason : Option String)
      → Synced status message (K.set_synced cs status message reason)

module _ (p q : ConditionType → Bool) (apart : Disjoint p q) where
  first_of-change_last :
      (f : Condition → Condition)
      → ((c : Condition) → (f c).kind ≡ c.kind)
      → (cs : List Condition) → first_of p (change_last q f cs) ≡ first_of p cs
  first_of-change_last f keeps [] = refl
  first_of-change_last f keeps (c ∷ cs) =
      ground (arith, ap p (keeps c), apart c.kind, first_of-change_last f keeps cs)

  first_of-append :
      (cs : List Condition) (c : Condition)
      → q c.kind ≡ true
      → first_of p (cs ++ (c ∷ [])) ≡ first_of p cs
  first_of-append [] c h = ground (arith, apart c.kind h)
  first_of-append (d ∷ cs) c h = ground (arith, first_of-append cs c h)

  first_of-lower : (cs : List Condition) → first_of p (lower q cs) ≡ first_of p cs
  unfolding lower
  first_of-lower cs = first_of-change_last _ (λ c. refl) cs

  first_of-raise :
      (kind : ConditionType) (message : String) (cs : List Condition)
      → q kind ≡ true
      → first_of p (raise q kind message cs) ≡ first_of p cs
  unfolding raise
  first_of-raise kind message cs h = elim (Bool-cases (has_kind q cs)) [
    | inl found ↦ rw found (first_of-change_last _ (λ c. refl) cs)
    | inr new ↦ rw new (first_of-append cs _ h)
  ]

synced_not_terminal : Disjoint is_resource_synced is_terminal
synced_not_terminal terminal h = refl
synced_not_terminal recoverable h = refl
synced_not_terminal resource_synced h = cc
synced_not_terminal (other s) h = refl

synced_not_recoverable : Disjoint is_resource_synced is_recoverable
synced_not_recoverable terminal h = refl
synced_not_recoverable recoverable h = refl
synced_not_recoverable resource_synced h = cc
synced_not_recoverable (other s) h = refl

module _ (E : Errors) where
  -- The conditions for an error that is not terminal have the same ResourceSynced condition.
  first_of-conditions_after :
      (e : E.Error) (cs after : List Condition)
      → is_terminal_error E e ≡ false
      → conditions_after E (some e) cs ≡ returns after
      → first_of is_resource_synced after ≡ first_of is_resource_synced cs
  unfolding conditions_after
  first_of-conditions_after e cs after mild h =
      let at : returns
            (raise is_recoverable recoverable (recoverable_message E e) (lower is_terminal cs))
          ≡ returns after =
        rw mild at h in
      let same : raise is_recoverable recoverable (recoverable_message E e) (lower is_terminal cs)
          ≡ after =
        cc in
      ap (first_of is_resource_synced) (sym same)
      ∙ first_of-raise is_resource_synced is_recoverable synced_not_recoverable recoverable _ _ refl
      ∙ first_of-lower is_resource_synced is_terminal synced_not_terminal cs

  pub on_error-Synced :
      (rm : Manager) (r r1 : Environment) (e : E.Error) (x : Option E.Error)
      (status : ConditionStatus) (message : Option String)
      → is_terminal_error E e ≡ false
      → Synced status message (conditions_of r)
      → on_error E rm (some r) e ≡ returns (some r1, x)
      → Synced status message (conditions_of r1)
  on_error-Synced rm r r1 e x status message mild (c, first, s, m) h =
      let Same : Environment → Type 0 = λ r. Synced status message (conditions_of r) in
      Holds-returned (λ (a : Option Environment × Option E.Error). Of Same a.0) _ _ h
        (on_error-Of E rm Same r e (
          (c, first, s, m),
          λ cs after.
              (c, first_of-conditions_after e (conditions_of r) cs mild after ∙ first, s, m),
        ))
