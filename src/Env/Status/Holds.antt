-- ===== src/Env/Status/Holds.antt =====
-- What `onError` and `onSuccess` keep of the conditions of what they are given.
use mwaa_controller.Common.{
  ◌≡◌, refl, ◌||◌, if◌then◌else◌, Option, none, some, List, Outcome, returns, panics, ◌>>=◌, Bool,
  true, false,
}
use mathlib.Core.Path.{subst}
use mwaa_controller.Api.{Environment, Condition, is_terminal, is_recoverable, is_resource_synced}
use mwaa_controller.Ext.Errors.{Errors}
use mwaa_controller.Env.Status.{
  Manager, Answer, set_status_defaults, with_conditions, conditions_after, update_conditions,
  on_error, on_success, has_kind, is_raised,
}
use mwaa_controller.Env.Status.Reports.{conditions_of, UniqueKinds, conditions_after-UniqueKinds}

-- A property of what is returned, if anything is.
abbrev pub Holds : {X : Type 0} → (X → Type 0) → Outcome X → Type 0
Holds P (returns x) = P x
Holds P (panics message) = Unit

pub Holds-of_eq :
    {X : Type 0} (P : X → Type 0) (o : Outcome X) → ((x : X) → o ≡ returns x → P x) → Holds P o
Holds-of_eq P (returns x) f = f x refl
Holds-of_eq P (panics message) f = tt

pub Holds-bind :
    {X Y : Type 0} (P : X → Type 0) (Q : Y → Type 0) (o : Outcome X) (next : X → Outcome Y)
    → Holds P o
    → ((x : X) → P x → Holds Q (next x))
    → Holds Q (o >>= next)
Holds-bind P Q (returns x) next p f = f x p
Holds-bind P Q (panics message) next p f = tt

-- Of a returned value.
pub Holds-returned :
    {X : Type 0} (P : X → Type 0) (o : Outcome X) (x : X) → o ≡ returns x → Holds P o → P x
Holds-returned P o x e h = subst (Holds P) e h

-- A property of the resource, if there is one.
abbrev pub Of : (Environment → Type 0) → Option Environment → Type 0
Of Q none = Unit
Of Q (some r) = Q r

-- The resource, if there is one, has at most one condition of each type.
abbrev pub Unique : Option Environment → Type 0
Unique res = Of (λ r. UniqueKinds (conditions_of r)) res

-- The same of a resource that is returned beside an error or nil.
abbrev pub Answered : {X : Type 0} → Option Environment × X → Type 0
Answered answer = Unique answer.0

module _ (E : Errors) (rm : Manager) (Q : Environment → Type 0) where
  -- The property holds of the resource, and of it with the conditions for the error or nil.
  abbrev Survives : Environment → Option E.Error → Type 0
  Survives r err =
      Q r
      × ((cs : List Condition)
          → conditions_after E err (conditions_of r) ≡ returns cs
          → Q (with_conditions (set_status_defaults rm r) cs))

  update_conditions-Of :
      (r : Environment) (err : Option E.Error)
      → Survives r err
      → Holds (Of Q) (update_conditions E rm r err)
  unfolding update_conditions set_status_defaults
  update_conditions-Of r err (q, step) =
      let After : List Condition → Type 0 =
        λ cs. conditions_after E err (conditions_of r) ≡ returns cs in
      Holds-bind After (Of Q) (conditions_after E err (conditions_of r)) _
        (Holds-of_eq After (conditions_after E err (conditions_of r)) (λ cs h. h))
        (λ cs h.
          chosen
            (has_kind is_terminal cs
              || (has_kind is_recoverable cs || has_kind is_resource_synced cs))
            _ (step cs h))
    where
      chosen : (b : Bool) (r1 : Environment) → Q r1 → Of Q (if b then some r1 else none)
      chosen true r1 v = v
      chosen false r1 v = tt

  either : (b : Bool) (x y : Answer E) → Of Q x.0 → Of Q y.0 → Of Q (if b then x else y).0
  either true x y u v = u
  either false x y u v = v

  pub on_success-Of :
      (r : Environment)
      → Survives r none
      → Holds (λ (a : Answer E). Of Q a.0) (on_success E rm (some r))
  unfolding on_success
  on_success-Of r s =
      Holds-bind (Of Q) (λ (a : Answer E). Of Q a.0) (update_conditions E rm r none) _
        (update_conditions-Of r none s)
        (λ o v.
          elim o
              as (λ k.
                Of Q k
                → Of Q
                    (elim k as (λ x. Answer E) [
                      | none ↦ (some r, none)
                      | some r1 ↦ (some r1, none)
                    ]).0) [ none ↦ λ w. s.0 | some r1 ↦ λ w. w ]
            v)

  pub on_error-Of :
      (r : Environment) (e : E.Error)
      → Survives r (some e)
      → Holds (λ (a : Answer E). Of Q a.0) (on_error E rm (some r) e)
  unfolding on_error
  on_error-Of r e s =
      Holds-bind (Of Q) (λ (a : Answer E). Of Q a.0) (update_conditions E rm r (some e)) _
        (update_conditions-Of r (some e) s)
        (λ o v.
          elim o
              as (λ k.
                Of Q k
                → Of Q
                    (elim k as (λ x. Answer E) [
                      | none ↦ (some r, some e)
                      | some r1 ↦
                          if is_raised is_terminal (conditions_of r1)
                          then (some r1, some E.terminal)
                          else (some r1, some e)
                    ]).0) [
                      | none ↦ λ w. s.0
                      | some r1 ↦ λ w.
                          either (is_raised is_terminal (conditions_of r1))
                            (some r1, some E.terminal) (some r1, some e) w w
                    ]
            v)

module _ (E : Errors) (rm : Manager) where
  pub on_success-Unique :
      (res : Option Environment)
      → Unique res
      → Holds (λ (a : Answer E). Unique a.0) (on_success E rm res)
  unfolding on_success
  on_success-Unique none u = tt
  on_success-Unique (some r) u =
      on_success-Of E rm (λ r. UniqueKinds (conditions_of r)) r
        (u, λ cs h. conditions_after-UniqueKinds E none (conditions_of r) cs h u)

  pub on_error-Unique :
      (res : Option Environment) (e : E.Error)
      → Unique res
      → Holds (λ (a : Answer E). Unique a.0) (on_error E rm res e)
  unfolding on_error
  on_error-Unique none e u = tt
  on_error-Unique (some r) e u =
      on_error-Of E rm (λ r. UniqueKinds (conditions_of r)) r e
        (u, λ cs h. conditions_after-UniqueKinds E (some e) (conditions_of r) cs h u)
