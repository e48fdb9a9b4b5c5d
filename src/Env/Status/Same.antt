-- ===== src/Env/Status/Same.antt =====
-- What `onError` and `onSuccess` leave of the resource that they are given: all but its conditions
-- and the defaults of its metadata.
use mwaa_controller.Common.{◌≡◌, refl, Option, some, List}
use mwaa_controller.Common.{returns, inl, inr, Option-cases}
use mwaa_controller.Api.{Environment, Condition}
use mwaa_controller.Ext.Errors.{Errors}
use mwaa_controller.Env.Status.{
  Manager, arn_of, set_status_defaults, with_conditions, on_error, on_success,
}
use mwaa_controller.Env.Status.Holds.{Of, Holds-returned, on_error-Of, on_success-Of}

-- The second resource is the first one but for its conditions and the account and region in its
-- metadata.
pub record Kept (r r1 : Environment) : Type 0 where
  pub meta : r1.meta ≡ r.meta
  pub spec : r1.spec ≡ r.spec
  pub arn : arn_of r1.status ≡ arn_of r.status
  pub created_at : r1.status.created_at ≡ r.status.created_at
  pub last_update : r1.status.last_update ≡ r.status.last_update
  pub status : r1.status.status ≡ r.status.status
  pub webserver_url : r1.status.webserver_url ≡ r.status.webserver_url

module _ (E : Errors) (rm : Manager) where
  Kept-refl : (r : Environment) → Kept r r
  Kept-refl r = record {
    meta = refl;
    spec = refl;
    arn = refl;
    created_at = refl;
    last_update = refl;
    status = refl;
    webserver_url = refl;
  }

  Kept-conditions :
      (r : Environment) (cs : List Condition)
      → Kept r (with_conditions (set_status_defaults rm r) cs)
  unfolding set_status_defaults
  Kept-conditions r cs = record {
    meta = refl;
    spec = refl;
    arn = elim (Option-cases r.status.ack_resource_metadata) [
      | inl without ↦ rw without refl
      | inr (m, h) ↦ rw h refl
    ];
    created_at = refl;
    last_update = refl;
    status = refl;
    webserver_url = refl;
  }

  pub on_error-Kept :
      (r r1 : Environment) (e : E.Error) (x : Option E.Error)
      → on_error E rm (some r) e ≡ returns (some r1, x)
      → Kept r r1
  on_error-Kept r r1 e x h =
      Holds-returned (λ (a : Option Environment × Option E.Error). Of (Kept r) a.0) _ _ h
        (on_error-Of E rm (Kept r) r e (Kept-refl r, λ cs _. Kept-conditions r cs))

  pub on_success-Kept :
      (r r1 : Environment) (x : Option E.Error)
      → on_success E rm (some r) ≡ returns (some r1, x)
      → Kept r r1
  on_success-Kept r r1 x h =
      Holds-returned (λ (a : Option Environment × Option E.Error). Of (Kept r) a.0) _ _ h
        (on_success-Of E rm (Kept r) r (Kept-refl r, λ cs _. Kept-conditions r cs))

-- Other conditions on the first resource make no difference.
pub Kept-of_conditions :
    (r r1 : Environment) (cs : List Condition) → Kept (with_conditions r cs) r1 → Kept r r1
Kept-of_conditions r r1 cs k = record {
  meta = k.meta;
  spec = k.spec;
  arn = k.arn;
  created_at = k.created_at;
  last_update = k.last_update;
  status = k.status;
  webserver_url = k.webserver_url;
}
