-- ===== src/Env/References/Resolved.antt =====
-- What each resolver does where it returns no error.
use mwaa_controller.Common.{
  String, ◌≡◌, refl, ap, Bool, true, false, Option, none, some, List, [], ◌∷◌, ◌++◌,
}
use mwaa_controller.Common.{ok, inl, inr, Option-cases, elements}
use mwaa_controller.Common.Results.{Result-cases}
use mwaa_controller.Api.{Environment, NetworkConfiguration, ResourceRef, RefFrom}
use mwaa_controller.Ext.Errors.{Errors}
use mwaa_controller.Ext.Kubernetes.{Reader}
use mwaa_controller.Env.References.{StateOf}
use mwaa_controller.Env.References.{
  resolve_security_groups, resolve_subnets, resolve_field, resolve_each,
}
use mwaa_controller.Env.References.{from_of, and_then, or_invalid, Resolved}
use mwaa_controller.Env.References.{resolve_from}
use mwaa_controller.Env.References.{security_group_state, subnet_state}

module _ (E : Errors) (R : Reader E) where
  -- The value of a field after its reference is resolved, or as it was where there is none.
  abbrev pub FieldResolved :
      String → StateOf E → String → String → Option RefFrom → Option String → Option String → Type 0
  FieldResolved kind state path namespace none before after = after ≡ before
  FieldResolved kind state path namespace (some arr) before after =
      (v : String) × (resolve_from E R kind state path namespace arr ≡ ok v) × (after ≡ some v)

  -- The identifiers after every reference is resolved: their values, in order, after those that
  -- were there.
  abbrev pub IdsResolved :
      String
      → StateOf E
      → String
      → String
      → List (Option ResourceRef)
      → Option (List (Option String))
      → Option (List (Option String))
      → Type 0
  IdsResolved kind state path namespace [] before after = after ≡ before
  IdsResolved kind state path namespace (ref ∷ refs) before after = elim (from_of ref) [
    | none ↦ IdsResolved kind state path namespace refs before after
    | some arr ↦
        (v : String) × (resolve_from E R kind state path namespace arr ≡ ok v)
        × IdsResolved kind state path namespace refs (some (elements before ++ (some v ∷ []))) after
  ]

  pub field-resolved :
      (kind : String) (state : StateOf E) (path : String) (ko : Environment) (o : Option RefFrom)
      (set : String → Environment) (get : Environment → Option String)
      → ((v : String) → get (set v) ≡ some v)
      → (resolve_field E R kind state path ko o set).2 ≡ none
      → FieldResolved kind state path ko.meta.namespace o
          (get ko)
          (get (resolve_field E R kind state path ko o set).0)
  field-resolved kind state path ko none set get g h = refl
  field-resolved kind state path ko (some arr) set get g h =
      elim (Result-cases (resolve_from E R kind state path ko.meta.namespace arr)) [
        | inl (e, failed) ↦ cc (rw (resolve_field, failed) at h)
        | inr (v, found) ↦ rw (resolve_field, found) (v, refl, g v)
      ]

  each-resolved :
      (kind : String) (state : StateOf E) (path namespace : String)
      (refs : List (Option ResourceRef)) (ids after : Option (List (Option String)))
      (has found : Bool)
      → resolve_each E R kind state path namespace refs ids has ≡ (after, found, none)
      → IdsResolved kind state path namespace refs ids after
  each-resolved kind state path namespace [] ids after has found h = cc
  each-resolved kind state path namespace (ref ∷ refs) ids after has found h =
      elim (Option-cases (from_of ref)) [
        | inl plain ↦
            rw (IdsResolved, plain)
              (each-resolved kind state path namespace refs ids after has found
                (rw (resolve_each, plain) at h))
        | inr (arr, named) ↦ elim (Result-cases (resolve_from E R kind state path namespace arr)) [
          | inl (e, failed) ↦ cc (rw (resolve_each, named, failed) at h)
          | inr (v, got) ↦
              rw (IdsResolved, named)
                (
                  v,
                  got,
                  each-resolved kind state path namespace refs
                      (some (elements ids ++ (some v ∷ []))) after true found
                      (rw (resolve_each, named, got) at h),
                )
        ]
      ]

  pub and_then-ok :
      (first : Resolved E) (next : Environment → Resolved E)
      → (and_then E R first next).2 ≡ none
      → (first.2 ≡ none)
        × ((next first.0).2 ≡ none)
        × ((and_then E R first next).0 ≡ (next first.0).0)
  and_then-ok (ko, has, some e) next h = cc
  and_then-ok (ko, has, none) next h = (refl, h, refl)

  pub or_invalid-ok :
      (invalid : Option E.Error) (all : Resolved E)
      → (or_invalid E R invalid all).2 ≡ none
      → (invalid ≡ none) × (all.2 ≡ none) × ((or_invalid E R invalid all).0 ≡ all.0)
  or_invalid-ok invalid (ko, has, some e) h = cc
  or_invalid-ok invalid (ko, has, none) h = (h, refl, refl)

  pub groups-none :
      (ko : Environment)
      → ko.spec.network_configuration ≡ none
      → (resolve_security_groups E R ko).0.spec.network_configuration ≡ none
  unfolding resolve_security_groups
  groups-none ko h = rw h refl

  pub subnets-none :
      (ko : Environment)
      → ko.spec.network_configuration ≡ none
      → (resolve_subnets E R ko).0.spec.network_configuration ≡ none
  unfolding resolve_subnets
  subnets-none ko h = rw h refl

  pub groups-resolved :
      (ko : Environment) (n : NetworkConfiguration)
      → ko.spec.network_configuration ≡ some n
      → (resolve_security_groups E R ko).2 ≡ none
      → (ids : Option (List (Option String))) × ((resolve_security_groups E R
            ko).0.spec.network_configuration
          ≡ some (record n { security_group_ids = ids }))
        × IdsResolved "SecurityGroup"
            (security_group_state E)
            "NetworkConfiguration.SecurityGroupRefs"
            ko.meta.namespace
            n.security_group_refs
            n.security_group_ids
            ids
  unfolding resolve_security_groups
  groups-resolved ko n h done =
      let out =
        resolve_each E R "SecurityGroup" (security_group_state E)
          "NetworkConfiguration.SecurityGroupRefs" ko.meta.namespace n.security_group_refs
          n.security_group_ids false in
      let ended : out.2 ≡ none = rw h at done in
      (
        out.0,
        rw h refl,
        each-resolved "SecurityGroup" (security_group_state E)
            "NetworkConfiguration.SecurityGroupRefs" ko.meta.namespace n.security_group_refs
            n.security_group_ids out.0 false out.1 (ap (λ e. (out.0, out.1, e)) ended),
      )

  pub subnets-resolved :
      (ko : Environment) (n : NetworkConfiguration)
      → ko.spec.network_configuration ≡ some n
      → (resolve_subnets E R ko).2 ≡ none
      → (ids : Option (List (Option String))) × ((resolve_subnets E R
            ko).0.spec.network_configuration
          ≡ some (record n { subnet_ids = ids }))
        × IdsResolved "Subnet"
            (subnet_state E)
            "NetworkConfiguration.SubnetRefs"
            ko.meta.namespace
            n.subnet_refs
            n.subnet_ids
            ids
  unfolding resolve_subnets
  subnets-resolved ko n h done =
      let out =
        resolve_each E R "Subnet" (subnet_state E) "NetworkConfiguration.SubnetRefs"
          ko.meta.namespace n.subnet_refs n.subnet_ids false in
      let ended : out.2 ≡ none = rw h at done in
      (
        out.0,
        rw h refl,
        each-resolved "Subnet" (subnet_state E) "NetworkConfiguration.SubnetRefs" ko.meta.namespace
            n.subnet_refs n.subnet_ids out.0 false out.1 (ap (λ e. (out.0, out.1, e)) ended),
      )
