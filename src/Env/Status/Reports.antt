-- ===== src/Env/Status/Reports.antt =====
-- What `onError` and `onSuccess` report in the conditions and as an error.
use mwaa_controller.Common.{
  String, ◌≡◌, refl, ◌∙◌, Bool, true, false, ◌||◌, Option, none, some, List,
}
use mwaa_controller.Common.{
  arith, elements, Outcome, returns, panics, Bool-cases, inl, inr, Option-cases,
}
use mwaa_controller.Common.{◌>>=◌}
use mwaa_controller.Api.{Environment, Condition, ConditionType, terminal, recoverable, is_terminal}
use mwaa_controller.Api.{resource_synced, other, is_recoverable, is_resource_synced}
use mwaa_controller.Ext.Errors.{Errors, IsLawful}
use mwaa_controller.Env.Status.{Manager, set_status_defaults, with_conditions, is_raised}
use mwaa_controller.Env.Status.{terminal_aws_error, terminal_by_text, is_terminal_error, has_kind}
use mwaa_controller.Env.Status.{terminal_message, recoverable_message, conditions_after}
use mwaa_controller.Env.Status.{update_conditions, on_error, on_success, raise, lower}
use mwaa_controller.Env.Status.Changes.{AtMostOne, Raised, Disjoint, is_raised-lower, raise-Raised}
use mwaa_controller.Env.Status.Changes.{is_raised_of_Raised, has_kind_of_Raised}
use mwaa_controller.Env.Status.Changes.{is_raised-lower_other, is_raised-raise_other}
use mwaa_controller.Env.Status.Changes.{
  AtMostOne-lower, AtMostOne-raise, is_raised-eq-false, has_kind-lower,
}

terminal_not_recoverable : Disjoint is_terminal is_recoverable
terminal_not_recoverable terminal h = cc
terminal_not_recoverable recoverable h = refl
terminal_not_recoverable resource_synced h = refl
terminal_not_recoverable (other s) h = refl

abbrev pub conditions_of : Environment → List Condition
conditions_of ko = elements ko.status.conditions

module _ (E : Errors) (L : IsLawful E) (err : E.Error) where
  -- A terminal error has a message.
  pub terminal_message_total :
      is_terminal_error E err ≡ true → (m : String) × (terminal_message E err ≡ returns m)
  unfolding is_terminal_error terminal_aws_error terminal_message
  terminal_message_total h = elim (Bool-cases (terminal_by_text E err)) [
    | inl by_text ↦ (E.text err, ground arith)
    | inr by_code ↦ elim (Option-cases (E.as_api_error err)) [
      | inl none_found ↦ ground arith
      | inr (a, found) ↦ (a.text, ground (arith, L.aws_error-eq err))
    ]
  ]

module _ (E : Errors) (L : IsLawful E) (rm : Manager) (r : Environment) (err : E.Error) where
  abbrev reported : List Condition → Environment
  reported cs = with_conditions (set_status_defaults rm r) cs

  conditions_of-defaults : conditions_of (set_status_defaults rm r) ≡ conditions_of r
  unfolding set_status_defaults
  conditions_of-defaults = refl

  after_terminal :
      (m : String)
      → is_terminal_error E err ≡ true
      → terminal_message E err ≡ returns m
      → conditions_after E (some err) (conditions_of r)
        ≡ returns (raise is_terminal terminal m (conditions_of r))
  unfolding conditions_after
  after_terminal m h e = rw (h, e)

  after_recoverable :
      is_terminal_error E err ≡ false
      → conditions_after E (some err) (conditions_of r)
        ≡ returns (
            raise is_recoverable recoverable
              (recoverable_message E err)
              (lower is_terminal (conditions_of r)))
  unfolding conditions_after
  after_recoverable h = rw h

  -- `updateConditions` with a condition of one of the types in its result.
  update_conditions-eq :
      (e : Option E.Error) (cs : List Condition)
      → conditions_after E e (conditions_of r) ≡ returns cs
      → has_kind is_terminal cs || (has_kind is_recoverable cs || has_kind is_resource_synced cs)
        ≡ true
      → update_conditions E rm r e ≡ returns (some (reported cs))
  unfolding update_conditions set_status_defaults
  update_conditions-eq e cs h k = rw h (rw k)

  -- A terminal error is answered by `ackerr.Terminal`, and the Terminal condition is True with the
  -- message of the error: its text, or that of the AWS error in it. Errors behave as documented.
  pub on_error_terminal :
      is_terminal_error E err ≡ true
      → (r1 : Environment) × (m : String) × (on_error E rm (some r) err
          ≡ returns (some r1, some E.terminal))
        × (terminal_message E err ≡ returns m)
        × Raised is_terminal m (conditions_of r1)
  unfolding on_error
  on_error_terminal h =
      let (m, e) = terminal_message_total E L err h in
      let cs = raise is_terminal terminal m (conditions_of r) in
      let up = raise-Raised is_terminal terminal m (conditions_of r) refl in
      let eq =
        update_conditions-eq (some err) cs (after_terminal m h e)
          (ground (arith, has_kind_of_Raised is_terminal m cs up)) in
      (reported cs, m, rw eq (ground (arith, is_raised_of_Raised is_terminal m cs up)), e, up)

  -- Any other error is answered by itself: the Recoverable condition is True with its message, and
  -- no Terminal condition is True, if the resource came with at most one of them. Errors behave as
  -- documented.
  pub on_error_recoverable :
      is_terminal_error E err ≡ false
      → AtMostOne is_terminal (conditions_of r)
      → (r1 : Environment) × (on_error E rm (some r) err ≡ returns (some r1, some err))
        × Raised is_recoverable (recoverable_message E err) (conditions_of r1)
        × (is_raised is_terminal (conditions_of r1) ≡ false)
  unfolding on_error
  on_error_recoverable h u =
      let m = recoverable_message E err in
      let down = lower is_terminal (conditions_of r) in
      let cs = raise is_recoverable recoverable m down in
      let up = raise-Raised is_recoverable recoverable m down refl in
      let eq =
        update_conditions-eq (some err) cs (after_recoverable h)
          (ground (arith, has_kind_of_Raised is_recoverable m cs up)) in
      let clear : is_raised is_terminal cs ≡ false =
        is_raised-raise_other is_terminal is_recoverable terminal_not_recoverable recoverable m down
          refl
        ∙ is_raised-lower is_terminal (conditions_of r) u in
      (reported cs, rw (eq, clear), up, clear)

-- At most one condition of each type that the manager writes or tests.
pub record UniqueKinds (cs : List Condition) : Type 0 where
  pub one_terminal : AtMostOne is_terminal cs
  pub one_recoverable : AtMostOne is_recoverable cs
  pub one_synced : AtMostOne is_resource_synced cs

lower-UniqueKinds :
    (q : ConditionType → Bool) (cs : List Condition) → UniqueKinds cs → UniqueKinds (lower q cs)
lower-UniqueKinds q cs u = record {
  one_terminal = AtMostOne-lower is_terminal q cs u.one_terminal;
  one_recoverable = AtMostOne-lower is_recoverable q cs u.one_recoverable;
  one_synced = AtMostOne-lower is_resource_synced q cs u.one_synced;
}

-- A condition of one class that is appended finds none of its class.
raise-UniqueKinds :
    (q : ConditionType → Bool) (kind : ConditionType) (m : String) (cs : List Condition)
    → (is_terminal kind ≡ true → has_kind is_terminal cs ≡ true → has_kind q cs ≡ true)
    → (is_recoverable kind ≡ true → has_kind is_recoverable cs ≡ true → has_kind q cs ≡ true)
    → (is_resource_synced kind ≡ true
        → has_kind is_resource_synced cs ≡ true
        → has_kind q cs ≡ true)
    → UniqueKinds cs
    → UniqueKinds (raise q kind m cs)
raise-UniqueKinds q kind m cs t c y u = record {
  one_terminal = AtMostOne-raise is_terminal q kind m cs t u.one_terminal;
  one_recoverable = AtMostOne-raise is_recoverable q kind m cs c u.one_recoverable;
  one_synced = AtMostOne-raise is_resource_synced q kind m cs y u.one_synced;
}

after_terminal-UniqueKinds :
    (m : Outcome String) (cs cs' : List Condition)
    → (m >>= λ message. returns (raise is_terminal terminal message cs)) ≡ returns cs'
    → UniqueKinds cs
    → UniqueKinds cs'
after_terminal-UniqueKinds (panics s) cs cs' h u = cc
after_terminal-UniqueKinds (returns m) cs cs' h u =
    let e : raise is_terminal terminal m cs ≡ cs' = cc in
    rw (← e) (raise-UniqueKinds is_terminal terminal m cs (λ _ k. k) (λ h k. cc) (λ h k. cc) u)

module _ (E : Errors) where
  -- Where `updateConditions` returns, it keeps that there is at most one condition of each of the
  -- types Terminal, Recoverable and ResourceSynced.
  pub conditions_after-UniqueKinds :
      (e : Option E.Error) (cs cs' : List Condition)
      → conditions_after E e cs ≡ returns cs'
      → UniqueKinds cs
      → UniqueKinds cs'
  unfolding conditions_after
  conditions_after-UniqueKinds none cs cs' h u =
      let e : lower is_recoverable (lower is_terminal cs) ≡ cs' = cc in
      rw (← e) (lower-UniqueKinds is_recoverable _ (lower-UniqueKinds is_terminal cs u))
  conditions_after-UniqueKinds (some err) cs cs' h u = elim (Bool-cases (is_terminal_error E err)) [
    | inl fatal ↦ after_terminal-UniqueKinds (terminal_message E err) cs cs' (rw fatal at h) u
    | inr mild ↦
        let m = recoverable_message E err in
        let down = lower is_terminal cs in
        let e : raise is_recoverable recoverable m down ≡ cs' = cc (rw mild at h) in
        rw (← e) (
          raise-UniqueKinds is_recoverable recoverable m down (λ h k. cc) (λ _ k. k) (λ h k. cc)
            (lower-UniqueKinds is_terminal cs u))
  ]

module _ (E : Errors) (rm : Manager) (r : Environment) where
  -- On success no error is returned, and no Terminal and no Recoverable condition is True, if the
  -- resource came with at most one condition of each type.
  pub on_success_clears :
      UniqueKinds (conditions_of r)
      → (r1 : Environment) × (on_success E rm (some r) ≡ returns (some r1, none))
        × (is_raised is_terminal (conditions_of r1) ≡ false)
        × (is_raised is_recoverable (conditions_of r1) ≡ false)
  unfolding on_success update_conditions conditions_after set_status_defaults
  on_success_clears u =
      let cs = conditions_of r in
      let down = lower is_recoverable (lower is_terminal cs) in
      let t =
        has_kind-lower is_recoverable is_terminal (lower is_terminal cs)
        ∙ has_kind-lower is_terminal is_terminal cs in
      let c =
        has_kind-lower is_recoverable is_recoverable (lower is_terminal cs)
        ∙ has_kind-lower is_terminal is_recoverable cs in
      let clear_t : is_raised is_terminal down ≡ false =
        is_raised-lower_other is_terminal is_recoverable terminal_not_recoverable
          (lower is_terminal cs)
        ∙ is_raised-lower is_terminal cs u.one_terminal in
      let clear_c : is_raised is_recoverable down ≡ false =
        is_raised-lower is_recoverable (lower is_terminal cs)
          (AtMostOne-lower is_recoverable is_terminal cs u.one_recoverable) in
      elim (Bool-cases (
        has_kind is_terminal down
        || (has_kind is_recoverable down || has_kind is_resource_synced down))) [
          | inl kept ↦ (with_conditions (set_status_defaults rm r) down, rw kept, clear_t, clear_c)
          | inr gone ↦ (
            r,
            rw gone,
            is_raised-eq-false is_terminal cs (ground (arith, t)),
            is_raised-eq-false is_recoverable cs (ground (arith, c)),
          )
        ]
