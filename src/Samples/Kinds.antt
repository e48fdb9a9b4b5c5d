-- ===== src/Samples/Kinds.antt =====
-- The sample conditions keep at most one condition of each type.
use mwaa_controller.Common.{◌≡◌, refl, ◌∙◌, Bool, true, false, List, [], ◌∷◌, arith}
use mwaa_controller.Common.{Bool-cases, inl, inr}
use mwaa_controller.Api.{Condition, ConditionType, is_terminal, is_recoverable, is_resource_synced}
use mwaa_controller.Env.Status.{has_kind}
use mwaa_controller.Env.Status.Changes.{AtMostOne}
use mwaa_controller.Env.Status.Reports.{UniqueKinds}
use mwaa_controller.Env.Status.Synced.{first_of, SetsSynced}
use mwaa_controller.Common.{some}
use mwaa_controller.Env.Manage.Uniqueness.{KeepsKinds}
use mwaa_controller.Samples.Cloud.{set_kind, is_late_initialized, sample_conditions}

module _ (p q : ConditionType → Bool) (c : Condition) where
  has_kind-set_kind :
      (cs : List Condition)
      → q c.kind ≡ false
      → has_kind q cs ≡ false
      → has_kind q (set_kind p c cs) ≡ false
  has_kind-set_kind [] f h = ground (arith, f)
  has_kind-set_kind (d ∷ cs) f h = let rest = has_kind-set_kind cs f in ground (arith, f, h, rest)

  AtMostOne-set_kind :
      (cs : List Condition)
      → ((k : ConditionType) → q c.kind ≡ true → q k ≡ p k)
      → AtMostOne q cs
      → AtMostOne q (set_kind p c cs)
  AtMostOne-set_kind [] same u = ((λ h. refl), tt)
  AtMostOne-set_kind (d ∷ cs) same (one, u) = elim (Bool-cases (p d.kind)) [
    | inl here ↦ rw here ((λ h. one (same d.kind h ∙ here)), u)
    | inr there ↦ rw there (
      (λ h. elim (Bool-cases (q c.kind)) [
        | inl mine ↦ cc (same d.kind mine, there, h)
        | inr other ↦ has_kind-set_kind cs other (one h)
      ]),
      AtMostOne-set_kind cs same u,
    )
  ]

set_kind-UniqueKinds :
    (p : ConditionType → Bool) (c : Condition) (cs : List Condition)
    → ((k : ConditionType) → is_terminal c.kind ≡ true → is_terminal k ≡ p k)
    → ((k : ConditionType) → is_recoverable c.kind ≡ true → is_recoverable k ≡ p k)
    → ((k : ConditionType) → is_resource_synced c.kind ≡ true → is_resource_synced k ≡ p k)
    → UniqueKinds cs
    → UniqueKinds (set_kind p c cs)
set_kind-UniqueKinds p c cs t r s u = record {
  one_terminal = AtMostOne-set_kind p is_terminal c cs t u.one_terminal;
  one_recoverable = AtMostOne-set_kind p is_recoverable c cs r u.one_recoverable;
  one_synced = AtMostOne-set_kind p is_resource_synced c cs s u.one_synced;
}

pub sample_conditions-KeepsKinds : KeepsKinds sample_conditions
sample_conditions-KeepsKinds = record {
  set_synced = λ cs status message reason u.
      set_kind-UniqueKinds is_resource_synced _ cs (λ k h. cc h) (λ k h. cc h) (λ k h. refl) u;
  set_late_initialized = λ cs status message reason u.
      set_kind-UniqueKinds is_late_initialized _ cs (λ k h. cc h) (λ k h. cc h) (λ k h. cc h) u;
}

first_of-set_kind :
    (p : ConditionType → Bool) (c : Condition) (cs : List Condition)
    → p c.kind ≡ true
    → first_of p (set_kind p c cs) ≡ some c
first_of-set_kind p c [] h = rw h refl
first_of-set_kind p c (d ∷ cs) h = elim (Bool-cases (p d.kind)) [
  | inl here ↦ rw here (rw h refl)
  | inr there ↦ rw there (rw there (first_of-set_kind p c cs h))
]

pub sample_conditions-SetsSynced : SetsSynced sample_conditions
sample_conditions-SetsSynced = record {
  set_synced-Synced =
      λ cs status message reason. (_, first_of-set_kind is_resource_synced _ cs refl, refl, refl);
}
