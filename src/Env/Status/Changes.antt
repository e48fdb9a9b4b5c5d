-- ===== src/Env/Status/Changes.antt =====
-- What raising and lowering a condition does to the conditions of its type and of the others.
use mwaa_controller.Common.{String, ◌≡◌, refl, ap, Bool, true, false, ◌||◌, none, some}
use mwaa_controller.Common.{List, [], ◌∷◌, ◌++◌, arith, inl, inr, Bool-cases, Option-cases}
use mwaa_controller.Api.{Condition, ConditionType, status_true}
use mwaa_controller.Env.Status.{last_of, has_kind, change_last, raise, lower, is_raised}

-- There is at most one condition of the type.
abbrev pub AtMostOne : (ConditionType → Bool) → List Condition → Type 0
AtMostOne p [] = Unit
AtMostOne p (c ∷ cs) = (p c.kind ≡ true → has_kind p cs ≡ false) × AtMostOne p cs

-- The condition of the type is True with the message.
abbrev pub Raised : (ConditionType → Bool) → String → List Condition → Type 0
Raised p message cs =
    (c : Condition) × (last_of p cs ≡ some c)
    × (c.status ≡ status_true)
    × (c.message ≡ some message)

-- No type is in both classes.
abbrev pub Disjoint : (ConditionType → Bool) → (ConditionType → Bool) → Type 0
Disjoint p q = (k : ConditionType) → q k ≡ true → p k ≡ false

module _ (p : ConditionType → Bool) where
  last_of-eq-none : (cs : List Condition) → has_kind p cs ≡ false → last_of p cs ≡ none
  last_of-eq-none [] h = refl
  last_of-eq-none (c ∷ cs) h = ground (arith, last_of-eq-none cs)

  pub is_raised-eq-false : (cs : List Condition) → has_kind p cs ≡ false → is_raised p cs ≡ false
  is_raised-eq-false [] h = refl
  is_raised-eq-false (c ∷ cs) h = ground (arith, is_raised-eq-false cs)

  pub is_raised-lower : (cs : List Condition) → AtMostOne p cs → is_raised p (lower p cs) ≡ false
  unfolding lower
  is_raised-lower [] u = refl
  is_raised-lower (c ∷ cs) (one, u) = ground (arith, is_raised-lower cs u, is_raised-eq-false cs)

  module _ (f : Condition → Condition) (keeps : (c : Condition) → (f c).kind ≡ c.kind) where
    has_kind-change_last :
        (q : ConditionType → Bool) (cs : List Condition)
        → has_kind q (change_last p f cs) ≡ has_kind q cs
    has_kind-change_last q [] = refl
    has_kind-change_last q (c ∷ cs) = ground (arith, ap q (keeps c), has_kind-change_last q cs)

    last_of-change_last :
        (cs : List Condition)
        → has_kind p cs ≡ true
        → (c : Condition) × (last_of p (change_last p f cs) ≡ some (f c))
    last_of-change_last [] h = cc
    last_of-change_last (c ∷ cs) h = elim (Bool-cases (has_kind p cs)) [
      | inl later ↦ let (d, e) = last_of-change_last cs later in (d, rw later (ground (arith, e)))
      | inr here ↦ (c, rw here (ground (arith, ap p (keeps c), last_of-eq-none cs here)))
    ]

  last_of-append :
      (cs : List Condition) (c : Condition) → p c.kind ≡ true → last_of p (cs ++ (c ∷ [])) ≡ some c
  last_of-append [] c h = ground arith
  last_of-append (d ∷ cs) c h = ground (arith, last_of-append cs c h)

  -- A raised condition is True with the message, found or appended.
  pub raise-Raised :
      (kind : ConditionType) (message : String) (cs : List Condition)
      → p kind ≡ true
      → Raised p message (raise p kind message cs)
  unfolding raise
  raise-Raised kind message cs h =
      let f : Condition → Condition =
        λ c. record c { status = status_true; message = some message } in
      elim (Bool-cases (has_kind p cs)) [
        | inl found ↦
            let (c, e) = last_of-change_last f (λ c. refl) cs found in rw found (f c, e, refl, refl)
        | inr new ↦ rw new (_, last_of-append cs _ h, refl, refl)
      ]

  is_raised_of_last :
      (cs : List Condition) (c : Condition)
      → last_of p cs ≡ some c
      → c.status ≡ status_true
      → is_raised p cs ≡ true
  is_raised_of_last [] c h t = cc
  is_raised_of_last (d ∷ cs) c h t = elim (Option-cases (last_of p cs)) [
    | inl here ↦ ground arith
    | inr (e, later) ↦ ground (arith, is_raised_of_last cs c)
  ]

  pub is_raised_of_Raised :
      (message : String) (cs : List Condition) → Raised p message cs → is_raised p cs ≡ true
  is_raised_of_Raised message cs (c, e, t, m) = is_raised_of_last cs c e t

  pub has_kind_of_Raised :
      (message : String) (cs : List Condition) → Raised p message cs → has_kind p cs ≡ true
  has_kind_of_Raised message cs (c, e, t, m) = elim (Bool-cases (has_kind p cs)) [
    | inl present ↦ present
    | inr absent ↦ ground (arith, last_of-eq-none cs absent)
  ]

-- Raising or lowering a condition leaves those of the other types alone.
module _ (p q : ConditionType → Bool) (apart : Disjoint p q) where
  is_raised-change_last :
      (f : Condition → Condition)
      → ((c : Condition) → (f c).kind ≡ c.kind)
      → (cs : List Condition) → is_raised p (change_last q f cs) ≡ is_raised p cs
  is_raised-change_last f keeps [] = refl
  is_raised-change_last f keeps (c ∷ cs) =
      ground (arith, ap p (keeps c), apart c.kind, is_raised-change_last f keeps cs)

  is_raised-append :
      (cs : List Condition) (c : Condition)
      → q c.kind ≡ true
      → is_raised p (cs ++ (c ∷ [])) ≡ is_raised p cs
  is_raised-append [] c h = ground (arith, apart c.kind h)
  is_raised-append (d ∷ cs) c h = ground (arith, is_raised-append cs c h)

  pub is_raised-lower_other : (cs : List Condition) → is_raised p (lower q cs) ≡ is_raised p cs
  unfolding lower
  is_raised-lower_other cs = is_raised-change_last _ (λ c. refl) cs

  pub is_raised-raise_other :
      (kind : ConditionType) (message : String) (cs : List Condition)
      → q kind ≡ true
      → is_raised p (raise q kind message cs) ≡ is_raised p cs
  unfolding raise
  is_raised-raise_other kind message cs h = elim (Bool-cases (has_kind q cs)) [
    | inl found ↦ rw found (is_raised-change_last _ (λ c. refl) cs)
    | inr new ↦ rw new (is_raised-append cs _ h)
  ]

-- Both operations keep at most one condition of every type.
module _ (p q : ConditionType → Bool) where
  AtMostOne-change_last :
      (f : Condition → Condition)
      → ((c : Condition) → (f c).kind ≡ c.kind)
      → (cs : List Condition) → AtMostOne p cs
      → AtMostOne p (change_last q f cs)
  AtMostOne-change_last f keeps [] u = tt
  AtMostOne-change_last f keeps (c ∷ cs) (one, u) = ground (
    arith,
    ap p (keeps c),
    AtMostOne-change_last f keeps cs u,
    has_kind-change_last q f keeps p cs,
  )

  pub AtMostOne-lower : (cs : List Condition) → AtMostOne p cs → AtMostOne p (lower q cs)
  unfolding lower
  AtMostOne-lower cs u = AtMostOne-change_last _ (λ c. refl) cs u

has_kind-append :
    (p : ConditionType → Bool) (cs : List Condition) (c : Condition)
    → has_kind p (cs ++ (c ∷ [])) ≡ (has_kind p cs || p c.kind)
has_kind-append p [] c = ground arith
has_kind-append p (d ∷ cs) c = ground (arith, has_kind-append p cs c)

AtMostOne-append :
    (p : ConditionType → Bool) (cs : List Condition) (c : Condition)
    → (p c.kind ≡ true → has_kind p cs ≡ false)
    → AtMostOne p cs
    → AtMostOne p (cs ++ (c ∷ []))
AtMostOne-append p [] c h u = ground arith
AtMostOne-append p (d ∷ cs) c h (one, u) =
    ground (arith, AtMostOne-append p cs c, has_kind-append p cs c)

pub AtMostOne-raise :
    (p q : ConditionType → Bool) (kind : ConditionType) (message : String) (cs : List Condition)
    → (p kind ≡ true → has_kind p cs ≡ true → has_kind q cs ≡ true)
    → AtMostOne p cs
    → AtMostOne p (raise q kind message cs)
unfolding raise
AtMostOne-raise p q kind message cs h u = elim (Bool-cases (has_kind q cs)) [
  | inl found ↦ rw found (AtMostOne-change_last p q _ (λ c. refl) cs u)
  | inr new ↦ rw new (AtMostOne-append p cs _ (λ k. ground (arith, h k)) u)
]

pub has_kind-lower :
    (p q : ConditionType → Bool) (cs : List Condition) → has_kind q (lower p cs) ≡ has_kind q cs
unfolding lower
has_kind-lower p q cs = has_kind-change_last p _ (λ c. refl) q cs
