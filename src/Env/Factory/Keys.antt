-- ===== src/Env/Factory/Keys.antt =====
-- The keys of the cache of managers.
use mwaa_controller.Common.{String, ◌<>◌, ◌≡◌, ◌≢◌, refl}
use mwaa_controller.Common.Dict.{lookup, lookup-insert}
use mwaa_controller.Common.{==_refl, string_eq, Option-cases, inl, inr}
use mwaa_controller.Env.Factory.{Call, Factory, rm_id, manager_of, manager_for, store}
use text.Mathlib.TextLemmas.{append_cancel_left, nil-append, cons-append}
use Prim.Native.Char.{Char}

abbrev slash : Char
slash = "/"

-- No slash in the text.
abbrev pub NoSlash : String → Type 0
NoSlash String.[] = Unit
NoSlash (String.◌∷◌ c s) = (c ≢ slash) × NoSlash s

-- An account id and a region, which have no slash; a role ARN may have some.
abbrev pub IsPlain : Call → Type 0
IsPlain c = NoSlash c.id × NoSlash c.region

-- The text up to the first slash is determined, and so is the rest.
split_at_slash :
    (a b s t : String)
    → NoSlash a
    → NoSlash b
    → a <> ("/" <> s) ≡ b <> ("/" <> t)
    → (a ≡ b) × (s ≡ t)
split_at_slash String.[] String.[] s t p q h =
    (refl, append_cancel_left "/" s t (append_cancel_left "" ("/" <> s) ("/" <> t) h))
split_at_slash String.[] (String.◌∷◌ d b) s t p q h =
    absurd (q.0 (cc (cons-append slash "" s, nil-append ("/" <> s), cons-append d b ("/" <> t))))
split_at_slash (String.◌∷◌ c a) String.[] s t p q h =
    absurd (p.0 (cc (cons-append slash "" t, nil-append ("/" <> t), cons-append c a ("/" <> s))))
split_at_slash (String.◌∷◌ c a) (String.◌∷◌ d b) s t p q h =
    let same : c ≡ d = cc (cons-append c a ("/" <> s), cons-append d b ("/" <> t)) in
    let (front, rest) =
      split_at_slash a b s t p.1 q.1
        (cc (cons-append c a ("/" <> s), cons-append d b ("/" <> t))) in
    (cc, rest)

-- Two plain calls with one key are for the same account, region and role.
pub rm_id_injective :
    (c d : Call)
    → IsPlain c
    → IsPlain d
    → rm_id c ≡ rm_id d
    → (c.id ≡ d.id) × (c.region ≡ d.region) × (c.role_arn ≡ d.role_arn)
unfolding rm_id
rm_id_injective c d p q h =
    let (id, rest) =
      split_at_slash c.id d.id (c.region <> ("/" <> c.role_arn)) (d.region <> ("/" <> d.role_arn))
        p.0 q.0 h in
    let (region, role) = split_at_slash c.region d.region c.role_arn d.role_arn p.1 q.1 rest in
    (id, region, role)

pub manager_of-eq :
    (c d : Call) → IsPlain c → IsPlain d → rm_id c ≡ rm_id d → manager_of c ≡ manager_of d
manager_of-eq c d p q h = let (id, region, _) = rm_id_injective c d p q h in cc

-- A second call of `ManagerFor` with the same arguments, with no call in between, returns the
-- manager that the first returned and leaves the cache as it is.
pub manager_for_cached :
    (c : Call) (f : Factory) → manager_for c (manager_for c f).1 ≡ manager_for c f
unfolding manager_for store
manager_for_cached c f = elim (Option-cases (lookup (rm_id c) f.rm_cache)) [
  | inr (rm, found) ↦ rw (found, found) refl
  | inl missing ↦ rw (missing, lookup-insert, ==_refl) refl
]
