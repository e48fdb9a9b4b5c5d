-- ===== src/Env/Factory/Liveness.antt =====
-- Every schedule of calls of `ManagerFor` ends, and leaves each call with its manager.
use mathlib.Core.Path.{subst}
use mwaa_controller.Common.{
  ℕ, ◌+◌, ◌≤◌, ◌≡◌, refl, sym, ap, ◌∙◌, false, none, some, List, [], ◌∷◌, ◌++◌, All, arith,
}
use mwaa_controller.Common.{length, ◌⊎◌, inl, inr}
use Prim.Native.Nat.{◌*◌}
use native.Mathlib.Decide.{dec_lt}
use mwaa_controller.Env.Factory.{Call, Handle}
use mwaa_controller.Env.Factory.Keys.{IsPlain}
use mwaa_controller.Env.Factory.Threads.{
  Shared, Stage, System, Step, Reach, Move, total, reads, writes, waits, start_of, pick, start,
  later,
}
use mwaa_controller.Env.Factory.Threads.{
  called, reading, looked, missed, waiting, writing, stored, returned,
}
use mwaa_controller.Env.Factory.Threads.{r_lock, look, r_unlock, announce, lock, write, unlock}
use mwaa_controller.Env.Factory.Lock.{Reach-LockInv}
use mwaa_controller.Env.Factory.Managers.{IsFor, Served, Reach-Inv}
use mwaa_controller.Env.Factory.Progress.{to_go, Step-to_go, no_deadlock}

-- The call that stands there.
abbrev caller : Stage → Call
caller (called c) = c
caller (reading c) = c
caller (looked c found) = c
caller (missed c) = c
caller (waiting c) = c
caller (writing c) = c
caller (stored c rm) = c
caller (returned c rm) = c

abbrev callers : List Stage → List Call
callers [] = []
callers (p ∷ ps) = caller p ∷ callers ps

-- Each call, in order, has returned a manager for its account and its region.
abbrev pub AllReturned : List Call → List Stage → Type 0
AllReturned [] [] = Unit
AllReturned (c ∷ cs) (p ∷ ps) =
    ((rm : Handle) × (p ≡ returned c rm) × IsFor c rm) × AllReturned cs ps
AllReturned [] (p ∷ ps) = ⊥
AllReturned (c ∷ cs) [] = ⊥

-- Nobody holds the lock, and nobody waits for it.
abbrev pub IsFree : Shared → Type 0
IsFree m = (m.readers ≡ 0) × (m.writer ≡ false) × (m.pending ≡ false)

Move-caller : {m m' : Shared} {p q : Stage} → Move m p m' q → caller q ≡ caller p
Move-caller (r_lock _) = refl
Move-caller look = refl
Move-caller (r_unlock {found = none}) = refl
Move-caller (r_unlock {found = some rm}) = refl
Move-caller (announce _) = refl
Move-caller (lock _) = refl
Move-caller write = refl
Move-caller unlock = refl

callers-middle :
    (before after : List Stage) (p q : Stage)
    → caller q ≡ caller p
    → callers (before ++ (q ∷ after)) ≡ callers (before ++ (p ∷ after))
callers-middle [] after p q h = ap (λ c. c ∷ callers after) h
callers-middle (b ∷ before) after p q h =
    ap (λ cs. caller b ∷ cs) (callers-middle before after p q h)

callers-start_of : (cs : List Call) → callers (start_of cs) ≡ cs
callers-start_of [] = refl
callers-start_of (c ∷ cs) = ap (λ ds. c ∷ ds) (callers-start_of cs)

-- The calls stay the ones that were made.
Reach-callers : {cs : List Call} {n : ℕ} {s : System} → Reach cs n s → callers s.calls ≡ cs
Reach-callers {cs} start = callers-start_of cs
Reach-callers (later r (pick before after {p} {q} e mv e')) =
    ap callers e'
    ∙ callers-middle before after p q (Move-caller mv)
    ∙ ap callers (sym e)
    ∙ Reach-callers r

-- Where no call has a step to go, each has returned.
ended-AllReturned :
    (ps : List Stage) → All Served ps → total to_go ps ≡ 0 → AllReturned (callers ps) ps
ended-AllReturned [] h z = tt
ended-AllReturned (returned c rm ∷ ps) ((plain, right), h) z =
    ((rm, refl, right), ended-AllReturned ps h (omega arith))
ended-AllReturned (called c ∷ ps) h z = absurd (omega arith)
ended-AllReturned (reading c ∷ ps) h z = absurd (omega arith)
ended-AllReturned (looked c found ∷ ps) h z = absurd (omega arith)
ended-AllReturned (missed c ∷ ps) h z = absurd (omega arith)
ended-AllReturned (waiting c ∷ ps) h z = absurd (omega arith)
ended-AllReturned (writing c ∷ ps) h z = absurd (omega arith)
ended-AllReturned (stored c rm ∷ ps) h z = absurd (omega arith)

light : (p : Stage) → reads p + writes p + waits p ≤ to_go p + to_go p
light (called c) = omega arith
light (reading c) = omega arith
light (looked c found) = omega arith
light (missed c) = omega arith
light (waiting c) = omega arith
light (writing c) = omega arith
light (stored c rm) = omega arith
light (returned c rm) = omega arith

total-light :
    (ps : List Stage)
    → total reads ps + total writes ps + total waits ps ≤ total to_go ps + total to_go ps
total-light [] = omega arith
total-light (p ∷ ps) = omega (arith, light p, total-light ps)

ended-IsFree :
    {cs : List Call} {n : ℕ} {s : System} → Reach cs n s → total to_go s.calls ≡ 0 → IsFree s.shared
ended-IsFree {s = s} r z =
    let inv = Reach-LockInv r in
    let bound = total-light s.calls in
    (ground (arith, inv, bound), ground (arith, inv, bound), ground (arith, inv, bound))

total-start_of : (cs : List Call) → total to_go (start_of cs) ≡ 7 * length cs
total-start_of [] = omega arith
total-start_of (c ∷ cs) = omega (arith, total-start_of cs)

-- The steps taken, and those that the calls still have to go.
steps_bound :
    {cs : List Call} {n : ℕ} {s : System} → Reach cs n s → n + total to_go s.calls ≤ 7 * length cs
steps_bound {cs} start = omega (arith, total-start_of cs)
steps_bound (later r st) = omega (arith, steps_bound r, Step-to_go st)

-- Every schedule of calls of `ManagerFor`, with an account and a region without a slash, ends with
-- each of them served: in every state that their steps reach, at most seven steps were taken for
-- each call, and either some call can take a step, or each call has returned a manager for its
-- account and its region, nobody holds the lock and nobody waits for it.
pub schedules_serve :
    {cs : List Call} {n : ℕ} {s : System}
    → All IsPlain cs
    → Reach cs n s
    → (n ≤ 7 * length cs) × (((t : System) × Step s t) ⊎ (AllReturned cs s.calls × IsFree s.shared))
schedules_serve {s = s} plain r = (
  omega (arith, steps_bound r),
  elim (dec_lt 0 (total to_go s.calls)) [
    | yes more ↦ inl (no_deadlock r more)
    | no rest ↦
        let ended : total to_go s.calls ≡ 0 = omega arith in
        let each = ended-AllReturned s.calls ((Reach-Inv plain r).served) ended in
        inr (subst (λ cs. AllReturned cs s.calls) (Reach-callers r) each, ended-IsFree r ended)
  ],
)
