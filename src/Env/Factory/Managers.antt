-- ===== src/Env/Factory/Managers.antt =====
-- Which manager a call of `ManagerFor` returns, whatever the other calls do.
use mwaa_controller.Common.{ℕ, ◌≡◌, refl, Option, none, some, List, [], ◌∷◌, ◌++◌, All, arith}
use mwaa_controller.Common.{string_eq, All-append}
use mwaa_controller.Common.Dict.{lookup, lookup-insert}
use mwaa_controller.Env.Factory.{Call, Handle, Factory, rm_id, manager_of, store}
use mwaa_controller.Env.Factory.Keys.{IsPlain, manager_of-eq}
use mwaa_controller.Env.Factory.Threads.{
  Shared, Stage, System, Step, Reach, Move, pick, start, later,
}
use mwaa_controller.Env.Factory.Threads.{
  called, reading, looked, missed, waiting, writing, stored, returned,
}
use mwaa_controller.Env.Factory.Threads.{
  r_lock, look, r_unlock, announce, lock, write, unlock, start_of,
}

-- A manager for the account and the region of the call.
abbrev pub IsFor : Call → Handle → Type 0
IsFor c rm = rm.manager ≡ manager_of c

-- What is known of a call at its stage.
abbrev pub Served : Stage → Type 0
Served (called c) = IsPlain c
Served (reading c) = IsPlain c
Served (looked c none) = IsPlain c
Served (looked c (some rm)) = IsPlain c × IsFor c rm
Served (missed c) = IsPlain c
Served (waiting c) = IsPlain c
Served (writing c) = IsPlain c
Served (stored c rm) = IsPlain c × IsFor c rm
Served (returned c rm) = IsPlain c × IsFor c rm

-- Every manager in the cache is for every call with its key.
abbrev pub IsSound : Factory → Type 0
IsSound f =
    (c : Call) → IsPlain c → (rm : Handle) → lookup (rm_id c) f.rm_cache ≡ some rm → IsFor c rm

All-middle :
    (P : Stage → Type 0) (before after : List Stage) (p : Stage)
    → All P (before ++ (p ∷ after))
    → All P before × P p × All P after
All-middle P [] after p (h, rest) = (tt, h, rest)
All-middle P (b ∷ before) after p (h, rest) =
    let (front, here, back) = All-middle P before after p rest in ((h, front), here, back)

store-IsSound : (c : Call) (f : Factory) → IsPlain c → IsSound f → IsSound (store c f).1
unfolding store
store-IsSound c f plain sound d p rm found = ground (
  arith,
  lookup-insert (rm_id d) (rm_id c) (record { address = f.created; manager = manager_of c })
      f.rm_cache,
  manager_of-eq c d plain p,
  sound d p rm,
)

Move-IsSound :
    {m m' : Shared} {p q : Stage}
    → Move m p m' q
    → Served p
    → IsSound m.factory
    → IsSound m'.factory
Move-IsSound {m} (write {c}) plain sound = store-IsSound c m.factory plain sound
Move-IsSound (r_lock _) _ sound = sound
Move-IsSound look _ sound = sound
Move-IsSound r_unlock _ sound = sound
Move-IsSound (announce _) _ sound = sound
Move-IsSound (lock _) _ sound = sound
Move-IsSound unlock _ sound = sound

looked-Served :
    (c : Call) (found : Option Handle)
    → IsPlain c
    → ((rm : Handle) → found ≡ some rm → IsFor c rm)
    → Served (looked c found)
looked-Served c none plain h = plain
looked-Served c (some rm) plain h = (plain, h rm refl)

Move-Served :
    {m m' : Shared} {p q : Stage} → Move m p m' q → IsSound m.factory → Served p → Served q
unfolding store
Move-Served (r_lock _) sound h = h
Move-Served {m} (look {c}) sound h =
    looked-Served c (lookup (rm_id c) m.factory.rm_cache) h (sound c h)
Move-Served (r_unlock {found = none}) sound h = h
Move-Served (r_unlock {found = some rm}) sound h = h
Move-Served (announce _) sound h = h
Move-Served (lock _) sound h = h
Move-Served (write {c}) sound h = (h, refl)
Move-Served unlock sound h = h

pub record Inv (s : System) : Type 0 where
  pub sound : IsSound s.shared.factory
  pub served : All Served s.calls

Step-Inv : {s t : System} → Step s t → Inv s → Inv t
Step-Inv (pick before after {p} {q} e mv e') inv =
    let (front, here, back) = All-middle Served before after p (rw e at inv.served) in
    record {
      sound = Move-IsSound mv here inv.sound;
      served =
          rw e' (All-append Served before (q ∷ after) front (Move-Served mv inv.sound here, back));
    }

start_of-Served : (cs : List Call) → All IsPlain cs → All Served (start_of cs)
start_of-Served [] h = tt
start_of-Served (c ∷ cs) (plain, h) = (plain, start_of-Served cs h)

pub Reach-Inv : {cs : List Call} {n : ℕ} {s : System} → All IsPlain cs → Reach cs n s → Inv s
Reach-Inv {cs} plain start = record {
  sound = λ c p rm found. cc;
  served = start_of-Served cs plain;
}
Reach-Inv plain (later r st) = Step-Inv st (Reach-Inv plain r)

-- However calls of `ManagerFor` with an account and a region without a slash are interleaved, a
-- manager that a call returns, cached or new, is for the account and the region of that call.
pub returned-IsFor :
    {cs : List Call} {n : ℕ} {s : System}
    → All IsPlain cs
    → Reach cs n s
    → (before after : List Stage) (c : Call) (rm : Handle)
    → s.calls ≡ before ++ (returned c rm ∷ after)
    → IsFor c rm
returned-IsFor plain r before after c rm e =
    let (front, (p, right), back) =
      All-middle Served before after (returned c rm) (rw e at ((Reach-Inv plain r).served)) in
    right
