-- ===== src/Env/Factory/Progress.antt =====
-- Calls of `ManagerFor` do not deadlock, and each step brings them nearer to their end.
use mwaa_controller.Common.{
  ℕ, ◌+◌, ◌<◌, ◌≡◌, refl, ap, false, none, some, List, [], ◌∷◌, ◌++◌, arith,
}
use native.Mathlib.Decide.{dec_lt}
use mwaa_controller.Env.Factory.{Call}
use mwaa_controller.Env.Factory.Threads.{
  Shared, Stage, System, Step, Reach, Move, total, reads, writes, waits,
}
use mwaa_controller.Env.Factory.Threads.{pick}
use mwaa_controller.Env.Factory.Threads.{
  called, reading, looked, missed, waiting, writing, stored, returned,
}
use mwaa_controller.Env.Factory.Threads.{r_lock, look, r_unlock, announce, lock, write, unlock}
use mwaa_controller.Env.Factory.Lock.{total-append, Reach-LockInv}

-- The steps that a call can still take.
abbrev pub to_go : Stage → ℕ
to_go (called _) = 7
to_go (reading _) = 6
to_go (looked _ _) = 5
to_go (missed _) = 4
to_go (waiting _) = 3
to_go (writing _) = 2
to_go (stored _ _) = 1
to_go (returned _ _) = 0

ruleset weighing = (arith, total-append)

Move-to_go : {m m' : Shared} {p q : Stage} → Move m p m' q → to_go q < to_go p
Move-to_go (r_unlock {found = none}) = omega arith
Move-to_go (r_unlock {found = some rm}) = omega arith
Move-to_go mv = ground arith

pub Step-to_go : {s t : System} → Step s t → total to_go t.calls < total to_go s.calls
Step-to_go (pick before after {p} {q} e mv e') =
    rw (e, e')
      (omega (
        arith,
        Move-to_go mv,
        total-append to_go before after p,
        total-append to_go before after q,
      ))

-- A call with a positive weight.
record Heavy (w : Stage → ℕ) (calls : List Stage) : Type 0 where
  before : List Stage
  it : Stage
  after : List Stage
  place : calls ≡ before ++ (it ∷ after)
  heavy : 0 < w it

find-Heavy : (w : Stage → ℕ) (calls : List Stage) → 0 < total w calls → Heavy w calls
find-Heavy w [] h = absurd (omega arith)
find-Heavy w (c ∷ calls) h = elim (dec_lt 0 (w c)) [
  | yes here ↦ record { before = []; it = c; after = calls; place = refl; heavy = here }
  | no light ↦
      let f = find-Heavy w calls (omega arith) in
      record {
        before = c ∷ f.before;
        it = f.it;
        after = f.after;
        place = ap (λ xs. c ∷ xs) f.place;
        heavy = f.heavy;
      }
]

-- A call that holds the lock can take its next step.
Can : Shared → Stage → Type 0
Can m p = (m' : Shared) × (q : Stage) × Move m p m' q

abbrev holds : Stage → ℕ
holds p = reads p + writes p

holder_moves : (m : Shared) (p : Stage) → 0 < holds p → Can m p
unfolding Can
holder_moves m (reading c) h = (_, _, look)
holder_moves m (looked c found) h = (_, _, r_unlock)
holder_moves m (writing c) h = (_, _, write)
holder_moves m (stored c rm) h = (_, _, unlock)
holder_moves m (called c) h = absurd (omega arith)
holder_moves m (missed c) h = absurd (omega arith)
holder_moves m (waiting c) h = absurd (omega arith)
holder_moves m (returned c rm) h = absurd (omega arith)

-- Where nobody holds the lock or waits for it in `Lock`, every call that has not returned can.
free_moves : (m : Shared) (p : Stage) → m.pending ≡ false → m.readers ≡ 0 → 0 < to_go p → Can m p
unfolding Can
free_moves m (called c) w r h = (_, _, r_lock w)
free_moves m (missed c) w r h = (_, _, announce w)
free_moves m (waiting c) w r h = (_, _, lock r)
free_moves m (reading c) w r h = (_, _, look)
free_moves m (looked c found) w r h = (_, _, r_unlock)
free_moves m (writing c) w r h = (_, _, write)
free_moves m (stored c rm) w r h = (_, _, unlock)
free_moves m (returned c rm) w r h = absurd (omega arith)

-- Where nobody reads, a call that has called `Lock` can.
writer_moves : (m : Shared) (p : Stage) → m.readers ≡ 0 → 0 < waits p → Can m p
unfolding Can
writer_moves m (waiting c) r h = (_, _, lock r)
writer_moves m (writing c) r h = (_, _, write)
writer_moves m (stored c rm) r h = (_, _, unlock)
writer_moves m (called c) r h = absurd (omega arith)
writer_moves m (reading c) r h = absurd (omega arith)
writer_moves m (looked c found) r h = absurd (omega arith)
writer_moves m (missed c) r h = absurd (omega arith)
writer_moves m (returned c rm) r h = absurd (omega arith)

total-holds : (calls : List Stage) → total holds calls ≡ total reads calls + total writes calls
total-holds [] = omega arith
total-holds (c ∷ calls) = omega (arith, total-holds calls)

progress_of :
    (w : Stage → ℕ) (s : System)
    → ((p : Stage) → 0 < w p → Can s.shared p)
    → Heavy w s.calls
    → (t : System) × Step s t
unfolding Can
progress_of w s can f =
    let (m', q, mv) = can f.it f.heavy in
    (
      record { shared = m'; calls = f.before ++ (q ∷ f.after) },
      pick f.before f.after f.place mv refl,
    )

-- As long as some call of `ManagerFor` has not returned, some call can take a step, in every
-- interleaving, although a waiting `Lock` excludes new readers: there is no deadlock.
pub no_deadlock :
    {cs : List Call} {n : ℕ} {s : System}
    → Reach cs n s
    → 0 < total to_go s.calls
    → (t : System) × Step s t
no_deadlock {s = s} r h =
    let inv = Reach-LockInv r in
    elim (dec_lt 0 (total holds s.calls)) [
      | yes held ↦ progress_of holds s (holder_moves s.shared) (find-Heavy holds s.calls held)
      | no free ↦
          let unread : s.shared.readers ≡ 0 = ground (arith, inv, total-holds s.calls) in
          elim (dec_lt 0 (total waits s.calls)) [
            | yes asked ↦
                progress_of waits s (λ p k. writer_moves s.shared p unread k)
                  (find-Heavy waits s.calls asked)
            | no unasked ↦
                let quiet : s.shared.pending ≡ false = ground (arith, inv) in
                progress_of to_go s (λ p k. free_moves s.shared p quiet unread k)
                  (find-Heavy to_go s.calls h)
          ]
    ]
