-- ===== src/Env/Factory/Lock.antt =====
-- The lock of the factory does what it is for.
use mwaa_controller.Common.{
  ℕ, ◌+◌, ◌≤◌, ◌≡◌, refl, sym, Bool, true, false, List, [], ◌∷◌, ◌++◌, arith,
}
use mwaa_controller.Env.Factory.{Call}
use mwaa_controller.Env.Factory.Threads.{
  Shared, Stage, System, Step, Reach, Move, total, reads, writes, waits,
}
use mwaa_controller.Env.Factory.Threads.{
  pick, start, later, start_of, called, after_read, r_unlock, lock, reading, looked, missed,
  waiting, writing, stored, returned,
}
use mwaa_controller.Common.{Option, none, some}
use mwaa_controller.Env.Factory.{Handle}

pub total-append :
    (w : Stage → ℕ) (before after : List Stage) (p : Stage)
    → total w (before ++ (p ∷ after)) ≡ total w before + (w p + total w after)
total-append w [] after p = omega arith
total-append w (b ∷ before) after p = omega (arith, total-append w before after p)

ruleset counting = (arith, total-append)

abbrev flag : Bool → ℕ
flag true = 1
flag false = 0

-- The counts of the lock are those of the calls, and a writer is alone and has called `Lock`.
pub record LockInv (m : Shared) (calls : List Stage) : Type 0 where
  pub counted : m.readers ≡ total reads calls
  pub owned : flag m.writer ≡ total writes calls
  pub announced : flag m.pending ≡ total waits calls
  pub alone : m.writer ≡ true → m.readers ≡ 0
  pub held : m.writer ≡ true → m.pending ≡ true

total-start_of :
    (w : Stage → ℕ) → ((c : Call) → w (called c) ≡ 0) → (cs : List Call) → total w (start_of cs) ≡ 0
total-start_of w h [] = refl
total-start_of w h (c ∷ cs) = omega (arith, h c, total-start_of w h cs)

reads-after_read :
    (c : Call) (found : Option Handle)
    → reads (after_read c found) + writes (after_read c found) ≡ 0
reads-after_read c none = refl
reads-after_read c (some rm) = refl

writes_le : (p : Stage) → writes p ≤ waits p
writes_le (called c) = omega arith
writes_le (reading c) = omega arith
writes_le (looked c found) = omega arith
writes_le (missed c) = omega arith
writes_le (waiting c) = omega arith
writes_le (writing c) = omega arith
writes_le (stored c rm) = omega arith
writes_le (returned c rm) = omega arith

-- Who holds the lock for writing has called `Lock`.
total_le : (calls : List Stage) → total writes calls ≤ total waits calls
total_le [] = omega arith
total_le (p ∷ ps) = omega (arith, writes_le p, total_le ps)

Move-LockInv :
    {m m' : Shared} {p q : Stage} (before after : List Stage)
    → Move m p m' q
    → LockInv m (before ++ (p ∷ after))
    → LockInv m' (before ++ (q ∷ after))
Move-LockInv before after (r_unlock {found = none}) inv = grind counting
Move-LockInv before after (r_unlock {found = some rm}) inv = grind counting
Move-LockInv before after (lock {c = c} free) inv =
    grind (counting, total_le before, total_le after)
Move-LockInv before after mv inv = grind counting

pub Step-LockInv : {s t : System} → Step s t → LockInv s.shared s.calls → LockInv t.shared t.calls
Step-LockInv (pick before after e mv e') inv = rw e' (Move-LockInv before after mv (rw e at inv))

pub Reach-LockInv : {cs : List Call} {n : ℕ} {s : System} → Reach cs n s → LockInv s.shared s.calls
Reach-LockInv {cs} start = record {
  counted = sym (total-start_of reads (λ c. refl) cs);
  owned = sym (total-start_of writes (λ c. refl) cs);
  announced = sym (total-start_of waits (λ c. refl) cs);
  alone = λ h. cc;
  held = λ h. cc;
}
Reach-LockInv (later r st) = Step-LockInv st (Reach-LockInv r)

race_free :
    (m : Shared) (before between after : List Stage) (p q : Stage)
    → LockInv m (before ++ (p ∷ (between ++ (q ∷ after))))
    → (reads p + writes p + writes q ≤ 1) × (writes p + reads q + writes q ≤ 1)
race_free m before between after p q inv = ground (
  arith,
  total-append reads before (between ++ (q ∷ after)) p,
  total-append writes before (between ++ (q ∷ after)) p,
  total-append reads between after q,
  total-append writes between after q,
)

-- However calls of `ManagerFor` are interleaved, no two of them are at the cache at once if one of
-- them is writing: of any two calls, where one holds the lock for writing, the other does not hold
-- it.
pub no_data_race :
    {cs : List Call} {n : ℕ} {s : System}
    → Reach cs n s
    → (before between after : List Stage) (p q : Stage)
    → s.calls ≡ before ++ (p ∷ (between ++ (q ∷ after)))
    → (reads p + writes p + writes q ≤ 1) × (writes p + reads q + writes q ≤ 1)
no_data_race {s = s} r before between after p q e =
    let inv : LockInv s.shared (before ++ (p ∷ (between ++ (q ∷ after)))) =
      rw e at (Reach-LockInv r) in
    race_free s.shared before between after p q inv
