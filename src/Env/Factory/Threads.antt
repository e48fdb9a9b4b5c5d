-- ===== src/Env/Factory/Threads.antt =====
-- `ManagerFor` called by any number of goroutines, interleaved in any order: one shared access, or
-- one operation of the `sync.RWMutex`, at a time.
use mwaa_controller.Common.{
  ℕ, ◌+◌, ◌-◌, ◌≡◌, Bool, true, false, Option, none, some, List, [], ◌∷◌, ◌++◌,
}
use mwaa_controller.Common.Dict.{lookup}
use mwaa_controller.Env.Factory.{Call, Handle, Factory, new_factory, rm_id, store}

-- The factory with the state of its lock: how many hold it for reading, whether one does for
-- writing, and whether one that called `Lock` waits or holds it. `Lock` excludes new readers from the
-- moment that it waits for the readers there are.
pub record Shared : Type 0 where
  pub factory : Factory
  pub readers : ℕ
  pub writer : Bool
  pub pending : Bool

-- Where a call of `ManagerFor` stands.
pub data Stage : Type 0 where
  called : Call → Stage  -- before `RLock`
  reading : Call → Stage  -- before `f.rmCache[rmId]`
  looked : Call → Option Handle → Stage  -- before `RUnlock`
  missed : Call → Stage  -- before `Lock`
  waiting : Call → Stage  -- in `Lock`, with new readers excluded
  writing : Call → Stage  -- before the new manager is put into the cache
  stored : Call → Handle → Stage  -- before the deferred `Unlock`
  returned : Call → Handle → Stage

-- `if found { return rm, nil }`
abbrev pub after_read : Call → Option Handle → Stage
after_read c none = missed c
after_read c (some rm) = returned c rm

-- One step of one call.
pub data Move (m : Shared) : Stage → Shared → Stage → Type 0 where
  r_lock :
      {c : Call}
      → m.pending ≡ false
      → Move m (called c) (record m { readers = m.readers + 1 }) (reading c)
  look : {c : Call} → Move m (reading c) m (looked c (lookup (rm_id c) m.factory.rm_cache))
  r_unlock :
      {c : Call} {found : Option Handle}
      → Move m (looked c found) (record m { readers = m.readers - 1 }) (after_read c found)
  announce :
      {c : Call} → m.pending ≡ false → Move m (missed c) (record m { pending = true }) (waiting c)
  lock : {c : Call} → m.readers ≡ 0 → Move m (waiting c) (record m { writer = true }) (writing c)
  write :
      {c : Call}
      → Move m
          (writing c)
          (record m { factory = (store c m.factory).1 })
          (stored c (store c m.factory).0)
  unlock :
      {c : Call} {rm : Handle}
      → Move m (stored c rm) (record m { writer = false; pending = false }) (returned c rm)

pub record System : Type 0 where
  pub shared : Shared
  pub calls : List Stage

abbrev pub start_of : List Call → List Stage
start_of [] = []
start_of (c ∷ cs) = called c ∷ start_of cs

abbrev pub initial : List Call → System
initial cs = record {
  shared = record { factory = new_factory; readers = 0; writer = false; pending = false };
  calls = start_of cs;
}

-- Some call takes a step.
pub data Step (s t : System) : Type 0 where
  pick :
      (before after : List Stage) {p q : Stage}
      → s.calls ≡ before ++ (p ∷ after)
      → Move s.shared p t.shared q
      → t.calls ≡ before ++ (q ∷ after)
      → Step s t

-- What `n` steps can reach from the start.
pub data Reach (cs : List Call) : ℕ → System → Type 0 where
  start : Reach cs 0 (initial cs)
  later : {n : ℕ} {s t : System} → Reach cs n s → Step s t → Reach cs (n + 1) t

-- A weight summed over the calls.
abbrev pub total : (Stage → ℕ) → List Stage → ℕ
total w [] = 0
total w (p ∷ ps) = w p + total w ps

-- Who holds the lock, and how.
abbrev pub reads : Stage → ℕ
reads (reading _) = 1
reads (looked _ _) = 1
reads _ = 0

abbrev pub writes : Stage → ℕ
writes (writing _) = 1
writes (stored _ _) = 1
writes _ = 0

abbrev pub waits : Stage → ℕ
waits (waiting _) = 1
waits (writing _) = 1
waits (stored _ _) = 1
waits _ = 0
