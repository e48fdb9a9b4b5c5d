-- ===== src/Env/Factory/Tests.antt =====
-- The results on the factory of managers, on two calls for one account.
use mwaa_controller.Common.{◌≡◌, ◌≢◌, ◌≤◌, ◌+◌, refl, [], ◌∷◌, arith, false, string_eq}
use mwaa_controller.Env.Factory.{Call, Handle, new_factory, store}
use mwaa_controller.Env.Factory.Keys.{IsPlain}
use mwaa_controller.Env.Factory.Threads.{System, Step, Reach, pick, start, later, reads, writes}
use mwaa_controller.Env.Factory.Threads.{
  returned, reading, r_lock, look, r_unlock, announce, lock, write, unlock,
}
use mwaa_controller.Env.Factory.Lock.{no_data_race}
use mwaa_controller.Env.Factory.Managers.{IsFor, returned-IsFor}
use mwaa_controller.Env.Factory.Progress.{no_deadlock}
use mwaa_controller.Env.Factory.Liveness.{AllReturned, IsFree, schedules_serve}
use mwaa_controller.Common.{◌⊎◌}
use mwaa_controller.Env.Factory.Race.{duplicate_managers}

abbrev team : Call
team = record { id = "1"; region = "eu"; role_arn = "arn:aws:iam::1:role/team" }

team-IsPlain : IsPlain team
team-IsPlain = ((λ h. cc, tt), ((λ h. cc, (λ h. cc, tt))))

-- Both calls hold the lock for reading.
abbrev both_reading : System
both_reading = record {
  shared = record { factory = new_factory; readers = 2; writer = false; pending = false };
  calls = reading team ∷ reading team ∷ [];
}

both_reading_reached : Reach (team ∷ team ∷ []) 2 both_reading
both_reading_reached =
    later (later start (pick [] _ refl (r_lock refl) refl))
      (pick (_ ∷ []) [] refl (r_lock refl) refl)

-- A single call has returned.
abbrev served : System
served = record {
  shared = record {
    factory = (store team new_factory).1;
    readers = 0;
    writer = false;
    pending = false;
  };
  calls = returned team (store team new_factory).0 ∷ [];
}

served_reached : Reach (team ∷ []) 7 served
served_reached =
    later
      (later
        (later
          (later
            (later
              (later (later start (pick [] _ refl (r_lock refl) refl)) (pick [] _ refl look refl))
              (pick [] _ refl r_unlock refl))
            (pick [] _ refl (announce refl) refl))
          (pick [] _ refl (lock refl) refl))
        (pick [] _ refl write refl))
      (pick [] _ refl unlock refl)

no_data_race_example :
    (reads (reading team) + writes (reading team) + writes (reading team) ≤ 1)
    × (writes (reading team) + reads (reading team) + writes (reading team) ≤ 1)
no_data_race_example = no_data_race both_reading_reached [] [] [] (reading team) (reading team) refl

returned-IsFor_example : IsFor team (store team new_factory).0
returned-IsFor_example =
    returned-IsFor (team-IsPlain, tt) served_reached [] [] team (store team new_factory).0 refl

no_deadlock_example : (t : System) × Step both_reading t
no_deadlock_example = no_deadlock both_reading_reached (omega arith)

schedules_serve_example :
    (7 ≤ 7)
    × (((t : System) × Step served t)
        ⊎ (AllReturned (team ∷ []) served.calls × IsFree served.shared))
schedules_serve_example = schedules_serve (team-IsPlain, tt) served_reached

duplicate_managers_example :
    (s : System) × (first : Handle) × (second : Handle) × Reach (team ∷ team ∷ []) 14 s
    × (s.calls ≡ returned team first ∷ returned team second ∷ [])
    × (first.address ≢ second.address)
duplicate_managers_example = duplicate_managers team
