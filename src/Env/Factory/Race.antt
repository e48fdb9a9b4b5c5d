-- ===== src/Env/Factory/Race.antt =====
-- Two calls of `ManagerFor` for one key that both miss the cache.
use mwaa_controller.Common.{◌≡◌, ◌≢◌, refl, [], ◌∷◌, arith}
use mwaa_controller.Env.Factory.{Call, Handle, new_factory, store}
use mwaa_controller.Env.Factory.Threads.{System, Reach, pick, start, later, returned}
use mwaa_controller.Env.Factory.Threads.{r_lock, look, r_unlock, announce, lock, write, unlock}

-- Two concurrent calls of `ManagerFor` with the same arguments can return two different managers:
-- both look before either stores.
pub duplicate_managers :
    (c : Call)
    → (s : System) × (first : Handle) × (second : Handle) × Reach (c ∷ c ∷ []) 14 s
      × (s.calls ≡ returned c first ∷ returned c second ∷ [])
      × (first.address ≢ second.address)
unfolding store
duplicate_managers c =
    let a = store c new_factory in
    let b = store c a.1 in
    (
      _,
      a.0,
      b.0,
      later
          (later
            (later
              (later
                (later
                  (later
                    (later
                      (later
                        (later
                          (later
                            (later
                              (later
                                (later (later start (pick [] _ refl (r_lock refl) refl))
                                  (pick [] _ refl look refl))
                                (pick [] _ refl r_unlock refl))
                              (pick (_ ∷ []) [] refl (r_lock refl) refl))
                            (pick (_ ∷ []) [] refl look refl))
                          (pick (_ ∷ []) [] refl r_unlock refl))
                        (pick [] _ refl (announce refl) refl))
                      (pick [] _ refl (lock refl) refl))
                    (pick [] _ refl write refl))
                  (pick [] _ refl unlock refl))
                (pick (_ ∷ []) [] refl (announce refl) refl))
              (pick (_ ∷ []) [] refl (lock refl) refl))
            (pick (_ ∷ []) [] refl write refl))
          (pick (_ ∷ []) [] refl unlock refl),
      refl,
      λ e. ground arith,
    )
