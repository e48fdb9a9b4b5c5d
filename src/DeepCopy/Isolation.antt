-- ===== src/DeepCopy/Isolation.antt =====
-- What a caller of `DeepCopy` relies on: the copy means the same, and it and the original may be
-- written apart.
use native.Mathlib.Decide.{dec_lt}
use mwaa_controller.Common.{ℕ, ◌≤◌, ◌<◌, ◌≡◌, Option, none, some, refl, arith}
use mwaa_controller.Common.{nat_eq, ◌⊎◌, inl, inr}
use mwaa_controller.Api.{Environment}
use mwaa_controller.DeepCopy.Heap.{Foreign, Ptr, Heap, Cell, Run, pure, ◌>>=◌, write}
use mwaa_controller.DeepCopy.Boxes.{environment_box, environment_list_box}
use mwaa_controller.DeepCopy.Into.{Copies}
use mwaa_controller.DeepCopy.Resource.{deep_copy, deep_copy_list, deep_copy_object}
use mwaa_controller.DeepCopy.Means.{
  Means, Meanings, EnvironmentAt, EnvironmentListAt, EnvironmentList,
}
use mwaa_controller.DeepCopy.Runs.{Same, Same-refl}
use mwaa_controller.DeepCopy.Pointers.{Copied, behind}
use mwaa_controller.DeepCopy.Nested.{CopiesAreLawful}
use mwaa_controller.DeepCopy.Whole.{environment-Copied, environment_list-Copied}

module _ {F : Foreign} where
  -- A write outside of a stretch of memory leaves that as it is.
  write-above :
      {h g : Heap F} (a : ℕ) (c : Cell F) → Same 0 h g → h.next ≤ a → Same 0 h (write g a c)
  unfolding write
  write-above a c s le = record {
    bound = s.bound;
    cells = λ b l u. let e = s.cells b l u in ground arith;
  }

  write-below : {lo : ℕ} (h : Heap F) (a : ℕ) (c : Cell F) → a < lo → Same lo h (write h a c)
  unfolding write
  write-below h a c lt = record { bound = omega arith; cells = λ b l u. ground arith }

  module _ {A V : Type 0} {M : Means F A V} {copy : A → Run F A} (C : Copied M copy) where
    copy_means :
        (h : Heap F) (x : A) (v : V)
        → M h x v
        → (y : A) × (g : Heap F) × (copy x h ≡ some (y, g)) × M g x v × M g y v
    copy_means h x v m =
        let made = C.copies h x v m in
        (
          made.result,
          made.after,
          made.runs,
          C.still x v made.extends m,
          made.fresh made.after (Same-refl _ made.after),
        )

    copy_apart :
        (h : Heap F) (x : A) (v : V) (a : ℕ) (c : Cell F)
        → M h x v
        → (y : A) × (g : Heap F) × (copy x h ≡ some (y, g))
          × (((a < h.next) × M (write g a c) y v) ⊎ ((h.next ≤ a) × M (write g a c) x v))
    copy_apart h x v a c m =
        let made = C.copies h x v m in
        (
          made.result,
          made.after,
          made.runs,
          elim (dec_lt a h.next) [
            | yes lt ↦ inl (lt, made.fresh (write made.after a c) (write-below made.after a c lt))
            | no ge ↦
                let le : h.next ≤ a = omega arith in
                inr (le, C.still x v (write-above a c made.extends le) m)
          ],
        )

  module _ (N : Meanings F) (X : Copies F) (L : CopiesAreLawful N X) where
    environments : Copied (EnvironmentAt N) (deep_copy X)
    unfolding deep_copy
    environments = behind environment_box (environment-Copied N X L)

    environment_lists : Copied (EnvironmentListAt N) (deep_copy_list X)
    unfolding deep_copy_list
    environment_lists = behind environment_list_box (environment_list-Copied N X L)

    -- If a pointer leads to an environment in memory, or is nil, then `DeepCopy` of it returns,
    -- with the memory after it, in which the pointer still leads to that environment and the
    -- result leads to the same one: every field of the spec and of the status, with the elements
    -- of slices and maps and what they point to. The `DeepCopyInto` of the structs of other
    -- repositories do as documented.
    pub deep_copy-EnvironmentAt :
        (h : Heap F) (p : Ptr) (v : Option Environment)
        → EnvironmentAt N h p v
        → (q : Ptr) × (g : Heap F) × (deep_copy X p h ≡ some (q, g))
          × EnvironmentAt N g p v
          × EnvironmentAt N g q v
    deep_copy-EnvironmentAt h p v m = copy_means environments h p v m

    -- After `DeepCopy` of a pointer to an environment, any one cell of memory may be overwritten
    -- with anything: a cell that stood there before the copy leaves what the copy means as it was,
    -- and one that was taken by the copy or later leaves what the original means as it was. The
    -- two share no memory. The `DeepCopyInto` of the structs of other repositories do as
    -- documented.
    pub deep_copy_apart :
        (h : Heap F) (p : Ptr) (v : Option Environment) (a : ℕ) (c : Cell F)
        → EnvironmentAt N h p v
        → (q : Ptr) × (g : Heap F) × (deep_copy X p h ≡ some (q, g))
          × (((a < h.next) × EnvironmentAt N (write g a c) q v)
              ⊎ ((h.next ≤ a) × EnvironmentAt N (write g a c) p v))
    deep_copy_apart h p v a c m = copy_apart environments h p v a c m

    -- `DeepCopyObject` does as `DeepCopy`.
    deep_copy_object-deep_copy : (p : Ptr) (h : Heap F) → deep_copy_object X p h ≡ deep_copy X p h
    unfolding deep_copy_object ◌>>=◌
    deep_copy_object-deep_copy p h =
        elim (deep_copy X p h)
          as (λ r.
            elim r [
              | none ↦ none
              | some (c, h') ↦
                  (elim c as (λ x. Run F Ptr) [ none ↦ pure none | some a ↦ pure (some a) ]) h'
            ]
            ≡ r) [ none ↦ refl | some (none, g) ↦ refl | some (some a, g) ↦ refl ]

    -- A list of resources is copied as one resource is.
    deep_copy_list-EnvironmentListAt :
        (h : Heap F) (p : Ptr) (v : Option (EnvironmentList N.ListMeta))
        → EnvironmentListAt N h p v
        → (q : Ptr) × (g : Heap F) × (deep_copy_list X p h ≡ some (q, g))
          × EnvironmentListAt N g p v
          × EnvironmentListAt N g q v
    deep_copy_list-EnvironmentListAt h p v m = copy_means environment_lists h p v m

    deep_copy_list_apart :
        (h : Heap F) (p : Ptr) (v : Option (EnvironmentList N.ListMeta)) (a : ℕ) (c : Cell F)
        → EnvironmentListAt N h p v
        → (q : Ptr) × (g : Heap F) × (deep_copy_list X p h ≡ some (q, g))
          × (((a < h.next) × EnvironmentListAt N (write g a c) q v)
              ⊎ ((h.next ≤ a) × EnvironmentListAt N (write g a c) p v))
    deep_copy_list_apart h p v a c m = copy_apart environment_lists h p v a c m
