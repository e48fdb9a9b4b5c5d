-- ===== src/Env/Descriptor/Tests.antt =====
-- The results on the descriptor, on the sample environment.
use mwaa_controller.Common.{
  String, ◌≡◌, true, false, not, ◌&&◌, none, some, returns, contains, ◌==◌, string_eq,
}
use mwaa_controller.Api.{Environment}
use mwaa_controller.Env.Descriptor.{
  is_managed, mark_managed, mark_unmanaged, finalizer_string, with_finalizers,
}
use mwaa_controller.Env.Descriptor.Managed.{managed_until_unmarked}
use mwaa_controller.Samples.Finalizers.{finalizers, finalizers-IsLawful}
use mwaa_controller.Samples.Resources.{prod}

managed_until_unmarked_example :
    (managed : Environment) × (freed : Environment) × (mark_managed finalizers (some (prod none))
      ≡ returns managed)
    × (mark_unmanaged finalizers (some managed) ≡ returns freed)
    × (is_managed (some managed) ≡ returns true)
    × (is_managed (some freed) ≡ returns false)
    × ((g : String)
        → contains freed.meta.finalizers g
          ≡ (contains (prod none).meta.finalizers g && not (g == finalizer_string)))
    × (with_finalizers freed (prod none).meta.finalizers ≡ prod none)
managed_until_unmarked_example = managed_until_unmarked finalizers finalizers-IsLawful (prod none)
