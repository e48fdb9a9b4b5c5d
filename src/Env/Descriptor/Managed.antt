-- ===== src/Env/Descriptor/Managed.antt =====
-- A resource is under management from `MarkManaged` to `MarkUnmanaged`.
use mwaa_controller.Common.{
  String, ◌≡◌, refl, ◌∙◌, ap, true, false, not, ◌&&◌, some, List, [], ◌∷◌, arith,
}
use mwaa_controller.Common.{returns, contains, ◌==◌, string_eq, ==_refl}
use mwaa_controller.Api.{Environment}
use mwaa_controller.Ext.Controllerutil.{Controllerutil, ControllerutilIsLawful}
use mwaa_controller.Env.Descriptor.{is_managed, mark_managed, mark_unmanaged, contains_finalizer}
use mwaa_controller.Env.Descriptor.{finalizer_string, with_finalizers}

contains_finalizer-eq : (fs : List String) (f : String) → contains_finalizer fs f ≡ contains fs f
contains_finalizer-eq [] f = refl
contains_finalizer-eq (e ∷ fs) f = ground (arith, contains_finalizer-eq fs f)

module _ (U : Controllerutil) (L : ControllerutilIsLawful U) (ko : Environment) where
  -- `MarkManaged` and then `MarkUnmanaged` return: `IsManaged` is true after the first and false
  -- after the second, which leaves of the finalizers just those that were there and are not the
  -- controller's own, and changes nothing else of the resource, where the finalizer helpers do as
  -- documented.
  pub managed_until_unmarked :
      (managed : Environment) × (freed : Environment) × (mark_managed U (some ko) ≡ returns managed)
      × (mark_unmanaged U (some managed) ≡ returns freed)
      × (is_managed (some managed) ≡ returns true)
      × (is_managed (some freed) ≡ returns false)
      × ((g : String)
          → contains freed.meta.finalizers g
            ≡ (contains ko.meta.finalizers g && not (g == finalizer_string)))
      × (with_finalizers freed ko.meta.finalizers ≡ ko)
  unfolding mark_managed mark_unmanaged is_managed
  managed_until_unmarked =
      let added = U.add_finalizer ko.meta.finalizers finalizer_string in
      let removed = U.remove_finalizer added finalizer_string in
      let on : contains_finalizer added finalizer_string ≡ true =
        contains_finalizer-eq added finalizer_string
        ∙ L.contains-add_finalizer ko.meta.finalizers finalizer_string finalizer_string
        ∙ ground (arith, ==_refl finalizer_string) in
      let off : contains_finalizer removed finalizer_string ≡ false =
        contains_finalizer-eq removed finalizer_string
        ∙ L.contains-remove_finalizer added finalizer_string finalizer_string
        ∙ ground (arith, ==_refl finalizer_string) in
      (
        with_finalizers ko added,
        with_finalizers ko removed,
        refl,
        refl,
        ap returns on,
        ap returns off,
        λ g. ground (
          arith,
          L.contains-remove_finalizer added finalizer_string g,
          L.contains-add_finalizer ko.meta.finalizers finalizer_string g,
        ),
        refl,
      )
