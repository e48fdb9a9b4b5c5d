-- ===== src/Ext/Controllerutil.antt =====
-- The package `controllerutil` of controller-runtime, on the finalizers of an object, and the name
-- of the annotation of adopted resources in the ACK runtime.
use mwaa_controller.Common.{String, ◌≡◌, not, ◌&&◌, ◌||◌, ◌==◌, string_eq, List, contains}

pub record Controllerutil : Type 0 where
  pub add_finalizer : List String → String → List String
  pub remove_finalizer : List String → String → List String
  pub annotation_adopted : String

-- `AddFinalizer` adds the finalizer if it is not present, and `RemoveFinalizer` removes it; the
-- others stay.
pub record ControllerutilIsLawful (U : Controllerutil) : Type 0 where
  pub contains-add_finalizer :
      (fs : List String) (f g : String)
      → contains (U.add_finalizer fs f) g ≡ (contains fs g || g == f)
  pub contains-remove_finalizer :
      (fs : List String) (f g : String)
      → contains (U.remove_finalizer fs f) g ≡ (contains fs g && not (g == f))
