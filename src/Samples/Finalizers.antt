-- ===== src/Samples/Finalizers.antt =====
-- An instance of `Controllerutil`.
use mwaa_controller.Common.{
  String, ◌≡◌, not, ◌&&◌, ◌||◌, ◌==◌, string_eq, List, [], ◌∷◌, contains, arith,
}
use mwaa_controller.Common.{if◌then◌else◌, refl}
use mwaa_controller.Ext.Controllerutil.{Controllerutil, ControllerutilIsLawful}

abbrev pub add_once : List String → String → List String
add_once fs f = if contains fs f then fs else f ∷ fs

abbrev pub remove_all : List String → String → List String
remove_all [] f = []
remove_all (g ∷ fs) f = let rest = remove_all fs f in if g == f then rest else g ∷ rest

contains-add_once :
    (fs : List String) (f g : String) → contains (add_once fs f) g ≡ (contains fs g || g == f)
contains-add_once fs f g = ground arith

contains-remove_all :
    (fs : List String) (f g : String)
    → contains (remove_all fs f) g ≡ (contains fs g && not (g == f))
contains-remove_all [] f g = refl
contains-remove_all (h ∷ fs) f g = ground (arith, contains-remove_all fs f g)

abbrev pub finalizers : Controllerutil
finalizers = record {
  add_finalizer = add_once;
  remove_finalizer = remove_all;
  annotation_adopted = "services.k8s.aws/adopted";
}

pub finalizers-IsLawful : ControllerutilIsLawful finalizers
finalizers-IsLawful = record {
  contains-add_finalizer = contains-add_once;
  contains-remove_finalizer = contains-remove_all;
}
