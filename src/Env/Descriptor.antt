-- ===== src/Env/Descriptor.antt =====
-- pkg/resource/environment/descriptor.go. A resource is the pointer that it wraps. The code tests
-- the object for nil as an interface, which a nil pointer in it passes: the call of its method
-- panics then.
pub mod Managed
mod Tests
use mwaa_controller.Common.{
  String, Bool, true, false, Option, none, some, List, [], ◌∷◌, ◌==◌, string_eq,
}
use mwaa_controller.Common.{if◌then◌else◌, elements, Outcome, returns, panics}
use mwaa_controller.Common.Dict.{insert}
use mwaa_controller.Api.{Environment, ObjectMeta}
use mwaa_controller.Ext.Compare.{Compare, Deltas}
use mwaa_controller.Ext.Controllerutil.{Controllerutil}
use mwaa_controller.Env.Delta.{new_resource_delta}

-- `FinalizerString`
abbrev pub finalizer_string : String
finalizer_string = "finalizers.mwaa.services.k8s.aws/Environment"

-- The loop of `containsFinalizer`
abbrev pub contains_finalizer : List String → String → Bool
contains_finalizer [] finalizer = false
contains_finalizer (e ∷ f) finalizer =
    let rest = contains_finalizer f finalizer in if e == finalizer then true else rest

-- `IsManaged`
unfoldable pub is_managed : Option Environment → Outcome Bool
is_managed none = panics "nil pointer dereference"
is_managed (some ko) = returns (contains_finalizer ko.meta.finalizers finalizer_string)

abbrev pub with_meta : Environment → ObjectMeta → Environment
with_meta ko meta = record ko { meta = meta }

abbrev pub with_finalizers : Environment → List String → Environment
with_finalizers ko fs = with_meta ko (record (ko.meta) { finalizers = fs })

module _ (U : Controllerutil) where
  -- `MarkManaged`
  unfoldable pub mark_managed : Option Environment → Outcome Environment
  mark_managed none = panics "nil pointer dereference"
  mark_managed (some ko) =
      returns (with_finalizers ko (U.add_finalizer ko.meta.finalizers finalizer_string))

  -- `MarkUnmanaged`
  unfoldable pub mark_unmanaged : Option Environment → Outcome Environment
  mark_unmanaged none = panics "nil pointer dereference"
  mark_unmanaged (some ko) =
      returns (with_finalizers ko (U.remove_finalizer ko.meta.finalizers finalizer_string))

  -- `MarkAdopted`
  unfoldable pub mark_adopted : Option Environment → Outcome Environment
  mark_adopted none = panics "nil pointer dereference"
  mark_adopted (some ko) =
      let curr = insert U.annotation_adopted "true" (elements ko.meta.annotations) in
      returns (with_meta ko (record (ko.meta) { annotations = some curr }))

-- `Delta`
abbrev pub delta :
    Compare → (D : Deltas) → Option Environment → Option Environment → Outcome D.Delta
delta Q D a b = new_resource_delta Q D a b
