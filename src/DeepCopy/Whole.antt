-- ===== src/DeepCopy/Whole.antt =====
-- `EnvironmentStatus`, `Environment` and `EnvironmentList`.
use mwaa_controller.Api.{EnvironmentStatus}
use mwaa_controller.Api.{Environment}
use mwaa_controller.DeepCopy.Heap.{
  Foreign, Heap, EnvironmentStruct, EnvironmentListStruct, StatusStruct,
}
use mwaa_controller.DeepCopy.Into.{Copies}
use mwaa_controller.DeepCopy.Resource.{copy_status_into, copy_environment_into}
use mwaa_controller.DeepCopy.Means.{
  Meanings, StatusMeans, EnvironmentMeans, PtrAt, EachAt, EnvironmentListMeans, EnvironmentList,
}
use mwaa_controller.DeepCopy.Runs.{Same}
use mwaa_controller.DeepCopy.Pointers.{
  Copied, field, ◌>>=◌, Later, pure_later, by_fields, behind, each,
}
use mwaa_controller.DeepCopy.Boxes.{environments_box}
use mwaa_controller.DeepCopy.Into.{copy_ptr, copy_each}
use mwaa_controller.DeepCopy.Resource.{copy_environment_list_into}
use mwaa_controller.DeepCopy.Fields.{field_text}
use mwaa_controller.DeepCopy.Nested.{
  CopiesAreLawful, field_metadata, field_conditions, field_stamp, field_last_update,
}
use mwaa_controller.DeepCopy.Spec.{spec-still, spec-Copied}

module _ {F : Foreign} (N : Meanings F) (X : Copies F) (L : CopiesAreLawful N X) where
  status-still :
      {h g : Heap F} (s : StatusStruct) (v : EnvironmentStatus)
      → Same 0 h g
      → StatusMeans N h s v
      → StatusMeans N g s v
  status-still s v same m = record {
    ack_resource_metadata =
        (field_metadata N X L).still s.ack_resource_metadata v.ack_resource_metadata same
          m.ack_resource_metadata;
    conditions = (field_conditions N X L).still s.conditions v.conditions same m.conditions;
    created_at = (field_stamp N X L).still s.created_at v.created_at same m.created_at;
    last_update = (field_last_update N X L).still s.last_update v.last_update same m.last_update;
    status = field_text.still s.status v.status same m.status;
    webserver_url = field_text.still s.webserver_url v.webserver_url same m.webserver_url;
  }

  status-copies :
      (h : Heap F) (s : StatusStruct) (v : EnvironmentStatus)
      → StatusMeans N h s v
      → Later h (copy_status_into X s) (λ g t. StatusMeans N g t v)
  unfolding copy_status_into
  status-copies h s v m = do
    _ ←
        field s.ack_resource_metadata v.ack_resource_metadata (field_metadata N X L)
          m.ack_resource_metadata
    _ ← field s.conditions v.conditions (field_conditions N X L) m.conditions
    _ ← field s.created_at v.created_at (field_stamp N X L) m.created_at
    _ ← field s.last_update v.last_update (field_last_update N X L) m.last_update
    _ ← field s.status v.status field_text m.status
    _ ← field s.webserver_url v.webserver_url field_text m.webserver_url
    pure_later _ λ g m6 m5 m4 m3 m2 m1. record {
      ack_resource_metadata = m1;
      conditions = m2;
      created_at = m3;
      last_update = m4;
      status = m5;
      webserver_url = m6;
    }

  pub status-Copied : Copied (StatusMeans N) (copy_status_into X)
  status-Copied = by_fields (λ h g. status-still) status-copies

  environment-still :
      {h g : Heap F} (s : EnvironmentStruct F) (v : Environment)
      → Same 0 h g
      → EnvironmentMeans N h s v
      → EnvironmentMeans N g s v
  environment-still s v same m = record {
    meta = L.object_meta.still s.meta v.meta same m.meta;
    spec = spec-still N X L s.spec v.spec same m.spec;
    status = status-still s.status v.status same m.status;
  }

  environment-copies :
      (h : Heap F) (s : EnvironmentStruct F) (v : Environment)
      → EnvironmentMeans N h s v
      → Later h (copy_environment_into X s) (λ g t. EnvironmentMeans N g t v)
  unfolding copy_environment_into
  environment-copies h s v m = do
    _ ← field s.meta v.meta L.object_meta m.meta
    _ ← field s.spec v.spec (spec-Copied N X L) m.spec
    _ ← field s.status v.status status-Copied m.status
    pure_later _ λ g m3 m2 m1. record { meta = m1; spec = m2; status = m3 }

  pub environment-Copied : Copied (EnvironmentMeans N) (copy_environment_into X)
  environment-Copied = by_fields (λ h g. environment-still) environment-copies

  items-Copied :
      Copied
        (PtrAt environments_box (EachAt (EnvironmentMeans N)))
        (copy_ptr environments_box (copy_each (copy_environment_into X)))
  items-Copied = behind environments_box (each environment-Copied)

  environment_list-still :
      {h g : Heap F} (s : EnvironmentListStruct F) (v : EnvironmentList N.ListMeta)
      → Same 0 h g
      → EnvironmentListMeans N h s v
      → EnvironmentListMeans N g s v
  environment_list-still s v same m = record {
    meta = L.list_meta.still s.meta v.meta same m.meta;
    items = items-Copied.still s.items v.items same m.items;
  }

  environment_list-copies :
      (h : Heap F) (s : EnvironmentListStruct F) (v : EnvironmentList N.ListMeta)
      → EnvironmentListMeans N h s v
      → Later h (copy_environment_list_into X s) (λ g t. EnvironmentListMeans N g t v)
  unfolding copy_environment_list_into
  environment_list-copies h s v m = do
    _ ← field s.meta v.meta L.list_meta m.meta
    _ ← field s.items v.items items-Copied m.items
    pure_later _ λ g m2 m1. record { meta = m1; items = m2 }

  pub environment_list-Copied : Copied (EnvironmentListMeans N) (copy_environment_list_into X)
  environment_list-Copied = by_fields (λ h g. environment_list-still) environment_list-copies
