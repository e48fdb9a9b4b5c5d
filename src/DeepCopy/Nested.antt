-- ===== src/DeepCopy/Nested.antt =====
-- The structs of other repositories, whose copies are as documented, and those with fields of these.
use mwaa_controller.Api.{NetworkConfiguration, LastUpdate}
use mwaa_controller.DeepCopy.Heap.{Foreign, Heap, NetworkStruct, LastUpdateStruct}
use mwaa_controller.DeepCopy.Resource.{
  copy_wrapper, copy_metadata, copy_condition, copy_stamp, copy_wrappers, copy_conditions,
  copy_network, copy_last_update,
}
use mwaa_controller.DeepCopy.Boxes.{
  wrapper_box, metadata_box, condition_box, slice_box, network_box, last_update_box,
}
use mwaa_controller.DeepCopy.Means.{
  WrapperAt, MetadataAt, ConditionAt, StampAt, WrappersAt, ConditionsAt, NetworkAt, LastUpdateAt,
}
use mwaa_controller.DeepCopy.Into.{Copies}
use mwaa_controller.DeepCopy.Resource.{copy_network_into, copy_last_update_into}
use mwaa_controller.DeepCopy.Means.{Meanings, NetworkMeans, LastUpdateMeans}
use mwaa_controller.DeepCopy.Runs.{Same}
use mwaa_controller.DeepCopy.Pointers.{
  Copied, field, ◌>>=◌, Later, pure_later, by_fields, behind, each, present, or_empty, if_given,
}
use mwaa_controller.DeepCopy.Fields.{field_text, field_texts, field_update_error}

-- The documented behaviour of these copies: a copy is made of new cells alone, and means the same.
pub record CopiesAreLawful {F : Foreign} (N : Meanings F) (X : Copies F) : Type 1 where
  pub wrapper : Copied N.wrapper X.copy_wrapper
  pub metadata : Copied N.metadata X.copy_metadata
  pub condition : Copied N.condition X.copy_condition
  pub stamp : Copied (StampAt N) X.deep_copy_stamp
  pub object_meta : Copied N.object_meta X.copy_object_meta
  pub list_meta : Copied N.list_meta X.copy_list_meta

module _ {F : Foreign} (N : Meanings F) (X : Copies F) (L : CopiesAreLawful N X) where
  pub field_wrapper : Copied (WrapperAt N) (copy_wrapper X)
  field_wrapper = behind wrapper_box L.wrapper

  pub field_metadata : Copied (MetadataAt N) (copy_metadata X)
  field_metadata = behind metadata_box L.metadata

  pub field_condition : Copied (ConditionAt N) (copy_condition X)
  field_condition = behind condition_box L.condition

  pub field_stamp : Copied (StampAt N) (copy_stamp X)
  field_stamp = if_given (λ h v m g. m) L.stamp

  pub field_wrappers : Copied (WrappersAt N) (copy_wrappers X)
  field_wrappers = or_empty (behind slice_box (each field_wrapper))

  pub field_conditions : Copied (ConditionsAt N) (copy_conditions X)
  field_conditions = behind slice_box (each (present field_condition))

  network-still :
      {h g : Heap F} (s : NetworkStruct) (v : NetworkConfiguration)
      → Same 0 h g
      → NetworkMeans N h s v
      → NetworkMeans N g s v
  network-still s v same m = record {
    security_group_ids =
        field_texts.still s.security_group_ids v.security_group_ids same m.security_group_ids;
    security_group_refs =
        field_wrappers.still s.security_group_refs v.security_group_refs same m.security_group_refs;
    subnet_ids = field_texts.still s.subnet_ids v.subnet_ids same m.subnet_ids;
    subnet_refs = field_wrappers.still s.subnet_refs v.subnet_refs same m.subnet_refs;
  }

  network-copies :
      (h : Heap F) (s : NetworkStruct) (v : NetworkConfiguration)
      → NetworkMeans N h s v
      → Later h (copy_network_into X s) (λ g t. NetworkMeans N g t v)
  unfolding copy_network_into
  network-copies h s v m = do
    _ ← field s.security_group_ids v.security_group_ids field_texts m.security_group_ids
    _ ← field s.security_group_refs v.security_group_refs field_wrappers m.security_group_refs
    _ ← field s.subnet_ids v.subnet_ids field_texts m.subnet_ids
    _ ← field s.subnet_refs v.subnet_refs field_wrappers m.subnet_refs
    pure_later _ λ g m4 m3 m2 m1. record {
      security_group_ids = m1;
      security_group_refs = m2;
      subnet_ids = m3;
      subnet_refs = m4;
    }

  pub network-Copied : Copied (NetworkMeans N) (copy_network_into X)
  network-Copied = by_fields (λ h g. network-still) network-copies

  pub field_network : Copied (NetworkAt N) (copy_network X)
  field_network = behind network_box network-Copied

  last_update-still :
      {h g : Heap F} (s : LastUpdateStruct) (v : LastUpdate)
      → Same 0 h g
      → LastUpdateMeans N h s v
      → LastUpdateMeans N g s v
  last_update-still s v same m = record {
    created_at = field_stamp.still s.created_at v.created_at same m.created_at;
    error = field_update_error.still s.error v.error same m.error;
    source = field_text.still s.source v.source same m.source;
    status = field_text.still s.status v.status same m.status;
    worker_replacement_strategy =
        field_text.still s.worker_replacement_strategy v.worker_replacement_strategy same
          m.worker_replacement_strategy;
  }

  last_update-copies :
      (h : Heap F) (s : LastUpdateStruct) (v : LastUpdate)
      → LastUpdateMeans N h s v
      → Later h (copy_last_update_into X s) (λ g t. LastUpdateMeans N g t v)
  unfolding copy_last_update_into
  last_update-copies h s v m = do
    _ ← field s.created_at v.created_at field_stamp m.created_at
    _ ← field s.error v.error field_update_error m.error
    _ ← field s.source v.source field_text m.source
    _ ← field s.status v.status field_text m.status
    _ ←
        field s.worker_replacement_strategy v.worker_replacement_strategy field_text
          m.worker_replacement_strategy
    pure_later _ λ g m5 m4 m3 m2 m1. record {
      created_at = m1;
      error = m2;
      source = m3;
      status = m4;
      worker_replacement_strategy = m5;
    }

  pub last_update-Copied : Copied (LastUpdateMeans N) (copy_last_update_into X)
  last_update-Copied = by_fields (λ h g. last_update-still) last_update-copies

  pub field_last_update : Copied (LastUpdateAt N) (copy_last_update X)
  field_last_update = behind last_update_box last_update-Copied
