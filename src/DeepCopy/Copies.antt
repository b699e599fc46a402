-- ===== src/DeepCopy/Copies.antt =====
-- What `DeepCopy` of the types promises.
use live_pod_migration.DeepCopy.Structs.{Cell, Apimachinery}
use live_pod_migration.DeepCopy.Slots
use live_pod_migration.DeepCopy.New
use live_pod_migration.DeepCopy.Into
use live_pod_migration.DeepCopy.Values
use live_pod_migration.DeepCopy.Deep
use live_pod_migration.DeepCopy.Lists
use live_pod_migration.DeepCopy.Into.{copy_pointer}
use live_pod_migration.DeepCopy.Values.{flat}
use live_pod_migration.DeepCopy.Laws.{
  IsDeep, pointed, pure-IsDeep, copy_pointer-IsDeep, CopiesDeeply,
}

module _ {F M L V : Type 0} (api : Apimachinery (Cell F M L) M L V) where
  -- Each `DeepCopy` is deep, that of a migration but for the map of its images.
  pub record AreDeep : Type 0 where
    pub container_checkpoint :
        IsDeep
          (pointed
            (Slots.container_checkpoint {F = F} {M = M} {L = L})
            (Values.container_checkpoint api))
          (New.container_checkpoint api)
    pub container_checkpoint_spec :
        IsDeep
          (pointed (Slots.container_checkpoint_spec {F = F} {M = M} {L = L}) flat)
          New.container_checkpoint_spec
    pub container_checkpoint_status :
        IsDeep
          (pointed
            (Slots.container_checkpoint_status {F = F} {M = M} {L = L})
            (Values.container_checkpoint_status api))
          (New.container_checkpoint_status api)
    pub container_checkpoint_list :
        IsDeep
          (pointed
            (Slots.container_checkpoint_list {F = F} {M = M} {L = L})
            (Values.container_checkpoint_list api))
          (New.container_checkpoint_list api)
    pub container_checkpoint_content :
        IsDeep
          (pointed
            (Slots.container_checkpoint_content {F = F} {M = M} {L = L})
            (Values.container_checkpoint_content api))
          (New.container_checkpoint_content api)
    pub container_checkpoint_content_spec :
        IsDeep
          (pointed (Slots.container_checkpoint_content_spec {F = F} {M = M} {L = L}) flat)
          New.container_checkpoint_content_spec
    pub container_checkpoint_content_status :
        IsDeep
          (pointed
            (Slots.container_checkpoint_content_status {F = F} {M = M} {L = L})
            (Values.content_status api))
          (New.container_checkpoint_content_status api)
    pub container_checkpoint_content_list :
        IsDeep
          (pointed
            (Slots.container_checkpoint_content_list {F = F} {M = M} {L = L})
            (Values.container_checkpoint_content_list api))
          (New.container_checkpoint_content_list api)
    pub pod_checkpoint :
        IsDeep
          (pointed (Slots.pod_checkpoint {F = F} {M = M} {L = L}) (Values.pod_checkpoint api))
          (New.pod_checkpoint api)
    pub pod_checkpoint_spec :
        IsDeep
          (pointed (Slots.pod_checkpoint_spec {F = F} {M = M} {L = L}) Values.pod_checkpoint_spec)
          New.pod_checkpoint_spec
    pub pod_checkpoint_status :
        IsDeep
          (pointed
            (Slots.pod_checkpoint_status {F = F} {M = M} {L = L})
            (Values.pod_checkpoint_status api))
          (New.pod_checkpoint_status api)
    pub pod_checkpoint_list :
        IsDeep
          (pointed
            (Slots.pod_checkpoint_list {F = F} {M = M} {L = L})
            (Values.pod_checkpoint_list api))
          (New.pod_checkpoint_list api)
    pub pod_checkpoint_content :
        IsDeep
          (pointed
            (Slots.pod_checkpoint_content {F = F} {M = M} {L = L})
            (Values.pod_checkpoint_content api))
          (New.pod_checkpoint_content api)
    pub pod_checkpoint_content_spec :
        IsDeep
          (pointed
            (Slots.pod_checkpoint_content_spec {F = F} {M = M} {L = L})
            Values.pod_checkpoint_content_spec)
          New.pod_checkpoint_content_spec
    pub pod_checkpoint_content_status :
        IsDeep
          (pointed
            (Slots.pod_checkpoint_content_status {F = F} {M = M} {L = L})
            (Values.content_status api))
          (New.pod_checkpoint_content_status api)
    pub pod_checkpoint_content_list :
        IsDeep
          (pointed
            (Slots.pod_checkpoint_content_list {F = F} {M = M} {L = L})
            (Values.pod_checkpoint_content_list api))
          (New.pod_checkpoint_content_list api)
    pub pod_migration :
        IsDeep
          (pointed (Slots.pod_migration {F = F} {M = M} {L = L}) (Values.pod_migration api))
          (New.pod_migration api)
    pub pod_migration_spec :
        IsDeep
          (pointed (Slots.pod_migration_spec {F = F} {M = M} {L = L}) flat)
          New.pod_migration_spec
    pub pod_migration_status :
        IsDeep
          (pointed (Slots.pod_migration_status {F = F} {M = M} {L = L}) Values.pod_migration_status)
          New.pod_migration_status
    pub pod_migration_list :
        IsDeep
          (pointed
            (Slots.pod_migration_list {F = F} {M = M} {L = L})
            (Values.pod_migration_list api))
          (New.pod_migration_list api)

-- If apimachinery's own copies are deep, then so is `DeepCopy` of each of the twenty types, that of a
-- migration, of its status and of a list of migrations but for the maps of the images: these have the
-- addresses of the originals'. A deep copy changes no cell that there was, is worth what the original is,
-- and stays so whatever becomes of the older cells.
pub copies-AreDeep :
    {F M L V : Type 0} (api : Apimachinery (Cell F M L) M L V) → CopiesDeeply api → AreDeep api
unfolding New.container_checkpoint New.container_checkpoint_spec New.container_checkpoint_status
    New.container_checkpoint_list New.container_checkpoint_content
    New.container_checkpoint_content_spec New.container_checkpoint_content_status
    New.container_checkpoint_content_list New.pod_checkpoint New.pod_checkpoint_spec
    New.pod_checkpoint_status New.pod_checkpoint_list New.pod_checkpoint_content
    New.pod_checkpoint_content_spec New.pod_checkpoint_content_status
    New.pod_checkpoint_content_list New.pod_migration New.pod_migration_spec
    New.pod_migration_status New.pod_migration_list
copies-AreDeep api d = record {
  container_checkpoint =
      copy_pointer-IsDeep Slots.container_checkpoint (Values.container_checkpoint api)
        (Into.container_checkpoint api) (Deep.container_checkpoint-IsDeep api d);
  container_checkpoint_spec =
      copy_pointer-IsDeep Slots.container_checkpoint_spec flat Into.container_checkpoint_spec
        (pure-IsDeep (λ x. x));
  container_checkpoint_status =
      copy_pointer-IsDeep Slots.container_checkpoint_status (Values.container_checkpoint_status api)
        (Into.container_checkpoint_status api) (Deep.container_checkpoint_status-IsDeep api d);
  container_checkpoint_list =
      copy_pointer-IsDeep Slots.container_checkpoint_list (Values.container_checkpoint_list api)
        (Into.container_checkpoint_list api) (Lists.container_checkpoint_list-IsDeep api d);
  container_checkpoint_content =
      copy_pointer-IsDeep Slots.container_checkpoint_content
        (Values.container_checkpoint_content api) (Into.container_checkpoint_content api)
        (Deep.container_checkpoint_content-IsDeep api d);
  container_checkpoint_content_spec =
      copy_pointer-IsDeep Slots.container_checkpoint_content_spec flat
        Into.container_checkpoint_content_spec (pure-IsDeep (λ x. x));
  container_checkpoint_content_status =
      copy_pointer-IsDeep Slots.container_checkpoint_content_status (Values.content_status api)
        (Into.container_checkpoint_content_status api)
        (Deep.container_checkpoint_content_status-IsDeep api d);
  container_checkpoint_content_list =
      copy_pointer-IsDeep Slots.container_checkpoint_content_list
        (Values.container_checkpoint_content_list api) (Into.container_checkpoint_content_list api)
        (Lists.container_checkpoint_content_list-IsDeep api d);
  pod_checkpoint =
      copy_pointer-IsDeep Slots.pod_checkpoint (Values.pod_checkpoint api) (Into.pod_checkpoint api)
        (Deep.pod_checkpoint-IsDeep api d);
  pod_checkpoint_spec =
      copy_pointer-IsDeep Slots.pod_checkpoint_spec Values.pod_checkpoint_spec
        Into.pod_checkpoint_spec Deep.pod_checkpoint_spec-IsDeep;
  pod_checkpoint_status =
      copy_pointer-IsDeep Slots.pod_checkpoint_status (Values.pod_checkpoint_status api)
        (Into.pod_checkpoint_status api) (Deep.pod_checkpoint_status-IsDeep api d);
  pod_checkpoint_list =
      copy_pointer-IsDeep Slots.pod_checkpoint_list (Values.pod_checkpoint_list api)
        (Into.pod_checkpoint_list api) (Lists.pod_checkpoint_list-IsDeep api d);
  pod_checkpoint_content =
      copy_pointer-IsDeep Slots.pod_checkpoint_content (Values.pod_checkpoint_content api)
        (Into.pod_checkpoint_content api) (Deep.pod_checkpoint_content-IsDeep api d);
  pod_checkpoint_content_spec =
      copy_pointer-IsDeep Slots.pod_checkpoint_content_spec Values.pod_checkpoint_content_spec
        Into.pod_checkpoint_content_spec Deep.pod_checkpoint_content_spec-IsDeep;
  pod_checkpoint_content_status =
      copy_pointer-IsDeep Slots.pod_checkpoint_content_status (Values.content_status api)
        (Into.pod_checkpoint_content_status api) (Deep.pod_checkpoint_content_status-IsDeep api d);
  pod_checkpoint_content_list =
      copy_pointer-IsDeep Slots.pod_checkpoint_content_list (Values.pod_checkpoint_content_list api)
        (Into.pod_checkpoint_content_list api) (Lists.pod_checkpoint_content_list-IsDeep api d);
  pod_migration =
      copy_pointer-IsDeep Slots.pod_migration (Values.pod_migration api) (Into.pod_migration api)
        (Deep.pod_migration-IsDeep api d);
  pod_migration_spec =
      copy_pointer-IsDeep Slots.pod_migration_spec flat Into.pod_migration_spec
        (pure-IsDeep (λ x. x));
  pod_migration_status =
      copy_pointer-IsDeep Slots.pod_migration_status Values.pod_migration_status
        Into.pod_migration_status Deep.pod_migration_status-IsDeep;
  pod_migration_list =
      copy_pointer-IsDeep Slots.pod_migration_list (Values.pod_migration_list api)
        (Into.pod_migration_list api) (Lists.pod_migration_list-IsDeep api d);
}
