-- ===== src/DeepCopy/Lists.antt =====
-- The copies of the lists are deep.
use live_pod_migration.Base.{refl}
use live_pod_migration.DeepCopy.Structs.{Cell, Apimachinery}
use live_pod_migration.DeepCopy.Slots
use live_pod_migration.DeepCopy.Into
use live_pod_migration.DeepCopy.Into.{copy_pointer, copy_each, copy_time_pointer}
use live_pod_migration.DeepCopy.Values
use live_pod_migration.DeepCopy.Values.{flat}
use live_pod_migration.DeepCopy.Laws.{
  IsDeep, pointed, each, copy_pointer-IsDeep, copy_each-IsDeep, CopiesDeeply,
}
use live_pod_migration.DeepCopy.Fields.{two-IsDeep}
use live_pod_migration.DeepCopy.Deep

module _ {F M L V : Type 0} (api : Apimachinery (Cell F M L) M L V) (d : CopiesDeeply api) where
  pub container_checkpoint_list-IsDeep :
      IsDeep (Values.container_checkpoint_list api) (Into.container_checkpoint_list api)
  unfolding Into.container_checkpoint_list
  container_checkpoint_list-IsDeep =
      two-IsDeep (λ x. x.list_meta) (λ x. x.items)
        (λ x meta items. record x { list_meta = meta; items = items })
        (λ x meta items. (x.type_meta, meta, items)) api.list_meta_value
        (pointed Slots.container_checkpoints (each (Values.container_checkpoint api)))
        api.copy_list_meta
        (copy_pointer Slots.container_checkpoints (copy_each (Into.container_checkpoint api)))
        (λ a b c. refl) (λ a b c. refl) (λ a b c v w. refl) d.list_meta
        (copy_pointer-IsDeep Slots.container_checkpoints (each (Values.container_checkpoint api))
          (copy_each (Into.container_checkpoint api))
          (copy_each-IsDeep (Values.container_checkpoint api) (Into.container_checkpoint api)
            (Deep.container_checkpoint-IsDeep api d)))

  pub container_checkpoint_content_list-IsDeep :
      IsDeep
        (Values.container_checkpoint_content_list api)
        (Into.container_checkpoint_content_list api)
  unfolding Into.container_checkpoint_content_list
  container_checkpoint_content_list-IsDeep =
      two-IsDeep (λ x. x.list_meta) (λ x. x.items)
        (λ x meta items. record x { list_meta = meta; items = items })
        (λ x meta items. (x.type_meta, meta, items)) api.list_meta_value
        (pointed Slots.container_checkpoint_contents
          (each (Values.container_checkpoint_content api)))
        api.copy_list_meta
        (copy_pointer Slots.container_checkpoint_contents
          (copy_each (Into.container_checkpoint_content api)))
        (λ a b c. refl) (λ a b c. refl) (λ a b c v w. refl) d.list_meta
        (copy_pointer-IsDeep Slots.container_checkpoint_contents
          (each (Values.container_checkpoint_content api))
          (copy_each (Into.container_checkpoint_content api))
          (copy_each-IsDeep (Values.container_checkpoint_content api)
            (Into.container_checkpoint_content api)
            (Deep.container_checkpoint_content-IsDeep api d)))

  pub pod_checkpoint_list-IsDeep :
      IsDeep (Values.pod_checkpoint_list api) (Into.pod_checkpoint_list api)
  unfolding Into.pod_checkpoint_list
  pod_checkpoint_list-IsDeep =
      two-IsDeep (λ x. x.list_meta) (λ x. x.items)
        (λ x meta items. record x { list_meta = meta; items = items })
        (λ x meta items. (x.type_meta, meta, items)) api.list_meta_value
        (pointed Slots.pod_checkpoints (each (Values.pod_checkpoint api))) api.copy_list_meta
        (copy_pointer Slots.pod_checkpoints (copy_each (Into.pod_checkpoint api))) (λ a b c. refl)
        (λ a b c. refl) (λ a b c v w. refl) d.list_meta
        (copy_pointer-IsDeep Slots.pod_checkpoints (each (Values.pod_checkpoint api))
          (copy_each (Into.pod_checkpoint api))
          (copy_each-IsDeep (Values.pod_checkpoint api) (Into.pod_checkpoint api)
            (Deep.pod_checkpoint-IsDeep api d)))

  pub pod_checkpoint_content_list-IsDeep :
      IsDeep (Values.pod_checkpoint_content_list api) (Into.pod_checkpoint_content_list api)
  unfolding Into.pod_checkpoint_content_list
  pod_checkpoint_content_list-IsDeep =
      two-IsDeep (λ x. x.list_meta) (λ x. x.items)
        (λ x meta items. record x { list_meta = meta; items = items })
        (λ x meta items. (x.type_meta, meta, items)) api.list_meta_value
        (pointed Slots.pod_checkpoint_contents (each (Values.pod_checkpoint_content api)))
        api.copy_list_meta
        (copy_pointer Slots.pod_checkpoint_contents (copy_each (Into.pod_checkpoint_content api)))
        (λ a b c. refl) (λ a b c. refl) (λ a b c v w. refl) d.list_meta
        (copy_pointer-IsDeep Slots.pod_checkpoint_contents
          (each (Values.pod_checkpoint_content api)) (copy_each (Into.pod_checkpoint_content api))
          (copy_each-IsDeep (Values.pod_checkpoint_content api) (Into.pod_checkpoint_content api)
            (Deep.pod_checkpoint_content-IsDeep api d)))

  pub pod_migration_list-IsDeep :
      IsDeep (Values.pod_migration_list api) (Into.pod_migration_list api)
  unfolding Into.pod_migration_list
  pod_migration_list-IsDeep =
      two-IsDeep (λ x. x.list_meta) (λ x. x.items)
        (λ x meta items. record x { list_meta = meta; items = items })
        (λ x meta items. (x.type_meta, meta, items)) api.list_meta_value
        (pointed Slots.pod_migrations (each (Values.pod_migration api))) api.copy_list_meta
        (copy_pointer Slots.pod_migrations (copy_each (Into.pod_migration api))) (λ a b c. refl)
        (λ a b c. refl) (λ a b c v w. refl) d.list_meta
        (copy_pointer-IsDeep Slots.pod_migrations (each (Values.pod_migration api))
          (copy_each (Into.pod_migration api))
          (copy_each-IsDeep (Values.pod_migration api) (Into.pod_migration api)
            (Deep.pod_migration-IsDeep api d)))
