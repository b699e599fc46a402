-- ===== src/DeepCopy/Deep.antt =====
-- The copies of the specs, the statuses, the resources and the lists are deep.
use live_pod_migration.Base.{refl, none, []}
use live_pod_migration.Effect.{maybe}
use live_pod_migration.DeepCopy.Memory.{pure}
use live_pod_migration.DeepCopy.Structs.{Cell, Apimachinery}
use live_pod_migration.DeepCopy.Slots
use live_pod_migration.DeepCopy.Into
use live_pod_migration.DeepCopy.Into.{copy_pointer, copy_each, copy_time_pointer}
use live_pod_migration.DeepCopy.Values
use live_pod_migration.DeepCopy.Values.{flat}
use live_pod_migration.DeepCopy.Laws.{
  IsDeep, pointed, time_pointed, pure-IsDeep, copy_pointer-IsDeep, copy_time_pointer-IsDeep,
  CopiesDeeply,
}
use live_pod_migration.DeepCopy.Fields.{one-IsDeep, two-IsDeep, three-IsDeep}

module _ {F M L : Type 0} where
  pub pod_checkpoint_spec-IsDeep :
      IsDeep (Values.pod_checkpoint_spec {F = F} {M = M} {L = L}) Into.pod_checkpoint_spec
  unfolding Into.pod_checkpoint_spec
  pod_checkpoint_spec-IsDeep =
      one-IsDeep (λ x. x.pod_name) (λ x n. record x { pod_name = n })
        (λ x n. record { pod_name = n }) (pointed Slots.text flat) (copy_pointer Slots.text pure)
        (λ a b. refl) (λ a b w. refl)
        (copy_pointer-IsDeep Slots.text flat pure (pure-IsDeep (λ x. x)))

  pub pod_checkpoint_content_spec-IsDeep :
      IsDeep
        (Values.pod_checkpoint_content_spec {F = F} {M = M} {L = L})
        Into.pod_checkpoint_content_spec
  unfolding Into.pod_checkpoint_content_spec
  pod_checkpoint_content_spec-IsDeep =
      one-IsDeep (λ x. x.container_contents) (λ x n. record x { container_contents = n })
        (λ x contents. (
          record {
            pod_checkpoint_ref = x.pod_checkpoint_ref;
            pod_namespace = x.pod_namespace;
            pod_name = x.pod_name;
            container_contents = maybe contents [] (λ refs. refs);
          },
          contents,
        ))
        (pointed Slots.references flat) (copy_pointer Slots.references pure) (λ a b. refl)
        (λ a b w. refl) (copy_pointer-IsDeep Slots.references flat pure (pure-IsDeep (λ x. x)))

  pub pod_migration_status-IsDeep :
      IsDeep (Values.pod_migration_status {F = F} {M = M} {L = L}) Into.pod_migration_status
  unfolding Into.pod_migration_status
  pod_migration_status-IsDeep =
      one-IsDeep (λ x. x.pod_checkpoint_ref) (λ x n. record x { pod_checkpoint_ref = n })
        (λ x ref. (
          record {
            phase = x.phase;
            message = x.message;
            pod_checkpoint_ref = ref;
            restored_pod_name = x.restored_pod_name;
            checkpoint_images = none;
          },
          x.checkpoint_images,
        ))
        (pointed Slots.reference flat) (copy_pointer Slots.reference pure) (λ a b. refl)
        (λ a b w. refl) (copy_pointer-IsDeep Slots.reference flat pure (pure-IsDeep (λ x. x)))

module _ {F M L V : Type 0} (api : Apimachinery (Cell F M L) M L V) (d : CopiesDeeply api) where
  pub container_checkpoint_status-IsDeep :
      IsDeep (Values.container_checkpoint_status api) (Into.container_checkpoint_status api)
  unfolding Into.container_checkpoint_status
  container_checkpoint_status-IsDeep =
      one-IsDeep (λ x. x.completion_time) (λ x t. record x { completion_time = t })
        (λ x time. record {
          phase = x.phase;
          message = x.message;
          bound_content_name = x.bound_content_name;
          ready = x.ready;
          completion_time = time;
        })
        (time_pointed api) (copy_time_pointer api) (λ a b. refl) (λ a b w. refl)
        (copy_time_pointer-IsDeep api d)

  pub container_checkpoint_content_status-IsDeep :
      IsDeep (Values.content_status api) (Into.container_checkpoint_content_status api)
  unfolding Into.container_checkpoint_content_status
  container_checkpoint_content_status-IsDeep =
      one-IsDeep (λ x. x.creation_time) (λ x t. record x { creation_time = t })
        (λ x time. record { ready = x.ready; message = x.message; creation_time = time })
        (time_pointed api) (copy_time_pointer api) (λ a b. refl) (λ a b w. refl)
        (copy_time_pointer-IsDeep api d)

  pub pod_checkpoint_content_status-IsDeep :
      IsDeep (Values.content_status api) (Into.pod_checkpoint_content_status api)
  unfolding Into.pod_checkpoint_content_status
  pod_checkpoint_content_status-IsDeep =
      one-IsDeep (λ x. x.creation_time) (λ x t. record x { creation_time = t })
        (λ x time. record { ready = x.ready; message = x.message; creation_time = time })
        (time_pointed api) (copy_time_pointer api) (λ a b. refl) (λ a b w. refl)
        (copy_time_pointer-IsDeep api d)

  pub pod_checkpoint_status-IsDeep :
      IsDeep (Values.pod_checkpoint_status api) (Into.pod_checkpoint_status api)
  unfolding Into.pod_checkpoint_status
  pod_checkpoint_status-IsDeep =
      two-IsDeep (λ x. x.creation_time) (λ x. x.completion_time)
        (λ x s t. record x { creation_time = s; completion_time = t })
        (λ x creation completion. record {
          phase = x.phase;
          message = x.message;
          ready = x.ready;
          bound_content_name = x.bound_content_name;
          creation_time = creation;
          completion_time = completion;
        })
        (time_pointed api) (time_pointed api) (copy_time_pointer api) (copy_time_pointer api)
        (λ a b c. refl) (λ a b c. refl) (λ a b c v w. refl) (copy_time_pointer-IsDeep api d)
        (copy_time_pointer-IsDeep api d)

  pub container_checkpoint-IsDeep :
      IsDeep (Values.container_checkpoint api) (Into.container_checkpoint api)
  unfolding Into.container_checkpoint
  container_checkpoint-IsDeep =
      two-IsDeep (λ x. x.meta) (λ x. x.status)
        (λ x meta status. record x { meta = meta; status = status })
        (λ x meta status. (x.type_meta, record { meta = meta; spec = x.spec; status = status }))
        api.meta_value (Values.container_checkpoint_status api) api.copy_meta
        (Into.container_checkpoint_status api) (λ a b c. refl) (λ a b c. refl) (λ a b c v w. refl)
        d.meta container_checkpoint_status-IsDeep

  pub container_checkpoint_content-IsDeep :
      IsDeep (Values.container_checkpoint_content api) (Into.container_checkpoint_content api)
  unfolding Into.container_checkpoint_content
  container_checkpoint_content-IsDeep =
      two-IsDeep (λ x. x.meta) (λ x. x.status)
        (λ x meta status. record x { meta = meta; status = status })
        (λ x meta status. (x.type_meta, record { meta = meta; spec = x.spec; status = status }))
        api.meta_value (Values.content_status api) api.copy_meta
        (Into.container_checkpoint_content_status api) (λ a b c. refl) (λ a b c. refl)
        (λ a b c v w. refl) d.meta container_checkpoint_content_status-IsDeep

  pub pod_checkpoint-IsDeep : IsDeep (Values.pod_checkpoint api) (Into.pod_checkpoint api)
  unfolding Into.pod_checkpoint
  pod_checkpoint-IsDeep =
      three-IsDeep (λ x. x.meta) (λ x. x.spec) (λ x. x.status)
        (λ x meta spec status. record x { meta = meta; spec = spec; status = status })
        (λ x meta spec status. (x.type_meta, record { meta = meta; spec = spec; status = status }))
        api.meta_value Values.pod_checkpoint_spec (Values.pod_checkpoint_status api) api.copy_meta
        Into.pod_checkpoint_spec (Into.pod_checkpoint_status api) (λ a b c d. refl)
        (λ a b c d. refl) (λ a b c d. refl) (λ a b c d u v w. refl) d.meta
        pod_checkpoint_spec-IsDeep pod_checkpoint_status-IsDeep

  pub pod_checkpoint_content-IsDeep :
      IsDeep (Values.pod_checkpoint_content api) (Into.pod_checkpoint_content api)
  unfolding Into.pod_checkpoint_content
  pod_checkpoint_content-IsDeep =
      three-IsDeep (λ x. x.meta) (λ x. x.spec) (λ x. x.status)
        (λ x meta spec status. record x { meta = meta; spec = spec; status = status })
        (λ x meta spec status.
          (x.type_meta, record { meta = meta; spec = spec.0; status = status }, spec.1))
        api.meta_value Values.pod_checkpoint_content_spec (Values.content_status api) api.copy_meta
        Into.pod_checkpoint_content_spec (Into.pod_checkpoint_content_status api) (λ a b c d. refl)
        (λ a b c d. refl) (λ a b c d. refl) (λ a b c d u v w. refl) d.meta
        pod_checkpoint_content_spec-IsDeep pod_checkpoint_content_status-IsDeep

  pub pod_migration-IsDeep : IsDeep (Values.pod_migration api) (Into.pod_migration api)
  unfolding Into.pod_migration
  pod_migration-IsDeep =
      two-IsDeep (λ x. x.meta) (λ x. x.status)
        (λ x meta status. record x { meta = meta; status = status })
        (λ x meta status.
          (x.type_meta, record { meta = meta; spec = x.spec; status = status.0 }, status.1))
        api.meta_value Values.pod_migration_status api.copy_meta Into.pod_migration_status
        (λ a b c. refl) (λ a b c. refl) (λ a b c v w. refl) d.meta pod_migration_status-IsDeep
