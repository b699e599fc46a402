-- ===== src/Migration/Restore/Handoff.antt =====
-- From the images to the restored pod: the loop of `preparing_images` and createRestoredPod.
use live_pod_migration.Base.{◌≡◌, refl, ap, sym, ◌∙◌, true, some}
use live_pod_migration.Effect.{ok}
use live_pod_migration.Api.Core.{Pod}
use live_pod_migration.Api.Lpm.{PodMigration, PodCheckpointContent}
use live_pod_migration.World.{World}
use live_pod_migration.Migration.Images.{finished, images_of, with_images, prepare_all}
use live_pod_migration.Migration.Images.Loop.{prepare_all_prepares}
use live_pod_migration.Migration.Restore.Copy.{IsCopy, restored_pod_total, restored_pod-IsCopy}
use live_pod_migration.Migration.Restore.{restored_pod}

-- If the loop of the images ends with all of them ready, then every later state of the migration that
-- has the images which the loop left gets a restored pod from the original one, which is its copy.
pub prepare_all_restorable :
    {S : Type 0} (w : World S) (m m' a : PodMigration) (content : PodCheckpointContent) (pod : Pod)
    (s s₁ : S)
    → prepare_all w content pod.spec.containers (with_images m (images_of m)) true s
      ≡ (ok (finished m' true), s₁)
    → a.status.checkpoint_images ≡ m'.status.checkpoint_images
    → (q : Pod) × (restored_pod w a pod ≡ ok q) × IsCopy w a (images_of m') pod q
prepare_all_restorable w m m' a content pod s s₁ loop same =
    let (images, e, _, ready) =
      prepare_all_prepares w content pod.spec.containers m m' (images_of m) true true s s₁ loop in
    let stored : m'.status.checkpoint_images ≡ some (images_of m') =
      ap (λ (x : PodMigration). x.status.checkpoint_images) e
      ∙ ap (λ (x : PodMigration). some (images_of x)) (sym e) in
    let (q, made) =
      restored_pod_total w a (images_of m') pod (same ∙ stored)
        (rw (ap (λ (x : PodMigration). images_of x) e) (ready refl).1) in
    (q, made, restored_pod-IsCopy w a (images_of m') pod q (same ∙ stored) made)
