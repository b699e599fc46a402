-- ===== src/Migration/Progress/Restored.antt =====
-- One reconcile at each stage, from the images on.
use Prim.Native.String.{len}
use text.Mathlib.TextPositions.{len-append}
use live_pod_migration.Base.{
  String, ◌<>◌, ◌≡◌, ◌≢◌, refl, sym, ap, ◌∙◌, inl, inr, true, false, Option, some, ◌==◌, ==_iff,
  ==_refl, arith,
}
use live_pod_migration.Effect.{ok}
use live_pod_migration.Api.Core.{ObjectKey, LocalObjectReference, Pod}
use live_pod_migration.Api.Lpm.{MigrationPhase, PodMigration, PodMigrationStatus}
use live_pod_migration.World.{World}
use live_pod_migration.Migration.Status.{default_phase, defaulted, update_phase}
use live_pod_migration.Migration.Images.{
  images_of, with_images, get_checkpoint_content, handle_preparing_images,
}
use live_pod_migration.Migration.Images.Loop.{prepare_all_prepares}
use live_pod_migration.Migration.Images.Count.{prepare_images_restores}
use live_pod_migration.Migration.Restore.{
  create_restored_pod, record_restored, start_restore, delete_original_pod, follow_restored,
  watch_restored, handle_restoring,
}
use live_pod_migration.Migration.Restore.Copy.{restored_pod_total, restored_pod-IsCopy}
use live_pod_migration.Migration.Progress.{
  WorkingServer, preparing, restoring, starting, completed, Reached, Convertible, Restorable,
  Running,
}
use live_pod_migration.Migration.Progress.Loop.{prepare_all-Ends}
use live_pod_migration.Migration.Progress.Steps.{Held, after_read, after_write}
use live_pod_migration.Migration.{dispatch, reconcile}

restored_ne_empty : (s : String) → (s <> "-restored") ≢ ""
restored_ne_empty s e = absurd (omega (arith, sym (len-append s "-restored") ∙ ap len e))

restored_name : (s : String) → ((s <> "-restored") == "") ≡ false
restored_name s = ground (arith, ==_iff (s <> "-restored") "", restored_ne_empty s)

module _ {S : Type 0} {w : World S} {k : ObjectKey} {stored : S → Option PodMigration}
    (server : WorkingServer w k stored) (source : Pod) where
  content_found :
      (m : PodMigration) (s : S) (r : LocalObjectReference)
      → m.status.pod_checkpoint_ref ≡ some r
      → (there : Convertible w stored source m s)
      → get_checkpoint_content w (defaulted m) s ≡ (ok (there.content), s)
  unfolding get_checkpoint_content
  content_found m s r ref there =
      rw ref (rw (there.checkpoint_read r ref) (rw (there.bound) (rw (there.content_read) refl)))

  pub preparing-Held :
      (m : PodMigration) (s : S)
      → stored s ≡ some m
      → Reached source preparing m.status
      → Convertible w stored source m s
      → Held server source restoring (reconcile w k s).1
  unfolding dispatch handle_preparing_images
  preparing-Held m s held (phase, (r, ref), (fresh, counted)) there =
      let (m', s₁, loop, same) =
        prepare_all-Ends w stored there.content source.spec.containers _ true s there.converts in
      let (images, made, _, ready) =
        prepare_all_prepares w there.content source.spec.containers (defaulted m) m' (images_of m)
          true true s s₁ loop in
      let (a, s₂, wrote, now, status) =
        server.works.write m' m s₁ (same ∙ held) (ap (λ (x : PodMigration). x.meta) made) in
      let kept : a.status ≡ (with_images (defaulted m) images).status =
        status ∙ ap (λ (x : PodMigration). x.status) made in
      rw
        (after_read server source m MigrationPhase.preparing_images s held (ap default_phase phase))
        (rw (content_found m s r ref there) (
          rw (there.source_read) (
            rw
              (prepare_images_restores w (defaulted m) m' a there.content source s s₁ s₂
                there.distinct counted loop wrote
                (ap (λ (x : PodMigrationStatus). x.checkpoint_images) status))
              (after_write server source _ a restoring _ s₂ now refl (
                refl,
                ap (λ (x : PodMigrationStatus). x.restored_pod_name) kept ∙ fresh,
                (images, ap (λ (x : PodMigrationStatus). x.checkpoint_images) kept, (ready refl).1),
              )))))

  pub restoring-Held :
      (m : PodMigration) (s : S)
      → stored s ≡ some m
      → Reached source restoring m.status
      → Restorable w stored source m s
      → Held server source starting (reconcile w k s).1
  unfolding dispatch handle_restoring start_restore create_restored_pod record_restored
  restoring-Held m s held (phase, fresh, (images, there, has)) can =
      let (q, built) = restored_pod_total w (defaulted m) images source there has in
      let (p, s₁, created, name, same) = can.created q built in
      let named : (p.meta.name == "") ≡ false =
        ap (λ x. x == "")
          (name ∙ (restored_pod-IsCopy w (defaulted m) images source q there built).new_name)
        ∙ restored_name source.meta.name in
      rw (after_read server source m MigrationPhase.restoring s held (ap default_phase phase)) (
        rw (ap (λ x. x == "") fresh ∙ ==_refl "") (
          rw (can.source_read) (
            rw built (
              rw created (
                after_write server source _ m starting _ s₁ (same ∙ held) refl
                  (ap default_phase phase, named))))))

  pub starting-Held :
      (m : PodMigration) (s : S)
      → stored s ≡ some m
      → Reached source starting m.status
      → Running w stored source m s
      → Held server source completed (reconcile w k s).1
  unfolding dispatch handle_restoring watch_restored follow_restored delete_original_pod
      update_phase
  starting-Held m s held (phase, named) can =
      rw (after_read server source m MigrationPhase.restoring s held (ap default_phase phase)) (
        rw named (
          rw (can.restored_read) (
            rw (can.runs) (
              rw (can.source_read) (elim can.deleted [
                | inl gone ↦
                    rw gone (
                      after_write server source _ m completed _ can.s₁ (can.keeps ∙ held) refl refl)
                | inr (e, kept) ↦
                    rw kept (
                      after_write server source _ m completed _ can.s₁ (can.keeps ∙ held) refl refl)
              ])))))
