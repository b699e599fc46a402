-- ===== src/ContainerCheckpoint/Content.antt =====
-- How handleCheckpointingPhase finds, makes and binds the content object of a ContainerCheckpoint.
use live_pod_migration.Base.{String, ◌≡◌, refl, true, ◌==◌, ==_iff}
use live_pod_migration.Effect.{Error, is_not_found, ok, err, pure, ◌>>=◌, ◌>>◌}
use live_pod_migration.Api.Lpm.{ContainerCheckpoint, ContainerCheckpointContent}
use live_pod_migration.World.{World}
use live_pod_migration.Reconcile.{done, key}
use live_pod_migration.ContainerCheckpoint.{
  bind_content, publish, completed, new_content, perform_container_checkpoint, handle_checkpointing,
}

==_empty : {a : String} → a ≡ "" → (a == "") ≡ true
==_empty e = (==_iff _ "").1 e

-- If a content object of the checkpoint's name exists, whichever checkpoint of whichever namespace it
-- was made for, a running checkpoint that has no content yet binds it and reports success, and the
-- artifact that the agent has just made, `uri`, is used nowhere.
pub handle_checkpointing-binds_existing :
    {S : Type 0} (w : World S) (ck : ContainerCheckpoint) (content : ContainerCheckpointContent)
    (uri : String) (s s₁ s₂ : S)
    → ck.status.bound_content_name ≡ ""
    → perform_container_checkpoint w ck s ≡ (ok uri, s₁)
    → w.get_container_content (key "" ck.meta.name) s₁ ≡ (ok content, s₂)
    → handle_checkpointing w ck s
      ≡ (do
        now ← w.now
        w.update_container_checkpoint (completed ck content.meta.name now)
        pure done)
          s₂
unfolding handle_checkpointing publish bind_content
handle_checkpointing-binds_existing w ck content uri s s₁ s₂ e p g =
    rw (==_empty e) (rw p (rw g refl))

-- If no content object of the checkpoint's name exists, a running checkpoint that has no content yet
-- creates one with the artifact that the agent has just made, and binds it as the server names it.
pub handle_checkpointing-creates :
    {S : Type 0} (w : World S) (ck : ContainerCheckpoint) (content : ContainerCheckpointContent)
    (uri : String) (e : Error) (s s₁ s₂ s₃ : S)
    → ck.status.bound_content_name ≡ ""
    → perform_container_checkpoint w ck s ≡ (ok uri, s₁)
    → w.get_container_content (key "" ck.meta.name) s₁ ≡ (err e, s₂)
    → is_not_found e ≡ true
    → w.create_container_content (new_content w ck uri) s₂ ≡ (ok content, s₃)
    → handle_checkpointing w ck s
      ≡ (do
        now ← w.now
        w.update_container_checkpoint (completed ck content.meta.name now)
        pure done)
          s₃
unfolding handle_checkpointing publish bind_content
handle_checkpointing-creates w ck content uri e s s₁ s₂ s₃ b p g absent c =
    rw (==_empty b) (rw p (rw g (rw absent (rw c refl))))
