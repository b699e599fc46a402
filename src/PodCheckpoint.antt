-- ===== src/PodCheckpoint.antt =====
-- internal/controller/podcheckpoint_controller.go
pub mod Verdict
pub mod Phases
pub mod Children
pub mod Present
pub mod Progress
unfoldable pub use Verdict.*
use live_pod_migration.Base.{
  String, ◌<>◌, Bool, true, false, Option, none, some, List, [], ◌∷◌, ◌==◌, if◌then◌else◌, ◌&&◌,
  not,
}
use live_pod_migration.Effect.{
  Action, is_not_found, pure, raise, deref, attempt, ◌>>=◌, ◌>>◌, on_not_found,
}
use live_pod_migration.Api.Core.{ObjectKey, Container, LocalObjectReference}
use live_pod_migration.Api.Lpm.{
  CheckpointPhase, PodCheckpointPhase, ContainerCheckpoint, PodCheckpoint, PodCheckpointContent,
  unset, pending, running, succeeded, failed, other_phase,
}
use live_pod_migration.World.{World}
use live_pod_migration.Reconcile.{
  ReconcileResult, done, requeue, key, new_meta, is_running, default_phase,
}

-- the checkpoint with its phase defaulted
abbrev pub defaulted : PodCheckpoint → PodCheckpoint
defaulted pc = record pc { status = record (pc.status) { phase = default_phase pc.status.phase } }

module _ {S : Type 0} (w : World S) where
  unfoldable pub update_phase :
      PodCheckpoint → PodCheckpointPhase → String → Action S ReconcileResult
  update_phase pc phase message = do
    w.update_pod_checkpoint
        (record pc { status = record (pc.status) { phase = phase; message = message } })
    pure done

  -- `podCheckpoint.Name + "-" + container.Name`
  abbrev pub child_name : PodCheckpoint → String → String
  child_name pc container = pc.meta.name <> "-" <> container

  abbrev pub new_child : PodCheckpoint → String → String → ContainerCheckpoint
  new_child pc pod_name container = record {
    meta = record (new_meta pc.meta.namespace (child_name pc container)) {
      labels = some (("podcheckpoint", pc.meta.name) ∷ []);
      owner_references = w.controller_ref pc.meta "PodCheckpoint" ∷ [];
    };
    spec = record { pod_name = pod_name; container_name = container };
    status = record {
      phase = unset;
      message = "";
      bound_content_name = "";
      ready = false;
      completion_time = none;
    };
  }

  -- one round of the loop over the containers; it answers with `createdAny`
  unfoldable pub ensure_child : PodCheckpoint → Bool → Container → Action S Bool
  ensure_child pc created_any c =
      on_not_found (w.get_container_checkpoint (key pc.meta.namespace (child_name pc c.name)))
        (do
          pod_name ← deref pc.spec.pod_name
          w.create_container_checkpoint (new_child pc pod_name c.name)
          pure true)
        (λ _. pure created_any)

  unfoldable pub ensure_children : PodCheckpoint → Bool → List Container → Action S Bool
  unfolding ensure_child
  ensure_children pc created_any [] = pure created_any
  ensure_children pc created_any (c ∷ containers) =
      ensure_child pc created_any c >>= λ created. ensure_children pc created containers

  unfoldable pub handle_pending : PodCheckpoint → Action S ReconcileResult
  unfolding update_phase ensure_children
  handle_pending pc = do
    pod_name ← deref pc.spec.pod_name
    on_not_found (w.get_pod (key pc.meta.namespace pod_name))
        (update_phase pc failed "source pod not found")
        λ pod.
          if is_running pod
          then (do
            created_any ← ensure_children pc false pod.spec.containers
            w.update_pod_checkpoint (record pc {
              status = record (pc.status) { phase = running; message = "checkpointing containers" };
            })
            pure (if created_any then requeue 2 else done))
          else update_phase pc failed "source pod not running"

  abbrev pub new_content : PodCheckpoint → String → List LocalObjectReference → PodCheckpointContent
  new_content pc pod_name contents = record {
    meta = record (new_meta pc.meta.namespace pc.meta.name) {
      owner_references = w.controller_ref pc.meta "PodCheckpoint" ∷ [];
    };
    spec = record {
      pod_checkpoint_ref = record { namespace = pc.meta.namespace; name = pc.meta.name };
      pod_namespace = pc.meta.namespace;
      pod_name = pod_name;
      container_contents = contents;
    };
    status = record { ready = false; message = ""; creation_time = none };
  }

  -- step 3: the content object is created, or bound if it is there
  unfoldable pub bind_content : PodCheckpoint → List LocalObjectReference → Action S ReconcileResult
  bind_content pc contents =
      on_not_found (w.get_pod_content (key pc.meta.namespace pc.meta.name))
        (do
          pod_name ← deref pc.spec.pod_name
          w.create_pod_content (new_content pc pod_name contents)
          pure (requeue 2))
        (λ content. do
          w.update_pod_checkpoint
              (record pc { status = record (pc.status) { bound_content_name = content.meta.name } })
          pure (requeue 2))

  -- the `if !boundContent.Status.Ready` of step 4
  pub mark_ready : PodCheckpointContent → Action S (Unit {0})
  mark_ready content = if content.status.ready then pure tt else (do
    now ← w.now
    w.update_pod_content (record content {
      status = record (content.status) { ready = true; creation_time = some now };
    })
    pure tt)

  -- steps 4 and 5
  pub complete : PodCheckpoint → Action S ReconcileResult
  unfolding mark_ready
  complete pc =
      on_not_found (w.get_pod_content (key pc.meta.namespace pc.status.bound_content_name))
        (pure (requeue 2))
        (λ content. do
          mark_ready content
          now ← w.now
          w.update_pod_checkpoint (record pc {
            status = record (pc.status) {
              phase = succeeded;
              message = "checkpoint complete";
              ready = true;
              completion_time = some now;
            };
          })
          pure done)

  -- steps 2 to 5, once the children are listed
  pub advance : PodCheckpoint → Tally → Action S ReconcileResult
  unfolding update_phase bind_content complete
  advance pc t =
      if t.all_done
      then if t.all_succeeded
        then if pc.status.bound_content_name == "" then bind_content pc t.contents else complete pc
        else update_phase pc failed
            "one or more containers failed (see ContainerCheckpoint statuses)"
      else pure (requeue 2)

  -- `if len(containerCheckpointList.Items) == 0`, and the rest
  pub after_list : PodCheckpoint → List ContainerCheckpoint → Action S ReconcileResult
  unfolding handle_pending advance
  after_list pc [] = handle_pending pc
  after_list pc (c ∷ cs) = advance pc (tally (c ∷ cs))

  unfoldable pub handle_checkpointing : PodCheckpoint → Action S ReconcileResult
  unfolding after_list
  handle_checkpointing pc =
      w.list_container_checkpoints pc.meta.namespace pc.meta.name >>= after_list pc

  unfoldable pub handle_completed_or_failed : PodCheckpoint → Action S ReconcileResult
  handle_completed_or_failed pc = pure done

  -- the `switch` of `Reconcile`
  unfoldable pub dispatch : CheckpointPhase → PodCheckpoint → Action S ReconcileResult
  unfolding handle_pending handle_checkpointing handle_completed_or_failed
  dispatch unset pc = pure done
  dispatch pending pc = handle_pending pc
  dispatch running pc = handle_checkpointing pc
  dispatch succeeded pc = handle_completed_or_failed pc
  dispatch failed pc = handle_completed_or_failed pc
  dispatch (other_phase _) pc = pure done

  unfoldable pub reconcile : ObjectKey → Action S ReconcileResult
  unfolding dispatch
  reconcile req =
      on_not_found (w.get_pod_checkpoint req) (pure done)
        λ pc. dispatch (default_phase pc.status.phase) (defaulted pc)
