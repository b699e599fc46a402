-- ===== src/ContainerCheckpoint.antt =====
-- internal/controller/containercheckpoint_controller.go. A handler changes its object and writes
-- the status: `return ctrl.Result{}, r.Status().Update(…)`.
pub mod Phases
pub mod Content
pub mod Made
pub mod Recorded
pub mod Progress
use live_pod_migration.Base.{
  String, ◌<>◌, Bool, true, false, none, some, List, [], ◌∷◌, ◌==◌, if◌then◌else◌, ◌||◌,
}
use live_pod_migration.Effect.{
  Action, Error, new_error, wrap, pure, raise, attempt, ◌>>=◌, ◌>>◌, on_not_found,
}
use live_pod_migration.Api.Core.{Time, ObjectKey, Container, Pod}
use live_pod_migration.Api.Lpm.{
  CheckpointPhase, ContainerCheckpointPhase, ContainerCheckpoint, ContainerCheckpointContent, unset,
  pending, running, succeeded, failed, other_phase,
}
use live_pod_migration.World.{World}
use live_pod_migration.AgentClient.{checkpoint_container}
use live_pod_migration.Reconcile.{ReconcileResult, done, key, new_meta, is_running, default_phase}

-- the search for the container in the pod
abbrev pub has_container : String → List Container → Bool
has_container name [] = false
has_container name (c ∷ containers) = c.name == name || has_container name containers

abbrev pub with_phase :
    ContainerCheckpoint → ContainerCheckpointPhase → String → ContainerCheckpoint
with_phase cc phase message = record cc {
  status = record (cc.status) { phase = phase; message = message };
}

-- the status that a finished checkpoint gets
abbrev pub completed : ContainerCheckpoint → String → Time → ContainerCheckpoint
completed cc content now = record cc {
  status = record (cc.status) {
    bound_content_name = content;
    ready = true;
    phase = succeeded;
    message = "done";
    completion_time = some now;
  };
}

-- the checkpoint with its phase defaulted
abbrev pub defaulted : ContainerCheckpoint → ContainerCheckpoint
defaulted cc = record cc { status = record (cc.status) { phase = default_phase cc.status.phase } }

module _ {S : Type 0} (w : World S) where
  -- `return ctrl.Result{}, r.Status().Update(ctx, containerCheckpoint)`
  abbrev write : ContainerCheckpoint → Action S ReconcileResult
  write cc = do w.update_container_checkpoint cc; pure done

  unfoldable pub update_phase :
      ContainerCheckpoint → ContainerCheckpointPhase → String → Action S ReconcileResult
  update_phase cc phase message = write (with_phase cc phase message)

  -- the rest of `handlePendingPhase`, with the pod at hand
  pub with_pod : ContainerCheckpoint → Pod → Action S ReconcileResult
  unfolding update_phase
  with_pod cc pod =
      if has_container cc.spec.container_name pod.spec.containers
      then if is_running pod
        then update_phase cc running "checkpointing container"
        else update_phase cc failed "pod not running"
      else update_phase cc failed "container not found in pod"

  unfoldable pub handle_pending : ContainerCheckpoint → Action S ReconcileResult
  unfolding with_pod
  handle_pending cc =
      on_not_found (w.get_pod (key cc.meta.namespace cc.spec.pod_name))
        (update_phase cc failed "pod not found") (with_pod cc)

  unfoldable pub perform_container_checkpoint : ContainerCheckpoint → Action S String
  perform_container_checkpoint cc =
      let pod_path = cc.meta.namespace <> "/" <> cc.spec.pod_name in
      attempt (w.get_pod (key cc.meta.namespace cc.spec.pod_name))
        (λ e. raise (wrap ("failed to get pod " <> pod_path <> ": ") e))
        (λ pod.
          if pod.spec.node_name == ""
          then raise (new_error ("pod " <> pod_path <> " is not scheduled to any node"))
          else checkpoint_container w pod.spec.node_name cc.meta.namespace cc.spec.pod_name
              cc.spec.container_name pod.meta.uid)

  -- the new content object, named like the checkpoint and with no namespace
  abbrev pub new_content : ContainerCheckpoint → String → ContainerCheckpointContent
  new_content cc uri = record {
    meta = new_meta "" cc.meta.name;
    spec = record {
      container_checkpoint_ref = record { namespace = cc.meta.namespace; name = cc.meta.name };
      pod_namespace = cc.meta.namespace;
      pod_name = cc.spec.pod_name;
      container_name = cc.spec.container_name;
      artifact_uri = uri;
    };
    status = record { ready = false; message = ""; creation_time = none };
  }

  -- the end of `handleCheckpointingPhase`: the content is bound and the status written
  unfoldable pub bind_content :
      ContainerCheckpoint → ContainerCheckpointContent → Action S ReconcileResult
  bind_content cc content = do now ← w.now; write (completed cc content.meta.name now)

  -- what follows the checkpoint operation
  pub publish : ContainerCheckpoint → String → Action S ReconcileResult
  unfolding bind_content
  publish cc uri =
      on_not_found (w.get_container_content (key "" cc.meta.name))
        (w.create_container_content (new_content cc uri) >>= bind_content cc) (bind_content cc)

  -- the branch of a failed checkpoint operation
  pub record_failure : ContainerCheckpoint → Error → Action S ReconcileResult
  record_failure cc e = do
    now ← w.now
    write (record cc {
      status = record (cc.status) {
        phase = failed;
        message = "checkpointing failed: " <> e.text;
        ready = false;
        completion_time = some now;
      };
    })

  unfoldable pub handle_checkpointing : ContainerCheckpoint → Action S ReconcileResult
  unfolding publish record_failure
  handle_checkpointing cc =
      if cc.status.bound_content_name == ""
      then attempt (perform_container_checkpoint cc) (record_failure cc) (publish cc)
      else (do now ← w.now; write (completed cc cc.status.bound_content_name now))

  unfoldable pub handle_completed_or_failed : ContainerCheckpoint → Action S ReconcileResult
  handle_completed_or_failed cc = pure done

  -- the `switch` of `Reconcile`
  unfoldable pub dispatch : CheckpointPhase → ContainerCheckpoint → Action S ReconcileResult
  unfolding handle_pending handle_checkpointing handle_completed_or_failed
  dispatch unset cc = pure done
  dispatch pending cc = handle_pending cc
  dispatch running cc = handle_checkpointing cc
  dispatch succeeded cc = handle_completed_or_failed cc
  dispatch failed cc = handle_completed_or_failed cc
  dispatch (other_phase _) cc = pure done

  unfoldable pub reconcile : ObjectKey → Action S ReconcileResult
  unfolding dispatch
  reconcile req =
      on_not_found (w.get_container_checkpoint req) (pure done)
        λ cc. dispatch (default_phase cc.status.phase) (defaulted cc)
