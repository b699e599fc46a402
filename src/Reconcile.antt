-- ===== src/Reconcile.antt =====
-- What the three reconcilers share: the result of a call of `Reconcile`.
use live_pod_migration.Base.{ℕ, String, Bool, true, false, none, []}
use live_pod_migration.Api.Core.{ObjectKey, ObjectMeta, Pod, PodPhase}
use live_pod_migration.Api.Lpm.{
  CheckpointPhase, unset, pending, running, succeeded, failed, other_phase,
}

-- `ctrl.Result`, its `RequeueAfter` in seconds
pub record ReconcileResult : Type 0 where
  pub requeue_after : ℕ

abbrev pub done : ReconcileResult
done = record { requeue_after = 0 }

abbrev pub requeue : ℕ → ReconcileResult
requeue seconds = record { requeue_after = seconds }

-- `client.ObjectKey{Namespace: …, Name: …}`
abbrev pub key : String → String → ObjectKey
key namespace name = record { namespace = namespace; name = name }

-- The metadata of an object that a reconciler creates.
abbrev pub new_meta : String → String → ObjectMeta
new_meta namespace name = record {
  name = name;
  namespace = namespace;
  uid = "";
  resource_version = "";
  labels = none;
  annotations = none;
  owner_references = [];
}

-- `srcPod.Status.Phase == corev1.PodRunning`
abbrev pub is_running : Pod → Bool
is_running p = elim p.status.phase [ PodPhase.running ↦ true | _ ↦ false ]

-- `if … .Status.Phase == "" { … .Status.Phase = …PhasePending }`, of either checkpoint
abbrev pub default_phase : CheckpointPhase → CheckpointPhase
default_phase unset = pending
default_phase pending = pending
default_phase running = running
default_phase succeeded = succeeded
default_phase failed = failed
default_phase (other_phase s) = other_phase s
