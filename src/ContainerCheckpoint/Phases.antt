-- ===== src/ContainerCheckpoint/Phases.antt =====
-- The status writes of every reconcile of a ContainerCheckpoint, and what it read before.
use live_pod_migration.Base.{
  String, ◌≡◌, refl, ap, Bool-cases, inl, inr, true, false, Option, none, some, [], ◌∷◌,
}
use live_pod_migration.Effect.{Error, ok}
use live_pod_migration.Effect.Keeps.{Keeps, Keeps-pure, Keeps-raise, Keeps-resume, keeps_rules}
use live_pod_migration.Api.Core.{ObjectKey, Pod}
use live_pod_migration.Api.Lpm.{
  CheckpointPhase, ContainerCheckpoint, ContainerCheckpointSpec, ContainerCheckpointStatus, pending,
  running, succeeded, failed,
}
use live_pod_migration.World.{World}
use live_pod_migration.World.Trace.{
  Event, got_pod, got_container_checkpoint, wrote_container_checkpoint, Log, Traced, traced, OnLog,
  logged, Keeps-logged, Keeps-silent, Keeps-read_found, trace_rules,
}
use live_pod_migration.AgentClient.{checkpoint_container}
use live_pod_migration.AgentClient.Calls.{checkpoint_container-Keeps}
use live_pod_migration.Reconcile.{key, default_phase, is_running}
use live_pod_migration.ContainerCheckpoint.{
  has_container, defaulted, with_phase, update_phase, with_pod, handle_pending,
  perform_container_checkpoint, publish, record_failure, handle_checkpointing, dispatch, reconcile,
}

-- The statuses that a reconcile may write, from the phase and the container's name that it read, and
-- the last pod that it read since.
pub data MayWrite : CheckpointPhase → String → Option Pod → ContainerCheckpointStatus → Type 0 where
  start :
      {container : String} {pod : Pod} {status : ContainerCheckpointStatus}
      → is_running pod ≡ true
      → has_container container pod.spec.containers ≡ true
      → status.phase ≡ running
      → MayWrite pending container (some pod) status
  fail_pending :
      {container : String} {o : Option Pod} {status : ContainerCheckpointStatus}
      → status.phase ≡ failed
      → MayWrite pending container o status
  fail_running :
      {container : String} {o : Option Pod} {status : ContainerCheckpointStatus}
      → status.phase ≡ failed
      → status.ready ≡ false
      → MayWrite running container o status
  succeed :
      {container : String} {o : Option Pod} {status : ContainerCheckpointStatus}
      → status.phase ≡ succeeded
      → status.ready ≡ true
      → MayWrite running container o status

-- the newest ContainerCheckpoint that was read, and the pod that was read since then
abbrev pub checkpoint_read : Log → Option ContainerCheckpoint
checkpoint_read [] = none
checkpoint_read (got_container_checkpoint (ok cc) ∷ es) = some cc
checkpoint_read (_ ∷ es) = checkpoint_read es

abbrev pub pod_read : Log → Option Pod
pod_read [] = none
pod_read (got_pod k (ok pod) ∷ es) = some pod
pod_read (got_container_checkpoint r ∷ es) = none
pod_read (_ ∷ es) = pod_read es

abbrev pub IsEarned : Log → Type 0
IsEarned [] = Unit
IsEarned (wrote_container_checkpoint cc ∷ es) =
    ((read : ContainerCheckpoint) × (checkpoint_read es ≡ some read)
      × MayWrite (default_phase read.status.phase) read.spec.container_name (pod_read es) cc.status)
    × IsEarned es
IsEarned (_ ∷ es) = IsEarned es

abbrev IsPlain : Event → Type 0
IsPlain (wrote_container_checkpoint m) = ⊥
IsPlain (got_container_checkpoint r) = ⊥
IsPlain _ = Unit

abbrev At : ContainerCheckpoint → Log → Type 0
At cc es = IsEarned es × (checkpoint_read es ≡ some cc)

on_call : {cc : ContainerCheckpoint} (e : Event) (es : Log) → IsPlain e → At cc es → At cc (e ∷ es)
on_call (wrote_container_checkpoint m) es plain h = absurd plain
on_call (got_container_checkpoint r) es plain h = absurd plain
on_call _ es plain h = h

-- a write that does not rest on the pod
on_write :
    {read : ContainerCheckpoint} (cc : ContainerCheckpoint) (es : Log)
    → ((o : Option Pod)
        → MayWrite (default_phase read.status.phase) read.spec.container_name o cc.status)
    → At read es
    → At read (wrote_container_checkpoint cc ∷ es)
on_write {read} cc es e (f, h) = (((read, h, e (pod_read es)), f), h)

ruleset phase_rules = (keeps_rules, trace_rules, tt, on_call, on_write)

module _ {S : Type 0} (w : World S) (read : ContainerCheckpoint) where
  -- a status write adds itself to the log, whatever the server answers
  update_phase-At :
      (cc : ContainerCheckpoint) (phase : CheckpointPhase) (message : String) (t : Traced S)
      → At read (wrote_container_checkpoint (with_phase cc phase message) ∷ t.log)
      → At read (update_phase (traced w) cc phase message t).1.log
  unfolding update_phase logged OnLog
  update_phase-At cc phase message t h =
      (Keeps-resume {P = OnLog (At read)}
          (w.update_container_checkpoint (with_phase cc phase message) t.inner).0 _ _
          (λ e. Keeps-raise e) (λ _. Keeps-pure _)).at
        _ h

  fails :
      (cc : ContainerCheckpoint) (message : String)
      → default_phase read.status.phase ≡ pending
      → Keeps (OnLog (At read)) (update_phase (traced w) cc failed message)
  unfolding OnLog
  fails cc message e = record {
    at = λ t h.
        update_phase-At cc failed message t
          (on_write (with_phase cc failed message) t.log (λ o. rw e (fail_pending refl)) h);
  }

  pod_found :
      (cc : ContainerCheckpoint) (pod : Pod) (t : Traced S)
      → default_phase read.status.phase ≡ pending
      → cc.spec ≡ read.spec
      → pod_read t.log ≡ some pod
      → At read t.log
      → At read (with_pod (traced w) cc pod t).1.log
  unfolding with_pod OnLog
  pod_found cc pod t e same seen h =
      elim (Bool-cases (has_container cc.spec.container_name pod.spec.containers)) [
        | inr absent ↦ rw absent ((fails cc "container not found in pod" e).at t h)
        | inl there ↦ elim (Bool-cases (is_running pod)) [
          | inr stopped ↦ rw (there, stopped) ((fails cc "pod not running" e).at t h)
          | inl run ↦
              rw (there, run)
                (update_phase-At cc running "checkpointing container" t (
                  (
                    (
                      read,
                      h.1,
                      rw (e, seen)
                          (start run
                            (rw (ap (λ (x : ContainerCheckpointSpec). x.container_name) same) at
                              there)
                            refl),
                    ),
                    h.0,
                  ),
                  h.1,
                ))
        ]
      ]

  handle_pending-At :
      (cc : ContainerCheckpoint)
      → default_phase read.status.phase ≡ pending
      → cc.spec ≡ read.spec
      → Keeps (OnLog (At read)) (handle_pending (traced w) cc)
  unfolding handle_pending OnLog
  handle_pending-At cc e same =
      Keeps-read_found (At read) (got_pod (key cc.meta.namespace cc.spec.pod_name))
        (w.get_pod (key cc.meta.namespace cc.spec.pod_name)) _ _ (λ es r h. h)
        (fails cc "pod not found" e)
        (λ pod s es h.
          pod_found cc pod (record { inner = s; log = got_pod _ (ok pod) ∷ es }) e same (refl) h)

  succeeds :
      default_phase read.status.phase ≡ running
      → (o : Option Pod) (status : ContainerCheckpointStatus) → status.phase ≡ succeeded
      → status.ready ≡ true
      → MayWrite (default_phase read.status.phase) read.spec.container_name o status
  succeeds e o status p r = rw e (succeed p r)

  gives_up :
      default_phase read.status.phase ≡ running
      → (o : Option Pod) (status : ContainerCheckpointStatus) → status.phase ≡ failed
      → status.ready ≡ false
      → MayWrite (default_phase read.status.phase) read.spec.container_name o status
  gives_up e o status p r = rw e (fail_running p r)

  calls_agent :
      (node namespace pod container uid : String)
      → Keeps (OnLog (At read)) (checkpoint_container (traced w) node namespace pod container uid)
  calls_agent =
      checkpoint_container-Keeps (traced w) (λ k. Keeps-silent _ _)
        (λ e. Keeps-logged (At read) _ _ (λ r es h. h))
        (λ c. Keeps-logged (At read) _ _ (λ r es h. h))
        (λ c r. Keeps-logged (At read) _ _ (λ r es h. h))

  perform-At :
      (cc : ContainerCheckpoint)
      → Keeps (OnLog (At read)) (perform_container_checkpoint (traced w) cc)
  unfolding perform_container_checkpoint
  perform-At cc = search (phase_rules, calls_agent) depth 10

  record_failure-At :
      (cc : ContainerCheckpoint) (x : Error)
      → default_phase read.status.phase ≡ running
      → Keeps (OnLog (At read)) (record_failure (traced w) cc x)
  unfolding record_failure
  record_failure-At cc x e = search (phase_rules, gives_up e) depth 10

  publish-At :
      (cc : ContainerCheckpoint) (uri : String)
      → default_phase read.status.phase ≡ running
      → Keeps (OnLog (At read)) (publish (traced w) cc uri)
  unfolding publish
  publish-At cc uri e = search (phase_rules, succeeds e) depth 12

  handle_checkpointing-At :
      (cc : ContainerCheckpoint)
      → default_phase read.status.phase ≡ running
      → Keeps (OnLog (At read)) (handle_checkpointing (traced w) cc)
  unfolding handle_checkpointing
  handle_checkpointing-At cc e =
      search (phase_rules, perform-At, record_failure-At, publish-At, succeeds e) depth 10

  dispatch-At :
      (cc : ContainerCheckpoint) (p : CheckpointPhase)
      → default_phase read.status.phase ≡ p
      → cc.spec ≡ read.spec
      → Keeps (OnLog (At read)) (dispatch (traced w) p cc)
  unfolding dispatch
  dispatch-At cc pending e same = handle_pending-At cc e same
  dispatch-At cc running e same = handle_checkpointing-At cc e
  dispatch-At cc _ e same = Keeps-pure _

-- Whatever the world answers, a reconcile of a ContainerCheckpoint writes only the statuses that the
-- phase it read (an empty one taken for `pending`) allows: `running` only after it read the pod, found
-- it running and found the container in it; `succeeded` only from `running`, and ready; `failed` from
-- `pending`, or from `running` and not ready. If that holds of all status writes in the log before, it
-- holds of all in the log after.
pub reconcile-IsEarned :
    {S : Type 0} (w : World S) (req : ObjectKey) (t : Traced S)
    → IsEarned t.log
    → IsEarned (reconcile (traced w) req t).1.log
unfolding reconcile OnLog
reconcile-IsEarned {S} w req =
    (Keeps-read_found IsEarned got_container_checkpoint (w.get_container_checkpoint req) _ _
      (λ es r h. h) (Keeps-pure _)
      (λ cc s es h.
        let t : Traced S = record { inner = s; log = got_container_checkpoint (ok cc) ∷ es } in
        ((dispatch-At w cc (defaulted cc) (default_phase cc.status.phase) refl refl).at t
          (h, refl)).0)).at
