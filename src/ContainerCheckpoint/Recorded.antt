-- ===== src/ContainerCheckpoint/Recorded.antt =====
-- The content objects that the reconciles of ContainerCheckpoints create, and what they were made of.
use live_pod_migration.Base.{String, refl, ◌∷◌, ◌==◌, Bool-cases, inl, inr, if◌then◌else◌}
use live_pod_migration.Effect.{Error, Outcome, ok, err, panic, raise, resume, is_not_found, ◌>>=◌}
use live_pod_migration.Effect.Keeps.{Keeps, Keeps-pure, Keeps-raise, Keeps-if, Keeps-resume}
use live_pod_migration.Api.Core.{ObjectKey}
use live_pod_migration.Api.Lpm.{
  CheckpointPhase, ContainerCheckpoint, ContainerCheckpointContent, pending, running,
}
use live_pod_migration.World.{World}
use live_pod_migration.World.Trace.{
  got_container_checkpoint, Traced, traced, OnLog, logged, silent, Keeps-read_found,
}
use live_pod_migration.Reconcile.{key, default_phase}
use live_pod_migration.ContainerCheckpoint.{
  defaulted, update_phase, with_pod, handle_pending, perform_container_checkpoint, bind_content,
  new_content, publish, record_failure, handle_checkpointing, dispatch, reconcile,
}
use live_pod_migration.ContainerCheckpoint.Made.{
  Made, Recorded, At, record_rules, Performed, unmade, made, perform-Performed,
}

module _ {S : Type 0} (w : World S) (read : ContainerCheckpoint) where
  handle_pending-At : Keeps (OnLog (At read)) (handle_pending (traced w) (defaulted read))
  unfolding handle_pending with_pod update_phase
  handle_pending-At = search record_rules depth 12

  bind_content-At :
      (content : ContainerCheckpointContent)
      → Keeps (OnLog (At read)) (bind_content (traced w) (defaulted read) content)
  unfolding bind_content
  bind_content-At content = search record_rules depth 10

  record_failure-At :
      (x : Error) → Keeps (OnLog (At read)) (record_failure (traced w) (defaulted read) x)
  unfolding record_failure
  record_failure-At x = search record_rules depth 10

  publish-At :
      (uri : String) (t : Traced S)
      → Made read uri t.log
      → At read t.log
      → At read (publish (traced w) (defaulted read) uri t).1.log
  unfolding publish logged silent OnLog
  publish-At uri t m h =
      after_find (w.get_container_content (key "" read.meta.name) t.inner).0
        (w.get_container_content (key "" read.meta.name) t.inner).1
    where
      create_and_bind :
          (s : S)
          → At read
              (((traced w).create_container_content (new_content (traced w) (defaulted read) uri)
                  >>= bind_content (traced w) (defaulted read))
                (record { inner = s; log = t.log })).1.log
      create_and_bind s =
          (Keeps-resume {P = OnLog (At read)}
              (w.create_container_content (new_content w (defaulted read) uri) s).0 _ _
              (λ e. Keeps-raise e) bind_content-At).at
            _ (((read, uri, m, (refl, refl)), h.0), h.1)

      after_find :
          (r : Outcome ContainerCheckpointContent) (s : S)
          → At read
              (resume r
                (λ e.
                  if is_not_found e
                  then (traced w).create_container_content
                      (new_content (traced w) (defaulted read) uri)
                    >>= bind_content (traced w) (defaulted read)
                  else raise e)
                (bind_content (traced w) (defaulted read))
                (record { inner = s; log = t.log })).1.log
      after_find (ok content) s = (bind_content-At content).at (record { inner = s; log = t.log }) h
      after_find (err e) s = elim (Bool-cases (is_not_found e)) [
        | inl absent ↦ rw absent (create_and_bind s)
        | inr other ↦ rw other h
      ]
      after_find panic s = h

  after_perform :
      (r : Outcome String) (u : Traced S)
      → Performed read r u.log
      → At read
          (resume r
            (record_failure (traced w) (defaulted read))
            (publish (traced w) (defaulted read))
            u).1.log
  unfolding OnLog
  after_perform (ok uri) u (unmade bad h) = absurd (bad uri refl)
  after_perform (ok uri) u (made h m) = publish-At uri u (m uri refl) h
  after_perform (err x) u (unmade bad h) = (record_failure-At x).at u h
  after_perform (err x) u (made h m) = (record_failure-At x).at u h
  after_perform panic u (unmade bad h) = h
  after_perform panic u (made h m) = h

  handle_checkpointing-At :
      Keeps (OnLog (At read)) (handle_checkpointing (traced w) (defaulted read))
  unfolding handle_checkpointing OnLog silent logged
  handle_checkpointing-At =
      Keeps-if (read.status.bound_content_name == "") _ _
        (λ _. record {
          at = λ t h.
              let end = perform_container_checkpoint (traced w) (defaulted read) t in
              after_perform end.0 end.1 (perform-Performed w read t h);
        })
        (λ _. search record_rules depth 10)

  dispatch-At :
      (p : CheckpointPhase) → Keeps (OnLog (At read)) (dispatch (traced w) p (defaulted read))
  unfolding dispatch
  dispatch-At pending = handle_pending-At
  dispatch-At running = handle_checkpointing-At
  dispatch-At _ = Keeps-pure _

-- Whatever the world answers, a reconcile of a ContainerCheckpoint creates a content object only right
-- after an agent reported a checkpoint of the container in the pod as done, for the UID of the pod that
-- was read just before, and the content has the artifact of that report and names the ContainerCheckpoint
-- that was read, its pod and its container: if that holds of all creations in the log before, it holds of
-- all in the log after.
pub reconcile-Recorded :
    {S : Type 0} (w : World S) (req : ObjectKey) (t : Traced S)
    → Recorded t.log
    → Recorded (reconcile (traced w) req t).1.log
unfolding reconcile OnLog
reconcile-Recorded {S} w req =
    (Keeps-read_found Recorded got_container_checkpoint (w.get_container_checkpoint req) _ _
      (λ es r h. h) (Keeps-pure _)
      (λ read s es h.
        let t : Traced S = record { inner = s; log = got_container_checkpoint (ok read) ∷ es } in
        ((dispatch-At w read (default_phase read.status.phase)).at t (h, refl)).0)).at
