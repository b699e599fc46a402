-- ===== src/ContainerCheckpoint/Made.antt =====
-- What an agent's answer leaves in the log, and the content objects that are made of it.
use live_pod_migration.Base.{
  ℕ, String, ◌<>◌, ◌≡◌, ◌≢◌, sym, ap, ◌∙◌, true, some, [], ◌∷◌, ◌==◌, Bool-cases, inl, inr,
  if◌then◌else◌,
}
use mathlib.Core.Path.{subst}
use live_pod_migration.Effect.{Outcome, ok, err, panic, wrap, raise, resume, new_error}
use live_pod_migration.Effect.Keeps.{
  Keeps, Keeps-pure, Keeps-raise, Keeps-if, Keeps-resume, keeps_rules,
}
use live_pod_migration.Api.Core.{Pod}
use live_pod_migration.Api.Rpc.{CheckpointResponse}
use live_pod_migration.Api.Lpm.{ContainerCheckpoint, ContainerCheckpointContent}
use live_pod_migration.World.{World}
use live_pod_migration.World.Trace.{
  Event, got_pod, got_container_checkpoint, created_container_content, dialed, called_checkpoint,
  hung_up, Log, Traced, traced, OnLog, logged, silent, Keeps-read_found, trace_rules,
}
use live_pod_migration.AgentClient.{checkpoint_container}
use live_pod_migration.AgentClient.Closing.{Closed, unconnected, refused, closed, calls-Closed}
use live_pod_migration.Reconcile.{key}
use live_pod_migration.ContainerCheckpoint.Phases.{checkpoint_read}
use live_pod_migration.ContainerCheckpoint.{defaulted, perform_container_checkpoint}

-- the content that records an artifact of the checkpoint
abbrev pub IsContentOf : ContainerCheckpoint → String → ContainerCheckpointContent → Type 0
IsContentOf read uri content =
    (content.meta.name ≡ read.meta.name)
    × (content.spec ≡ record {
      container_checkpoint_ref = record { namespace = read.meta.namespace; name = read.meta.name };
      pod_namespace = read.meta.namespace;
      pod_name = read.spec.pod_name;
      container_name = read.spec.container_name;
      artifact_uri = uri;
    })

-- The calls right before, the newest first: the pod of the ContainerCheckpoint was read, the agent was
-- dialed, it reported a checkpoint of the container in that pod as done, with the artifact `uri`, and was
-- left.
abbrev pub Made : ContainerCheckpoint → String → Log → Type 0
Made read uri es =
    (pod : Pod) × (c : ℕ) × (resp : CheckpointResponse) × (before : Log) × (es
      ≡ hung_up c
        ∷ called_checkpoint c
            (record {
              pod_namespace = read.meta.namespace;
              pod_name = read.spec.pod_name;
              container_name = read.spec.container_name;
              pod_uid = pod.meta.uid;
            })
            (ok resp)
        ∷ dialed (ok c)
        ∷ got_pod (key read.meta.namespace read.spec.pod_name) (ok pod)
        ∷ before)
    × (checkpoint_read before ≡ some read)
    × (resp.success ≡ true)
    × (uri ≡ resp.artifact_uri)

-- every content that was created records the artifact that was made right before, for the
-- ContainerCheckpoint that was read
abbrev pub Recorded : Log → Type 0
Recorded [] = Unit
Recorded (created_container_content content ∷ es) =
    ((read : ContainerCheckpoint) × (uri : String) × Made read uri es
      × IsContentOf read uri content)
    × Recorded es
Recorded (_ ∷ es) = Recorded es

abbrev pub At : ContainerCheckpoint → Log → Type 0
At read es = Recorded es × (checkpoint_read es ≡ some read)

abbrev pub IsPlain : Event → Type 0
IsPlain (created_container_content c) = ⊥
IsPlain (got_container_checkpoint r) = ⊥
IsPlain _ = Unit

pub on_call :
    {read : ContainerCheckpoint} (e : Event) (es : Log) → IsPlain e → At read es → At read (e ∷ es)
on_call (created_container_content c) es plain h = absurd plain
on_call (got_container_checkpoint r) es plain h = absurd plain
on_call _ es plain h = h

pub ruleset record_rules = (keeps_rules, trace_rules, tt, on_call)

-- how the checkpoint operation ends
pub data Performed (read : ContainerCheckpoint) : Outcome String → Log → Type 0 where
  unmade :
      {r : Outcome String} {es : Log} → ((a : String) → r ≢ ok a) → At read es → Performed read r es
  made :
      {r : Outcome String} {es : Log}
      → At read es
      → ((a : String) → r ≡ ok a → Made read a es)
      → Performed read r es

module _ {S : Type 0} (w : World S) (read : ContainerCheckpoint) where
  abbrev event : Pod → ℕ → Outcome CheckpointResponse → Event
  event pod conn = called_checkpoint conn (record {
    pod_namespace = read.meta.namespace;
    pod_name = read.spec.pod_name;
    container_name = read.spec.container_name;
    pod_uid = pod.meta.uid;
  })

  abbrev read_of : Pod → Event
  read_of pod = got_pod (key read.meta.namespace read.spec.pod_name) (ok pod)

  call-Performed :
      (pod : Pod) (es : Log) (r : Outcome String) (es' : Log)
      → At read es
      → Closed
          (event pod)
          (λ resp uri. (resp.success ≡ true) × (uri ≡ resp.artifact_uri))
          (read_of pod ∷ es)
          r
          es'
      → Performed read r es'
  call-Performed pod es r es' h (unconnected bad e) = unmade bad (subst (At read) (sym e) h)
  call-Performed pod es r es' h (refused x _ bad e) = unmade bad (subst (At read) (sym e) h)
  call-Performed pod es r es' h (closed c x e answers) = made (subst (At read) (sym e) h) λ a same.
      let (resp, is_ok, (good, uri)) = answers a same in
      let begins : Outcome CheckpointResponse → Log =
        λ y. hung_up c ∷ event pod c y ∷ dialed (ok c) ∷ read_of pod ∷ es in
      (pod, c, resp, es, e ∙ ap begins is_ok, h.1, good, uri)

  pub perform-Performed :
      (t : Traced S)
      → At read t.log
      → let end = perform_container_checkpoint (traced w) (defaulted read) t in
        Performed read end.0 end.1.log
  unfolding perform_container_checkpoint logged
  perform-Performed t h =
      after_pod (w.get_pod (key read.meta.namespace read.spec.pod_name) t.inner).0
        (w.get_pod (key read.meta.namespace read.spec.pod_name) t.inner).1
    where
      after_pod :
          (r : Outcome Pod) (s : S)
          → let end =
              resume r
                (λ e. raise (
                  wrap
                    ("failed to get pod "
                      <> (read.meta.namespace <> "/" <> read.spec.pod_name)
                      <> ": ")
                    e))
                (λ pod.
                  if pod.spec.node_name == ""
                  then raise (
                      new_error (
                        "pod "
                        <> (read.meta.namespace <> "/" <> read.spec.pod_name)
                        <> " is not scheduled to any node"))
                  else checkpoint_container
                      (traced w)
                      pod.spec.node_name
                      read.meta.namespace
                      read.spec.pod_name
                      read.spec.container_name
                      pod.meta.uid)
                (record {
                  inner = s;
                  log = got_pod (key read.meta.namespace read.spec.pod_name) r ∷ t.log;
                }) in
            Performed read end.0 end.1.log
      after_pod (ok pod) s = elim (Bool-cases (pod.spec.node_name == "")) [
        | inl nowhere ↦ rw nowhere (unmade (λ a e. cc) h)
        | inr somewhere ↦ rw somewhere (
            call-Performed pod t.log _ _ h
              (calls-Closed w pod.spec.node_name read.meta.namespace read.spec.pod_name
                read.spec.container_name pod.meta.uid
                (record { inner = s; log = read_of pod ∷ t.log })).0)
      ]
      after_pod (err e) s = unmade (λ a x. cc) h
      after_pod panic s = unmade (λ a x. cc) h
