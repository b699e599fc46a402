-- ===== src/PodCheckpoint/Progress.antt =====
-- How a PodCheckpoint gets on: its stages when nothing fails, and what each of them waits for.
pub mod Steps
use live_pod_migration.Base.{
  ℕ, zero, suc, String, ◌≡◌, ◌⊎◌, Bool, true, false, Option, none, some, List, [], ◌∷◌, ◌==◌,
}
use live_pod_migration.Effect.{Error, ok, err, is_not_found}
use live_pod_migration.Api.Core.{ObjectKey, Container, Pod, Time}
use live_pod_migration.Api.Lpm.{
  CheckpointPhase, ContainerCheckpoint, PodCheckpoint, PodCheckpointStatus, PodCheckpointContent,
}
use live_pod_migration.World.{World}
use live_pod_migration.World.Working.{Works, Rounds}
use live_pod_migration.Reconcile.{key, is_running, default_phase}
use live_pod_migration.PodCheckpoint.Verdict.{tally}
use live_pod_migration.PodCheckpoint.Verdict.Laws.{AllBound}
use live_pod_migration.PodCheckpoint.{child_name, new_child, new_content, defaulted, reconcile}

-- the server works for the PodCheckpoint of the key
pub record WorkingServer {S : Type 0} (w : World S) (k : ObjectKey)
    (stored : S → Option PodCheckpoint) : Type 0 where
  pub works :
      Works
        (w.get_pod_checkpoint k)
        w.update_pod_checkpoint
        (λ (c : PodCheckpoint). c.meta)
        (λ (c : PodCheckpoint). c.status)
        stored

-- the stages, in their order
pub data Stage : Type 0 where
  requested listed published bound completed : Stage

abbrev pub next : Stage → Stage
next requested = listed
next listed = published
next published = bound
next bound = completed
next completed = completed

-- the stage that so many rounds lead to
abbrev pub after : Stage → ℕ → Stage
after from zero = from
after from (suc n) = next (after from n)

-- the status of a PodCheckpoint that is at a stage
abbrev pub Reached : Stage → PodCheckpointStatus → Type 0
Reached requested x =
    (default_phase x.phase ≡ CheckpointPhase.pending) × (x.bound_content_name ≡ "")
Reached listed x = (x.phase ≡ CheckpointPhase.running) × (x.bound_content_name ≡ "")
Reached published x = (x.phase ≡ CheckpointPhase.running) × (x.bound_content_name ≡ "")
Reached bound x = (x.phase ≡ CheckpointPhase.running) × ((x.bound_content_name == "") ≡ false)
Reached completed x = (x.phase ≡ CheckpointPhase.succeeded) × (x.ready ≡ true)

module _ {S : Type 0} (w : World S) (stored : S → Option PodCheckpoint) where
  -- each container's child is there, or it can be created
  abbrev pub AllEnsured : PodCheckpoint → String → List Container → S → Type 0
  AllEnsured pc pod_name [] s = Unit
  AllEnsured pc pod_name (c ∷ cs) s =
      ((child : ContainerCheckpoint) × (w.get_container_checkpoint
            (key pc.meta.namespace (child_name w pc c.name)) s
          ≡ (ok child, s))
        × AllEnsured pc pod_name cs s)
      ⊎ ((e : Error) × (child : ContainerCheckpoint) × (s₁ : S) × (w.get_container_checkpoint
              (key pc.meta.namespace (child_name w pc c.name)) s
            ≡ (err e, s))
          × (is_not_found e ≡ true)
          × (w.create_container_checkpoint (new_child w pc pod_name c.name) s ≡ (ok child, s₁))
          × (stored s₁ ≡ stored s)
          × AllEnsured pc pod_name cs s₁)

  -- the pod runs, and its containers can have children
  pub record Startable (pc : PodCheckpoint) (s : S) : Type 0 where
    pub pod_name : String
    pub named : pc.spec.pod_name ≡ some pod_name
    pub pod : Pod
    pub pod_read : w.get_pod (key pc.meta.namespace pod_name) s ≡ (ok pod, s)
    pub runs : is_running pod ≡ true
    pub ensured : AllEnsured (defaulted pc) pod_name pod.spec.containers s

  -- the children are listed, there are some, and each has succeeded and is bound to its content
  pub record ChildrenDone (pc : PodCheckpoint) (s : S) : Type 0 where
    pub child : ContainerCheckpoint
    pub others : List ContainerCheckpoint
    pub list :
        w.list_container_checkpoints pc.meta.namespace pc.meta.name s ≡ (ok (child ∷ others), s)
    pub done : AllBound (child ∷ others)

  -- besides, there is no content yet, and it can be created
  pub record Publishable (pc : PodCheckpoint) (s : S) : Type 0 where
    pub children : ChildrenDone pc s
    pub pod_name : String
    pub named : pc.spec.pod_name ≡ some pod_name
    pub error : Error
    pub missing : w.get_pod_content (key pc.meta.namespace pc.meta.name) s ≡ (err error, s)
    pub not_there : is_not_found error ≡ true
    pub content : PodCheckpointContent
    pub s₁ : S
    pub created :
        w.create_pod_content
          (new_content w
            (defaulted pc)
            pod_name
            (tally (children.child ∷ children.others)).contents)
          s
        ≡ (ok content, s₁)
    pub keeps : stored s₁ ≡ stored s

  -- besides, the content is there
  pub record Bindable (pc : PodCheckpoint) (s : S) : Type 0 where
    pub children : ChildrenDone pc s
    pub content : PodCheckpointContent
    pub content_read : w.get_pod_content (key pc.meta.namespace pc.meta.name) s ≡ (ok content, s)
    pub has_name : (content.meta.name == "") ≡ false

  -- a content that is not ready can be made so
  abbrev pub MadeReady : Bool → PodCheckpointContent → S → S → Type 0
  MadeReady true content s s₁ = s₁ ≡ s
  MadeReady false content s s₁ =
      (time : Time) × (a : PodCheckpointContent) × (s₀ : S) × (w.now s ≡ (ok time, s₀))
      × (w.update_pod_content
            (record content {
              status = record (content.status) { ready = true; creation_time = some time };
            })
            s₀
          ≡ (ok a, s₁))
      × (stored s₁ ≡ stored s)

  -- the bound content is there
  pub record Completable (pc : PodCheckpoint) (s : S) : Type 0 where
    pub children : ChildrenDone pc s
    pub content : PodCheckpointContent
    pub content_read :
        w.get_pod_content (key pc.meta.namespace pc.status.bound_content_name) s ≡ (ok content, s)
    pub s₁ : S
    pub ready : MadeReady content.status.ready content s s₁
    pub time : Time
    pub s₂ : S
    pub clock : w.now s₁ ≡ (ok time, s₂)
    pub keeps : stored s₂ ≡ stored s

  -- what a stage waits for
  abbrev pub Enabled : Stage → PodCheckpoint → S → Type 0
  Enabled requested pc s = Startable pc s
  Enabled listed pc s = Publishable pc s
  Enabled published pc s = Bindable pc s
  Enabled bound pc s = Completable pc s
  Enabled completed pc s = Unit

  -- the rounds of the PodCheckpoint of a key, from a stage on
  abbrev pub CheckpointRounds : ObjectKey → Stage → S → ℕ → S → Type 0
  CheckpointRounds k from = Rounds (λ u. (reconcile w k u).1) stored (λ n. Enabled (after from n))
