-- ===== src/ContainerCheckpoint/Progress.antt =====
-- How a ContainerCheckpoint gets on: its stages when nothing fails, and what each of them waits for.
use live_pod_migration.Base.{
  ℕ, zero, suc, String, ◌≡◌, refl, ap, ◌∙◌, ◌⊎◌, inl, inr, true, false, Option, some, ◌==◌,
}
use live_pod_migration.Effect.{Error, ok, err, is_not_found, pure, ◌>>◌}
use live_pod_migration.Api.Core.{ObjectKey, Pod, Time}
use live_pod_migration.Api.Lpm.{
  CheckpointPhase, ContainerCheckpoint, ContainerCheckpointStatus, ContainerCheckpointContent,
}
use live_pod_migration.World.{World}
use live_pod_migration.World.Working.{Works, Works-write, Rounds, Stored, Rounds-Stored}
use live_pod_migration.Reconcile.{ReconcileResult, key, is_running, default_phase, done}
use live_pod_migration.ContainerCheckpoint.Content.{
  handle_checkpointing-binds_existing, handle_checkpointing-creates,
}
use live_pod_migration.ContainerCheckpoint.{
  completed, defaulted, has_container, new_content, perform_container_checkpoint, update_phase,
  with_pod, handle_pending, handle_checkpointing, handle_completed_or_failed, dispatch, reconcile,
}

-- the server works for the ContainerCheckpoint of the key
pub record WorkingServer {S : Type 0} (w : World S) (k : ObjectKey)
    (stored : S → Option ContainerCheckpoint) : Type 0 where
  pub works :
      Works
        (w.get_container_checkpoint k)
        w.update_container_checkpoint
        (λ (c : ContainerCheckpoint). c.meta)
        (λ (c : ContainerCheckpoint). c.status)
        stored

-- the stages, in their order
pub data Stage : Type 0 where
  requested accepted finished : Stage

abbrev pub next : Stage → Stage
next requested = accepted
next accepted = finished
next finished = finished

-- the stage that so many rounds lead to
abbrev pub after : ℕ → Stage
after zero = requested
after (suc n) = next (after n)

-- the status of a ContainerCheckpoint that is at a stage
abbrev pub Reached : Stage → ContainerCheckpointStatus → Type 0
Reached requested x =
    (default_phase x.phase ≡ CheckpointPhase.pending) × (x.bound_content_name ≡ "")
Reached accepted x = (x.phase ≡ CheckpointPhase.running) × (x.bound_content_name ≡ "")
Reached finished x =
    (x.phase ≡ CheckpointPhase.succeeded)
    × ((x.bound_content_name == "") ≡ false)
    × (x.ready ≡ true)

module _ {S : Type 0} (w : World S) (stored : S → Option ContainerCheckpoint) where
  -- the pod runs and has the container
  pub record Startable (c : ContainerCheckpoint) (s : S) : Type 0 where
    pub pod : Pod
    pub pod_read : w.get_pod (key c.meta.namespace c.spec.pod_name) s ≡ (ok pod, s)
    pub has : has_container c.spec.container_name pod.spec.containers ≡ true
    pub runs : is_running pod ≡ true

  -- the agent makes the checkpoint, and its content is there or can be created
  pub record Doable (c : ContainerCheckpoint) (s : S) : Type 0 where
    pub uri : String
    pub s₁ : S
    pub made : perform_container_checkpoint w (defaulted c) s ≡ (ok uri, s₁)
    pub content : ContainerCheckpointContent
    pub has_name : (content.meta.name == "") ≡ false
    pub s₂ : S
    pub published :
        (w.get_container_content (key "" c.meta.name) s₁ ≡ (ok content, s₂))
        ⊎ ((e : Error) × (t : S) × (w.get_container_content (key "" c.meta.name) s₁ ≡ (err e, t))
            × (is_not_found e ≡ true)
            × (w.create_container_content (new_content w (defaulted c) uri) t ≡ (ok content, s₂)))
    pub time : Time
    pub s₃ : S
    pub clock : w.now s₂ ≡ (ok time, s₃)
    pub keeps : stored s₃ ≡ stored s

  -- what a stage waits for
  abbrev pub Enabled : Stage → ContainerCheckpoint → S → Type 0
  Enabled requested c s = Startable c s
  Enabled accepted c s = Doable c s
  Enabled finished c s = Unit

  -- the rounds of the ContainerCheckpoint of a key
  abbrev pub ContainerRounds : ObjectKey → S → ℕ → S → Type 0
  ContainerRounds k = Rounds (λ u. (reconcile w k u).1) stored (λ n. Enabled (after n))

module _ {S : Type 0} {w : World S} {k : ObjectKey} {stored : S → Option ContainerCheckpoint}
    (server : WorkingServer w k stored) where
  abbrev Held : Stage → S → Type 0
  Held stage = Stored stored (λ (c : ContainerCheckpoint). Reached stage c.status)

  after_read :
      (c : ContainerCheckpoint) (p : CheckpointPhase) (s : S)
      → stored s ≡ some c
      → default_phase c.status.phase ≡ p
      → reconcile w k s ≡ dispatch w p (defaulted c) s
  unfolding reconcile
  after_read c p s held e =
      rw (server.works.read c s held) (ap (λ q. dispatch w q (defaulted c) s) e)

  after_write :
      (c old : ContainerCheckpoint) (stage : Stage) (r : ReconcileResult) (s : S)
      → stored s ≡ some old
      → c.meta ≡ old.meta
      → Reached stage c.status
      → Held stage ((w.update_container_checkpoint c >> pure r) s).1
  after_write c old stage r s held same reached =
      Works-write server.works (Reached stage) c old r s held same reached

  requested-Held :
      (c : ContainerCheckpoint) (s : S)
      → stored s ≡ some c
      → Reached requested c.status
      → Startable w stored c s
      → Held accepted (reconcile w k s).1
  unfolding dispatch handle_pending with_pod update_phase
  requested-Held c s held (phase, empty) can =
      rw (after_read c CheckpointPhase.pending s held phase) (
        rw (can.pod_read)
          (rw (can.has) (rw (can.runs) (after_write _ c accepted _ s held refl (refl, empty)))))

  -- the end of the operation, however the content was found
  finishes :
      (c : ContainerCheckpoint) (s : S)
      → stored s ≡ some c
      → c.status.bound_content_name ≡ ""
      → (can : Doable w stored c s) → Held finished (handle_checkpointing w (defaulted c) s).1
  finishes c s held empty can = elim can.published [
    | inl there ↦
        rw
          (handle_checkpointing-binds_existing w (defaulted c) can.content can.uri s can.s₁ can.s₂
            empty can.made there)
          (rw (can.clock) (
            after_write (completed (defaulted c) can.content.meta.name can.time) c finished done
              can.s₃ (can.keeps ∙ held) refl (refl, can.has_name, refl)))
    | inr (e, t, missing, absent, created) ↦
        rw
          (handle_checkpointing-creates w (defaulted c) can.content can.uri e s can.s₁ t can.s₂
            empty can.made missing absent created)
          (rw (can.clock) (
            after_write (completed (defaulted c) can.content.meta.name can.time) c finished done
              can.s₃ (can.keeps ∙ held) refl (refl, can.has_name, refl)))
  ]

  reconcile-Held :
      (stage : Stage) (c : ContainerCheckpoint) (s : S)
      → stored s ≡ some c
      → Reached stage c.status
      → Enabled w stored stage c s
      → Held (next stage) (reconcile w k s).1
  unfolding dispatch handle_completed_or_failed
  reconcile-Held requested c s held reached e = requested-Held c s held reached e
  reconcile-Held accepted c s held (phase, empty) e =
      rw (after_read c CheckpointPhase.running s held (ap default_phase phase))
        (finishes c s held empty e)
  reconcile-Held finished c s held (phase, bound, ready) e =
      rw (after_read c CheckpointPhase.succeeded s held (ap default_phase phase))
        (c, held, (phase, bound, ready))

-- A ContainerCheckpoint gets on. Let the server work for it, and let nobody else write it. Then every
-- round takes it to its next stage, if it is reconciled when what its stage waits for has come about: one
-- that is requested, its phase empty or pending and no content bound, has succeeded after two rounds, is
-- bound to a content and ready, and stays so.
pub ContainerRounds-Reached :
    {S : Type 0} {w : World S} {k : ObjectKey} {stored : S → Option ContainerCheckpoint}
    (server : WorkingServer w k stored) (c : ContainerCheckpoint) (s t : S) (n : ℕ)
    → stored s ≡ some c
    → Reached requested c.status
    → ContainerRounds w stored k s n t
    → Stored stored (λ c'. Reached (after n) c'.status) t
ContainerRounds-Reached {w = w} {k = k} {stored = stored} server c s t n held reached rounds =
    Rounds-Stored (λ u. (reconcile w k u).1) stored (λ i. Enabled w stored (after i))
      (λ i c'. Reached (after i) c'.status) s t n
      (λ i c' u held' reached' e. reconcile-Held server (after i) c' u held' reached' e)
      (c, held, reached) rounds
