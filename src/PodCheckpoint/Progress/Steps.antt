-- ===== src/PodCheckpoint/Progress/Steps.antt =====
-- One reconcile of a PodCheckpoint at each stage.
use live_pod_migration.Base.{
  ℕ, String, ◌≡◌, refl, sym, ap, ◌∙◌, inl, inr, Bool, true, false, Option, some, List, [], ◌∷◌,
  ◌==◌, ==_refl, if◌then◌else◌,
}
use live_pod_migration.Effect.{ok, pure, deref, ◌>>◌}
use live_pod_migration.Api.Core.{ObjectKey, Container}
use live_pod_migration.Api.Lpm.{CheckpointPhase, PodCheckpoint, PodCheckpointContent}
use live_pod_migration.World.{World}
use live_pod_migration.World.Working.{Works-write, Stored, Rounds-Stored}
use live_pod_migration.Reconcile.{ReconcileResult, default_phase}
use live_pod_migration.PodCheckpoint.Verdict.{tally}
use live_pod_migration.PodCheckpoint.Verdict.Laws.{tally-AllBound}
use live_pod_migration.PodCheckpoint.Progress.{
  WorkingServer, Stage, requested, listed, published, bound, completed, next, after, Reached,
  AllEnsured, Startable, ChildrenDone, Publishable, Bindable, MadeReady, Completable, Enabled,
  CheckpointRounds,
}
use live_pod_migration.PodCheckpoint.{
  defaulted, ensure_child, ensure_children, handle_pending, bind_content, mark_ready, complete,
  advance, after_list, handle_checkpointing, handle_completed_or_failed, dispatch, reconcile,
}

module _ {S : Type 0} (w : World S) (stored : S → Option PodCheckpoint) where
  abbrev Ends : PodCheckpoint → List Container → Bool → S → Type 0
  Ends pc cs before s =
      (b : Bool) × (s₁ : S) × (ensure_children w pc before cs s ≡ (ok b, s₁))
      × (stored s₁ ≡ stored s)

  ensure_children-Ends :
      (pc : PodCheckpoint) (pod_name : String) (cs : List Container) (before : Bool) (s : S)
      → pc.spec.pod_name ≡ some pod_name
      → AllEnsured w stored pc pod_name cs s
      → Ends pc cs before s
  unfolding ensure_children ensure_child
  ensure_children-Ends pc pod_name [] before s named all = (before, s, refl, refl)
  ensure_children-Ends pc pod_name (c ∷ cs) before s named (inl (child, read, all)) =
      let (b, s₁, e, kept) = ensure_children-Ends pc pod_name cs before s named all in
      (b, s₁, rw read e, kept)
  ensure_children-Ends pc pod_name (c ∷ cs) before s named
        (inr (e, child, s₁, read, missing, made, same, all)) =
      let (b, s₂, ends, kept) = ensure_children-Ends pc pod_name cs true s₁ named all in
      (b, s₂, rw read (rw missing (rw named (rw made ends))), kept ∙ same)

  marked :
      (content : PodCheckpointContent) (ready : Bool) (s s₁ : S)
      → content.status.ready ≡ ready
      → MadeReady w stored ready content s s₁
      → mark_ready w content s ≡ (ok tt, s₁)
  unfolding mark_ready
  marked content true s s₁ e same = rw e (ap (λ t. (ok tt, t)) (sym same))
  marked content false s s₁ e (time, a, s₀, clock, written, kept) =
      rw e (rw clock (rw written refl))

module _ {S : Type 0} {w : World S} {k : ObjectKey} {stored : S → Option PodCheckpoint}
    (server : WorkingServer w k stored) where
  abbrev Held : Stage → S → Type 0
  Held stage = Stored stored (λ (pc : PodCheckpoint). Reached stage pc.status)

  after_read :
      (pc : PodCheckpoint) (p : CheckpointPhase) (s : S)
      → stored s ≡ some pc
      → default_phase pc.status.phase ≡ p
      → reconcile w k s ≡ dispatch w p (defaulted pc) s
  unfolding reconcile
  after_read pc p s held e =
      rw (server.works.read pc s held) (ap (λ q. dispatch w q (defaulted pc) s) e)

  after_write :
      (pc old : PodCheckpoint) (stage : Stage) (r : ReconcileResult) (s : S)
      → stored s ≡ some old
      → pc.meta ≡ old.meta
      → Reached stage pc.status
      → Held stage ((w.update_pod_checkpoint pc >> pure r) s).1
  after_write pc old stage r s held same reached =
      Works-write server.works (Reached stage) pc old r s held same reached

  -- the children are found done
  evaluated :
      (pc : PodCheckpoint) (s : S)
      → stored s ≡ some pc
      → pc.status.phase ≡ CheckpointPhase.running
      → (there : ChildrenDone w stored pc s)
      → reconcile w k s
        ≡ (if pc.status.bound_content_name == ""
              then bind_content w (defaulted pc) (tally (there.child ∷ there.others)).contents
              else complete w (defaulted pc))
            s
  unfolding dispatch handle_checkpointing after_list advance
  evaluated pc s held phase there =
      let (all, good) = tally-AllBound (there.child ∷ there.others) there.done in
      rw (after_read pc CheckpointPhase.running s held (ap default_phase phase))
        (rw (there.list) (rw all (rw good refl)))

  requested-Held :
      (pc : PodCheckpoint) (s : S)
      → stored s ≡ some pc
      → Reached requested pc.status
      → Startable w stored pc s
      → Held listed (reconcile w k s).1
  unfolding dispatch handle_pending
  requested-Held pc s held (phase, empty) start =
      let (b, s₁, ends, same) =
        ensure_children-Ends w stored (defaulted pc) start.pod_name start.pod.spec.containers false
          s start.named start.ensured in
      rw (after_read pc CheckpointPhase.pending s held phase) (
        rw (ap (λ o. deref {S = S} o) start.named) (
          rw (start.pod_read) (
            rw (start.runs)
              (rw ends (after_write _ pc listed _ s₁ (same ∙ held) refl (refl, empty))))))

  listed-Held :
      (pc : PodCheckpoint) (s : S)
      → stored s ≡ some pc
      → Reached listed pc.status
      → Publishable w stored pc s
      → Held published (reconcile w k s).1
  unfolding bind_content
  listed-Held pc s held (phase, empty) can = rw (evaluated pc s held phase can.children) (
      rw (ap (λ x. x == "") empty ∙ ==_refl "") (
        rw (can.missing) (
          rw (can.not_there)
            (rw (can.named) (rw (can.created) (pc, can.keeps ∙ held, (phase, empty)))))))

  published-Held :
      (pc : PodCheckpoint) (s : S)
      → stored s ≡ some pc
      → Reached published pc.status
      → Bindable w stored pc s
      → Held bound (reconcile w k s).1
  unfolding bind_content
  published-Held pc s held (phase, empty) can = rw (evaluated pc s held phase can.children) (
      rw (ap (λ x. x == "") empty ∙ ==_refl "") (
        rw (can.content_read)
          (after_write _ pc bound _ s held refl (ap default_phase phase, can.has_name))))

  bound-Held :
      (pc : PodCheckpoint) (s : S)
      → stored s ≡ some pc
      → Reached bound pc.status
      → Completable w stored pc s
      → Held completed (reconcile w k s).1
  unfolding complete
  bound-Held pc s held (phase, named) can = rw (evaluated pc s held phase can.children) (
      rw named (
        rw (can.content_read) (
          rw (marked w stored can.content can.content.status.ready s can.s₁ refl can.ready) (
            rw (can.clock)
              (after_write _ pc completed _ can.s₂ (can.keeps ∙ held) refl (refl, refl))))))

  completed-Held :
      (pc : PodCheckpoint) (s : S)
      → stored s ≡ some pc
      → Reached completed pc.status
      → Held completed (reconcile w k s).1
  unfolding dispatch handle_completed_or_failed
  completed-Held pc s held (phase, ready) =
      rw (after_read pc CheckpointPhase.succeeded s held (ap default_phase phase))
        (pc, held, (phase, ready))

  reconcile-Held :
      (stage : Stage) (pc : PodCheckpoint) (s : S)
      → stored s ≡ some pc
      → Reached stage pc.status
      → Enabled w stored stage pc s
      → Held (next stage) (reconcile w k s).1
  reconcile-Held requested pc s held reached e = requested-Held pc s held reached e
  reconcile-Held listed pc s held reached e = listed-Held pc s held reached e
  reconcile-Held published pc s held reached e = published-Held pc s held reached e
  reconcile-Held bound pc s held reached e = bound-Held pc s held reached e
  reconcile-Held completed pc s held reached e = completed-Held pc s held reached

-- A PodCheckpoint gets on. Let the server work for it, and let nobody else write it. Then every round takes
-- it from its stage to the next, if it is reconciled when what the stage waits for has come about: from a
-- request, its phase empty or pending and no content bound, it is `succeeded` and ready after four
-- rounds, and stays so.
pub CheckpointRounds-Reached :
    {S : Type 0} {w : World S} {k : ObjectKey} {stored : S → Option PodCheckpoint}
    (server : WorkingServer w k stored) (from : Stage) (pc : PodCheckpoint) (s t : S) (n : ℕ)
    → stored s ≡ some pc
    → Reached from pc.status
    → CheckpointRounds w stored k from s n t
    → Stored stored (λ pc'. Reached (after from n) pc'.status) t
CheckpointRounds-Reached {w = w} {k = k} {stored = stored} server from pc s t n held reached
      rounds =
    Rounds-Stored (λ u. (reconcile w k u).1) stored (λ i. Enabled w stored (after from i))
      (λ i pc'. Reached (after from i) pc'.status) s t n
      (λ i pc' u held' reached' e. reconcile-Held server (after from i) pc' u held' reached' e)
      (pc, held, reached) rounds
