-- ===== src/PodCheckpoint/Phases.antt =====
-- The status writes of every reconcile of a PodCheckpoint, and what it listed before.
use live_pod_migration.Base.{String, ◌≡◌, refl, Bool, Option, none, some, List, [], ◌∷◌, ◌==◌}
use live_pod_migration.Effect.{ok}
use live_pod_migration.Effect.Keeps.{
  Keeps, Keeps-pure, Keeps-raise, Keeps-if, Keeps-bind, keeps_rules,
}
use live_pod_migration.Api.Core.{ObjectKey, Container, LocalObjectReference}
use live_pod_migration.Api.Lpm.{
  CheckpointPhase, PodCheckpoint, PodCheckpointContent, ContainerCheckpoint, pending, running,
  succeeded, failed,
}
use live_pod_migration.World.{World}
use live_pod_migration.World.Trace.{
  Event, got_pod_checkpoint, listed_children, wrote_pod_checkpoint, Log, Traced, traced, OnLog,
  Keeps-read, Keeps-read_found, trace_rules,
}
use live_pod_migration.Reconcile.{default_phase}
use live_pod_migration.PodCheckpoint.Verdict.Laws.{AllBound, tally_complete}
use live_pod_migration.PodCheckpoint.{
  defaulted, tally, update_phase, ensure_child, ensure_children, handle_pending, bind_content,
  mark_ready, complete, advance, after_list, handle_checkpointing, dispatch, reconcile,
}

-- The writes that a reconcile may make, from the phase that it read and the children that it listed
-- (none, if it listed none).
pub data MayWrite : CheckpointPhase → List ContainerCheckpoint → CheckpointPhase → Type 0 where
  start : {cs : List ContainerCheckpoint} → MayWrite pending cs running
  keep : {cs : List ContainerCheckpoint} {p : CheckpointPhase} → p ≡ running → MayWrite running cs p
  fail_pending : {cs : List ContainerCheckpoint} → MayWrite pending cs failed
  fail_running : {cs : List ContainerCheckpoint} → MayWrite running cs failed
  succeed :
      {c : ContainerCheckpoint} {cs : List ContainerCheckpoint}
      → AllBound (c ∷ cs)
      → MayWrite running (c ∷ cs) succeeded

-- the phase of the newest PodCheckpoint that was read, an empty one taken for `pending`
abbrev pub phase_read : Log → Option CheckpointPhase
phase_read [] = none
phase_read (got_pod_checkpoint (ok pc) ∷ es) = some (default_phase pc.status.phase)
phase_read (_ ∷ es) = phase_read es

-- the children that were listed since then
abbrev pub children_read : Log → List ContainerCheckpoint
children_read [] = []
children_read (listed_children (ok cs) ∷ es) = cs
children_read (got_pod_checkpoint r ∷ es) = []
children_read (_ ∷ es) = children_read es

abbrev pub IsJustified : Log → Type 0
IsJustified [] = Unit
IsJustified (wrote_pod_checkpoint pc ∷ es) =
    ((p : CheckpointPhase) × (phase_read es ≡ some p)
      × MayWrite p (children_read es) pc.status.phase)
    × IsJustified es
IsJustified (_ ∷ es) = IsJustified es

abbrev IsPlain : Event → Type 0
IsPlain (wrote_pod_checkpoint m) = ⊥
IsPlain (got_pod_checkpoint r) = ⊥
IsPlain (listed_children r) = ⊥
IsPlain _ = Unit

abbrev From : CheckpointPhase → List ContainerCheckpoint → Log → Type 0
From p cs es = IsJustified es × (phase_read es ≡ some p) × (children_read es ≡ cs)

-- the log without the children
abbrev Running : Log → Type 0
Running es = IsJustified es × (phase_read es ≡ some running)

on_call :
    {p : CheckpointPhase} {cs : List ContainerCheckpoint} (e : Event) (es : Log)
    → IsPlain e
    → From p cs es
    → From p cs (e ∷ es)
on_call (wrote_pod_checkpoint m) es plain h = absurd plain
on_call (got_pod_checkpoint r) es plain h = absurd plain
on_call (listed_children r) es plain h = absurd plain
on_call _ es plain h = h

on_write :
    {p : CheckpointPhase} {cs : List ContainerCheckpoint} (pc : PodCheckpoint) (es : Log)
    → MayWrite p cs pc.status.phase
    → From p cs es
    → From p cs (wrote_pod_checkpoint pc ∷ es)
on_write {p} {cs} pc es e (f, h, k) = (((p, h, rw k e), f), h, k)

ruleset phase_rules =
    (keeps_rules, trace_rules, tt, on_call, on_write, start, keep, fail_pending, fail_running)

module _ {S : Type 0} (w : World S) (pc : PodCheckpoint) where
  update_phase-From :
      {p : CheckpointPhase} {cs : List ContainerCheckpoint} (message : String)
      → MayWrite p cs failed
      → Keeps (OnLog (From p cs)) (update_phase (traced w) pc failed message)
  unfolding update_phase
  update_phase-From message e = search (phase_rules, e) depth 8

  ensure_child-From :
      (p : CheckpointPhase) (cs : List ContainerCheckpoint) (created : Bool) (c : Container)
      → Keeps (OnLog (From p cs)) (ensure_child (traced w) pc created c)
  unfolding ensure_child
  ensure_child-From p cs created c = search phase_rules depth 10

  ensure_children-From :
      (p : CheckpointPhase) (cs : List ContainerCheckpoint) (created : Bool)
      (containers : List Container)
      → Keeps (OnLog (From p cs)) (ensure_children (traced w) pc created containers)
  unfolding ensure_children
  ensure_children-From p cs created [] = Keeps-pure _
  ensure_children-From p cs created (c ∷ containers) =
      Keeps-bind _ _ (ensure_child-From p cs created c)
        (λ b. ensure_children-From p cs b containers)

  handle_pending-From :
      {p : CheckpointPhase} {cs : List ContainerCheckpoint}
      → MayWrite p cs running
      → MayWrite p cs failed
      → Keeps (OnLog (From p cs)) (handle_pending (traced w) pc)
  unfolding handle_pending
  handle_pending-From go stop =
      search (phase_rules, go, stop, update_phase-From, ensure_children-From) depth 10

  bind_content-From :
      (cs : List ContainerCheckpoint) (contents : List LocalObjectReference)
      → pc.status.phase ≡ running
      → Keeps (OnLog (From running cs)) (bind_content (traced w) pc contents)
  unfolding bind_content
  bind_content-From cs contents e = search phase_rules depth 10

  mark_ready-From :
      (p : CheckpointPhase) (cs : List ContainerCheckpoint) (content : PodCheckpointContent)
      → Keeps (OnLog (From p cs)) (mark_ready (traced w) content)
  unfolding mark_ready
  mark_ready-From p cs content = search phase_rules depth 10

  complete-From :
      (c : ContainerCheckpoint) (cs : List ContainerCheckpoint)
      → AllBound (c ∷ cs)
      → Keeps (OnLog (From running (c ∷ cs))) (complete (traced w) pc)
  unfolding complete
  complete-From c cs all =
      search (phase_rules, succeed {c = c} {cs = cs} all, mark_ready-From) depth 10

  advance-From :
      (c : ContainerCheckpoint) (cs : List ContainerCheckpoint)
      → pc.status.phase ≡ running
      → Keeps (OnLog (From running (c ∷ cs))) (advance (traced w) pc (tally (c ∷ cs)))
  unfolding advance
  advance-From c cs e =
      Keeps-if (tally (c ∷ cs)).all_done _ _
        (λ d.
          Keeps-if (tally (c ∷ cs)).all_succeeded _ _
            (λ s.
              Keeps-if (pc.status.bound_content_name == "") _ _
                (λ _. bind_content-From (c ∷ cs) _ e)
                (λ _. complete-From c cs ((tally_complete (c ∷ cs)).0 (d, s)).0))
            (λ _. update_phase-From _ fail_running))
        (λ _. Keeps-pure _)

  -- after the children are listed
  listed-From :
      (cs : List ContainerCheckpoint)
      → pc.status.phase ≡ running
      → Keeps (OnLog (From running cs)) (after_list (traced w) pc cs)
  unfolding after_list
  listed-From [] e = handle_pending-From (keep refl) fail_running
  listed-From (c ∷ cs) e = advance-From c cs e

  handle_checkpointing-Running :
      pc.status.phase ≡ running → Keeps (OnLog Running) (handle_checkpointing (traced w) pc)
  unfolding handle_checkpointing OnLog
  handle_checkpointing-Running e =
      Keeps-read Running listed_children
        (w.list_container_checkpoints pc.meta.namespace pc.meta.name) _ _ (λ es r h. h)
        (λ x. Keeps-raise x)
        (λ cs s es (f, h).
          let t : Traced S = record { inner = s; log = listed_children (ok cs) ∷ es } in
          let (f', h', _) = (listed-From cs e).at t (f, h, refl) in (f', h'))

  dispatch-IsJustified :
      (p : CheckpointPhase)
      → pc.status.phase ≡ p
      → (t : Traced S) → From p [] t.log
      → IsJustified (dispatch (traced w) p pc t).1.log
  unfolding dispatch OnLog
  dispatch-IsJustified pending e t h = ((handle_pending-From start fail_pending).at t h).0
  dispatch-IsJustified running e t h = ((handle_checkpointing-Running e).at t (h.0, h.1)).0
  dispatch-IsJustified _ e t h = h.0

-- Whatever the world answers, a reconcile of a PodCheckpoint writes only the statuses that the phase
-- it read allows, and `succeeded` only after it listed children, each of which succeeded and is bound
-- to its content: if that holds of all status writes in the log before, it holds of all in the log
-- after.
pub reconcile-IsJustified :
    {S : Type 0} (w : World S) (req : ObjectKey) (t : Traced S)
    → IsJustified t.log
    → IsJustified (reconcile (traced w) req t).1.log
unfolding reconcile OnLog
reconcile-IsJustified {S} w req =
    (Keeps-read_found IsJustified got_pod_checkpoint (w.get_pod_checkpoint req) _ _ (λ es r h. h)
      (Keeps-pure _)
      (λ pc s es h.
        let t : Traced S = record { inner = s; log = got_pod_checkpoint (ok pc) ∷ es } in
        dispatch-IsJustified w (defaulted pc) (default_phase pc.status.phase) refl t
          (h, refl, refl))).at
