-- ===== src/Migration/Restore/Writes.antt =====
-- What `handleRestoringPhase` keeps: the predicates on the log that admit its status writes, and a
-- deletion right after the reads that call for it.
use live_pod_migration.Base.{String, ◌≡◌, refl, true, ◌∷◌, ◌==◌, if◌then◌else◌}
use live_pod_migration.Effect.{
  Outcome, ok, err, panic, wrap, is_not_found, pure, raise, resume, attempt,
}
use live_pod_migration.Effect.Keeps.{
  Keeps, Keeps-pure, Keeps-raise, Keeps-if, Keeps-attempt, Keeps-resume,
}
use live_pod_migration.Api.Core.{ObjectKey, Pod, PodPhase}
use live_pod_migration.Api.Lpm.{MigrationPhase, PodMigration, restoring, succeeded, failed}
use live_pod_migration.World.{World}
use live_pod_migration.World.Trace.{
  got_pod, deleted_pod, Log, traced, OnLog, logged, Keeps-read_found,
}
use live_pod_migration.Reconcile.{key, is_running}
use live_pod_migration.Migration.Status.{update_phase}
use live_pod_migration.Migration.Diagram.{
  ◌⟶◌, LogAdmits, LogAdmits-traced, Admits, phase_rules, update_phase-Keeps, fail_restoring,
  succeed,
}
use live_pod_migration.Migration.Restore.{
  create_restored_pod, delete_original_pod, start_restore, record_restored, follow_restored,
  watch_restored, handle_restoring,
}

module _ {S : Type 0} (w : World S) (m : PodMigration) {P : S → Type 0}
    (adm : Admits w m restoring P) where
  record_restored-Keeps :
      (name : String) → m.status.phase ≡ restoring → Keeps P (record_restored w m name)
  unfolding record_restored
  record_restored-Keeps name e = search (phase_rules, adm.on_write) depth 8

  create_restored_pod-Keeps : Keeps P (create_restored_pod w m)
  unfolding create_restored_pod
  create_restored_pod-Keeps =
      Keeps-attempt _ _ _ (adm.calls.get_pod _) (λ e. Keeps-raise _)
        (λ pod. record { at = λ s h. h })

  start_restore-Keeps : m.status.phase ≡ restoring → Keeps P (start_restore w m)
  unfolding start_restore
  start_restore-Keeps e =
      search
        (
          phase_rules,
          adm.calls.create_pod,
          update_phase-Keeps w m adm,
          record_restored-Keeps,
          create_restored_pod-Keeps,
        )
        depth 8

  pub handle_restoring-Keeps :
      Keeps P (watch_restored w m) → m.status.phase ≡ restoring → Keeps P (handle_restoring w m)
  unfolding handle_restoring
  handle_restoring-Keeps watch e =
      Keeps-if (m.status.restored_pod_name == "") _ _ (λ _. start_restore-Keeps e) (λ _. watch)

  -- where the deletion is kept as well
  module _ (deletes : (p : Pod) → Keeps P (w.delete_pod p)) where
    delete_original_pod-Keeps : Keeps P (delete_original_pod w m)
    unfolding delete_original_pod
    delete_original_pod-Keeps = search (phase_rules, adm.calls.get_pod, deletes) depth 8

    follow_restored-Keeps : (p : PodPhase) → Keeps P (follow_restored w m p)
    unfolding follow_restored
    follow_restored-Keeps PodPhase.running =
        search (phase_rules, delete_original_pod-Keeps, update_phase-Keeps w m adm) depth 8
    follow_restored-Keeps PodPhase.failed =
        update_phase-Keeps w m adm m failed "restored pod failed to start" refl fail_restoring
    follow_restored-Keeps _ = Keeps-pure _

    pub watch_restored-Keeps : Keeps P (watch_restored w m)
    unfolding watch_restored
    watch_restored-Keeps =
        search (phase_rules, adm.calls.get_pod, follow_restored-Keeps, update_phase-Keeps w m adm)
          depth 8

-- the keys of the pods that the handler reads
abbrev pub source_key : PodMigration → ObjectKey
source_key m = key m.meta.namespace m.spec.pod_name

abbrev pub restored_key : PodMigration → ObjectKey
restored_key m = key m.meta.namespace m.status.restored_pod_name

-- `P` admits the deletion of a pod that was read as the source, right after the restored pod was
-- read and ran.
abbrev pub AdmitsDelete : PodMigration → (Log → Type 0) → Type 0
AdmitsDelete m P =
    (p q : Pod) (es : Log)
    → is_running q ≡ true
    → P es
    → P (deleted_pod p ∷ got_pod (source_key m) (ok p) ∷ got_pod (restored_key m) (ok q) ∷ es)

module _ {S : Type 0} (w : World S) (m : PodMigration) {P : Log → Type 0}
    (adm : LogAdmits restoring P) (deletes : AdmitsDelete m P) where
  traced-update :
      (q : MigrationPhase) (message : String)
      → restoring ⟶ q
      → Keeps (OnLog P) (update_phase (traced w) m q message)
  traced-update q message e =
      update_phase-Keeps (traced w) m (LogAdmits-traced w m adm) m q message refl e

  after_source :
      (r : Outcome Pod) (s : S) (q : Pod) (es : Log)
      → is_running q ≡ true
      → P es
      → P
          (resume r
            (λ e.
              if is_not_found e
              then pure tt
              else raise (wrap "failed to get original pod for deletion: " e))
            (λ pod.
              attempt
                ((traced w).delete_pod pod)
                (λ e. raise (wrap "failed to delete original pod: " e))
                pure)
            (record {
              inner = s;
              log = got_pod (source_key m) r ∷ got_pod (restored_key m) (ok q) ∷ es;
            })).1.log
  unfolding logged OnLog
  after_source (ok p) s q es run h =
      (Keeps-resume {P = OnLog P} (w.delete_pod p s).0 _ _ (λ e. Keeps-raise _)
          (λ _. Keeps-pure _)).at
        _ (deletes p q es run h)
  after_source (err e) s q es run h =
      (Keeps-if {P = OnLog P} (is_not_found e) (pure tt) (raise _) (λ _. Keeps-pure _)
          (λ _. Keeps-raise _)).at
        _ (adm.on_call _ _ tt (adm.on_call _ _ tt h))
  after_source panic s q es run h = adm.on_call _ _ tt (adm.on_call _ _ tt h)

  delete_running :
      (s : S) (q : Pod) (es : Log)
      → is_running q ≡ true
      → P es
      → P
          (follow_restored
            (traced w)
            m
            PodPhase.running
            (record { inner = s; log = got_pod (restored_key m) (ok q) ∷ es })).1.log
  unfolding follow_restored logged OnLog
  delete_running s q es run h =
      let src = w.get_pod (source_key m) s in
      let finish = traced-update succeeded "pod successfully restored and running" succeed in
      (Keeps-resume {P = OnLog P} _ _ _ (λ e. finish) (λ _. finish)).at _
        (after_source src.0 src.1 q es run h)

  traced-follow_restored :
      (p : PodPhase) (s : S) (q : Pod) (es : Log)
      → q.status.phase ≡ p
      → P es
      → P
          (follow_restored
            (traced w)
            m
            p
            (record { inner = s; log = got_pod (restored_key m) (ok q) ∷ es })).1.log
  unfolding follow_restored OnLog
  traced-follow_restored PodPhase.running s q es e h = delete_running s q es (rw e) h
  traced-follow_restored PodPhase.failed s q es e h =
      (traced-update failed "restored pod failed to start" fail_restoring).at _
        (adm.on_call _ _ tt h)
  traced-follow_restored _ s q es e h = adm.on_call _ _ tt h

  pub watch_restored-traced : Keeps (OnLog P) (watch_restored (traced w) m)
  unfolding watch_restored
  watch_restored-traced =
      Keeps-read_found P (got_pod (restored_key m)) (w.get_pod (restored_key m)) _ _
        (λ es r h. adm.on_call _ _ tt h)
        (traced-update failed "restored pod not found" fail_restoring)
        (λ q s es h. traced-follow_restored q.status.phase s q es refl h)
