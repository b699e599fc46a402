-- ===== src/Tests/Working.antt =====
-- The server with resource versions works for the migration `shop/move`, and the states in which its
-- six rounds begin.
use live_pod_migration.Base.{
  String, ◌≡◌, refl, sym, ap, ◌∙◌, Bool, true, false, Option, none, some, [], ◌∷◌, ◌==◌, ==_refl,
  ◌&&◌, if◌then◌else◌,
}
use live_pod_migration.Base.Maps.{StringMap}
use live_pod_migration.Api.Core.{ObjectMeta}
use live_pod_migration.Api.Lpm.{
  MigrationPhase, PodMigration, PodMigrationStatus, PodCheckpoint, succeeded,
}
use live_pod_migration.Migration.Progress.{WorkingServer}
use live_pod_migration.Migration.{reconcile}
use live_pod_migration.Tests.Cluster.{Cluster}
use live_pod_migration.Tests.Objects.{
  pod, both_images, pod_checkpoint, quiet, checkpointed as with_contents,
}
use live_pod_migration.Tests.Versions.{
  Versioned, the_key, object, push, current, accepts, versioned,
}

abbrev pub held : Versioned → Option PodMigration
held s = some (object s)

accepts_own : (m : PodMigration) (s : Versioned) → m.meta ≡ (object s).meta → accepts m s ≡ true
accepts_own m s e =
    ap
      (λ (x : ObjectMeta).
        x.namespace == "shop" && x.name == "move" && x.resource_version == current s)
      e
    ∙ rw ==_refl (rw ==_refl (rw ==_refl refl))

pub versioned-WorkingServer : WorkingServer versioned the_key held
versioned-WorkingServer = record {
  works = record {
    read = λ m s e. let same : object s ≡ m = cc in rw same refl;
    write = λ m old s e same.
        let stored_now : object s ≡ old = cc in
        let own : m.meta ≡ (object s).meta =
          same ∙ ap (λ (x : PodMigration). x.meta) (sym stored_now) in
        (object (push m s), push m s, rw (accepts_own m s own) refl, refl, refl);
  };
}

abbrev pub status : MigrationPhase → String → Bool → String → Option StringMap → PodMigrationStatus
status phase message bound restored images = record {
  phase = phase;
  message = message;
  pod_checkpoint_ref = if bound then some (record { name = "move" }) else none;
  restored_pod_name = restored;
  checkpoint_images = images;
}

-- the states in which the rounds begin
abbrev pub u0 : Versioned
u0 = record { cluster = quiet; status = status MigrationPhase.unset "" false "" none; past = [] }

abbrev pub done_checkpoint : PodCheckpoint
done_checkpoint = record (pod_checkpoint succeeded "move") {
  status = record ((pod_checkpoint succeeded "move").status) { ready = true };
}

abbrev pub done_cluster : Cluster
done_cluster = record with_contents { pod_checkpoints = done_checkpoint ∷ [] }

abbrev pub u1 : Versioned
u1 = record {
  cluster = done_cluster;
  status = status MigrationPhase.checkpointing "checkpoint requested" true "" none;
  past = MigrationPhase.pending ∷ [];
}

abbrev pub u2 : Versioned
u2 = record {
  cluster = done_cluster;
  status = status MigrationPhase.checkpoint_complete "checkpoint complete" true "" none;
  past = MigrationPhase.checkpointing ∷ u1.past;
}

abbrev pub u3 : Versioned
u3 = record {
  cluster = done_cluster;
  status = status MigrationPhase.preparing_images "preparing checkpoint images" true "" none;
  past = MigrationPhase.checkpoint_complete ∷ u2.past;
}

abbrev pub u4 : Versioned
u4 = record {
  cluster = done_cluster;
  status =
      status MigrationPhase.restoring "checkpoint images ready, creating restored pod" true ""
        (some both_images);
  past = MigrationPhase.preparing_images ∷ MigrationPhase.preparing_images ∷ u3.past;
}

abbrev pub u5 : Versioned
u5 = record {
  cluster = record done_cluster { pods = pod "web" ∷ pod "web-restored" ∷ [] };
  status =
      status MigrationPhase.restoring "restored pod created" true "web-restored" (some both_images);
  past = MigrationPhase.restoring ∷ u4.past;
}

abbrev pub round_at : Versioned → Versioned
round_at s = (reconcile versioned the_key s).1
