-- ===== src/Tests/Rounds.antt =====
-- The six rounds of the migration `shop/move`, each with what it waits for.
use live_pod_migration.Base.{String, ◌<>◌, ◌≡◌, refl, inl, inr, true, some, [], ◌∷◌, ◌==◌}
use live_pod_migration.Base.Maps.{lookup, insert}
use live_pod_migration.Base.Text.{contains, has_prefix, has_suffix, trim_prefix, trim_suffix}
use live_pod_migration.Effect.{not_found}
use live_pod_migration.Api.Core.{Container, Pod, pull_never}
use live_pod_migration.Api.Lpm.{PodMigration}
use live_pod_migration.Migration.Status.{defaulted}
use live_pod_migration.Reconcile.{new_meta}
use live_pod_migration.Migration.Progress.{
  completed, Reached, Startable, Checkpointed, Convertible, Restorable, Running, MigrationRounds,
}
use live_pod_migration.World.Working.{Stored, of_stored, begun, round}
use live_pod_migration.Migration.Progress.Completes.{Rounds-Reached}
use live_pod_migration.Migration.{new_checkpoint, reconcile}
use live_pod_migration.Tests.Objects.{pod, container, node, pod_content, quiet}
use live_pod_migration.Tests.Versions.{the_key, object, versioned}
use live_pod_migration.Migration.Images.{
  get_checkpoint_path_for_container, convert_to_oci_image, handle_preparing_images,
}
use live_pod_migration.Migration.Restore.{restored_pod, handle_restoring}
use live_pod_migration.AgentClient.{convert_checkpoint_to_image, internal_endpoint}
use live_pod_migration.Tests.Working.{
  held, versioned-WorkingServer, done_checkpoint, u0, u1, u2, u3, u4, u5, round_at,
}

startable : Startable versioned held (pod "web") (object u0) u0
unfolding ◌==◌
startable = record {
  source_read = refl;
  source_runs = refl;
  node = node "node-b" "10.0.0.2";
  node_read = inr refl;
  checkpoint = inr (
    record { reason = not_found; text = "move not found" },
    new_checkpoint versioned (defaulted (object u0)) "move",
    record u0 {
      cluster = record quiet {
        pod_checkpoints = new_checkpoint versioned (defaulted (object u0)) "move" ∷ [];
      };
    },
    refl,
    refl,
    refl,
    refl,
  );
}

requested_held : held u1 ≡ held (round_at u0)
unfolding reconcile ◌==◌
requested_held = refl

checkpoint_done : Checkpointed versioned held (pod "web") (object u1) u1
unfolding ◌==◌
checkpoint_done = record {
  checkpoint = done_checkpoint;
  checkpoint_read = refl;
  succeeded = refl;
  ready = refl;
}

checkpointing_held : held u2 ≡ held (round_at u1)
unfolding reconcile ◌==◌
checkpointing_held = refl

checkpointed_held : held u3 ≡ held (round_at u2)
unfolding reconcile ◌==◌
checkpointed_held = refl

convertible : Convertible versioned held (pod "web") (object u3) u3
unfolding get_checkpoint_path_for_container convert_to_oci_image convert_checkpoint_to_image
    internal_endpoint ◌==◌ contains lookup insert has_prefix trim_prefix has_suffix trim_suffix
convertible = record {
  source_read = refl;
  distinct = (refl, (refl, tt));
  checkpoint = done_checkpoint;
  checkpoint_read = λ r e. let same : r ≡ record { name = "move" } = cc in rw same refl;
  bound = refl;
  content = pod_content;
  content_read = refl;
  converts = (
    "shared://web-app.tar",
    "localhost/checkpoint:web-app",
    u3,
    refl,
    refl,
    refl,
    refl,
    ("shared://web-log.tar", "localhost/checkpoint:web-log", u3, refl, refl, refl, refl, tt),
  );
}

preparing_held : held u4 ≡ held (round_at u3)
unfolding reconcile handle_preparing_images convert_checkpoint_to_image internal_endpoint ◌==◌
    contains lookup insert has_prefix trim_prefix has_suffix trim_suffix
preparing_held = refl

abbrev restored_container : String → Container
restored_container name = record (container name) {
  image = "localhost/checkpoint:web-" <> name;
  image_pull_policy = pull_never;
}

abbrev copy : Pod
copy = record (pod "web-restored") {
  meta = record (new_meta "shop" "web-restored") {
    annotations = some (("migration.source-pod", "web") ∷ ("migration.target-node", "node-b") ∷ []);
    owner_references =
        record { kind = "PodMigration"; name = "move"; uid = ""; controller = true } ∷ [];
  };
  spec = record {
    containers = restored_container "app" ∷ restored_container "log" ∷ [];
    node_name = "node-b";
    rest = "";
  };
}

restorable : Restorable versioned held (pod "web") (object u4) u4
unfolding restored_pod ◌==◌ lookup insert
restorable = record {
  source_read = refl;
  created = λ q e.
      let same : q ≡ copy = cc in
      rw same (
        copy,
        record u4 { cluster = record (u4.cluster) { pods = copy ∷ pod "web" ∷ [] } },
        refl,
        refl,
        refl,
      );
}

restoring_held : held u5 ≡ held (round_at u4)
unfolding reconcile handle_restoring restored_pod ◌==◌ lookup insert
restoring_held = refl

runs : Running versioned held (pod "web") (object u5) u5
unfolding ◌==◌
runs = record {
  restored = pod "web-restored";
  restored_read = refl;
  runs = refl;
  source_read = refl;
  s₁ = record u5 { cluster = record (u5.cluster) { pods = pod "web-restored" ∷ [] } };
  deleted = inl refl;
  keeps = refl;
}

six : MigrationRounds versioned held (pod "web") the_key u0 6 (round_at u5)
six =
    round
      (round
        (round
          (round
            (round
              (round begun u0 refl
                (of_stored (λ m. Startable versioned held (pod "web") m u0) (object u0) startable))
              u1 requested_held
              (of_stored (λ m. Checkpointed versioned held (pod "web") m u1) (object u1)
                checkpoint_done))
            u2 checkpointing_held (λ m e. tt))
          u3 checkpointed_held
          (of_stored (λ m. Convertible versioned held (pod "web") m u3) (object u3) convertible))
        u4 preparing_held
        (of_stored (λ m. Restorable versioned held (pod "web") m u4) (object u4) restorable))
      u5 restoring_held (of_stored (λ m. Running versioned held (pod "web") m u5) (object u5) runs)

Rounds-Reached_example :
    Stored held (λ (m : PodMigration). Reached (pod "web") completed m.status) (round_at u5)
unfolding lookup
Rounds-Reached_example =
    Rounds-Reached versioned-WorkingServer (pod "web") (object u0) u0 (round_at u5) 6 refl
      (refl, refl, (refl, refl)) six
