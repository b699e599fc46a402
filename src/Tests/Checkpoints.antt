-- ===== src/Tests/Checkpoints.antt =====
-- The four rounds of the PodCheckpoint `shop/move`, on a server that holds one PodCheckpoint.
use live_pod_migration.Base.{String, ◌≡◌, refl, ap, inr, Option, none, [], ◌∷◌, ◌==◌}
use live_pod_migration.Base.Maps.{lookup}
use live_pod_migration.Effect.{ok, not_found}
use live_pod_migration.Api.Lpm.{
  MigrationPhase, PodMigration, PodCheckpoint, PodCheckpointContent, ContainerCheckpoint, pending,
  running, succeeded,
}
use live_pod_migration.World.{World}
use live_pod_migration.World.Working.{Stored, of_stored, begun, round}
use live_pod_migration.Reconcile.{key}
use live_pod_migration.PodCheckpoint.Verdict.{tally}
use live_pod_migration.PodCheckpoint.Progress.{
  WorkingServer, Reached, Startable, ChildrenDone, Publishable, Bindable, Completable,
  CheckpointRounds, requested, completed,
}
use live_pod_migration.PodCheckpoint.Progress.Steps.{CheckpointRounds-Reached}
use live_pod_migration.PodCheckpoint.{defaulted, new_child, new_content, reconcile}
use live_pod_migration.Migration.Progress.{
  WorkingServer as MigrationServer, Reached as MigrationReached, checkpointed as after_checkpoint,
}
use live_pod_migration.Migration.Progress.Handover.{CheckpointRounds-Handover}
use live_pod_migration.Migration.{reconcile as reconcile_migration}
use live_pod_migration.Tests.Cluster.{Cluster, memory, first, held_in, first_held}
use live_pod_migration.Tests.Objects.{
  migration, pod, pod_checkpoint, pod_content, child, quiet, checkpointed,
}

abbrev held : Cluster → Option PodCheckpoint
held s = held_in s.pod_checkpoints

abbrev one_checkpoint : World Cluster
one_checkpoint = record memory {
  get_pod_checkpoint = λ k s. (first s.pod_checkpoints, s);
  update_pod_checkpoint = λ c s. (ok c, record s { pod_checkpoints = c ∷ [] });
  get_migration = λ k s. (first s.migrations, s);
  update_migration = λ m s. (ok m, record s { migrations = m ∷ [] });
}

one_checkpoint-WorkingServer : WorkingServer one_checkpoint (key "shop" "move") held
one_checkpoint-WorkingServer = record {
  works = record {
    read = λ c s e. ap (λ r. (r, s)) (first_held s.pod_checkpoints c e);
    write = λ c old s e same. (c, record s { pod_checkpoints = c ∷ [] }, refl, refl, refl);
  };
}

abbrev held_migration : Cluster → Option PodMigration
held_migration s = held_in s.migrations

one_checkpoint-works : MigrationServer one_checkpoint (key "shop" "move") held_migration
one_checkpoint-works = record {
  works = record {
    read = λ m s e. ap (λ r. (r, s)) (first_held s.migrations m e);
    write = λ m old s e same. (m, record s { migrations = m ∷ [] }, refl, refl, refl);
  };
}

-- the states in which the rounds begin, with a migration that waits
abbrev waiting : PodMigration
waiting = migration MigrationPhase.checkpointing "" none

abbrev v0 : Cluster
v0 = record quiet { migrations = waiting ∷ []; pod_checkpoints = pod_checkpoint pending "" ∷ [] }

abbrev working_on : String → PodCheckpoint
working_on bound = record (pod_checkpoint running bound) {
  status = record ((pod_checkpoint running bound).status) { message = "checkpointing containers" };
}

abbrev v1 : Cluster
v1 = record checkpointed {
  migrations = waiting ∷ [];
  pod_checkpoints = working_on "" ∷ [];
  pod_contents = [];
}

abbrev v2 : Cluster
v2 = record checkpointed { migrations = waiting ∷ []; pod_checkpoints = working_on "" ∷ [] }

abbrev v3 : Cluster
v3 = record checkpointed { migrations = waiting ∷ []; pod_checkpoints = working_on "move" ∷ [] }

abbrev round_at : Cluster → Cluster
round_at s = (reconcile one_checkpoint (key "shop" "move") s).1

abbrev child_of : String → ContainerCheckpoint
child_of container =
    new_child one_checkpoint (defaulted (pod_checkpoint pending "")) "web" container

startable : Startable one_checkpoint held (pod_checkpoint pending "") v0
unfolding ◌==◌
startable = record {
  pod_name = "web";
  named = refl;
  pod = pod "web";
  pod_read = refl;
  runs = refl;
  ensured = inr (
    record { reason = not_found; text = "move-app not found" },
    child_of "app",
    record v0 { container_checkpoints = child_of "app" ∷ [] },
    refl,
    refl,
    refl,
    refl,
    inr (
      record { reason = not_found; text = "move-log not found" },
      child_of "log",
      record v0 { container_checkpoints = child_of "log" ∷ child_of "app" ∷ [] },
      refl,
      refl,
      refl,
      refl,
      tt,
    ),
  );
}

requested_held : held v1 ≡ held (round_at v0)
unfolding reconcile ◌==◌
requested_held = refl

children :
    (bound : String) (s : Cluster)
    → s.container_checkpoints ≡ v1.container_checkpoints
    → ChildrenDone one_checkpoint held (working_on bound) s
unfolding ◌==◌ lookup
children bound s same = rw same record {
  child = child "app" succeeded "move-app";
  others = child "log" succeeded "move-log" ∷ [];
  list = refl;
  done = ((refl, λ e. cc), ((refl, λ e. cc), tt));
}

abbrev contents : PodCheckpointContent
contents =
    new_content one_checkpoint (defaulted (working_on "")) "web"
      (tally (child "app" succeeded "move-app" ∷ child "log" succeeded "move-log" ∷ [])).contents

publishable : Publishable one_checkpoint held (working_on "") v1
unfolding children ◌==◌
publishable = record {
  children = children "" v1 refl;
  pod_name = "web";
  named = refl;
  error = record { reason = not_found; text = "move not found" };
  missing = refl;
  not_there = refl;
  content = contents;
  s₁ = record v1 { pod_contents = contents ∷ [] };
  created = refl;
  keeps = refl;
}

listed_held : held v2 ≡ held (round_at v1)
unfolding reconcile tally lookup ◌==◌
listed_held = refl

bindable : Bindable one_checkpoint held (working_on "") v2
unfolding ◌==◌
bindable = record {
  children = children "" v2 refl;
  content = pod_content;
  content_read = refl;
  has_name = refl;
}

published_held : held v3 ≡ held (round_at v2)
unfolding reconcile tally lookup ◌==◌
published_held = refl

completable : Completable one_checkpoint held (working_on "move") v3
unfolding ◌==◌
completable = record {
  children = children "move" v3 refl;
  content = pod_content;
  content_read = refl;
  s₁ = v3;
  ready = refl;
  time = 17;
  s₂ = v3;
  clock = refl;
  keeps = refl;
}

four : CheckpointRounds one_checkpoint held (key "shop" "move") requested v0 4 (round_at v3)
four =
    round
      (round
        (round
          (round begun v0 refl (
            of_stored (λ c. Startable one_checkpoint held c v0) (pod_checkpoint pending "")
              startable))
          v1 requested_held
          (of_stored (λ c. Publishable one_checkpoint held c v1) (working_on "") publishable))
        v2 listed_held
        (of_stored (λ c. Bindable one_checkpoint held c v2) (working_on "") bindable))
      v3 published_held
      (of_stored (λ c. Completable one_checkpoint held c v3) (working_on "move") completable)

CheckpointRounds-Reached_example :
    Stored held (λ (c : PodCheckpoint). Reached completed c.status) (round_at v3)
CheckpointRounds-Reached_example =
    CheckpointRounds-Reached one_checkpoint-WorkingServer requested (pod_checkpoint pending "") v0
      (round_at v3) 4 refl (refl, refl) four

CheckpointRounds-Handover_example :
    Stored held_migration
      (λ (m : PodMigration). MigrationReached (pod "web") after_checkpoint m.status)
      (reconcile_migration one_checkpoint (key "shop" "move") (round_at v3)).1
unfolding reconcile tally lookup ◌==◌
CheckpointRounds-Handover_example =
    CheckpointRounds-Handover one_checkpoint-works (pod "web") waiting one_checkpoint-WorkingServer
      (pod_checkpoint pending "") v0 (round_at v3) refl (refl, refl) four refl
      (refl, (record { name = "move" }, refl), (refl, refl))
