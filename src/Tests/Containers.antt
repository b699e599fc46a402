-- ===== src/Tests/Containers.antt =====
-- The two rounds of the ContainerCheckpoint `shop/move-app`, on a server that holds one of them.
use live_pod_migration.Base.{◌≡◌, refl, ap, inr, Option, [], ◌∷◌, ◌==◌}
use live_pod_migration.Effect.{ok, not_found}
use live_pod_migration.Api.Lpm.{ContainerCheckpoint, ContainerCheckpointContent, pending, running}
use live_pod_migration.World.{World}
use live_pod_migration.World.Working.{Stored, of_stored, begun, round}
use live_pod_migration.Reconcile.{key}
use live_pod_migration.AgentClient.{checkpoint_container, internal_endpoint}
use live_pod_migration.ContainerCheckpoint.Progress.{
  WorkingServer, Reached, Startable, Doable, ContainerRounds, finished, ContainerRounds-Reached,
}
use live_pod_migration.ContainerCheckpoint.{
  defaulted, new_content, perform_container_checkpoint, reconcile,
}
use live_pod_migration.Tests.Cluster.{Cluster, memory, first, held_in, first_held}
use live_pod_migration.Tests.Objects.{pod, child, quiet}

abbrev held : Cluster → Option ContainerCheckpoint
held s = held_in s.container_checkpoints

abbrev one_container : World Cluster
one_container = record memory {
  get_container_checkpoint = λ k s. (first s.container_checkpoints, s);
  update_container_checkpoint = λ c s. (ok c, record s { container_checkpoints = c ∷ [] });
}

one_container-WorkingServer : WorkingServer one_container (key "shop" "move-app") held
one_container-WorkingServer = record {
  works = record {
    read = λ c s e. ap (λ r. (r, s)) (first_held s.container_checkpoints c e);
    write = λ c old s e same. (c, record s { container_checkpoints = c ∷ [] }, refl, refl, refl);
  };
}

abbrev accepted_child : ContainerCheckpoint
accepted_child = record (child "app" running "") {
  status = record ((child "app" running "").status) { message = "checkpointing container" };
}

-- the states in which the rounds begin
abbrev c0 : Cluster
c0 = record quiet { container_checkpoints = child "app" pending "" ∷ [] }

abbrev c1 : Cluster
c1 = record quiet { container_checkpoints = accepted_child ∷ [] }

abbrev round_at : Cluster → Cluster
round_at s = (reconcile one_container (key "shop" "move-app") s).1

startable : Startable one_container held (child "app" pending "") c0
unfolding ◌==◌
startable = record { pod = pod "web"; pod_read = refl; has = refl; runs = refl }

requested_held : held c1 ≡ held (round_at c0)
unfolding reconcile ◌==◌
requested_held = refl

abbrev content : ContainerCheckpointContent
content = new_content one_container (defaulted accepted_child) "shared://web-app.tar"

doable : Doable one_container held accepted_child c1
unfolding perform_container_checkpoint checkpoint_container internal_endpoint ◌==◌
doable = record {
  uri = "shared://web-app.tar";
  s₁ = c1;
  made = refl;
  content = content;
  has_name = refl;
  s₂ = record c1 { container_contents = content ∷ [] };
  published =
      inr (record { reason = not_found; text = "move-app not found" }, c1, refl, refl, refl);
  time = 17;
  s₃ = record c1 { container_contents = content ∷ [] };
  clock = refl;
  keeps = refl;
}

two : ContainerRounds one_container held (key "shop" "move-app") c0 2 (round_at c1)
two =
    round
      (round begun c0 refl
        (of_stored (λ c. Startable one_container held c c0) (child "app" pending "") startable))
      c1 requested_held (of_stored (λ c. Doable one_container held c c1) accepted_child doable)

ContainerRounds-Reached_example :
    Stored held (λ (c : ContainerCheckpoint). Reached finished c.status) (round_at c1)
ContainerRounds-Reached_example =
    ContainerRounds-Reached one_container-WorkingServer (child "app" pending "") c0 (round_at c1) 2
      refl (refl, refl) two
