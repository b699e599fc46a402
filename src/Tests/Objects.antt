-- ===== src/Tests/Objects.antt =====
-- The objects of the concrete runs: the pod `web` of two containers, which moves to `node-b`.
use live_pod_migration.Base.{String, true, false, Option, none, some, List, [], ◌∷◌, ◌<>◌}
use live_pod_migration.Base.Maps.{StringMap}
use live_pod_migration.Api.Core.{Container, Pod, PodPhase, Node, pull_always, internal_ip, hostname}
use live_pod_migration.Api.Lpm.{
  MigrationPhase, CheckpointPhase, PodMigration, PodCheckpoint, PodCheckpointContent,
  ContainerCheckpoint, ContainerCheckpointContent, running, succeeded,
}
use live_pod_migration.Reconcile.{new_meta}
use live_pod_migration.Tests.Cluster.{Cluster}

abbrev pub container : String → Container
container name = record {
  name = name;
  image = name <> ":1";
  image_pull_policy = pull_always;
  rest = "";
}

abbrev pub app_and_log : List Container
app_and_log = container "app" ∷ container "log" ∷ []

abbrev pub pod : String → Pod
pod name = record {
  meta = record (new_meta "shop" name) { uid = "u-1" };
  spec = record { containers = app_and_log; node_name = "node-a"; rest = "" };
  status = record { phase = PodPhase.running; rest = "" };
}

abbrev pub node : String → String → Node
node name ip = record {
  meta = new_meta "" name;
  addresses =
      record { type = hostname; address = name } ∷ record { type = internal_ip; address = ip } ∷ [];
}

abbrev pub migration : MigrationPhase → String → Option StringMap → PodMigration
migration phase restored images = record {
  meta = new_meta "shop" "move";
  spec = record { pod_name = "web"; target_node = "node-b" };
  status = record {
    phase = phase;
    message = "";
    pod_checkpoint_ref = some (record { name = "move" });
    restored_pod_name = restored;
    checkpoint_images = images;
  };
}

abbrev pub both_images : StringMap
both_images = ("app", "localhost/checkpoint:web-app") ∷ ("log", "localhost/checkpoint:web-log") ∷ []

abbrev pub pod_checkpoint : CheckpointPhase → String → PodCheckpoint
pod_checkpoint phase bound = record {
  meta = new_meta "shop" "move";
  spec = record { pod_name = some "web" };
  status = record {
    phase = phase;
    message = "";
    ready = false;
    bound_content_name = bound;
    creation_time = none;
    completion_time = none;
  };
}

abbrev pub pod_content : PodCheckpointContent
pod_content = record {
  meta = new_meta "shop" "move";
  spec = record {
    pod_checkpoint_ref = record { namespace = "shop"; name = "move" };
    pod_namespace = "shop";
    pod_name = "web";
    container_contents = record { name = "move-app" } ∷ record { name = "move-log" } ∷ [];
  };
  status = record { ready = true; message = ""; creation_time = none };
}

abbrev pub child : String → CheckpointPhase → String → ContainerCheckpoint
child container phase bound = record {
  meta = record (new_meta "shop" ("move-" <> container)) {
    labels = some (("podcheckpoint", "move") ∷ []);
  };
  spec = record { pod_name = "web"; container_name = container };
  status = record {
    phase = phase;
    message = "";
    bound_content_name = bound;
    ready = false;
    completion_time = none;
  };
}

abbrev pub content : String → String → ContainerCheckpointContent
content namespace container = record {
  meta = new_meta namespace ("move-" <> container);
  spec = record {
    container_checkpoint_ref = record { namespace = "shop"; name = "move-" <> container };
    pod_namespace = "shop";
    pod_name = "web";
    container_name = container;
    artifact_uri = "shared://web-" <> container <> ".tar";
  };
  status = record { ready = false; message = ""; creation_time = none };
}

-- the cluster before any migration
abbrev pub quiet : Cluster
quiet = record {
  pods = pod "web" ∷ [];
  nodes = node "node-a" "10.0.0.1" ∷ node "node-b" "10.0.0.2" ∷ [];
  migrations = [];
  pod_checkpoints = [];
  pod_contents = [];
  container_checkpoints = [];
  container_contents = [];
}

-- the restored pod runs, the source is still there
abbrev pub restored : Cluster
restored = record quiet {
  pods = pod "web" ∷ pod "web-restored" ∷ [];
  migrations = migration MigrationPhase.restoring "web-restored" (some both_images) ∷ [];
}

-- both children have succeeded and the content is bound
abbrev pub checkpointed : Cluster
checkpointed = record quiet {
  pod_checkpoints = pod_checkpoint running "move" ∷ [];
  pod_contents = pod_content ∷ [];
  container_checkpoints = child "app" succeeded "move-app" ∷ child "log" succeeded "move-log" ∷ [];
  container_contents = content "shop" "app" ∷ content "shop" "log" ∷ [];
}
