-- ===== src/Tests/Commands.antt =====
-- Conversions, copies and creations: a commit that fails, a mount that is full, and the children of a pod.
use live_pod_migration.Base.{◌==◌, false, Option, none, some, [], ◌∷◌, if◌then◌else◌}
use live_pod_migration.Effect.{Error, new_error, pure, raise}
use live_pod_migration.Effect.Logged.{unlogged}
use live_pod_migration.World.Trace.{traced, untraced}
use live_pod_migration.Api.Lpm.{pending}
use live_pod_migration.AgentServer.Host.{Buildah}
use live_pod_migration.AgentServer.Images.{convert_checkpoint_to_oci}
use live_pod_migration.AgentServer.Images.Cleanup.{
  Command, Cleaned, recorded, from_scratch, convert_checkpoint_to_oci-Cleaned,
}
use live_pod_migration.AgentServer.Host.{Files}
use live_pod_migration.AgentServer.Storage.{copy_to_shared_storage}
use live_pod_migration.AgentServer.Storage.Handles
use live_pod_migration.AgentServer.Storage.Handles.{Placed, copy_to_shared_storage-Handled}
use live_pod_migration.Tests.Agent.{ready}
use live_pod_migration.PodCheckpoint.{ensure_children}
use live_pod_migration.PodCheckpoint.Children.{Counted, ensure_children-Counted}
use live_pod_migration.Tests.Cluster.{Cluster, memory}
use live_pod_migration.Tests.Objects.{app_and_log, child, pod_checkpoint, quiet}

abbrev failure_of : Command → Option Error
failure_of [] = none
failure_of (name ∷ args) = if name == "commit" then some (new_error "exit status 125") else none

abbrev no_commit : Buildah (Unit {0})
no_commit = record {
  command = λ args. pure ("working-container\n", failure_of args);
  trim_space = λ text. "working-container";
}

convert_checkpoint_to_oci-Cleaned_example :
    Cleaned no_commit "/mnt/checkpoints/web.tar" "app" "localhost/checkpoint:web"
      (no_commit.command from_scratch tt).0
      (convert_checkpoint_to_oci
        (recorded no_commit)
        "/mnt/checkpoints/web.tar"
        "app"
        "localhost/checkpoint:web"
        (unlogged tt)).0
      (convert_checkpoint_to_oci
        (recorded no_commit)
        "/mnt/checkpoints/web.tar"
        "app"
        "localhost/checkpoint:web"
        (unlogged tt)).1.log
convert_checkpoint_to_oci-Cleaned_example =
    convert_checkpoint_to_oci-Cleaned no_commit "/mnt/checkpoints/web.tar" "app"
      "localhost/checkpoint:web" tt

-- a mount on which nothing can be synced
abbrev full : Files (Unit {0})
full = record (ready.files) { sync = λ file. raise (new_error "no space left on device") }

copy_to_shared_storage-Handled_example :
    Placed full "u-1" "app" "/var/lib/kubelet/checkpoints/web.tar"
      (full.timestamp tt).0
      (copy_to_shared_storage
        (Handles.recorded full)
        "u-1"
        "app"
        "/var/lib/kubelet/checkpoints/web.tar"
        (unlogged tt)).0
      (copy_to_shared_storage
        (Handles.recorded full)
        "u-1"
        "app"
        "/var/lib/kubelet/checkpoints/web.tar"
        (unlogged tt)).1.log
copy_to_shared_storage-Handled_example =
    copy_to_shared_storage-Handled full "u-1" "app" "/var/lib/kubelet/checkpoints/web.tar" tt

-- the child of `app` is there, that of `log` is not
abbrev half : Cluster
half = record quiet { container_checkpoints = child "app" pending "" ∷ [] }

ensure_children-Counted_example :
    Counted 0 false 2
      (ensure_children
        (traced memory)
        (pod_checkpoint pending "")
        false
        app_and_log
        (untraced half)).0
      (ensure_children
        (traced memory)
        (pod_checkpoint pending "")
        false
        app_and_log
        (untraced half)).1.log
ensure_children-Counted_example =
    ensure_children-Counted memory (pod_checkpoint pending "") false app_and_log (untraced half)
