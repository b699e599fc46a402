-- ===== src/Tests/Served.antt =====
-- The cluster held in memory, with the agents' servers behind its calls.
use live_pod_migration.Base.{◌<>◌, ◌≡◌}
use live_pod_migration.Effect.{ok, Action}
use live_pod_migration.World.{World}
use live_pod_migration.AgentServer
use live_pod_migration.AgentClient.{convert_checkpoint_to_image}
use live_pod_migration.Migration.Images.{convert_to_oci_image}
use live_pod_migration.Agent.Images.{convert_to_oci_image-fallback}
use live_pod_migration.Tests.Cluster.{Cluster, memory}
use live_pod_migration.Tests.Objects.{quiet}
use live_pod_migration.Tests.Agent.{ready}

abbrev on_agent : {A : Type 0} → Action (Unit {0}) A → Action Cluster A
on_agent m s = ((m tt).0, s)

abbrev served : World Cluster
served = record memory {
  checkpoint_rpc = λ conn req. on_agent (AgentServer.checkpoint ready "node-a" req);
  convert_rpc = λ conn req. on_agent (AgentServer.convert_checkpoint_to_image ready req);
}

convert_to_oci_image-fallback_example :
    convert_to_oci_image memory
      ("file://" <> "/var/lib/kubelet/checkpoints/web.tar")
      "app"
      "node-b"
      quiet
    ≡ (ok ("file://" <> "/var/lib/kubelet/checkpoints/web.tar"), quiet)
convert_to_oci_image-fallback_example =
    convert_to_oci_image-fallback memory "/var/lib/kubelet/checkpoints/web.tar" "app" "node-b" quiet
