-- ===== src/World/Calls.antt =====
-- The calls that a reconcile of a migration makes, but for its status writes and its deletion.
use live_pod_migration.Base.{ℕ, String}
use live_pod_migration.Effect.Keeps.{Keeps}
use live_pod_migration.Api.Core.{ObjectKey, Pod}
use live_pod_migration.Api.Lpm.{PodCheckpoint}
use live_pod_migration.Api.Rpc.{ConvertRequest}
use live_pod_migration.World.{World}

-- each of them keeps `P`
pub record Calls {S : Type 0} (w : World S) (P : S → Type 0) : Type 0 where
  pub get_pod : (k : ObjectKey) → Keeps P (w.get_pod k)
  pub create_pod : (p : Pod) → Keeps P (w.create_pod p)
  pub get_node : (k : ObjectKey) → Keeps P (w.get_node k)
  pub get_pod_checkpoint : (k : ObjectKey) → Keeps P (w.get_pod_checkpoint k)
  pub create_pod_checkpoint : (p : PodCheckpoint) → Keeps P (w.create_pod_checkpoint p)
  pub get_pod_content : (k : ObjectKey) → Keeps P (w.get_pod_content k)
  pub get_container_content : (k : ObjectKey) → Keeps P (w.get_container_content k)
  pub dial : (endpoint : String) → Keeps P (w.dial endpoint)
  pub hang_up : (conn : ℕ) → Keeps P (w.hang_up conn)
  pub convert_rpc : (conn : ℕ) (req : ConvertRequest) → Keeps P (w.convert_rpc conn req)
