-- ===== src/AgentServer/Storage.antt =====
-- copyToSharedStorage: a checkpoint file is copied to the shared mount.
pub mod Handles
use live_pod_migration.Base.{ℕ, String, ◌<>◌}
use live_pod_migration.Effect.{Action, pure, ◌>>=◌, ◌>>◌, finally}
use live_pod_migration.AgentServer.Host.{Files}

module _ {S : Type 0} (f : Files S) where
  -- with both files open
  unfoldable pub write_file : ℕ → ℕ → String → Action S String
  write_file source dest filename = do f.copy dest source; f.sync dest; pure filename

  -- pod UID, container, path; the files are closed by defers
  unfoldable pub copy_to_shared_storage : String → String → String → Action S String
  unfolding write_file
  copy_to_shared_storage uid container local = f.timestamp >>= λ stamp.
      let filename = uid <> "-" <> container <> "-" <> stamp <> ".tar" in
      f.open_file local >>= λ source.
      finally
        (f.create_file (f.join "/mnt/checkpoints" filename) >>= λ dest.
          finally (write_file source dest filename) (f.close_file dest))
        (f.close_file source)
