-- ===== src/Manager/Scheme.antt =====
-- api/v1: the group, its version and the kinds that each file registers with the `SchemeBuilder`.
use live_pod_migration.Base.{String, List, [], ◌∷◌, ◌++◌}

abbrev pub group : String
group = "lpm.my.domain"

abbrev pub version : String
version = "v1"

abbrev container_checkpoint_kinds : List String
container_checkpoint_kinds = "ContainerCheckpoint" ∷ "ContainerCheckpointList" ∷ []

abbrev container_content_kinds : List String
container_content_kinds = "ContainerCheckpointContent" ∷ "ContainerCheckpointContentList" ∷ []

abbrev pod_checkpoint_kinds : List String
pod_checkpoint_kinds = "PodCheckpoint" ∷ "PodCheckpointList" ∷ []

abbrev pod_content_kinds : List String
pod_content_kinds = "PodCheckpointContent" ∷ "PodCheckpointContentList" ∷ []

abbrev migration_kinds : List String
migration_kinds = "PodMigration" ∷ "PodMigrationList" ∷ []

-- Go runs the files' `init` functions in the order of their names
abbrev pub registered_kinds : List String
registered_kinds =
    container_checkpoint_kinds ++ container_content_kinds ++ pod_checkpoint_kinds
    ++ pod_content_kinds ++ migration_kinds
