-- ===== src/Tests/Paths.antt =====
-- The artifacts of a pod with a sidecar whose name contains that of the container beside it.
use mathlib.Core.List.{filter_map}
use mathlib.Core.Option.{Option-elim}
use live_pod_migration.Base.{String, ◌≡◌, refl, ◌==◌, Option, none, some, [], ◌∷◌, if◌then◌else◌}
use live_pod_migration.Base.Text.{contains}
use live_pod_migration.Effect.{ok, new_error}
use live_pod_migration.Api.Lpm.{ContainerCheckpointContent}
use live_pod_migration.World.{World}
use live_pod_migration.Migration.Images.{path_in, get_checkpoint_path_for_container}
use live_pod_migration.Migration.Images.Paths.{
  answer, references, path_in-first, get_checkpoint_path_for_container-own,
}
use live_pod_migration.Tests.Cluster.{Cluster, memory}
use live_pod_migration.Tests.Objects.{content, pod_content, quiet}

abbrev kept : String → Option ContainerCheckpointContent
kept name =
    if name == "move-app"
    then some (content "shop" "app")
    else if name == "move-app-sidecar"
    then some (content "shop" "app-sidecar")
    else if name == "move-log"
    then some (content "shop" "log")
    else none

abbrev reader : World Cluster
reader = record memory {
  get_container_content = λ k s. (answer (new_error "not found") (kept k.name), s);
}

-- `app` gets the artifact of the sidecar that is listed before it
path_in-first_example :
    path_in reader "shop" "app" (references "move" ("app-sidecar" ∷ "app" ∷ [])) quiet
    ≡ (ok "shared://web-app-sidecar.tar", quiet)
unfolding filter_map Option-elim ◌==◌ contains
path_in-first_example =
    path_in-first reader "shop" (new_error "not found") kept "app"
      (references "move" ("app-sidecar" ∷ "app" ∷ [])) quiet (λ name s. refl)

get_checkpoint_path_for_container-own_example :
    get_checkpoint_path_for_container reader pod_content "log" quiet
    ≡ (ok "shared://web-log.tar", quiet)
unfolding ◌==◌ contains
get_checkpoint_path_for_container-own_example =
    get_checkpoint_path_for_container-own reader (new_error "not found") kept pod_content "move"
      "log" (content "shop" "log") ("app" ∷ []) [] quiet (λ name s. refl) refl refl refl (refl, tt)
