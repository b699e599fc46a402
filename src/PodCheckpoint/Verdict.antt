-- ===== src/PodCheckpoint/Verdict.antt =====
-- The loop of `handleCheckpointingPhase` that evaluates the children of a PodCheckpoint.
pub mod Laws
use live_pod_migration.Base.{String, Bool, true, false, List, [], ◌∷◌, ◌++◌, ◌==◌, if◌then◌else◌}
use live_pod_migration.Api.Core.{LocalObjectReference}
use live_pod_migration.Api.Lpm.{
  CheckpointPhase, ContainerCheckpoint, unset, pending, running, succeeded, failed, other_phase,
}

-- `allDone`, `allSucceeded`, `containerContentNames`
pub record Tally : Type 0 where
  pub all_done : Bool
  pub all_succeeded : Bool
  pub contents : List LocalObjectReference

-- the `switch` on a child's phase
pub count_child : CheckpointPhase → String → Tally → Tally
count_child succeeded bound t =
    if bound == ""
    then record t { all_done = false }
    else record t { contents = t.contents ++ record { name = bound } ∷ [] }
count_child failed bound t = record t { all_done = true; all_succeeded = false }
count_child unset bound t = record t { all_done = false }
count_child pending bound t = record t { all_done = false }
count_child running bound t = record t { all_done = false }
count_child (other_phase _) bound t = record t { all_done = false }

pub tally_from : Tally → List ContainerCheckpoint → Tally
unfolding count_child
tally_from t [] = t
tally_from t (c ∷ children) =
    tally_from (count_child c.status.phase c.status.bound_content_name t) children

unfoldable pub tally : List ContainerCheckpoint → Tally
unfolding tally_from
tally = tally_from (record { all_done = true; all_succeeded = true; contents = [] })
