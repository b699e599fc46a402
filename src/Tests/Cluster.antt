-- ===== src/Tests/Cluster.antt =====
-- A cluster held in memory: one way to give the calls that the reconcilers make.
use live_pod_migration.Base.{
  String, ◌<>◌, Bool, true, Option, none, some, ◌≡◌, List, [], ◌∷◌, ◌==◌, ◌&&◌, if◌then◌else◌,
}
use live_pod_migration.Base.Maps.{lookup}
use live_pod_migration.Effect.{Action, Outcome, ok, err, pure, not_found, already_exists}
use live_pod_migration.Api.Core.{ObjectKey, ObjectMeta, Pod, Node}
use live_pod_migration.Api.Lpm.{
  PodMigration, PodCheckpoint, PodCheckpointContent, ContainerCheckpoint,
  ContainerCheckpointContent,
}
use live_pod_migration.World.{World}
use live_pod_migration.Reconcile.{key}

pub record Cluster : Type 0 where
  pub pods : List Pod
  pub nodes : List Node
  pub migrations : List PodMigration
  pub pod_checkpoints : List PodCheckpoint
  pub pod_contents : List PodCheckpointContent
  pub container_checkpoints : List ContainerCheckpoint
  pub container_contents : List ContainerCheckpointContent

abbrev is_at : ObjectKey → ObjectMeta → Bool
is_at k meta = meta.name == k.name && meta.namespace == k.namespace

module _ {A : Type 0} (meta : A → ObjectMeta) where
  abbrev find : ObjectKey → List A → Outcome A
  find k [] = err (record { reason = not_found; text = k.name <> " not found" })
  find k (a ∷ xs) = if is_at k (meta a) then ok a else find k xs

  abbrev without : ObjectKey → List A → List A
  without k [] = []
  without k (a ∷ xs) = let rest = without k xs in if is_at k (meta a) then rest else a ∷ rest

  abbrev meta_key : A → ObjectKey
  meta_key a = key (meta a).namespace (meta a).name

  abbrev get : (Cluster → List A) → ObjectKey → Action Cluster A
  get objects k s = (find k (objects s), s)

  abbrev put : (Cluster → List A) → (List A → Cluster → Cluster) → A → Action Cluster A
  put objects with_objects a s = (ok a, with_objects (a ∷ without (meta_key a) (objects s)) s)

  -- the answer to a creation, by that to a read
  abbrev create_after : (List A → Cluster → Cluster) → List A → A → Outcome A → Action Cluster A
  create_after with_objects xs a (ok _) s =
      (err (record { reason = already_exists; text = (meta a).name <> " already exists" }), s)
  create_after with_objects xs a _ s = (ok a, with_objects (a ∷ xs) s)

  abbrev create : (Cluster → List A) → (List A → Cluster → Cluster) → A → Action Cluster A
  create objects with_objects a s =
      create_after with_objects (objects s) a (find (meta_key a) (objects s)) s

abbrev labelled : String → List ContainerCheckpoint → List ContainerCheckpoint
labelled name [] = []
labelled name (c ∷ cs) =
    let rest = labelled name cs in
    elim c.meta.labels [
      | none ↦ rest
      | some labels ↦ elim (lookup "podcheckpoint" labels) [
        | none ↦ rest
        | some v ↦ if v == name then c ∷ rest else rest
      ]
    ]

abbrev pub memory : World Cluster
memory = record {
  get_pod = get (λ (x : Pod). x.meta) (λ s. s.pods);
  create_pod = create (λ (x : Pod). x.meta) (λ s. s.pods) (λ xs s. record s { pods = xs });
  delete_pod = λ p s. (
    ok tt,
    record s { pods = without (λ (x : Pod). x.meta) (meta_key (λ (x : Pod). x.meta) p) s.pods },
  );
  get_node = get (λ (x : Node). x.meta) (λ s. s.nodes);
  get_migration = get (λ (x : PodMigration). x.meta) (λ s. s.migrations);
  update_migration =
      put (λ (x : PodMigration). x.meta) (λ s. s.migrations) (λ xs s. record s { migrations = xs });
  get_pod_checkpoint = get (λ (x : PodCheckpoint). x.meta) (λ s. s.pod_checkpoints);
  create_pod_checkpoint =
      create (λ (x : PodCheckpoint). x.meta) (λ s. s.pod_checkpoints)
        (λ xs s. record s { pod_checkpoints = xs });
  update_pod_checkpoint =
      put (λ (x : PodCheckpoint). x.meta) (λ s. s.pod_checkpoints)
        (λ xs s. record s { pod_checkpoints = xs });
  get_pod_content = get (λ (x : PodCheckpointContent). x.meta) (λ s. s.pod_contents);
  create_pod_content =
      create (λ (x : PodCheckpointContent). x.meta) (λ s. s.pod_contents)
        (λ xs s. record s { pod_contents = xs });
  update_pod_content =
      put (λ (x : PodCheckpointContent). x.meta) (λ s. s.pod_contents)
        (λ xs s. record s { pod_contents = xs });
  get_container_checkpoint =
      get (λ (x : ContainerCheckpoint). x.meta) (λ s. s.container_checkpoints);
  create_container_checkpoint =
      create (λ (x : ContainerCheckpoint). x.meta) (λ s. s.container_checkpoints)
        (λ xs s. record s { container_checkpoints = xs });
  update_container_checkpoint =
      put (λ (x : ContainerCheckpoint). x.meta) (λ s. s.container_checkpoints)
        (λ xs s. record s { container_checkpoints = xs });
  list_container_checkpoints = λ namespace name s. (ok (labelled name s.container_checkpoints), s);
  get_container_content =
      get (λ (x : ContainerCheckpointContent). x.meta) (λ s. s.container_contents);
  create_container_content =
      create (λ (x : ContainerCheckpointContent). x.meta) (λ s. s.container_contents)
        (λ xs s. record s { container_contents = xs });
  controller_ref =
      λ meta kind. record { kind = kind; name = meta.name; uid = meta.uid; controller = true };
  now = pure 17;
  dial = λ endpoint. pure 1;
  hang_up = λ conn. pure tt;
  checkpoint_rpc = λ conn req. pure (record {
    success = true;
    artifact_uri = "shared://" <> req.pod_name <> "-" <> req.container_name <> ".tar";
    message = "checkpoint successful";
    error = "";
  });
  convert_rpc = λ conn req. pure (record {
    success = true;
    image_reference = req.image_name;
    message = "conversion successful";
    error = "";
  });
}

-- a server that holds one object of a type, first in its list
abbrev pub first : {A : Type 0} → List A → Outcome A
first [] = err (record { reason = not_found; text = "not found" })
first (a ∷ rest) = ok a

abbrev pub held_in : {A : Type 0} → List A → Option A
held_in [] = none
held_in (a ∷ rest) = some a

pub first_held : {A : Type 0} (xs : List A) (a : A) → held_in xs ≡ some a → first xs ≡ ok a
first_held [] a e = cc
first_held (x ∷ xs) a e = cc
