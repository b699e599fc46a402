-- ===== src/Migration/Restore/Copy.antt =====
-- The restored pod that `createRestoredPod` builds.
use Prim.Native.String.{len}
use text.Mathlib.TextPositions.{len-append}
use live_pod_migration.Base.{
  String, ◌<>◌, ◌≡◌, refl, ap, ◌≢◌, ◌∙◌, sym, Option, none, some, List, [], ◌∷◌, arith, ◌==◌,
  ==_iff, ==_refl, if◌then◌else◌,
}
use live_pod_migration.Base.Maps.{StringMap, lookup, lookup-insert}
use live_pod_migration.Effect.{Outcome, ok, err, panic}
use live_pod_migration.Api.Core.{Container, Pod, pull_never}
use live_pod_migration.Api.Lpm.{PodMigration}
use live_pod_migration.World.{World}
use live_pod_migration.Migration.Images.{entries}
use live_pod_migration.Migration.Images.Loop.{HasImages}
use live_pod_migration.Migration.Restore.{
  swap_image, apply_images, relocated, with_containers, restored_pod,
}

-- the containers, one by one, with the images of the map, never pulled, and otherwise as they were
abbrev pub IsSwapped : StringMap → List Container → List Container → Type 0
IsSwapped images [] [] = Unit
IsSwapped images (c ∷ cs) (d ∷ ds) =
    (lookup c.name images ≡ some d.image)
    × (d ≡ record c { image = d.image; image_pull_policy = pull_never })
    × IsSwapped images cs ds
IsSwapped images _ _ = ⊥

-- `q` is the copy of `pod` for the migration `m`.
pub record IsCopy {S : Type 0} (w : World S) (m : PodMigration) (images : StringMap) (pod q : Pod)
    : Type 0 where
  pub new_name : q.meta.name ≡ pod.meta.name <> "-restored"
  pub other_name : q.meta.name ≢ pod.meta.name
  pub same_namespace : q.meta.namespace ≡ pod.meta.namespace
  pub same_labels : q.meta.labels ≡ pod.meta.labels
  pub no_identity : (q.meta.uid ≡ "") × (q.meta.resource_version ≡ "")
  pub owned : q.meta.owner_references ≡ w.controller_ref m.meta "PodMigration" ∷ []
  pub source : lookup "migration.source-pod" (entries q.meta.annotations) ≡ some pod.meta.name
  pub target : lookup "migration.target-node" (entries q.meta.annotations) ≡ some m.spec.target_node
  pub other_annotations :
      (k : String)
      → k ≢ "migration.source-pod"
      → k ≢ "migration.target-node"
      → lookup k (entries q.meta.annotations) ≡ lookup k (entries pod.meta.annotations)
  pub on_target : q.spec.node_name ≡ m.spec.target_node
  pub same_rest : (q.spec.rest ≡ pod.spec.rest) × (q.status ≡ pod.status)
  pub swapped : IsSwapped images pod.spec.containers q.spec.containers

append-ne_self : (s : String) → (s <> "-restored") ≢ s
append-ne_self s e = absurd (omega (arith, sym (len-append s "-restored") ∙ ap len e))

swap_image-IsSwapped :
    (images : StringMap) (c : Container) (cs : List Container) (o : Option String)
    (r : Outcome (List Container)) (ds : List Container)
    → lookup c.name images ≡ o
    → ((es : List Container) → r ≡ ok es → IsSwapped images cs es)
    → swap_image c o r ≡ ok ds
    → IsSwapped images (c ∷ cs) ds
unfolding swap_image
swap_image-IsSwapped images c cs (some i) (ok es) (d ∷ ds) p rest e =
    let head : d ≡ record c { image = i; image_pull_policy = pull_never } = cc in
    let tail : ds ≡ es = cc in rw (head, tail) (p, refl, rest es refl)
swap_image-IsSwapped images c cs (some i) (ok es) [] p rest e = cc
swap_image-IsSwapped images c cs (some i) (err x) ds p rest e = cc
swap_image-IsSwapped images c cs (some i) panic ds p rest e = cc
swap_image-IsSwapped images c cs none r ds p rest e = cc

apply_images-IsSwapped :
    (images : StringMap) (cs ds : List Container)
    → apply_images images cs ≡ ok ds
    → IsSwapped images cs ds
unfolding apply_images
apply_images-IsSwapped images [] [] e = tt
apply_images-IsSwapped images [] (d ∷ ds) e = cc
apply_images-IsSwapped images (c ∷ cs) ds e =
    swap_image-IsSwapped images c cs (lookup c.name images) (apply_images images cs) ds refl
      (apply_images-IsSwapped images cs) e

pub apply_images_total :
    (images : StringMap) (cs : List Container)
    → HasImages images cs
    → (ds : List Container) × (apply_images images cs ≡ ok ds)
unfolding apply_images
apply_images_total images [] h = ([], refl)
apply_images_total images (c ∷ cs) ((v, e), h) =
    let (ds, p) = apply_images_total images cs h in
    (record c { image = v; image_pull_policy = pull_never } ∷ ds, rw (e, p))

module _ {S : Type 0} (w : World S) (m : PodMigration) (images : StringMap) (pod : Pod) where
  annotations_of_copy :
      (k : String)
      → lookup k (entries (relocated w m pod).meta.annotations) ≡ (
          if "migration.target-node" == k
          then some m.spec.target_node
          else (if "migration.source-pod" == k
              then some pod.meta.name
              else lookup k (entries pod.meta.annotations)))
  unfolding relocated
  annotations_of_copy k = rw lookup-insert (rw lookup-insert)

  with_containers-IsCopy :
      (r : Outcome (List Container)) (q : Pod)
      → apply_images images pod.spec.containers ≡ r
      → with_containers (relocated w m pod) r ≡ ok q
      → IsCopy w m images pod q
  unfolding with_containers relocated
  with_containers-IsCopy (ok cs) q p e =
      let same : q ≡ record (relocated w m pod) {
        spec = record ((relocated w m pod).spec) { containers = cs };
      } =
        cc in
      rw same (record {
        new_name = refl;
        other_name = append-ne_self pod.meta.name;
        same_namespace = refl;
        same_labels = refl;
        no_identity = (refl, refl);
        owned = refl;
        source = rw annotations_of_copy (unfold ◌==◌ in refl);
        target = rw annotations_of_copy (rw ==_refl);
        other_annotations = λ k a b.
            rw annotations_of_copy
              (ground (arith, ==_iff "migration.target-node" k, ==_iff "migration.source-pod" k));
        on_target = refl;
        same_rest = (refl, refl);
        swapped = apply_images-IsSwapped images pod.spec.containers cs p;
      })
  with_containers-IsCopy (err x) q p e = cc
  with_containers-IsCopy panic q p e = cc

-- A pod that `createRestoredPod` builds is the copy of the original: a new name, no UID and no
-- resource version, owned by the migration, on the target node, annotated with its source and its
-- target, each container with its image of the migration's map and never pulled, and the rest as it
-- was. Its name is not the original's.
pub restored_pod-IsCopy :
    {S : Type 0} (w : World S) (m : PodMigration) (images : StringMap) (pod q : Pod)
    → m.status.checkpoint_images ≡ some images
    → restored_pod w m pod ≡ ok q
    → IsCopy w m images pod q
unfolding restored_pod
restored_pod-IsCopy w m images pod q e h =
    with_containers-IsCopy w m images pod (apply_images images pod.spec.containers) q refl
      (rw e at h)

-- A migration with an image for each container of the pod gets its copy.
pub restored_pod_total :
    {S : Type 0} (w : World S) (m : PodMigration) (images : StringMap) (pod : Pod)
    → m.status.checkpoint_images ≡ some images
    → HasImages images pod.spec.containers
    → (q : Pod) × (restored_pod w m pod ≡ ok q)
unfolding restored_pod
restored_pod_total w m images pod e h =
    let (cs, p) = apply_images_total images pod.spec.containers h in
    (
      record (relocated w m pod) { spec = record ((relocated w m pod).spec) { containers = cs } },
      rw e (rw (p, with_containers)),
    )
