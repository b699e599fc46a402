-- ===== src/Migration/Images/Count.antt =====
-- The test of `handlePreparingImagesPhase` that the map has as many entries as the pod has containers.
use live_pod_migration.Base.{
  ℕ, suc, ◌+◌, String, ◌≡◌, refl, ap, ◌∙◌, Bool, true, Option, none, some, List, [], ◌∷◌, arith,
  ◌==◌, ==_iff, if◌then◌else◌, length, nat_eq,
}
use live_pod_migration.Base.Maps.{StringMap, lookup, insert, lookup-insert, length-insert}
use live_pod_migration.Effect.{Outcome, ok, pure, ◌>>◌}
use live_pod_migration.Effect.Yields.{
  Yields, Yields-pure, Yields-raise, Yields-if, Yields-maybe, Yields-attempt, Yields-bind,
}
use live_pod_migration.Api.Core.{Container, Pod}
use live_pod_migration.Api.Lpm.{PodMigration, PodCheckpointContent, restoring}
use live_pod_migration.World.{World}
use live_pod_migration.Reconcile.{requeue}
use live_pod_migration.Migration.Status.{with_phase}
use live_pod_migration.Migration.Images.Loop.{HasImages, prepare_all-Prepared}
use live_pod_migration.Migration.Images.{
  LoopEnd, returned, finished, entries, images_of, with_images, convert_one, prepare_one,
  prepare_all, finish_images, prepare_images,
}

abbrev one_if : Option String → ℕ → ℕ
one_if none n = n
one_if (some _) n = suc n

-- how many of the containers have an image
abbrev pub covered : StringMap → List Container → ℕ
covered images [] = 0
covered images (c ∷ cs) = one_if (lookup c.name images) (covered images cs)

-- how many of the containers have the name
abbrev pub occurs : String → List Container → ℕ
occurs k [] = 0
occurs k (c ∷ cs) = let n = occurs k cs in if k == c.name then suc n else n

-- the names of `cs` occur once in `all`
abbrev pub EachOnce : List Container → List Container → Type 0
EachOnce all [] = Unit
EachOnce all (c ∷ cs) = (occurs c.name all ≡ 1) × EachOnce all cs

-- no two containers share a name, as Kubernetes requires of a pod
abbrev pub IsDistinct : List Container → Type 0
IsDistinct cs = EachOnce cs cs

-- every entry of the map is the image of a container
abbrev pub IsCounted : StringMap → List Container → Type 0
IsCounted images cs = length images ≡ covered images cs

covered-insert :
    (k v : String) (m : StringMap) (cs : List Container)
    → lookup k m ≡ none
    → covered (insert k v m) cs ≡ covered m cs + occurs k cs
covered-insert k v m [] e = omega arith
covered-insert k v m (c ∷ cs) e =
    ground (arith, lookup-insert k c.name v m, ==_iff k c.name, covered-insert k v m cs e)

covered_all :
    (images : StringMap) (cs : List Container) → HasImages images cs → covered images cs ≡ length cs
covered_all images [] h = refl
covered_all images (c ∷ cs) ((v, e), h) = rw (e, covered_all images cs h)

IsCounted-insert :
    (k v : String) (m : StringMap) (cs : List Container)
    → lookup k m ≡ none
    → occurs k cs ≡ 1
    → IsCounted m cs
    → IsCounted (insert k v m) cs
IsCounted-insert k v m cs e o h = omega (arith, length-insert k v m e, covered-insert k v m cs e)

-- the images at the end of the loop are counted
abbrev CountedEnd : List Container → LoopEnd → Type 0
CountedEnd all (returned r) = Unit
CountedEnd all (finished m ready) = IsCounted (images_of m) all

module _ {S : Type 0} (w : World S) (content : PodCheckpointContent) (all : List Container) where
  convert_one-IsCounted :
      (m : PodMigration) (ready : Bool) (container path : String)
      → lookup container (images_of m) ≡ none
      → occurs container all ≡ 1
      → IsCounted (images_of m) all
      → Yields (CountedEnd all) (convert_one w m ready container path)
  unfolding convert_one
  convert_one-IsCounted m ready container path absent once h =
      Yields-attempt _ _ _ (λ e. Yields-pure _ h)
        (λ image. Yields-pure _ (IsCounted-insert container image (images_of m) all absent once h))

  prepare_one-IsCounted :
      (m : PodMigration) (ready : Bool) (c : Container)
      → occurs c.name all ≡ 1
      → IsCounted (images_of m) all
      → Yields (CountedEnd all) (prepare_one w content m ready c)
  unfolding prepare_one
  prepare_one-IsCounted m ready c once h =
      Yields-maybe _ _ _
        (λ absent.
          Yields-attempt _ _ _ (λ e. Yields-raise e)
            λ path.
              Yields-if (path == "") _ _
                (λ _. Yields-attempt _ _ _ (λ e. Yields-raise e) (λ r. Yields-pure _ tt))
                (λ _. convert_one-IsCounted m ready c.name path absent once h))
        (λ v e. Yields-pure _ h)

  prepare_all-IsCounted :
      (cs : List Container) (m : PodMigration) (ready : Bool)
      → EachOnce all cs
      → IsCounted (images_of m) all
      → Yields (CountedEnd all) (prepare_all w content cs m ready)
  unfolding prepare_all
  prepare_all-IsCounted [] m ready once h = Yields-pure _ h
  prepare_all-IsCounted (c ∷ cs) m ready once h =
      Yields-bind (CountedEnd all) _ _ (prepare_one-IsCounted m ready c once.0 h) (elim [
        | returned r ↦ λ _. Yields-pure _ tt
        | finished m' ready' ↦ λ h'. prepare_all-IsCounted cs m' ready' once.1 h'
      ])

  -- a loop that ends with all images ready leaves one entry for each container
  loop_counts :
      (m m' : PodMigration) (s s₁ : S)
      → IsDistinct all
      → IsCounted (images_of m) all
      → prepare_all w content all (with_images m (images_of m)) true s ≡ (ok (finished m' true), s₁)
      → length (images_of m') ≡ length all
  loop_counts m m' s s₁ distinct counted loop =
      let ended = ap (λ (x : Outcome LoopEnd × S). x.0) loop in
      let counted' : IsCounted (images_of m') all =
        (prepare_all-IsCounted all (with_images m (images_of m)) true distinct counted).at s
          (finished m' true) ended in
      let (images, same, _, ready) =
        (prepare_all-Prepared w content m all (images_of m) true).at s (finished m' true) ended in
      let has : HasImages (images_of m') all =
        rw (ap (λ (x : PodMigration). images_of x) same) ((ready refl).1) in
      counted' ∙ covered_all (images_of m') all has

-- If the containers of the pod have distinct names, every entry of the migration's map is the image
-- of one of them, and the loop ends with no conversion failed, then the two counts agree: the
-- migration, as the server answers the status write, goes on to `restoring`.
pub prepare_images_restores :
    {S : Type 0} (w : World S) (m m' a : PodMigration) (content : PodCheckpointContent) (pod : Pod)
    (s s₁ s₂ : S)
    → IsDistinct pod.spec.containers
    → IsCounted (images_of m) pod.spec.containers
    → prepare_all w content pod.spec.containers (with_images m (images_of m)) true s
      ≡ (ok (finished m' true), s₁)
    → w.update_migration m' s₁ ≡ (ok a, s₂)
    → a.status.checkpoint_images ≡ m'.status.checkpoint_images
    → prepare_images w m content pod s
      ≡ (w.update_migration
              (with_phase a restoring "checkpoint images ready, creating restored pod")
            >> pure (requeue 1))
          s₂
unfolding prepare_images finish_images
prepare_images_restores w m m' a content pod s s₁ s₂ distinct counted loop write same =
    let cs = pod.spec.containers in
    let count : length (images_of a) ≡ length cs =
      ap (λ (x : Option StringMap). length (entries x)) same
      ∙ loop_counts w content cs m m' s s₁ distinct counted loop in
    let tested : nat_eq (length (images_of a)) (length cs) ≡ true = ground arith in
    rw loop (rw write (rw tested refl))
