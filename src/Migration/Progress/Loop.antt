-- ===== src/Migration/Progress/Loop.antt =====
-- The loop of the images where each conversion succeeds.
use live_pod_migration.Base.{
  String, ◌≡◌, refl, ◌∙◌, Bool, false, Option, none, some, List, [], ◌∷◌, ◌==◌,
}
use live_pod_migration.Base.Maps.{lookup, insert}
use live_pod_migration.Effect.{ok}
use live_pod_migration.Api.Core.{Container}
use live_pod_migration.Api.Lpm.{PodMigration, PodCheckpointContent}
use live_pod_migration.World.{World}
use live_pod_migration.Migration.Images.{
  finished, images_of, with_images, convert_one, prepare_one, prepare_all,
  get_checkpoint_path_for_container, convert_to_oci_image,
}
use live_pod_migration.Migration.Progress.{OnMissing, AllConvert}

module _ {S : Type 0} (w : World S) (stored : S → Option PodMigration)
    (content : PodCheckpointContent) where
  abbrev Ends : PodMigration → List Container → Bool → S → Type 0
  Ends m cs ready s =
      (m' : PodMigration) × (s₁ : S) × (prepare_all w content cs m ready s
        ≡ (ok (finished m' ready), s₁))
      × (stored s₁ ≡ stored s)

  one :
      (c : Container) (cs : List Container) (m : PodMigration) (ready : Bool) (s : S)
      (image : Option String)
      → lookup c.name (images_of m) ≡ image
      → ((m' : PodMigration) (t : S) → AllConvert w stored content cs m' t → Ends m' cs ready t)
      → OnMissing image
          ((path : String) × (image : String) × (s₁ : S) × (get_checkpoint_path_for_container w
                content c.name s
              ≡ (ok path, s))
            × ((path == "") ≡ false)
            × (convert_to_oci_image w path c.name m.spec.target_node s ≡ (ok image, s₁))
            × (stored s₁ ≡ stored s)
            × AllConvert w stored content cs (with_images m (insert c.name image (images_of m))) s₁)
          (AllConvert w stored content cs m s)
      → Ends m (c ∷ cs) ready s
  unfolding prepare_all prepare_one convert_one
  one c cs m ready s none absent rest (path, image, s₁, found, fits, made, same, all) =
      let (m', s₂, e, kept) = rest (with_images m (insert c.name image (images_of m))) s₁ all in
      (m', s₂, rw absent (rw found (rw fits (rw made e))), kept ∙ same)
  one c cs m ready s (some v) there rest all =
      let (m', s₂, e, kept) = rest m s all in (m', s₂, rw there e, kept)

  pub prepare_all-Ends :
      (cs : List Container) (m : PodMigration) (ready : Bool) (s : S)
      → AllConvert w stored content cs m s
      → Ends m cs ready s
  unfolding prepare_all
  prepare_all-Ends [] m ready s all = (m, s, refl, refl)
  prepare_all-Ends (c ∷ cs) m ready s all =
      one c cs m ready s (lookup c.name (images_of m)) refl (λ m' t. prepare_all-Ends cs m' ready t)
        all
