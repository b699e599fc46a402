-- ===== src/Migration/Images/Loop.antt =====
-- What the loop of `handlePreparingImagesPhase` leaves behind when it runs to its end.
use live_pod_migration.Base.{
  String, ◌≡◌, refl, ap, Bool, true, none, some, List, [], ◌∷◌, arith, ◌==◌, ==_iff, ==_refl,
}
use live_pod_migration.Base.Maps.{StringMap, lookup, insert, lookup-insert}
use live_pod_migration.Effect.{Outcome, ok}
use live_pod_migration.Effect.Yields.{
  Yields, Yields-pure, Yields-raise, Yields-if, Yields-maybe, Yields-attempt, Yields-bind,
  Yields-weaken,
}
use live_pod_migration.Api.Core.{Container}
use live_pod_migration.Api.Lpm.{PodMigration, PodCheckpointContent}
use live_pod_migration.World.{World}
use live_pod_migration.Migration.Images.{
  LoopEnd, returned, finished, with_images, prepare_one, prepare_all, convert_one,
}

-- every entry of the first map is in the second
abbrev pub Extends : StringMap → StringMap → Type 0
Extends old new = (k v : String) → lookup k old ≡ some v → lookup k new ≡ some v

-- every container has an image
abbrev pub HasImages : StringMap → List Container → Type 0
HasImages images [] = Unit
HasImages images (c ∷ containers) =
    ((v : String) × (lookup c.name images ≡ some v)) × HasImages images containers

pub HasImages-Extends :
    (old new : StringMap) (cs : List Container)
    → Extends old new
    → HasImages old cs
    → HasImages new cs
HasImages-Extends old new [] e h = tt
HasImages-Extends old new (c ∷ cs) e ((v, p), h) =
    ((v, e c.name v p), HasImages-Extends old new cs e h)

Extends-insert : (k v : String) (m : StringMap) → lookup k m ≡ none → Extends m (insert k v m)
Extends-insert k v m absent j u e = rw lookup-insert (ground (arith, ==_iff k j))

lookup-insert_self : (k v : String) (m : StringMap) → lookup k (insert k v m) ≡ some v
lookup-insert_self k v m = rw (lookup-insert, ==_refl)

-- The migration is the old one but for its images, which extend the old ones. If the loop still
-- counts the images as ready, it did so before, and each of its containers has one.
abbrev pub Prepared : PodMigration → StringMap → List Container → Bool → LoopEnd → Type 0
Prepared m old cs ready (returned r) = Unit
Prepared m old cs ready (finished m' ready') =
    (images : StringMap) × (m' ≡ with_images m images)
    × Extends old images
    × (ready' ≡ true → (ready ≡ true) × HasImages images cs)

-- one round and then the rest of the loop
Prepared-trans :
    (m : PodMigration) (old images : StringMap) (c : Container) (cs : List Container)
    (ready ready' : Bool) (e : LoopEnd)
    → Extends old images
    → (ready' ≡ true → (ready ≡ true) × HasImages images (c ∷ []))
    → Prepared m images cs ready' e
    → Prepared m old (c ∷ cs) ready e
Prepared-trans m old images c cs ready ready' (returned r) x h p = tt
Prepared-trans m old images c cs ready ready' (finished m' b) x h (new, same, y, g) = (
  new,
  same,
  (λ k v e. y k v (x k v e)),
  λ e.
      let all = g e in
      let one = h all.0 in (one.0, ((HasImages-Extends images new (c ∷ []) y one.1).0, all.1)),
)

module _ {S : Type 0} (w : World S) (content : PodCheckpointContent) (m : PodMigration) where
  convert_one-Prepared :
      (old : StringMap) (ready : Bool) (c : Container) (path : String)
      → lookup c.name old ≡ none
      → Yields (Prepared m old (c ∷ []) ready) (convert_one w (with_images m old) ready c.name path)
  unfolding convert_one
  convert_one-Prepared old ready c path absent =
      Yields-attempt _ _ _ (λ e. Yields-pure _ (old, refl, (λ k v h. h), λ h. cc))
        λ image. Yields-pure _ (
          insert c.name image old,
          refl,
          Extends-insert c.name image old absent,
          λ h. (h, ((image, lookup-insert_self c.name image old), tt)),
        )

  pub prepare_one-Prepared :
      (old : StringMap) (ready : Bool) (c : Container)
      → Yields (Prepared m old (c ∷ []) ready) (prepare_one w content (with_images m old) ready c)
  unfolding prepare_one
  prepare_one-Prepared old ready c =
      Yields-maybe _ _ _
        (λ absent.
          Yields-attempt _ _ _ (λ e. Yields-raise e)
            λ path.
              Yields-if (path == "") _ _
                (λ _. Yields-attempt _ _ _ (λ e. Yields-raise e) (λ r. Yields-pure _ tt))
                (λ _. convert_one-Prepared old ready c path absent))
        (λ v e. Yields-pure _ (old, refl, (λ k u h. h), λ h. (h, ((v, e), tt))))

  -- Whatever the world does, the loop of the images only adds entries to the migration's map, changes
  -- nothing else of the migration, and counts the images as ready only if each container has one.
  pub prepare_all-Prepared :
      (cs : List Container) (old : StringMap) (ready : Bool)
      → Yields (Prepared m old cs ready) (prepare_all w content cs (with_images m old) ready)
  unfolding prepare_all
  prepare_all-Prepared [] old ready = Yields-pure _ (old, refl, (λ k v h. h), λ h. (h, tt))
  prepare_all-Prepared (c ∷ cs) old ready =
      Yields-bind (Prepared m old (c ∷ []) ready) _ _ (prepare_one-Prepared old ready c) (elim [
        | returned r ↦ λ _. Yields-pure _ tt
        | finished m' ready' ↦ λ (images, same, x, h). rw same (
            Yields-weaken (prepare_all-Prepared cs images ready')
              (λ e. Prepared-trans m old images c cs ready ready' e x h))
      ])

-- If the loop of the images runs to its end, it has only added entries to the migration's map and
-- changed nothing else of the migration, and if it then counts the images as ready, each of its
-- containers has one.
pub prepare_all_prepares :
    {S : Type 0} (w : World S) (content : PodCheckpointContent) (cs : List Container)
    (m m' : PodMigration) (old : StringMap) (ready ready' : Bool) (s s₁ : S)
    → prepare_all w content cs (with_images m old) ready s ≡ (ok (finished m' ready'), s₁)
    → (images : StringMap) × (m' ≡ with_images m images)
      × Extends old images
      × (ready' ≡ true → (ready ≡ true) × HasImages images cs)
prepare_all_prepares {S} w content cs m m' old ready ready' s s₁ loop =
    (prepare_all-Prepared w content m cs old ready).at s (finished m' ready')
      (ap (λ (x : Outcome LoopEnd × S). x.0) loop)
