-- ===== src/DeepCopy/Shared.antt =====
-- `PodMigrationStatus.DeepCopyInto` has no lines for `CheckpointImages`: the copy keeps the original's map.
use mathlib.Core.Path.{subst}
use live_pod_migration.Base.{
  some-injective, ℕ, zero, suc, ◌≡◌, ◌≢◌, refl, ap, sym, ◌∙◌, Option, none, some, List, [], ◌∷◌,
}
use live_pod_migration.Base.Maps.{StringMap}
use live_pod_migration.Api.Lpm.{PodMigration, PodMigrationStatus}
use live_pod_migration.DeepCopy.Memory.{Address, Slot, read, write, get_elem?, read-Agree}
use live_pod_migration.DeepCopy.Structs.{TypeMeta, RawPodMigration, Cell, Apimachinery, images_cell}
use live_pod_migration.DeepCopy.Slots
use live_pod_migration.DeepCopy.New
use live_pod_migration.DeepCopy.Values
use live_pod_migration.DeepCopy.Values.{flat}
use live_pod_migration.DeepCopy.Laws.{pointed, maybe-some, CopiesDeeply}
use live_pod_migration.DeepCopy.Copies.{copies-AreDeep}

get_elem?-write :
    {C : Type 0} (p : ℕ) (c d : C) (m : List C)
    → get_elem? m p ≡ some d
    → get_elem? (write p c m) p ≡ some c
get_elem?-write p c d [] e = cc
get_elem?-write zero c d (x ∷ m) e = refl
get_elem?-write (suc p) c d (x ∷ m) e = get_elem?-write p c d m e

get_elem?-write_other :
    {C : Type 0} (p q : ℕ) (c : C) (m : List C) → p ≢ q → get_elem? (write p c m) q ≡ get_elem? m q
get_elem?-write_other p q c [] e = refl
get_elem?-write_other zero zero c (x ∷ m) e = absurd (e refl)
get_elem?-write_other zero (suc q) c (x ∷ m) e = refl
get_elem?-write_other (suc p) zero c (x ∷ m) e = refl
get_elem?-write_other (suc p) (suc q) c (x ∷ m) e =
    get_elem?-write_other p q c m (λ same. e (ap suc same))

-- a cell under a read that gives something
cell_of :
    {C A : Type 0} (slot : Slot C A) (p : Address) (m : List C) (a : A)
    → read slot p m ≡ some a
    → (c : C) × (get_elem? m p ≡ some c) × (slot.take c ≡ some a)
unfolding read
cell_of slot p m a e = maybe-some (get_elem? m p) slot.take a e

module _ {F M L : Type 0} where
  -- a cell with images holds no migration
  not_both :
      (c : Cell F M L) (x : RawPodMigration M) (images : StringMap)
      → (Slots.pod_migration {F = F} {M = M} {L = L}).take c ≡ some x
      → (Slots.images {F = F} {M = M} {L = L}).take c ≡ some images
      → ⊥
  not_both (images_cell i) x images e e' = cc
  not_both _ x images e e' = cc

module _ {F M L V : Type 0} (api : Apimachinery (Cell F M L) M L V) where
  -- the third part of what a migration is worth is the address of its images
  images_of_value :
      (x : RawPodMigration M) (m : List (Cell F M L)) (v : TypeMeta × PodMigration × Option Address)
      → Values.pod_migration api x m ≡ some v
      → x.status.checkpoint_images ≡ v.2
  images_of_value x m v e =
      let (meta, _, e') = maybe-some (api.meta_value x.meta m) _ v e in
      let (status, h, e'') = maybe-some (Values.pod_migration_status x.status m) _ v e' in
      let (ref, _, h') =
        maybe-some (pointed Slots.reference flat x.status.pod_checkpoint_ref m) _ status h in
      ap (λ (u : PodMigrationStatus × Option Address). u.1) (some-injective h')
      ∙ ap (λ (u : TypeMeta × PodMigration × Option Address). u.2) (some-injective e'')

  -- `p` leads to a migration worth `v`, with its images at `a`. Its copy is worth the same and has its
  -- images at `a` too: when they are replaced through the copy, the original has the new ones.
  pub record SharesImages (p a : Address) (m : List (Cell F M L))
      (v : TypeMeta × PodMigration × Option Address) (new : StringMap) : Type 0 where
    pub q : Address
    pub after : List (Cell F M L)
    pub y : RawPodMigration M
    pub made : New.pod_migration api (some p) m ≡ some (some q, after)
    pub copied : read Slots.pod_migration q after ≡ some y
    pub worth : Values.pod_migration api y after ≡ some v
    pub shared : y.status.checkpoint_images ≡ some a
    pub seen :
        (x : RawPodMigration M) × (read Slots.pod_migration p (write a (images_cell new) after)
          ≡ some x)
        × (pointed Slots.images flat x.status.checkpoint_images (write a (images_cell new) after)
            ≡ some (some new))

  found :
      (q : Option Address) (m : List (Cell F M L)) (v : TypeMeta × PodMigration × Option Address)
      → pointed Slots.pod_migration (Values.pod_migration api) q m ≡ some (some v)
      → (r : Address) × (y : RawPodMigration M) × (q ≡ some r)
        × (read Slots.pod_migration r m ≡ some y)
        × (Values.pod_migration api y m ≡ some v)
  found none m v e = cc
  found (some r) m v e =
      let (y, there, e') = maybe-some (read Slots.pod_migration r m) _ (some v) e in
      let (u, h, e'') = maybe-some (Values.pod_migration api y m) _ (some v) e' in
      let same : u ≡ v = cc in (r, y, refl, there, rw same at h)

  still_there :
      (p a : Address) (m : List (Cell F M L)) (x : RawPodMigration M) (old new : StringMap)
      → read Slots.pod_migration p m ≡ some x
      → read Slots.images a m ≡ some old
      → read Slots.pod_migration p (write a (images_cell new) m) ≡ some x
  unfolding read
  still_there p a m x old new e e' =
      let (c, here, h) = cell_of Slots.pod_migration p m x e in
      let (d, there, h') = cell_of Slots.images a m old e' in
      let apart : a ≢ p = λ same.
        let one : d ≡ c = cc in
        not_both c x old h
          (subst (λ z. (Slots.images {F = F} {M = M} {L = L}).take z ≡ some old) one h') in
      rw (get_elem?-write_other a p (images_cell new) m apart) e

  written :
      (a : Address) (m : List (Cell F M L)) (old new : StringMap)
      → read Slots.images a m ≡ some old
      → read Slots.images a (write a (images_cell new) m) ≡ some new
  unfolding read
  written a m old new e =
      let (c, there, h) = cell_of Slots.images a m old e in
      rw (get_elem?-write a (images_cell new) c m there) refl

-- The copy of a migration shares its images: if apimachinery's own copies are deep, `DeepCopy` of a
-- migration that has images gives one that is worth the same, with the very map of the original, so that
-- a write to the copy's images is seen in the original.
pub pod_migration-SharesImages :
    {F M L V : Type 0} (api : Apimachinery (Cell F M L) M L V) (p a : Address)
    (m : List (Cell F M L)) (x : RawPodMigration M) (v : TypeMeta × PodMigration × Option Address)
    (old new : StringMap)
    → CopiesDeeply api
    → read Slots.pod_migration p m ≡ some x
    → Values.pod_migration api x m ≡ some v
    → x.status.checkpoint_images ≡ some a
    → read Slots.images a m ≡ some old
    → SharesImages api p a m v new
pod_migration-SharesImages api p a m x v old new d there worth at held =
    let (r, after, made, (agree, _), kept) =
      (copies-AreDeep api d).pod_migration.deep (some p) m (some v) (rw there (rw worth refl)) in
    let (q, y, some_q, copied, worth') = found api r after v (kept after (λ i l c h. h)) in
    let held' = read-Agree Slots.images a m after old agree held in
    record {
      q = q;
      after = after;
      y = y;
      made = made ∙ ap (λ o. some (o, after)) some_q;
      copied = copied;
      worth = worth';
      shared = images_of_value api y after v worth' ∙ sym (images_of_value api x m v worth) ∙ at;
      seen = (
        x,
        still_there api p a after x old new (read-Agree Slots.pod_migration p m after x agree there)
            held',
        rw at (rw (written api a after old new held') refl),
      );
    }
