-- ===== src/Tests/Copies.antt =====
-- Copies in a memory whose metadata have no pointers and whose times are cells.
use live_pod_migration.Base.{String, refl, Option, none, some, List, [], ◌∷◌}
use live_pod_migration.Base.Maps.{StringMap}
use live_pod_migration.Api.Core.{Time, ObjectMeta}
use live_pod_migration.Api.Lpm.{MigrationPhase, PodMigration}
use live_pod_migration.Reconcile.{new_meta}
use live_pod_migration.DeepCopy.Memory.{
  Address, Slot, pure, ◌>>=◌, read, load, alloc, read-Agree, Made-alloc,
}
use live_pod_migration.DeepCopy.Structs.{
  TypeMeta, RawPodMigration, Cell, Apimachinery, foreign_cell, pod_migration_cell, reference_cell,
  images_cell,
}
use live_pod_migration.DeepCopy.Laws.{CopiesDeeply, pure-IsDeep}
use live_pod_migration.DeepCopy.Copies.{AreDeep, copies-AreDeep}
use live_pod_migration.DeepCopy.Objects.{AreCopied, objects-AreCopied}
use live_pod_migration.DeepCopy.Shared.{SharesImages, pod_migration-SharesImages}
use live_pod_migration.Tests.Objects.{migration, both_images}

abbrev PlainCell : Type 0
PlainCell = Cell Time ObjectMeta String

abbrev times : Slot PlainCell Time
times = record {
  put = foreign_cell;
  take = λ c. elim c [ foreign_cell t ↦ some t | _ ↦ none ];
  back = λ t. refl;
}

abbrev plain : Apimachinery PlainCell ObjectMeta String String
plain = record {
  copy_meta = pure;
  meta_value = λ x m. some x;
  copy_list_meta = pure;
  list_meta_value = λ x m. some x;
  copy_time = λ p. load times p >>= alloc times;
  time_value = read times;
}

plain-CopiesDeeply : CopiesDeeply plain
unfolding load
plain-CopiesDeeply = record {
  meta = pure-IsDeep (λ x. x);
  list_meta = pure-IsDeep (λ x. x);
  time = record {
    stable = λ p m m' t e agree. read-Agree times p m m' t agree e;
    deep = λ p m t e. rw e (Made-alloc times t m);
  };
}

copies-AreDeep_example : AreDeep plain
copies-AreDeep_example = copies-AreDeep plain plain-CopiesDeeply

objects-AreCopied_example : AreCopied plain
objects-AreCopied_example = objects-AreCopied plain plain-CopiesDeeply

-- a migration that is about to get its second image, with its reference at 1 and its images at 2
abbrev type_of_migration : TypeMeta
type_of_migration = record { kind = "PodMigration"; api_version = "lpm.my.domain/v1" }

abbrev raw_migration : RawPodMigration ObjectMeta
raw_migration = record {
  type_meta = type_of_migration;
  meta = new_meta "shop" "move";
  spec = record { pod_name = "web"; target_node = "node-b" };
  status = record {
    phase = MigrationPhase.preparing_images;
    message = "";
    pod_checkpoint_ref = some 1;
    restored_pod_name = "";
    checkpoint_images = some 2;
  };
}

abbrev one_image : StringMap
one_image = ("app", "localhost/checkpoint:web-app") ∷ []

abbrev cached : List PlainCell
cached =
    pod_migration_cell raw_migration
    ∷ reference_cell (record { name = "move" })
    ∷ images_cell one_image
    ∷ []

abbrev worth_of_migration : TypeMeta × PodMigration × Option Address
worth_of_migration = (type_of_migration, migration MigrationPhase.preparing_images "" none, some 2)

pod_migration-SharesImages_example : SharesImages plain 0 2 cached worth_of_migration both_images
unfolding read
pod_migration-SharesImages_example =
    pod_migration-SharesImages plain 0 2 cached raw_migration worth_of_migration one_image
      both_images plain-CopiesDeeply refl refl refl refl
