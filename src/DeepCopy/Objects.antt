-- ===== src/DeepCopy/Objects.antt =====
-- What `DeepCopyObject` of the types promises.
use live_pod_migration.Base.{String, ◌≡◌, refl, Option, none, some, List}
use live_pod_migration.Effect.{maybe}
use live_pod_migration.DeepCopy.Memory.{Address, Step, Slot, pure, Made, Made-pure, Made-bind}
use live_pod_migration.DeepCopy.Structs.{Cell, Apimachinery}
use live_pod_migration.DeepCopy.Slots
use live_pod_migration.DeepCopy.New
use live_pod_migration.DeepCopy.Values
use live_pod_migration.DeepCopy.Object
use live_pod_migration.DeepCopy.Object.{RuntimeObject, as_object}
use live_pod_migration.DeepCopy.Values.{flat}
use live_pod_migration.DeepCopy.Laws.{Value, IsDeep, pointed, CopiesDeeply}
use live_pod_migration.DeepCopy.Copies.{copies-AreDeep}

module _ {F M L V : Type 0} (api : Apimachinery (Cell F M L) M L V) where
  -- `copy` gives nil for nil, and else an object of the type, whose pointer leads to a copy.
  pub record IsObjectCopy {A W : Type 0} (slot : Slot (Cell F M L) A)
      (value : Value (Cell F M L) A W) (type : String)
      (copy : Option Address → Step (Cell F M L) (Option RuntimeObject)) : Type 0 where
    pub of_nil : (m : List (Cell F M L)) → copy none m ≡ some (none, m)
    pub of_pointer :
        (p : Address) (m : List (Cell F M L)) (v : W)
        → pointed slot value (some p) m ≡ some (some v)
        → Made m (copy (some p) m) (λ o m''.
          (q : Address) × (o ≡ some (record { type = type; pointer = q }))
          × (pointed slot value (some q) m'' ≡ some (some v)))

  pub record AreCopied : Type 0 where
    pub container_checkpoint :
        IsObjectCopy Slots.container_checkpoint
          (Values.container_checkpoint api)
          "ContainerCheckpoint"
          (Object.container_checkpoint api)
    pub container_checkpoint_list :
        IsObjectCopy Slots.container_checkpoint_list
          (Values.container_checkpoint_list api)
          "ContainerCheckpointList"
          (Object.container_checkpoint_list api)
    pub container_checkpoint_content :
        IsObjectCopy Slots.container_checkpoint_content
          (Values.container_checkpoint_content api)
          "ContainerCheckpointContent"
          (Object.container_checkpoint_content api)
    pub container_checkpoint_content_list :
        IsObjectCopy Slots.container_checkpoint_content_list
          (Values.container_checkpoint_content_list api)
          "ContainerCheckpointContentList"
          (Object.container_checkpoint_content_list api)
    pub pod_checkpoint :
        IsObjectCopy Slots.pod_checkpoint
          (Values.pod_checkpoint api)
          "PodCheckpoint"
          (Object.pod_checkpoint api)
    pub pod_checkpoint_list :
        IsObjectCopy Slots.pod_checkpoint_list
          (Values.pod_checkpoint_list api)
          "PodCheckpointList"
          (Object.pod_checkpoint_list api)
    pub pod_checkpoint_content :
        IsObjectCopy Slots.pod_checkpoint_content
          (Values.pod_checkpoint_content api)
          "PodCheckpointContent"
          (Object.pod_checkpoint_content api)
    pub pod_checkpoint_content_list :
        IsObjectCopy Slots.pod_checkpoint_content_list
          (Values.pod_checkpoint_content_list api)
          "PodCheckpointContentList"
          (Object.pod_checkpoint_content_list api)
    pub pod_migration :
        IsObjectCopy Slots.pod_migration
          (Values.pod_migration api)
          "PodMigration"
          (Object.pod_migration api)
    pub pod_migration_list :
        IsObjectCopy Slots.pod_migration_list
          (Values.pod_migration_list api)
          "PodMigrationList"
          (Object.pod_migration_list api)

module _ {C A V : Type 0} (slot : Slot C A) (value : Value C A V) (type : String) where
  abbrev Leads : V → Option RuntimeObject → List C → Type 0
  Leads v o m =
      (q : Address) × (o ≡ some (record { type = type; pointer = q }))
      × (pointed slot value (some q) m ≡ some (some v))

  -- a pointer to a value is not nil
  to_object :
      (v : V) (c : Option Address) (m₁ : List C)
      → Made m₁
          (maybe c (pure none) (λ q. pure (some (record { type = type; pointer = q }))) m₁)
          (λ o m. pointed slot value c m ≡ some (some v) → Leads v o m)
  to_object v none m₁ = Made-pure none m₁ _ (λ m kept h. cc)
  to_object v (some q) m₁ = Made-pure _ m₁ _ (λ m kept h. (q, refl, h))

  as_object-Leads :
      (copy : Option Address → Step C (Option Address)) (p : Address) (m : List C) (v : V)
      → IsDeep (pointed slot value) copy
      → pointed slot value (some p) m ≡ some (some v)
      → Made m (as_object type copy (some p) m) (Leads v)
  unfolding as_object
  as_object-Leads copy p m v d e =
      Made-bind m (copy (some p)) _ (λ c m''. pointed slot value c m'' ≡ some (some v)) (Leads v)
        (d.deep (some p) m (some v) e) (λ c m₁ ext. to_object v c m₁)

-- If apimachinery's own copies are deep, then `DeepCopyObject` of each of the ten object types gives nil
-- for nil, and for a pointer an object of the same type, whose pointer leads to a deep copy, that of a
-- migration and of a list of them but for the maps of the images.
pub objects-AreCopied :
    {F M L V : Type 0} (api : Apimachinery (Cell F M L) M L V) → CopiesDeeply api → AreCopied api
unfolding as_object Object.container_checkpoint Object.container_checkpoint_list
    Object.container_checkpoint_content Object.container_checkpoint_content_list
    Object.pod_checkpoint Object.pod_checkpoint_list Object.pod_checkpoint_content
    Object.pod_checkpoint_content_list Object.pod_migration Object.pod_migration_list
    New.container_checkpoint New.container_checkpoint_list New.container_checkpoint_content
    New.container_checkpoint_content_list New.pod_checkpoint New.pod_checkpoint_list
    New.pod_checkpoint_content New.pod_checkpoint_content_list New.pod_migration
    New.pod_migration_list
objects-AreCopied api d =
    let deep = copies-AreDeep api d in
    record {
      container_checkpoint = record {
        of_nil = λ m. refl;
        of_pointer = λ p m v.
            as_object-Leads Slots.container_checkpoint (Values.container_checkpoint api)
              "ContainerCheckpoint" (New.container_checkpoint api) p m v deep.container_checkpoint;
      };
      container_checkpoint_list = record {
        of_nil = λ m. refl;
        of_pointer = λ p m v.
            as_object-Leads Slots.container_checkpoint_list (Values.container_checkpoint_list api)
              "ContainerCheckpointList" (New.container_checkpoint_list api) p m v
              deep.container_checkpoint_list;
      };
      container_checkpoint_content = record {
        of_nil = λ m. refl;
        of_pointer = λ p m v.
            as_object-Leads Slots.container_checkpoint_content
              (Values.container_checkpoint_content api) "ContainerCheckpointContent"
              (New.container_checkpoint_content api) p m v deep.container_checkpoint_content;
      };
      container_checkpoint_content_list = record {
        of_nil = λ m. refl;
        of_pointer = λ p m v.
            as_object-Leads Slots.container_checkpoint_content_list
              (Values.container_checkpoint_content_list api) "ContainerCheckpointContentList"
              (New.container_checkpoint_content_list api) p m v
              deep.container_checkpoint_content_list;
      };
      pod_checkpoint = record {
        of_nil = λ m. refl;
        of_pointer = λ p m v.
            as_object-Leads Slots.pod_checkpoint (Values.pod_checkpoint api) "PodCheckpoint"
              (New.pod_checkpoint api) p m v deep.pod_checkpoint;
      };
      pod_checkpoint_list = record {
        of_nil = λ m. refl;
        of_pointer = λ p m v.
            as_object-Leads Slots.pod_checkpoint_list (Values.pod_checkpoint_list api)
              "PodCheckpointList" (New.pod_checkpoint_list api) p m v deep.pod_checkpoint_list;
      };
      pod_checkpoint_content = record {
        of_nil = λ m. refl;
        of_pointer = λ p m v.
            as_object-Leads Slots.pod_checkpoint_content (Values.pod_checkpoint_content api)
              "PodCheckpointContent" (New.pod_checkpoint_content api) p m v
              deep.pod_checkpoint_content;
      };
      pod_checkpoint_content_list = record {
        of_nil = λ m. refl;
        of_pointer = λ p m v.
            as_object-Leads Slots.pod_checkpoint_content_list
              (Values.pod_checkpoint_content_list api) "PodCheckpointContentList"
              (New.pod_checkpoint_content_list api) p m v deep.pod_checkpoint_content_list;
      };
      pod_migration = record {
        of_nil = λ m. refl;
        of_pointer = λ p m v.
            as_object-Leads Slots.pod_migration (Values.pod_migration api) "PodMigration"
              (New.pod_migration api) p m v deep.pod_migration;
      };
      pod_migration_list = record {
        of_nil = λ m. refl;
        of_pointer = λ p m v.
            as_object-Leads Slots.pod_migration_list (Values.pod_migration_list api)
              "PodMigrationList" (New.pod_migration_list api) p m v deep.pod_migration_list;
      };
    }
