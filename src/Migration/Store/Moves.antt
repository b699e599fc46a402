-- ===== src/Migration/Store/Moves.antt =====
-- What a handler of a migration does to the stored phase.
use mathlib.Core.Path.{subst}
use live_pod_migration.Base.{
  some-injective, String, ◌≡◌, refl, ap, sym, ◌∙◌, inl, inr, Bool, some, List, ◌&&◌, length, nat_eq,
  if◌then◌else◌,
}
use live_pod_migration.Effect.{Action, Outcome, ok, err, panic, pure, raise, resume, ◌>>◌}
use live_pod_migration.Effect.Keeps.{Keeps, Keeps-pure, Keeps-if, Keeps-bind}
use live_pod_migration.Api.Core.{ObjectKey, ObjectMeta, Container}
use live_pod_migration.Api.Lpm.{MigrationPhase, PodMigration, preparing_images, restoring}
use live_pod_migration.World.{World}
use live_pod_migration.Reconcile.{key, requeue}
use live_pod_migration.Migration.Status.{default_phase, with_phase}
use live_pod_migration.Migration.Diagram.{
  ◌⟶◌, request, complete, prepare, restore, succeed, keep_checkpointing, keep_preparing,
  keep_restoring, fail_pending, fail_checkpointing, fail_preparing, fail_restoring, Admits,
}
use live_pod_migration.Migration.Images.{finish_images, images_of}
use live_pod_migration.Migration.Store.{View, stored, Leaves, key_of, StoresMigration}

-- any number of edges of the diagram
infix 40 ◌⟶*◌
pub data ◌⟶*◌ (p : MigrationPhase) : MigrationPhase → Type 0 where
  stay : p ⟶* p
  move : {q r : MigrationPhase} → p ⟶* q → q ⟶ r → p ⟶* r

-- a phase that an edge leads to is not the empty one
default_phase_of_move : {p q : MigrationPhase} → p ⟶ q → default_phase q ≡ q
default_phase_of_move request = refl
default_phase_of_move complete = refl
default_phase_of_move prepare = refl
default_phase_of_move restore = refl
default_phase_of_move succeed = refl
default_phase_of_move (keep_checkpointing e) = rw e refl
default_phase_of_move (keep_preparing e) = rw e refl
default_phase_of_move (keep_restoring e) = rw e refl
default_phase_of_move fail_pending = refl
default_phase_of_move fail_checkpointing = refl
default_phase_of_move fail_preparing = refl
default_phase_of_move fail_restoring = refl

module _ {S : Type 0} {w : World S} {k : ObjectKey} {v : View S} (laws : StoresMigration w k v)
    (p₀ : MigrationPhase) where
  -- the stored phase has come from `p₀` along the diagram
  abbrev pub Moved : S → Type 0
  Moved s = (q : MigrationPhase) × (stored v s ≡ some q) × (p₀ ⟶* q)

  -- if `m` is a version of the migration, it had the phase `p`
  abbrev pub Seen : PodMigration → MigrationPhase → S → Type 0
  Seen m p s = key_of m ≡ k → v.phase_at s m.meta.resource_version ≡ some p

  abbrev pub At : PodMigration → MigrationPhase → S → Type 0
  At m p s = Seen m p s × Moved s

  pub Keeps-Leaves :
      {A : Type 0} (m : PodMigration) (p : MigrationPhase) (a : Action S A)
      → Leaves v a
      → Keeps (At m p) a
  Keeps-Leaves m p a leaves = record {
    at = λ s (seen, (q, e, moves)).
        ((λ same. (leaves s).1 _ p (seen same)), (q, (leaves s).0 ∙ e, moves));
  }

  -- a write from a version with the phase `p`
  Moved-write :
      (m m' : PodMigration) (p : MigrationPhase) (s : S)
      → m'.meta ≡ m.meta
      → p ⟶ m'.status.phase
      → At m p s
      → Moved (w.update_migration m' s).1
  Moved-write m m' p s same edge (seen, (q, e, moves)) = elim (laws.write m' s) [
    | inl refused ↦ (q, refused ∙ e, moves)
    | inr (mine, version, new) ↦
        let own : key_of m ≡ k =
          ap (λ (meta : ObjectMeta). key meta.namespace meta.name) (sym same) ∙ mine in
        let current : m.meta.resource_version ≡ v.current s =
          ap (λ (meta : ObjectMeta). meta.resource_version) (sym same) ∙ version in
        let held : stored v s ≡ some p = subst (λ x. v.phase_at s x ≡ some p) current (seen own) in
        let here : q ≡ p = some-injective (sym e ∙ held) in
        (
          m'.status.phase,
          new ∙ ap (λ x. some x) (default_phase_of_move edge),
          move (subst (λ x. p₀ ⟶* x) here moves) edge,
        )
  ]

  Keeps-write :
      (m m' : PodMigration) (p : MigrationPhase)
      → m'.meta ≡ m.meta
      → p ⟶ m'.status.phase
      → Keeps (At m p) (w.update_migration m')
  Keeps-write m m' p same edge = record {
    at = λ s h. ((λ own. laws.write_grows m' s _ p (h.0 own)), Moved-write m m' p s same edge h);
  }

  pub At-Admits : (m : PodMigration) (p : MigrationPhase) → Admits w m p (At m p)
  At-Admits m p = record {
    calls = record {
      get_pod = λ j. Keeps-Leaves m p _ (laws.get_pod j);
      create_pod = λ x. Keeps-Leaves m p _ (laws.create_pod x);
      get_node = λ j. Keeps-Leaves m p _ (laws.get_node j);
      get_pod_checkpoint = λ j. Keeps-Leaves m p _ (laws.get_pod_checkpoint j);
      create_pod_checkpoint = λ x. Keeps-Leaves m p _ (laws.create_pod_checkpoint x);
      get_pod_content = λ j. Keeps-Leaves m p _ (laws.get_pod_content j);
      get_container_content = λ j. Keeps-Leaves m p _ (laws.get_container_content j);
      dial = λ e. Keeps-Leaves m p _ (laws.dial e);
      hang_up = λ c. Keeps-Leaves m p _ (laws.hang_up c);
      convert_rpc = λ c r. Keeps-Leaves m p _ (laws.convert_rpc c r);
    };
    on_write = λ m' same edge. Keeps-write m m' p same edge;
  }

  -- The second write of the preparation is made from the answer `a` to the first.
  second_write :
      (m a : PodMigration) (p : MigrationPhase)
      → a.status.phase ≡ preparing_images
      → (message : String)
      → Keeps
          (λ s. Seen m p s × At a preparing_images s)
          (w.update_migration (with_phase a restoring message) >> pure (requeue 1))
  second_write m a p e message =
      Keeps-bind _ _
        (record {
          at = λ s (seen, h).
              let a' = with_phase a restoring message in
              (
                (λ own. laws.write_grows a' s _ p (seen own)),
                (Keeps-write a a' preparing_images refl restore).at s h,
              );
        })
        (λ _. Keeps-pure _)

  after_write :
      (cs : List Container) (m m' : PodMigration) (ready : Bool) (r : Outcome PodMigration)
      (s s₁ : S)
      → m'.status.phase ≡ preparing_images
      → w.update_migration m' s ≡ (r, s₁)
      → At m preparing_images s₁
      → At m preparing_images
          (resume r raise
            (λ a.
              if ready && nat_eq (length (images_of a)) (length cs)
              then (w.update_migration
                    (with_phase a restoring "checkpoint images ready, creating restored pod")
                  >> pure (requeue 1))
              else pure (requeue 3))
            s₁).1
  after_write cs m m' ready (ok a) s s₁ e wrote h =
      let (same, version) = laws.answer m' a s s₁ wrote in
      let phase : a.status.phase ≡ preparing_images = same ∙ e in
      let seen : Seen a preparing_images s₁ =
        λ own. version own ∙ ap (λ x. some (default_phase x)) phase in
      let kept =
        (Keeps-if (ready && nat_eq (length (images_of a)) (length cs)) _ _
            (λ _.
              second_write m a preparing_images phase
                "checkpoint images ready, creating restored pod")
            (λ _. Keeps-pure _)).at
          s₁ (h.0, (seen, h.1)) in
      (kept.0, kept.1.1)
  after_write cs m m' ready (err x) s s₁ e wrote h = h
  after_write cs m m' ready panic s s₁ e wrote h = h

  pub finish_images-At :
      (m : PodMigration) (cs : List Container) (m' : PodMigration) (ready : Bool)
      → m'.meta ≡ m.meta
      → m'.status.phase ≡ preparing_images
      → Keeps (At m preparing_images) (finish_images w cs m' ready)
  unfolding finish_images
  finish_images-At m cs m' ready same e = record {
    at = λ s h.
        let r = w.update_migration m' s in
        after_write cs m m' ready r.0 s r.1 e refl
          ((Keeps-write m m' preparing_images same (keep_preparing e)).at s h);
  }
