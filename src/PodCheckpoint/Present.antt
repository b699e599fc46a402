-- ===== src/PodCheckpoint/Present.antt =====
-- After the loop over the containers each of them has a child.
use mathlib.Core.Path.{subst}
use live_pod_migration.Base.{String, ◌≡◌, refl, Bool, true, List, [], ◌∷◌}
use live_pod_migration.Effect.{Outcome, ok, err, panic, is_not_found, raise, deref}
use live_pod_migration.Effect.Keeps.{Keeps, Keeps-pure, Keeps-deref, Keeps-bind, Keeps-on_not_found}
use live_pod_migration.Effect.Grants.{
  Granted, Grants, Grants-raise, Grants-if, Grants-attempt, Grants-bind,
}
use live_pod_migration.Api.Core.{ObjectKey, Container}
use live_pod_migration.Api.Lpm.{ContainerCheckpoint, PodCheckpoint}
use live_pod_migration.World.{World}
use live_pod_migration.Reconcile.{key}
use live_pod_migration.PodCheckpoint.{child_name, new_child, ensure_child, ensure_children}

-- What the API server documents of the ContainerCheckpoints of a namespace: an object that was read or
-- created has been stored under its name, `Known`, and that remains so. (It may be deleted later.)
pub record StoresChildren {S : Type 0} (w : World S) (namespace : String)
    (Known : S → String → Type 0) : Type 0 where
  pub found :
      (name : String) → Grants (λ s. Known s name) (w.get_container_checkpoint (key namespace name))
  pub created :
      (c : ContainerCheckpoint)
      → c.meta.namespace ≡ namespace
      → Grants (λ s. Known s c.meta.name) (w.create_container_checkpoint c)
  pub get_keeps :
      (name : String) (k : ObjectKey) → Keeps (λ s. Known s name) (w.get_container_checkpoint k)
  pub create_keeps :
      (name : String) (c : ContainerCheckpoint)
      → Keeps (λ s. Known s name) (w.create_container_checkpoint c)

-- each container's child has been stored
abbrev pub HaveChildren :
    {S : Type 0} → World S → PodCheckpoint → (S → String → Type 0) → List Container → S → Type 0
HaveChildren w pc Known [] s = Unit
HaveChildren w pc Known (c ∷ cs) s = Known s (child_name w pc c.name) × HaveChildren w pc Known cs s

module _ {S : Type 0} (w : World S) (pc : PodCheckpoint) (Known : S → String → Type 0)
    (stores : StoresChildren w pc.meta.namespace Known) where
  abbrev HasChild : String → S → Type 0
  HasChild name s = Known s name

  ensure_child-Grants :
      (before : Bool) (c : Container)
      → Grants (HasChild (child_name w pc c.name)) (ensure_child w pc before c)
  unfolding ensure_child
  ensure_child-Grants before c =
      Grants-attempt _ _ _ (stores.found (child_name w pc c.name))
        (λ e.
          Grants-if (is_not_found e) _ (raise e)
            (Grants-bind (deref pc.spec.pod_name) _ (λ p.
              Grants-attempt _ raise _ (stores.created (new_child w pc p c.name) refl)
                (λ x. Grants-raise x) (λ _. Keeps-pure true)))
            (Grants-raise e))
        (λ _. Keeps-pure before)

  ensure_child-Keeps :
      (name : String) (before : Bool) (c : Container)
      → Keeps (HasChild name) (ensure_child w pc before c)
  unfolding ensure_child
  ensure_child-Keeps name before c =
      Keeps-on_not_found _ _ _ (stores.get_keeps name _)
        (Keeps-bind (deref pc.spec.pod_name) _ (Keeps-deref pc.spec.pod_name)
          (λ p. Keeps-bind _ _ (stores.create_keeps name _) (λ _. Keeps-pure true)))
        (λ _. Keeps-pure before)

  ensure_children-Keeps :
      (name : String) (before : Bool) (cs : List Container)
      → Keeps (HasChild name) (ensure_children w pc before cs)
  unfolding ensure_children
  ensure_children-Keeps name before [] = Keeps-pure before
  ensure_children-Keeps name before (c ∷ cs) =
      Keeps-bind _ _ (ensure_child-Keeps name before c) (λ b. ensure_children-Keeps name b cs)

  both :
      (P Q : S → Type 0) (r : Outcome Bool) (s : S)
      → Granted P r s
      → Granted Q r s
      → Granted (λ t. P t × Q t) r s
  both P Q (ok b) s p q = (p, q)
  both P Q (err e) s p q = tt
  both P Q panic s p q = tt

  ensure_children-Grants :
      (before : Bool) (cs : List Container)
      → Grants (HaveChildren w pc Known cs) (ensure_children w pc before cs)
  unfolding ensure_children
  ensure_children-Grants before [] = record { at = λ s. tt }
  ensure_children-Grants before (c ∷ cs) =
      let first =
        Grants-attempt _ raise (λ b. ensure_children w pc b cs) (ensure_child-Grants before c)
          (λ e. Grants-raise e) (λ b. ensure_children-Keeps (child_name w pc c.name) b cs) in
      let others = Grants-bind (ensure_child w pc before c) _ (λ b. ensure_children-Grants b cs) in
      record {
        at = λ s.
            both (HasChild (child_name w pc c.name)) (HaveChildren w pc Known cs)
              (ensure_children w pc before (c ∷ cs) s).0 (ensure_children w pc before (c ∷ cs) s).1
              (first.at s) (others.at s);
      }

-- Where the API server stores ContainerCheckpoints as it documents, a loop over the containers that
-- succeeds leaves each of them with a ContainerCheckpoint that has been stored under its child's name.
pub ensure_children-HaveChildren :
    {S : Type 0} (w : World S) (pc : PodCheckpoint) (Known : S → String → Type 0) (before b : Bool)
    (cs : List Container) (s s₁ : S)
    → StoresChildren w pc.meta.namespace Known
    → ensure_children w pc before cs s ≡ (ok b, s₁)
    → HaveChildren w pc Known cs s₁
ensure_children-HaveChildren {S} w pc Known before b cs s s₁ stores e =
    subst (λ (x : Outcome Bool × S). Granted (HaveChildren w pc Known cs) x.0 x.1) e
      ((ensure_children-Grants w pc Known stores before cs).at s)
