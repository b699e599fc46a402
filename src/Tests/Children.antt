-- ===== src/Tests/Children.antt =====
-- A store of ContainerCheckpoints by their names, and the children of a pod in it.
use live_pod_migration.Base.{
  String, ◌≡◌, refl, ◌⊎◌, inl, inr, Bool, true, false, List, [], ◌∷◌, ◌==◌, ==_iff, if◌then◌else◌,
}
use live_pod_migration.Effect.{Outcome, ok, err, not_found}
use live_pod_migration.Effect.Grants.{Granted}
use live_pod_migration.Api.Lpm.{ContainerCheckpoint, pending}
use live_pod_migration.World.{World}
use live_pod_migration.PodCheckpoint.{ensure_child, ensure_children}
use live_pod_migration.PodCheckpoint.Present.{
  StoresChildren, HaveChildren, ensure_children-HaveChildren,
}
use live_pod_migration.Tests.Cluster.{Cluster, memory}
use live_pod_migration.Tests.Objects.{app_and_log, child, pod_checkpoint, quiet}

abbrev search_in : String → List ContainerCheckpoint → Outcome ContainerCheckpoint
search_in name [] = err (record { reason = not_found; text = "not found" })
search_in name (c ∷ cs) = let rest = search_in name cs in if c.meta.name == name then ok c else rest

abbrev Listed : List ContainerCheckpoint → String → Type 0
Listed [] name = ⊥
Listed (c ∷ cs) name = (c.meta.name ≡ name) ⊎ Listed cs name

abbrev by_name : World Cluster
by_name = record memory {
  get_container_checkpoint = λ k s. (search_in k.name s.container_checkpoints, s);
  create_container_checkpoint =
      λ c s. (ok c, record s { container_checkpoints = c ∷ s.container_checkpoints });
}

Granted-if :
    (Q : Cluster → Type 0) (test : Bool) (x y : Outcome ContainerCheckpoint) (s : Cluster)
    → (test ≡ true → Granted Q x s)
    → Granted Q y s
    → Granted Q (if test then x else y) s
Granted-if Q true x y s gx gy = gx refl
Granted-if Q false x y s gx gy = gy

Granted-weaken :
    (P Q : Cluster → Type 0) (r : Outcome ContainerCheckpoint) (s : Cluster)
    → (P s → Q s)
    → Granted P r s
    → Granted Q r s
Granted-weaken P Q (ok c) s h p = h p
Granted-weaken P Q (err e) s h p = tt
Granted-weaken P Q Outcome.panic s h p = tt

search_in-Listed :
    (name : String) (cs : List ContainerCheckpoint) (s : Cluster)
    → Granted (λ _. Listed cs name) (search_in name cs) s
search_in-Listed name [] s = tt
search_in-Listed name (c ∷ cs) s =
    Granted-if (λ _. Listed (c ∷ cs) name) (c.meta.name == name) _ _ s
      (λ e. inl ((==_iff c.meta.name name).0 e))
      (Granted-weaken (λ _. Listed cs name) _ (search_in name cs) s (λ h. inr h)
        (search_in-Listed name cs s))

by_name-StoresChildren :
    StoresChildren by_name "shop" (λ s name. Listed s.container_checkpoints name)
by_name-StoresChildren = record {
  found = λ name. record {
    at = λ s.
        Granted-weaken (λ _. Listed s.container_checkpoints name) _
          (search_in name s.container_checkpoints) s (λ h. h)
          (search_in-Listed name s.container_checkpoints s);
  };
  created = λ c same. record { at = λ s. inl refl };
  get_keeps = λ name k. record { at = λ s h. h };
  create_keeps = λ name c. record { at = λ s h. inr h };
}

-- the child of `app` is there, that of `log` is created
abbrev half : Cluster
half = record quiet { container_checkpoints = child "app" pending "" ∷ [] }

ensure_children-HaveChildren_example :
    HaveChildren by_name
      (pod_checkpoint pending "")
      (λ s name. Listed s.container_checkpoints name)
      app_and_log
      (ensure_children by_name (pod_checkpoint pending "") false app_and_log half).1
unfolding ensure_children ensure_child ◌==◌
ensure_children-HaveChildren_example =
    ensure_children-HaveChildren by_name (pod_checkpoint pending "")
      (λ s name. Listed s.container_checkpoints name) false true app_and_log half
      (ensure_children by_name (pod_checkpoint pending "") false app_and_log half).1
      by_name-StoresChildren refl
