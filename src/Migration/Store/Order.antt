-- ===== src/Migration/Store/Order.antt =====
-- The order of the phases: how far a migration has come.
use live_pod_migration.Base.{ℕ, ◌<◌, ◌≤◌, ◌≡◌, refl, sym, ◌∙◌, ◌⊎◌, inl, inr, some, arith}
use live_pod_migration.Api.Core.{ObjectKey}
use live_pod_migration.Api.Lpm.{
  MigrationPhase, unset, pending, checkpointing, checkpoint_complete, preparing_images, restoring,
  succeeded, failed, other_phase,
}
use live_pod_migration.World.{World}
use live_pod_migration.Migration.Diagram.{
  ◌⟶◌, request, complete, prepare, restore, succeed, keep_checkpointing, keep_preparing,
  keep_restoring, fail_pending, fail_checkpointing, fail_preparing, fail_restoring,
}
use live_pod_migration.Migration.Store.{View, stored, StoresMigration}
use live_pod_migration.Migration.Store.Moves.{◌⟶*◌, stay, move}
use live_pod_migration.Migration.Store.Refines.{Run, Run-refines}

abbrev pub rank : MigrationPhase → ℕ
rank unset = 0
rank pending = 0
rank checkpointing = 1
rank checkpoint_complete = 2
rank preparing_images = 3
rank restoring = 4
rank succeeded = 5
rank failed = 5
rank (other_phase _) = 0

edge_rank : {p q : MigrationPhase} → p ⟶ q → (p ≡ q) ⊎ (rank p < rank q)
edge_rank request = inr (omega arith)
edge_rank complete = inr (omega arith)
edge_rank prepare = inr (omega arith)
edge_rank restore = inr (omega arith)
edge_rank succeed = inr (omega arith)
edge_rank (keep_checkpointing e) = inl (sym e)
edge_rank (keep_preparing e) = inl (sym e)
edge_rank (keep_restoring e) = inl (sym e)
edge_rank fail_pending = inr (omega arith)
edge_rank fail_checkpointing = inr (omega arith)
edge_rank fail_preparing = inr (omega arith)
edge_rank fail_restoring = inr (omega arith)

joined :
    {p q r : MigrationPhase}
    → (p ≡ q) ⊎ (rank p < rank q)
    → (q ≡ r) ⊎ (rank q < rank r)
    → (p ≡ r) ⊎ (rank p < rank r)
joined (inl a) (inl b) = inl (a ∙ b)
joined (inl a) (inr b) = inr (rw a b)
joined (inr a) (inl b) = inr (rw (← b) a)
joined (inr a) (inr b) = inr (omega arith)

pub walk_rank : {p q : MigrationPhase} → p ⟶* q → (p ≡ q) ⊎ (rank p < rank q)
walk_rank stay = inl refl
walk_rank (move a e) = joined (walk_rank a) (edge_rank e)

rank-le : (p : MigrationPhase) → rank p ≤ 5
rank-le unset = omega arith
rank-le pending = omega arith
rank-le checkpointing = omega arith
rank-le checkpoint_complete = omega arith
rank-le preparing_images = omega arith
rank-le restoring = omega arith
rank-le succeeded = omega arith
rank-le failed = omega arith
rank-le (other_phase s) = omega arith

-- Where the API server stores the migration as it documents, a run of reconciles either leaves the
-- stored phase as it is or takes it to one of a higher rank, of which there are six; one of the highest
-- rank, `succeeded` or `failed`, is kept forever.
pub Run-progress :
    {S : Type 0} (w : World S) (k : ObjectKey) (v : View S) (s t : S) (p : MigrationPhase)
    → StoresMigration w k v
    → stored v s ≡ some p
    → Run w v s t
    → (q : MigrationPhase) × (stored v t ≡ some q)
      × ((p ≡ q) ⊎ (rank p < rank q))
      × (rank q ≤ 5)
      × (rank p ≡ 5 → p ≡ q)
Run-progress w k v s t p laws e run =
    let (q, held, walk) = Run-refines w k v s t p laws e run in
    let further = walk_rank walk in
    (
      q,
      held,
      further,
      rank-le q,
      λ top. elim further [ inl same ↦ same | inr up ↦ absurd (omega (arith, rank-le q)) ],
    )
