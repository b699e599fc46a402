-- ===== src/World/Trace.antt =====
-- Any world with a log of the calls made of it, the newest first. The log holds the writes, the
-- connections with the requests on them, and those reads that a theorem speaks of; it does not change
-- what a call answers.
use live_pod_migration.Base.{ℕ, List, ◌∷◌}
use live_pod_migration.Effect.{
  Error, Outcome, ok, err, panic, attempt, Action, is_not_found, raise, resume, on_not_found,
}
use live_pod_migration.Effect.Keeps.{Keeps, Keeps-if, Keeps-raise}
use live_pod_migration.Api.Core.{ObjectKey, Pod}
use live_pod_migration.Api.Rpc.{
  CheckpointRequest, CheckpointResponse, ConvertRequest, ConvertResponse,
}
use live_pod_migration.Api.Lpm.{
  PodMigration, PodCheckpoint, PodCheckpointContent, ContainerCheckpoint,
  ContainerCheckpointContent,
}
unfoldable pub use live_pod_migration.Effect.Logged.{logged, silent}
use live_pod_migration.Effect.Logged.{WithLog, unlogged}
use live_pod_migration.World.{World}

pub data Event : Type 0 where
  got_pod : ObjectKey → Outcome Pod → Event
  got_migration : Outcome PodMigration → Event
  got_pod_checkpoint : Outcome PodCheckpoint → Event
  got_container_checkpoint : Outcome ContainerCheckpoint → Event
  listed_children : Outcome (List ContainerCheckpoint) → Event
  created_pod deleted_pod : Pod → Event
  wrote_migration : PodMigration → Event
  created_pod_checkpoint wrote_pod_checkpoint : PodCheckpoint → Event
  created_pod_content wrote_pod_content : PodCheckpointContent → Event
  created_container_checkpoint wrote_container_checkpoint : ContainerCheckpoint → Event
  created_container_content : ContainerCheckpointContent → Event
  dialed : Outcome ℕ → Event
  called_checkpoint : ℕ → CheckpointRequest → Outcome CheckpointResponse → Event
  called_convert : ℕ → ConvertRequest → Outcome ConvertResponse → Event
  hung_up : ℕ → Event

abbrev pub Log : Type 0
Log = List Event

abbrev pub Traced : Type 0 → Type 0
Traced S = WithLog Event S

-- a state with an empty log
abbrev pub untraced : {S : Type 0} → S → Traced S
untraced s = unlogged s

abbrev pub traced : {S : Type 0} → World S → World (Traced S)
traced w = record {
  get_pod = λ k. logged (got_pod k) (w.get_pod k);
  create_pod = λ p. logged (λ _. created_pod p) (w.create_pod p);
  delete_pod = λ p. logged (λ _. deleted_pod p) (w.delete_pod p);
  get_node = λ k. silent (w.get_node k);
  get_migration = λ k. logged got_migration (w.get_migration k);
  update_migration = λ m. logged (λ _. wrote_migration m) (w.update_migration m);
  get_pod_checkpoint = λ k. logged got_pod_checkpoint (w.get_pod_checkpoint k);
  create_pod_checkpoint = λ p. logged (λ _. created_pod_checkpoint p) (w.create_pod_checkpoint p);
  update_pod_checkpoint = λ p. logged (λ _. wrote_pod_checkpoint p) (w.update_pod_checkpoint p);
  get_pod_content = λ k. silent (w.get_pod_content k);
  create_pod_content = λ c. logged (λ _. created_pod_content c) (w.create_pod_content c);
  update_pod_content = λ c. logged (λ _. wrote_pod_content c) (w.update_pod_content c);
  get_container_checkpoint = λ k. logged got_container_checkpoint (w.get_container_checkpoint k);
  create_container_checkpoint =
      λ c. logged (λ _. created_container_checkpoint c) (w.create_container_checkpoint c);
  update_container_checkpoint =
      λ c. logged (λ _. wrote_container_checkpoint c) (w.update_container_checkpoint c);
  list_container_checkpoints = λ n l. logged listed_children (w.list_container_checkpoints n l);
  get_container_content = λ k. silent (w.get_container_content k);
  create_container_content =
      λ c. logged (λ _. created_container_content c) (w.create_container_content c);
  controller_ref = w.controller_ref;
  now = silent w.now;
  dial = λ e. logged dialed (w.dial e);
  hang_up = λ c. logged (λ _. hung_up c) (w.hang_up c);
  checkpoint_rpc = λ c r. logged (called_checkpoint c r) (w.checkpoint_rpc c r);
  convert_rpc = λ c r. logged (called_convert c r) (w.convert_rpc c r);
}

-- a predicate on the log, as one on the state
unfoldable pub OnLog : {S : Type 0} → (Log → Type 0) → Traced S → Type 0
OnLog P t = P t.log

module _ {S A : Type 0} (P : Log → Type 0) where
  pub Keeps-logged :
      (event : Outcome A → Event) (m : Action S A)
      → ((r : Outcome A) (es : Log) → P es → P (event r ∷ es))
      → Keeps (OnLog P) (logged event m)
  unfolding logged OnLog
  Keeps-logged event m h = record { at = λ t p. h (m t.inner).0 t.log p }

  pub Keeps-silent : (m : Action S A) → Keeps (OnLog P) (silent m)
  unfolding silent OnLog
  Keeps-silent m = record { at = λ t p. p }

-- A logged read whose answer the rest depends on.
module _ {S A B : Type 0} (P : Log → Type 0) (event : Outcome A → Event) where
  after_read :
      (r : Outcome A) (h : Error → Action (Traced S) B) (f : A → Action (Traced S) B) (s : S)
      (es : Log)
      → ((es : Log) (r : Outcome A) → P es → P (event r ∷ es))
      → ((e : Error) → Keeps (OnLog P) (h e))
      → ((a : A) (s : S) (es : Log)
          → P es
          → P (f a (record { inner = s; log = event (ok a) ∷ es })).1.log)
      → P es
      → P (resume r h f (record { inner = s; log = event r ∷ es })).1.log
  unfolding OnLog
  after_read (ok a) h f s es keep kh kf p = kf a s es p
  after_read (err e) h f s es keep kh kf p = (kh e).at _ (keep es (err e) p)
  after_read panic h f s es keep kh kf p = keep es panic p

  pub Keeps-read :
      (m : Action S A) (h : Error → Action (Traced S) B) (f : A → Action (Traced S) B)
      → ((es : Log) (r : Outcome A) → P es → P (event r ∷ es))
      → ((e : Error) → Keeps (OnLog P) (h e))
      → ((a : A) (s : S) (es : Log)
          → P es
          → P (f a (record { inner = s; log = event (ok a) ∷ es })).1.log)
      → Keeps (OnLog P) (attempt (logged event m) h f)
  unfolding logged OnLog
  Keeps-read m h f keep kh kf = record {
    at = λ t p. after_read (m t.inner).0 h f (m t.inner).1 t.log keep kh kf p;
  }

  pub Keeps-read_found :
      (m : Action S A) (n : Action (Traced S) B) (f : A → Action (Traced S) B)
      → ((es : Log) (r : Outcome A) → P es → P (event r ∷ es))
      → Keeps (OnLog P) n
      → ((a : A) (s : S) (es : Log)
          → P es
          → P (f a (record { inner = s; log = event (ok a) ∷ es })).1.log)
      → Keeps (OnLog P) (on_not_found (logged event m) n f)
  Keeps-read_found m n f keep kn kf =
      Keeps-read m _ f keep
        (λ e. Keeps-if (is_not_found e) n (raise e) (λ _. kn) (λ _. Keeps-raise e)) kf

pub ruleset trace_rules = (Keeps-logged, Keeps-silent)
