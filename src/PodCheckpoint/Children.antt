-- ===== src/PodCheckpoint/Children.antt =====
-- How many children the pending phase of a PodCheckpoint creates.
use live_pod_migration.Base.{
  ℕ, suc, ◌+◌, ◌≤◌, ◌<◌, ◌≡◌, refl, ◌∙◌, ◌⊎◌, inl, inr, Bool, true, false, Option, none, some, List,
  [], ◌∷◌, String, arith, length, if◌then◌else◌,
}
use live_pod_migration.Effect.{
  Error, Outcome, ok, err, panic, is_not_found, pure, raise, deref, resume, ◌>>=◌, ◌>>◌,
}
use live_pod_migration.Api.Core.{Container}
use live_pod_migration.Api.Lpm.{ContainerCheckpoint, PodCheckpoint}
use live_pod_migration.World.{World}
use live_pod_migration.Reconcile.{key}
use live_pod_migration.World.Trace.{
  Event, created_container_checkpoint, got_container_checkpoint, got_pod, got_migration,
  got_pod_checkpoint, listed_children, created_pod, deleted_pod, wrote_migration,
  created_pod_checkpoint, wrote_pod_checkpoint, created_pod_content, wrote_pod_content,
  wrote_container_checkpoint, created_container_content, dialed, called_checkpoint, called_convert,
  hung_up, Log, Traced, traced, logged,
}
use live_pod_migration.PodCheckpoint.{child_name, new_child, ensure_child, ensure_children}

abbrev is_creation : Event → Bool
is_creation (created_container_checkpoint _) = true
is_creation (got_pod _ _) = false
is_creation (got_migration _) = false
is_creation (got_pod_checkpoint _) = false
is_creation (got_container_checkpoint _) = false
is_creation (listed_children _) = false
is_creation (created_pod _) = false
is_creation (deleted_pod _) = false
is_creation (wrote_migration _) = false
is_creation (created_pod_checkpoint _) = false
is_creation (wrote_pod_checkpoint _) = false
is_creation (created_pod_content _) = false
is_creation (wrote_pod_content _) = false
is_creation (wrote_container_checkpoint _) = false
is_creation (created_container_content _) = false
is_creation (dialed _) = false
is_creation (called_checkpoint _ _ _) = false
is_creation (called_convert _ _ _) = false
is_creation (hung_up _) = false

-- the calls that create a ContainerCheckpoint
abbrev pub creations : Log → ℕ
creations [] = 0
creations (e ∷ es) = let n = creations es in if is_creation e then suc n else n

-- From `old` creations and `before` on, with `n` containers: there is at most one creation for each
-- container, and the flag in the answer is set exactly if it was before or there was one.
abbrev pub Counted : ℕ → Bool → ℕ → Outcome Bool → Log → Type 0
Counted old before n (ok b) es =
    (creations es ≤ old + n)
    × (((b ≡ before) × (creations es ≡ old)) ⊎ ((b ≡ true) × (old < creations es)))
Counted old before n (err e) es = creations es ≤ old + n
Counted old before n panic es = creations es ≤ old + n

module _ {S : Type 0} (w : World S) where
  after_create :
      (before : Bool) (r : Outcome ContainerCheckpoint) (s : S) (es : Log) (c : ContainerCheckpoint)
      → let end =
          resume r raise
            (λ _. pure {S = Traced S} true)
            (record { inner = s; log = created_container_checkpoint c ∷ es }) in
        Counted (creations es) before 1 end.0 end.1.log
  after_create before (ok a) s es c = (omega arith, inr (refl, omega arith))
  after_create before (err e) s es c = omega arith
  after_create before panic s es c = omega arith

  created_for :
      (pc : PodCheckpoint) (before : Bool) (name : Option String) (c : Container) (s : S) (es : Log)
      → let end =
          (deref name >>= λ p.
          (traced w).create_container_checkpoint (new_child (traced w) pc p c.name) >> pure true)
            (record { inner = s; log = es }) in
        Counted (creations es) before 1 end.0 end.1.log
  unfolding logged
  created_for pc before none c s es = omega arith
  created_for pc before (some p) c s es =
      let child = new_child w pc p c.name in
      after_create before (w.create_container_checkpoint child s).0
        (w.create_container_checkpoint child s).1 es child

  refused :
      (pc : PodCheckpoint) (before missing : Bool) (e : Error) (c : Container) (s : S) (es : Log)
      → let end =
          (if missing
              then (deref pc.spec.pod_name >>= λ p.
                  (traced w).create_container_checkpoint (new_child (traced w) pc p c.name)
                  >> pure true)
              else raise e)
            (record { inner = s; log = es }) in
        Counted (creations es) before 1 end.0 end.1.log
  refused pc before true e c s es = created_for pc before pc.spec.pod_name c s es
  refused pc before false e c s es = omega arith

  after_get :
      (pc : PodCheckpoint) (before : Bool) (r : Outcome ContainerCheckpoint) (c : Container) (s : S)
      (es : Log)
      → let end =
          resume r
            (λ e.
              if is_not_found e
              then (deref pc.spec.pod_name >>= λ p.
                  (traced w).create_container_checkpoint (new_child (traced w) pc p c.name)
                  >> pure true)
              else raise e)
            (λ _. pure before)
            (record { inner = s; log = got_container_checkpoint r ∷ es }) in
        Counted (creations es) before 1 end.0 end.1.log
  after_get pc before (ok a) c s es = (omega arith, inl (refl, refl))
  after_get pc before (err e) c s es =
      refused pc before (is_not_found e) e c s (got_container_checkpoint (err e) ∷ es)
  after_get pc before panic c s es = omega arith

  ensure_child-Counted :
      (pc : PodCheckpoint) (before : Bool) (c : Container) (t : Traced S)
      → let end = ensure_child (traced w) pc before c t in
        Counted (creations t.log) before 1 end.0 end.1.log
  unfolding ensure_child logged
  ensure_child-Counted pc before c t =
      let r = w.get_container_checkpoint (key pc.meta.namespace (child_name w pc c.name)) t.inner in
      after_get pc before r.0 c r.1 t.log

  Counted-then :
      (old mid : ℕ) (before b : Bool) (n : ℕ) (r : Outcome Bool) (es : Log)
      → mid ≤ old + 1
      → (((b ≡ before) × (mid ≡ old)) ⊎ ((b ≡ true) × (old < mid)))
      → Counted mid b n r es
      → Counted old before (suc n) r es
  Counted-then old mid before b n (ok x) es le (inl (same, e)) (less, inl (p, q)) =
      (omega arith, inl (p ∙ same, q ∙ e))
  Counted-then old mid before b n (ok x) es le (inl (same, e)) (less, inr (p, q)) =
      (omega arith, inr (p, omega arith))
  Counted-then old mid before b n (ok x) es le (inr (e, up)) (less, inl (p, q)) =
      (omega arith, inr (p ∙ e, omega arith))
  Counted-then old mid before b n (ok x) es le (inr (e, up)) (less, inr (p, q)) =
      (omega arith, inr (p, omega arith))
  Counted-then old mid before b n (err x) es le _ less = omega arith
  Counted-then old mid before b n panic es le _ less = omega arith

  after_child :
      (pc : PodCheckpoint) (old : ℕ) (before : Bool) (r : Outcome Bool) (cs : List Container)
      (s : S) (es : Log)
      → Counted old before 1 r es
      → ((b : Bool) (t : Traced S)
          → let end = ensure_children (traced w) pc b cs t in
            Counted (creations t.log) b (length cs) end.0 end.1.log)
      → let end =
          resume r raise
            (λ b. ensure_children (traced w) pc b cs)
            (record { inner = s; log = es }) in
        Counted old before (suc (length cs)) end.0 end.1.log
  after_child pc old before (ok b) cs s es (less, h) rest =
      Counted-then old (creations es) before b (length cs) _ _ less h
        (rest b (record { inner = s; log = es }))
  after_child pc old before (err e) cs s es less rest = omega arith
  after_child pc old before panic cs s es less rest = omega arith

-- The loop over the containers creates at most one child for each container, however it ends; if it
-- succeeds, `createdAny` says whether it created one.
pub ensure_children-Counted :
    {S : Type 0} (w : World S) (pc : PodCheckpoint) (before : Bool) (cs : List Container)
    (t : Traced S)
    → Counted
        (creations t.log)
        before
        (length cs)
        (ensure_children (traced w) pc before cs t).0
        (ensure_children (traced w) pc before cs t).1.log
unfolding ensure_children
ensure_children-Counted w pc before [] t = (omega arith, inl (refl, refl))
ensure_children-Counted w pc before (c ∷ cs) t =
    let r = ensure_child (traced w) pc before c t in
    after_child w pc (creations t.log) before r.0 cs r.1.inner r.1.log
      (ensure_child-Counted w pc before c t) (λ b u. ensure_children-Counted w pc b cs u)
