-- ===== src/Effect/Succeeds.antt =====
-- Actions that succeed from every state.
use live_pod_migration.Base.{◌≡◌, refl, Bool, true, false, if◌then◌else◌}
use live_pod_migration.Effect.{Action, Error, Outcome, ok, err, panic, pure, resume, attempt}
use live_pod_migration.Effect.Logged.{logged, logged_ok, silent}

pub record Succeeds {S A : Type 0} (m : Action S A) : Type 0 where
  pub at : (s : S) → (a : A) × ((m s).0 ≡ ok a)

module _ {S A : Type 0} where
  pub Succeeds-pure : (a : A) → Succeeds {S = S} (pure a)
  Succeeds-pure a = record { at = λ s. (a, refl) }

  pub Succeeds-if :
      (test : Bool) (m n : Action S A) → Succeeds m → Succeeds n → Succeeds (if test then m else n)
  Succeeds-if true m n sm sn = sm
  Succeeds-if false m n sm sn = sn

  resumed :
      {B : Type 0} (r : Outcome A) (h : Error → Action S B) (f : A → Action S B) (t : S)
      → (a : A) × (r ≡ ok a)
      → ((a : A) → Succeeds (f a))
      → (b : B) × ((resume r h f t).0 ≡ ok b)
  resumed (ok a) h f t ends sf = (sf a).at t
  resumed (err e) h f t (a, e') sf = cc
  resumed panic h f t (a, e') sf = cc

  pub Succeeds-attempt :
      {B : Type 0} (m : Action S A) (h : Error → Action S B) (f : A → Action S B)
      → Succeeds m
      → ((a : A) → Succeeds (f a))
      → Succeeds (attempt m h f)
  Succeeds-attempt m h f sm sf = record { at = λ s. resumed (m s).0 h f (m s).1 (sm.at s) sf }

-- a log changes no outcome
module _ {E S A : Type 0} (m : Action S A) (sm : Succeeds m) where
  pub Succeeds-logged : (event : Outcome A → E) → Succeeds (logged event m)
  unfolding logged
  Succeeds-logged event = record { at = λ t. sm.at t.inner }

  pub Succeeds-logged_ok : (event : A → E) → Succeeds (logged_ok event m)
  unfolding logged_ok
  Succeeds-logged_ok event = record { at = λ t. sm.at t.inner }

  pub Succeeds-silent : Succeeds (silent {E = E} m)
  unfolding silent
  Succeeds-silent = record { at = λ t. sm.at t.inner }
