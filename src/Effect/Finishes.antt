-- ===== src/Effect/Finishes.antt =====
-- What an action answers and the state it leaves when it succeeds.
use live_pod_migration.Base.{◌≡◌, refl}
use live_pod_migration.Effect.{Action, Error, Outcome, ok, err, panic, resume, attempt}

pub record Finishes {S A : Type 0} (s : S) (Q : A → S → Type 0) (m : Action S A) : Type 0 where
  pub at : (a : A) (t : S) → m s ≡ (ok a, t) → Q a t

module _ {S A B : Type 0} (s : S) (Q : B → S → Type 0) where
  resumed :
      (r : Outcome A) (t : S) (h : Error → Action S B) (f : A → Action S B)
      → ((e : Error) → r ≡ err e → Finishes t Q (h e))
      → ((a : A) → r ≡ ok a → Finishes t Q (f a))
      → (b : B) (u : S) → resume r h f t ≡ (ok b, u)
      → Q b u
  resumed (ok a) t h f fh ff b u e = (ff a refl).at b u e
  resumed (err x) t h f fh ff b u e = (fh x refl).at b u e
  resumed panic t h f fh ff b u e = cc

  -- The rest starts where the first part ended.
  pub Finishes-attempt :
      (m : Action S A) (h : Error → Action S B) (f : A → Action S B)
      → ((e : Error) → (m s).0 ≡ err e → Finishes (m s).1 Q (h e))
      → ((a : A) → (m s).0 ≡ ok a → Finishes (m s).1 Q (f a))
      → Finishes s Q (attempt m h f)
  Finishes-attempt m h f fh ff = record { at = λ b u e. resumed (m s).0 (m s).1 h f fh ff b u e }
