-- ===== src/Effect/Grants.antt =====
-- What a success brings about: `Grants Q m` says that `m` ends in a state with `Q` if it succeeds.
use live_pod_migration.Base.{Bool, true, false, if◌then◌else◌}
use live_pod_migration.Effect.{
  Action, Error, Outcome, ok, err, panic, raise, resume, attempt, ◌>>=◌,
}
use live_pod_migration.Effect.Keeps.{Keeps}

abbrev pub Granted : {S A : Type 0} → (S → Type 0) → Outcome A → S → Type 0
Granted Q (ok a) s = Q s
Granted Q (err e) s = Unit
Granted Q panic s = Unit

pub record Grants {S A : Type 0} (Q : S → Type 0) (m : Action S A) : Type 0 where
  pub at : (s : S) → Granted Q (m s).0 (m s).1

module _ {S A : Type 0} {Q : S → Type 0} where
  pub Grants-raise : (e : Error) → Grants {A = A} Q (raise e)
  Grants-raise e = record { at = λ s. tt }

  pub Grants-if :
      (test : Bool) (m n : Action S A) → Grants Q m → Grants Q n → Grants Q (if test then m else n)
  Grants-if true m n gm gn = gm
  Grants-if false m n gm gn = gn

Granted-kept : {S B : Type 0} (Q : S → Type 0) (r : Outcome B) (s : S) → Q s → Granted Q r s
Granted-kept Q (ok b) s q = q
Granted-kept Q (err e) s q = tt
Granted-kept Q panic s q = tt

module _ {S A B : Type 0} {Q : S → Type 0} where
  resumed :
      (r : Outcome A) (h : Error → Action S B) (f : A → Action S B) (s : S)
      → Granted Q r s
      → ((e : Error) → Grants Q (h e))
      → ((a : A) → Keeps Q (f a))
      → Granted Q (resume r h f s).0 (resume r h f s).1
  resumed (ok a) h f s q gh kf = Granted-kept Q (f a s).0 (f a s).1 ((kf a).at s q)
  resumed (err e) h f s q gh kf = (gh e).at s
  resumed panic h f s q gh kf = tt

  -- granted by the first part, and kept by the rest
  pub Grants-attempt :
      (m : Action S A) (h : Error → Action S B) (f : A → Action S B)
      → Grants Q m
      → ((e : Error) → Grants Q (h e))
      → ((a : A) → Keeps Q (f a))
      → Grants Q (attempt m h f)
  Grants-attempt m h f gm gh kf = record { at = λ s. resumed (m s).0 h f (m s).1 (gm.at s) gh kf }

  continued :
      (r : Outcome A) (f : A → Action S B) (s : S)
      → ((a : A) → Grants Q (f a))
      → Granted Q (resume r raise f s).0 (resume r raise f s).1
  continued (ok a) f s gf = (gf a).at s
  continued (err e) f s gf = tt
  continued panic f s gf = tt

  -- granted by the rest
  pub Grants-bind :
      (m : Action S A) (f : A → Action S B) → ((a : A) → Grants Q (f a)) → Grants Q (m >>= f)
  Grants-bind m f gf = record { at = λ s. continued (m s).0 f (m s).1 gf }
