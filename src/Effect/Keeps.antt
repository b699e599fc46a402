-- ===== src/Effect/Keeps.antt =====
-- Invariants of actions: `Keeps P m` says that `m` takes every state with `P` to one with `P`, however
-- it ends. One rule for each way in which the handlers build an action.
use live_pod_migration.Base.{◌≡◌, refl, Bool, true, false, Option, none, some, if◌then◌else◌}
use live_pod_migration.Effect.{
  Error, Outcome, ok, err, panic, Action, is_not_found, pure, raise, deref, resume, attempt, ◌>>=◌,
  on_not_found, finally, maybe,
}

pub record Keeps {S A : Type 0} (P : S → Type 0) (m : Action S A) : Type 0 where
  pub at : (s : S) → P s → P (m s).1

module _ {S A : Type 0} {P : S → Type 0} where
  pub Keeps-if :
      (test : Bool) (first second : Action S A)
      → (test ≡ true → Keeps P first)
      → (test ≡ false → Keeps P second)
      → Keeps P (if test then first else second)
  Keeps-if true first second kept kept_else = kept refl
  Keeps-if false first second kept kept_else = kept_else refl

  pub Keeps-deref : (o : Option A) → Keeps {S = S} P (deref o)
  Keeps-deref none = record { at = λ s p. p }
  Keeps-deref (some a) = record { at = λ s p. p }

  pub Keeps-pure : (a : A) → Keeps {S = S} P (pure a)
  Keeps-pure a = record { at = λ s p. p }

  pub Keeps-raise : (e : Error) → Keeps {S = S} {A = A} P (raise e)
  Keeps-raise e = record { at = λ s p. p }

module _ {S A B : Type 0} {P : S → Type 0} where
  pub Keeps-resume :
      (r : Outcome A) (h : Error → Action S B) (f : A → Action S B)
      → ((e : Error) → Keeps P (h e))
      → ((a : A) → Keeps P (f a))
      → Keeps P (resume r h f)
  Keeps-resume (ok a) h f kh kf = kf a
  Keeps-resume (err e) h f kh kf = kh e
  Keeps-resume panic h f kh kf = record { at = λ s p. p }

  pub Keeps-attempt :
      (m : Action S A) (h : Error → Action S B) (f : A → Action S B)
      → Keeps P m
      → ((e : Error) → Keeps P (h e))
      → ((a : A) → Keeps P (f a))
      → Keeps P (attempt m h f)
  Keeps-attempt m h f km kh kf = record {
    at = λ s p. (Keeps-resume (m s).0 h f kh kf).at (m s).1 (km.at s p);
  }

  pub Keeps-maybe :
      (o : Option A) (m : Action S B) (f : A → Action S B)
      → (o ≡ none → Keeps P m)
      → ((a : A) → o ≡ some a → Keeps P (f a))
      → Keeps P (maybe o m f)
  Keeps-maybe none m f km kf = km refl
  Keeps-maybe (some a) m f km kf = kf a refl

  pub Keeps-finally :
      (m : Action S A) (n : Action S B) → Keeps P m → Keeps P n → Keeps P (finally m n)
  Keeps-finally m n km kn = record { at = λ s p. kn.at (m s).1 (km.at s p) }

module _ {S A B : Type 0} {P : S → Type 0} where
  pub Keeps-bind :
      (m : Action S A) (f : A → Action S B)
      → Keeps P m
      → ((a : A) → Keeps P (f a))
      → Keeps P (m >>= f)
  Keeps-bind m f km kf = Keeps-attempt m raise f km (λ e. Keeps-raise e) kf

  pub Keeps-on_not_found :
      (m : Action S A) (n : Action S B) (f : A → Action S B)
      → Keeps P m
      → Keeps P n
      → ((a : A) → Keeps P (f a))
      → Keeps P (on_not_found m n f)
  Keeps-on_not_found m n f km kn kf =
      Keeps-attempt m _ f km
        (λ e. Keeps-if (is_not_found e) n (raise e) (λ _. kn) (λ _. Keeps-raise e)) kf

pub ruleset keeps_rules = (
  Keeps-pure, Keeps-raise, Keeps-deref, Keeps-if, Keeps-attempt, Keeps-maybe, Keeps-finally,
  Keeps-bind, Keeps-on_not_found,
)
