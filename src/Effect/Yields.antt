-- ===== src/Effect/Yields.antt =====
-- What an action answers when it succeeds: `Yields Q m` says that every value of `m` has `Q`.
use live_pod_migration.Base.{◌≡◌, refl, Bool, true, false, Option, none, some, if◌then◌else◌}
use live_pod_migration.Effect.{
  Error, Outcome, ok, err, panic, Action, pure, raise, resume, attempt, ◌>>=◌, finally, maybe,
}
use live_pod_migration.Effect.Keeps.{Keeps, Keeps-raise}

pub record Yields {S A : Type 0} (Q : A → Type 0) (m : Action S A) : Type 0 where
  pub at : (s : S) (a : A) → (m s).0 ≡ ok a → Q a

ok-injective : {A : Type 0} (Q : A → Type 0) {a b : A} → Q a → ok a ≡ ok b → Q b
ok-injective Q {a} {b} q e = let p : a ≡ b = cc in rw p at q

module _ {S A : Type 0} {Q : A → Type 0} where
  pub Yields-pure : (a : A) → Q a → Yields {S = S} Q (pure a)
  Yields-pure a q = record { at = λ s b e. ok-injective Q q e }

  pub Yields-raise : (e : Error) → Yields {S = S} Q (raise e)
  Yields-raise e = record { at = λ s b h. cc }

  pub Yields-if :
      (b : Bool) (m n : Action S A)
      → (b ≡ true → Yields Q m)
      → (b ≡ false → Yields Q n)
      → Yields Q (if b then m else n)
  Yields-if true m n ym yn = ym refl
  Yields-if false m n ym yn = yn refl

-- a deferred call changes no answer
pub Yields-finally :
    {S A B : Type 0} {Q : A → Type 0} (m : Action S A) (last : Action S B)
    → Yields Q m
    → Yields Q (finally m last)
Yields-finally m last y = record { at = λ s a e. y.at s a e }

pub Yields-weaken :
    {S A : Type 0} {Q R : A → Type 0} {m : Action S A}
    → Yields Q m
    → ((a : A) → Q a → R a)
    → Yields R m
Yields-weaken y h = record { at = λ s a e. h a (y.at s a e) }

module _ {S A B : Type 0} {Q : B → Type 0} where
  pub Yields-maybe :
      (o : Option A) (m : Action S B) (f : A → Action S B)
      → (o ≡ none → Yields Q m)
      → ((a : A) → o ≡ some a → Yields Q (f a))
      → Yields Q (maybe o m f)
  Yields-maybe none m f ym yf = ym refl
  Yields-maybe (some a) m f ym yf = yf a refl

  resume-Yields :
      (r : Outcome A) (h : Error → Action S B) (f : A → Action S B)
      → ((e : Error) → Yields Q (h e))
      → ((a : A) → r ≡ ok a → Yields Q (f a))
      → Yields Q (resume r h f)
  resume-Yields (ok a) h f yh yf = yf a refl
  resume-Yields (err e) h f yh yf = yh e
  resume-Yields panic h f yh yf = record { at = λ s b e. cc }

  pub Yields-attempt :
      (m : Action S A) (h : Error → Action S B) (f : A → Action S B)
      → ((e : Error) → Yields Q (h e))
      → ((a : A) → Yields Q (f a))
      → Yields Q (attempt m h f)
  Yields-attempt m h f yh yf = record {
    at = λ s b e. (resume-Yields (m s).0 h f yh (λ a _. yf a)).at (m s).1 b e;
  }

  -- The rest may use what the first part yields.
  pub Yields-caught :
      (R : A → Type 0) (m : Action S A) (h : Error → Action S B) (f : A → Action S B)
      → Yields R m
      → ((e : Error) → Yields Q (h e))
      → ((a : A) → R a → Yields Q (f a))
      → Yields Q (attempt m h f)
  Yields-caught R m h f ym yh yf = record {
    at = λ s b e. (resume-Yields (m s).0 h f yh (λ a p. yf a (ym.at s a p))).at (m s).1 b e;
  }

  pub Yields-bind :
      (R : A → Type 0) (m : Action S A) (f : A → Action S B)
      → Yields R m
      → ((a : A) → R a → Yields Q (f a))
      → Yields Q (m >>= f)
  Yields-bind R m f ym yf = Yields-caught R m raise f ym (λ x. Yields-raise x) yf

-- What the rest yields for the answer that the first part gave, where a failure of that ends both.
module _ {S A B : Type 0} (Q : A → B → Type 0) (g : Error → Error) (f : A → Action S B)
    (yf : (a : A) → Yields (Q a) (f a)) where
  answered :
      (r : Outcome A) (t : S) (b : B)
      → (resume r (λ e. raise (g e)) f t).0 ≡ ok b
      → (a : A) × (r ≡ ok a) × Q a b
  answered (ok a) t b e = (a, refl, (yf a).at t b e)
  answered (err x) t b e = cc
  answered panic t b e = cc

  pub yields_of_answer :
      (m : Action S A) (s : S) (b : B)
      → (attempt m (λ e. raise (g e)) f s).0 ≡ ok b
      → (a : A) × ((m s).0 ≡ ok a) × Q a b
  yields_of_answer m s b e = answered (m s).0 (m s).1 b e

module _ {S A B : Type 0} {P : S → Type 0} where
  resume-Keeps :
      (r : Outcome A) (f : A → Action S B)
      → ((a : A) → r ≡ ok a → Keeps P (f a))
      → Keeps P (resume r raise f)
  resume-Keeps (ok a) f kf = kf a refl
  resume-Keeps (err e) f kf = Keeps-raise e
  resume-Keeps panic f kf = record { at = λ s p. p }

  -- An invariant of a sequence whose second part needs what the first one yields.
  pub Keeps-bind_of_Yields :
      (R : A → Type 0) (m : Action S A) (f : A → Action S B)
      → Keeps P m
      → Yields R m
      → ((a : A) → R a → Keeps P (f a))
      → Keeps P (m >>= f)
  Keeps-bind_of_Yields R m f km ym kf = record {
    at = λ s p. (resume-Keeps (m s).0 f (λ a e. kf a (ym.at s a e))).at (m s).1 (km.at s p);
  }
