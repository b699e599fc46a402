-- ===== src/Effect/Ends.antt =====
-- How an action ends: its outcome and its log together, where a later part depends on what an earlier
-- one answered.
use live_pod_migration.Base.{
  ◌≡◌, refl, ap, sym, ◌≢◌, Bool, true, false, List, [], ◌∷◌, ◌++◌, if◌then◌else◌,
}
use live_pod_migration.Effect.{
  Action, Error, Outcome, ok, err, panic, pure, raise, resume, attempt, ◌>>=◌,
}
use live_pod_migration.Effect.Logged.{WithLog, logged_ok, silent, noted}

-- `a` has `R` and `new a` was logged, or the action failed and logged nothing
pub Made : {E A : Type 0} → (A → Type 0) → (A → List E) → List E → Outcome A → List E → Type 0
Made R new old (ok a) es = R a × (es ≡ new a ++ old)
Made R new old (err e) es = es ≡ old
Made R new old panic es = es ≡ old

pub record Makes {E S A : Type 0} (R : A → Type 0) (new : A → List E) (m : Action (WithLog E S) A)
    : Type 0 where
  pub at : (t : WithLog E S) → Made R new t.log (m t).0 (m t).1.log

abbrev pub Any : {A : Type 0} → A → Type 0
Any a = Unit

abbrev pub nothing : {E A : Type 0} → A → List E
nothing a = []

module _ {E A : Type 0} where
  noted-Made :
      (r : Outcome A) (event : A → E) (es : List E)
      → Made Any (λ a. event a ∷ []) es r (noted r event es)
  unfolding Made
  noted-Made (ok a) event es = (tt, refl)
  noted-Made (err e) event es = refl
  noted-Made panic event es = refl

  kept-Made : (r : Outcome A) (es : List E) → Made Any nothing es r es
  unfolding Made
  kept-Made (ok a) es = (tt, refl)
  kept-Made (err e) es = refl
  kept-Made panic es = refl

module _ {E S A : Type 0} where
  pub Makes-logged_ok :
      (event : A → E) (m : Action S A) → Makes Any (λ a. event a ∷ []) (logged_ok event m)
  unfolding logged_ok
  Makes-logged_ok event m = record { at = λ t. noted-Made (m t.inner).0 event t.log }

  pub Makes-silent : (m : Action S A) → Makes {E = E} Any nothing (silent m)
  unfolding silent
  Makes-silent m = record { at = λ t. kept-Made (m t.inner).0 t.log }

  -- a value for which nothing is to be logged
  pub Makes-just :
      (R : A → Type 0) (new : A → List E) (a : A) → R a → new a ≡ [] → Makes {S = S} R new (pure a)
  unfolding Made
  Makes-just R new a r none_new = record { at = λ t. (r, ap (λ l. l ++ t.log) (sym none_new)) }

  pub Makes-if :
      (R : A → Type 0) (new : A → List E) (test : Bool) (m n : Action (WithLog E S) A)
      → (test ≡ true → Makes R new m)
      → (test ≡ false → Makes R new n)
      → Makes R new (if test then m else n)
  Makes-if R new true m n mm mn = mm refl
  Makes-if R new false m n mm mn = mn refl

module _ {E S A : Type 0} (R : A → Type 0) (g : Error → Error) where
  resumed :
      {B : Type 0} (Q : B → Type 0) (new : B → List E) (old es : List E) (r : Outcome A)
      (f : A → Action (WithLog E S) B) (s : S)
      → Made R nothing old r es
      → ((a : A) → R a → Makes Q new (f a))
      → Made Q new old
          (resume r (λ e. raise (g e)) f (record { inner = s; log = es })).0
          (resume r (λ e. raise (g e)) f (record { inner = s; log = es })).1.log
  unfolding Made
  resumed Q new old es (ok a) f s (q, same) mf =
      rw same ((mf a q).at (record { inner = s; log = old }))
  resumed Q new old es (err e) f s same mf = same
  resumed Q new old es panic f s same mf = same

  -- after an action that logs nothing
  pub Makes-attempt :
      {B : Type 0} (Q : B → Type 0) (new : B → List E) (m : Action (WithLog E S) A)
      (f : A → Action (WithLog E S) B)
      → Makes R nothing m
      → ((a : A) → R a → Makes Q new (f a))
      → Makes Q new (attempt m (λ e. raise (g e)) f)
  Makes-attempt Q new m f mm mf = record {
    at = λ t. resumed Q new t.log (m t).1.log (m t).0 f (m t).1.inner (mm.at t) mf;
  }

  returned :
      (new : A → List E) (old es : List E) (r : Outcome A) (s : S)
      → Made R new old r es
      → Made R new old
          (resume {S = WithLog E S} r (λ e. raise (g e)) pure (record { inner = s; log = es })).0
          (resume {S = WithLog E S} r
            (λ e. raise (g e))
            pure
            (record { inner = s; log = es })).1.log
  unfolding Made
  returned new old es (ok a) s h = h
  returned new old es (err e) s h = h
  returned new old es panic s h = h

  -- with its error worded anew
  pub Makes-reworded :
      (new : A → List E) (m : Action (WithLog E S) A)
      → Makes R new m
      → Makes R new (attempt m (λ e. raise (g e)) pure)
  Makes-reworded new m mm = record {
    at = λ t. returned new t.log (m t).1.log (m t).0 (m t).1.inner (mm.at t);
  }

module _ {E S A B : Type 0} (R : A → Type 0) (Q : B → Type 0) (g : A → B) (new : B → List E) where
  mapped :
      (old es : List E) (r : Outcome A) (s : S)
      → Made R (λ a. new (g a)) old r es
      → ((a : A) → R a → Q (g a))
      → Made Q new old
          (resume {S = WithLog E S} r raise (λ a. pure (g a)) (record { inner = s; log = es })).0
          (resume {S = WithLog E S} r raise
            (λ a. pure (g a))
            (record { inner = s; log = es })).1.log
  unfolding Made
  mapped old es (ok a) s (q, same) h = (h a q, same)
  mapped old es (err e) s same h = same
  mapped old es panic s same h = same

  -- with its value under a function
  pub Makes-map :
      (m : Action (WithLog E S) A)
      → Makes R (λ a. new (g a)) m
      → ((a : A) → R a → Q (g a))
      → Makes Q new (m >>= λ a. pure (g a))
  Makes-map m mm h = record { at = λ t. mapped t.log (m t).1.log (m t).0 (m t).1.inner (mm.at t) h }

-- what an action that starts with the log `start` ends with
pub record Ends {E S A : Type 0} (start : List E) (Q : Outcome A → List E → Type 0)
    (m : Action (WithLog E S) A) : Type 0 where
  pub at : (s : S) → let r = m (record { inner = s; log = start }) in Q r.0 r.1.log

module _ {E S A B : Type 0} (R : A → Type 0) (new : A → List E) (start : List E)
    (Q : Outcome B → List E → Type 0) where
  ended :
      (r : Outcome A) (es : List E) (f : A → Action (WithLog E S) B) (s : S)
      → Made R new start r es
      → ((x : Outcome B) → ((b : B) → x ≢ ok b) → Q x start)
      → ((a : A) → R a → Ends (new a ++ start) Q (f a))
      → Q
          (resume r raise f (record { inner = s; log = es })).0
          (resume r raise f (record { inner = s; log = es })).1.log
  unfolding Made
  ended (ok a) es f s (q, same) bad ef = rw same ((ef a q).at s)
  ended (err e) es f s same bad ef = rw same (bad (err e) (λ b h. cc))
  ended panic es f s same bad ef = rw same (bad panic (λ b h. cc))

  pub Ends-bind :
      (m : Action (WithLog E S) A) (f : A → Action (WithLog E S) B)
      → Makes R new m
      → ((x : Outcome B) → ((b : B) → x ≢ ok b) → Q x start)
      → ((a : A) → R a → Ends (new a ++ start) Q (f a))
      → Ends start Q (m >>= f)
  Ends-bind m f mm bad ef = record {
    at = λ s.
        let t : WithLog E S = record { inner = s; log = start } in
        ended (m t).0 (m t).1.log f (m t).1.inner (mm.at t) bad ef;
  }
