-- ===== src/Effect/Logged.antt =====
-- A state with a log of the calls made of it, the newest first, and actions by what they log.
use live_pod_migration.Base.{◌≡◌, refl, sym, ap, ◌∙◌, ◌≢◌, List, [], ◌∷◌, ◌++◌}
use mathlib.Core.List.{append_assoc, append-nil}
use live_pod_migration.Effect.{
  Action, Error, Outcome, ok, err, panic, pure, raise, crash, resume, attempt, ◌>>◌,
}

pub record WithLog (E S : Type 0) : Type 0 where
  pub inner : S
  pub log : List E

-- a state with an empty log
abbrev pub unlogged : {E S : Type 0} → S → WithLog E S
unlogged s = record { inner = s; log = [] }

abbrev pub noted : {E A : Type 0} → Outcome A → (A → E) → List E → List E
noted (ok a) event es = event a ∷ es
noted (err e) event es = es
noted panic event es = es

module _ {E S A : Type 0} where
  unfoldable pub logged : (Outcome A → E) → Action S A → Action (WithLog E S) A
  logged event m t = let (r, s) = m t.inner in (r, record { inner = s; log = event r ∷ t.log })

  unfoldable pub silent : Action S A → Action (WithLog E S) A
  silent m t = let (r, s) = m t.inner in (r, record { inner = s; log = t.log })

  -- logged if it succeeds
  unfoldable pub logged_ok : (A → E) → Action S A → Action (WithLog E S) A
  logged_ok event m t =
      let (r, s) = m t.inner in (r, record { inner = s; log = noted r event t.log })

-- What an action that ended with `r` and the log `es` has logged since the log was `old`: all of `new`
-- if it succeeded, and in any case some of it, in order.
pub data Logs {E A : Type 0} (new old : List E) : Outcome A → List E → Type 0 where
  all : {r : Outcome A} {es : List E} → es ≡ new ++ old → Logs new old r es
  partly :
      {r : Outcome A} {es : List E} (later earlier : List E)
      → ((a : A) → r ≢ ok a)
      → new ≡ later ++ earlier
      → es ≡ earlier ++ old
      → Logs new old r es

-- the same since the log was empty
pub Logs-widen :
    {E A : Type 0} {new old es : List E} {r : Outcome A}
    → Logs new old r es
    → Logs (new ++ old) [] r es
Logs-widen {new = new} {old = old} (all same) = all (same ∙ sym (append-nil (new ++ old)))
Logs-widen {new = new} {old = old} (partly later earlier bad cut same) =
    partly later (earlier ++ old) bad (ap (λ l. l ++ old) cut ∙ append_assoc later earlier old)
      (same ∙ sym (append-nil (earlier ++ old)))

pub record Appends {E S A : Type 0} (new : List E) (m : Action (WithLog E S) A) : Type 0 where
  pub at : (t : WithLog E S) → Logs new t.log (m t).0 (m t).1.log

-- a call is logged or was refused
noted-Logs :
    {E A : Type 0} (r : Outcome A) (event : A → E) (e : E) (es : List E)
    → ((a : A) → event a ≡ e)
    → Logs (e ∷ []) es r (noted r event es)
noted-Logs (ok a) event e es same = all (ap (λ x. x ∷ es) (same a))
noted-Logs (err x) event e es same = partly (e ∷ []) [] (λ a h. cc) refl refl
noted-Logs panic event e es same = partly (e ∷ []) [] (λ a h. cc) refl refl

module _ {E S A : Type 0} where
  pub Appends-logged_ok :
      (event : A → E) (e : E) (m : Action S A)
      → ((a : A) → event a ≡ e)
      → Appends (e ∷ []) (logged_ok event m)
  unfolding logged_ok
  Appends-logged_ok event e m same = record {
    at = λ t. noted-Logs (m t.inner).0 event e t.log same;
  }

  -- logged however it ends
  pub Appends-logged : (e : E) (m : Action S A) → Appends (e ∷ []) (logged (λ _. e) m)
  unfolding logged
  Appends-logged e m = record { at = λ t. all refl }

  pub Appends-silent : (m : Action S A) → Appends {E = E} [] (silent m)
  unfolding silent
  Appends-silent m = record { at = λ t. all refl }

  pub Appends-raise : (e : Error) → Appends {E = E} {S = S} {A = A} [] (raise e)
  Appends-raise e = record { at = λ t. all refl }

  pub Appends-pure : (a : A) → Appends {E = E} {S = S} [] (pure a)
  Appends-pure a = record { at = λ t. all refl }

module _ {E S A B : Type 0} where
  resumed :
      (new more : List E) (old es : List E) (r : Outcome A) (f : A → Action (WithLog E S) B) (s : S)
      (h : Error → Action (WithLog E S) B)
      → ((x : Error) (t : WithLog E S) → ((b : B) → (h x t).0 ≢ ok b) × ((h x t).1.log ≡ t.log))
      → ((a : A) → Appends more (f a))
      → Logs new old r es
      → Logs
          (more ++ new)
          old
          (resume r h f (record { inner = s; log = es })).0
          (resume r h f (record { inner = s; log = es })).1.log
  resumed new more old es (ok a) f s h fails af (all same) =
      continue_with ((af a).at (record { inner = s; log = es }))
    where
      continue_with :
          {r : Outcome B} {fs : List E} → Logs more es r fs → Logs (more ++ new) old r fs
      continue_with (all p) = all (p ∙ ap (λ l. more ++ l) same ∙ sym (append_assoc more new old))
      continue_with (partly later earlier bad cut p) =
          partly later (earlier ++ new) bad
            (ap (λ l. l ++ new) cut ∙ append_assoc later earlier new)
            (p ∙ ap (λ l. earlier ++ l) same ∙ sym (append_assoc earlier new old))
  resumed new more old es (ok a) f s h fails af (partly later earlier bad cut p) =
      absurd (bad a refl)
  resumed new more old es (err x) f s h fails af (all same) =
      let (bad, kept) = fails x (record { inner = s; log = es }) in
      partly more new bad refl (kept ∙ same)
  resumed new more old es (err x) f s h fails af (partly later earlier _ cut p) =
      let (bad, kept) = fails x (record { inner = s; log = es }) in
      partly (more ++ later) earlier bad
        (ap (λ l. more ++ l) cut ∙ sym (append_assoc more later earlier)) (kept ∙ p)
  resumed new more old es panic f s h fails af (all same) = partly more new (λ b e. cc) refl same
  resumed new more old es panic f s h fails af (partly later earlier _ cut p) =
      partly (more ++ later) earlier (λ b e. cc)
        (ap (λ l. more ++ l) cut ∙ sym (append_assoc more later earlier)) p

  attempt-Appends :
      (new more : List E) (m : Action (WithLog E S) A) (h : Error → Action (WithLog E S) B)
      (f : A → Action (WithLog E S) B)
      → ((x : Error) (t : WithLog E S) → ((b : B) → (h x t).0 ≢ ok b) × ((h x t).1.log ≡ t.log))
      → Appends new m
      → ((a : A) → Appends more (f a))
      → Appends (more ++ new) (attempt m h f)
  attempt-Appends new more m h f fails am af = record {
    at = λ t. resumed new more t.log (m t).1.log (m t).0 f (m t).1.inner h fails af (am.at t);
  }

  -- one after the other, where a failure of the first ends both
  pub Appends-attempt :
      (new more : List E) (m : Action (WithLog E S) A) (g : Error → Error)
      (f : A → Action (WithLog E S) B)
      → Appends new m
      → ((a : A) → Appends more (f a))
      → Appends (more ++ new) (attempt m (λ e. raise (g e)) f)
  Appends-attempt new more m g f am af =
      attempt-Appends new more m (λ e. raise (g e)) f (λ x t. ((λ b e. cc), refl)) am af

  pub Appends-then :
      (new more : List E) (m : Action (WithLog E S) A) (n : Action (WithLog E S) B)
      → Appends new m
      → Appends more n
      → Appends (more ++ new) (m >> n)
  Appends-then new more m n am an = Appends-attempt new more m (λ e. e) (λ _. n) am (λ _. an)

  -- where it is a panic
  pub Appends-attempt-crash :
      (new more : List E) (m : Action (WithLog E S) A) (f : A → Action (WithLog E S) B)
      → Appends new m
      → ((a : A) → Appends more (f a))
      → Appends (more ++ new) (attempt m (λ e. crash) f)
  Appends-attempt-crash new more m f am af =
      attempt-Appends new more m (λ e. crash) f (λ x t. ((λ b e. cc), refl)) am af

module _ {E S A : Type 0} where
  -- with its error worded anew
  pub Appends-reworded :
      (new : List E) (m : Action (WithLog E S) A) (g : Error → Error)
      → Appends new m
      → Appends new (attempt m (λ e. raise (g e)) pure)
  Appends-reworded new m g am = Appends-attempt new [] m g pure am (λ a. Appends-pure a)
