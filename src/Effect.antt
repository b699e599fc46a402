-- ===== src/Effect.antt =====
-- The calls of the program: state passing with Go's error results. `err e` stands for a call that
-- returned a non-nil error (the other results are then not used), `panic` for a nil dereference.
pub mod Keeps
pub mod Yields
pub mod Logged
pub mod Ends
pub mod Finishes
pub mod Succeeds
pub mod Grants
use live_pod_migration.Base.{String, ◌<>◌, Bool, true, false, Option, none, some, if◌then◌else◌}

-- What apimachinery's `IsNotFound` and `IsAlreadyExists` read off an error, also through `%w`.
pub data Reason : Type 0 where
  not_found already_exists other : Reason

pub record Error : Type 0 where
  pub reason : Reason
  pub text : String

-- `fmt.Errorf("…: %w", e)`
pub wrap : String → Error → Error
wrap prefix e = record { reason = e.reason; text = prefix <> e.text }

-- `fmt.Errorf` with no `%w`
pub new_error : String → Error
new_error text = record { reason = other; text = text }

abbrev pub is_not_found : Error → Bool
is_not_found e = elim e.reason [ not_found ↦ true | already_exists ↦ false | other ↦ false ]

abbrev pub is_already_exists : Error → Bool
is_already_exists e = elim e.reason [ not_found ↦ false | already_exists ↦ true | other ↦ false ]

pub data Outcome (A : Type 0) : Type 0 where
  ok : A → Outcome A
  err : Error → Outcome A
  panic : Outcome A

abbrev pub Action : Type 0 → Type 0 → Type 0
Action S A = S → Outcome A × S

module _ {S A : Type 0} where
  abbrev pub pure : A → Action S A
  pure a s = (ok a, s)

  abbrev pub raise : Error → Action S A
  raise e s = (err e, s)

  abbrev pub crash : Action S A
  crash s = (panic, s)

  -- `*p`
  abbrev pub deref : Option A → Action S A
  deref none = crash
  deref (some a) = pure a

module _ {S A B : Type 0} where
  abbrev pub resume : Outcome A → (Error → Action S B) → (A → Action S B) → Action S B
  resume (ok a) h f = f a
  resume (err e) h f = h e
  resume panic h f = crash

  -- `a, err := m; if err != nil { … h … }; … f …`
  abbrev pub attempt : Action S A → (Error → Action S B) → (A → Action S B) → Action S B
  attempt m h f s = let (r, t) = m s in resume r h f t

  -- `if err != nil { return …, err }`
  infixl 5 ◌>>=◌ ◌>>◌
  abbrev pub ◌>>=◌ : Action S A → (A → Action S B) → Action S B
  m >>= f = attempt m raise f

  abbrev pub ◌>>◌ : Action S A → Action S B → Action S B
  m >> k = m >>= λ _. k

  -- `if err != nil { if apierrors.IsNotFound(err) { … absent … }; return …, err }`
  abbrev pub on_not_found : Action S A → Action S B → (A → Action S B) → Action S B
  on_not_found m absent present =
      attempt m (λ e. if is_not_found e then absent else raise e) present

  -- a call deferred to the return of `m`, whose error is dropped
  abbrev pub finally : Action S A → Action S B → Action S A
  finally m last s = let (r, t) = m s in (r, (last t).1)

-- `if p == nil { … a … } else { … f(*p) … }`
abbrev pub maybe : {A B : Type 0} → Option A → B → (A → B) → B
maybe none b f = b
maybe (some a) b f = f a
