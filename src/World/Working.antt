-- ===== src/World/Working.antt =====
-- An API server that works for one object, and the rounds of its reconciler.
use mathlib.Core.Path.{subst}
use live_pod_migration.Base.{ℕ, suc, ◌≡◌, sym, ◌∙◌, Option, some, some-injective}
use live_pod_migration.Effect.{Action, ok, pure, ◌>>◌}
use live_pod_migration.Api.Core.{ObjectMeta}

-- What the server does for one object while it answers and nobody else writes that object: `stored` is
-- what it holds. A write from the stored version is made, and answers with the new object.
pub record Works {S O Status : Type 0} (get : Action S O) (update : O → Action S O)
    (meta : O → ObjectMeta) (status : O → Status) (stored : S → Option O) : Type 0 where
  pub read : (o : O) (s : S) → stored s ≡ some o → get s ≡ (ok o, s)
  pub write :
      (o old : O) (s : S)
      → stored s ≡ some old
      → meta o ≡ meta old
      → (a : O) × (s₁ : S) × (update o s ≡ (ok a, s₁))
        × (stored s₁ ≡ some a)
        × (status a ≡ status o)

-- the stored object has the property
abbrev pub Stored : {S O : Type 0} → (S → Option O) → (O → Type 0) → S → Type 0
Stored {S} {O} stored P s = (o : O) × (stored s ≡ some o) × P o

-- what holds of the stored object holds of every object that is stored
pub of_stored : {O : Type 0} (P : O → Type 0) (o : O) → P o → (o' : O) → some o ≡ some o' → P o'
of_stored P o h o' e = subst P (some-injective e) h

-- a status write leaves the property of the status that it writes
pub Works-write :
    {S O Status A : Type 0} {get : Action S O} {update : O → Action S O} {meta : O → ObjectMeta}
    {status : O → Status} {stored : S → Option O} (works : Works get update meta status stored)
    (P : Status → Type 0) (o old : O) (r : A) (s : S)
    → stored s ≡ some old
    → meta o ≡ meta old
    → P (status o)
    → Stored stored (λ x. P (status x)) ((update o >> pure r) s).1
Works-write works P o old r s held same h =
    let (a, s₁, e, now, written) = works.write o old s held same in
    rw e (a, now, subst P (sym written) h)

-- Rounds from `s` on: the others act, without a write of the object, until what the round waits for has
-- come about, and the object is reconciled.
pub data Rounds {S O : Type 0} (run : S → S) (stored : S → Option O) (Waits : ℕ → O → S → Type 0)
    (s : S) : ℕ → S → Type 0 where
  begun : Rounds run stored Waits s 0 s
  round :
      {n : ℕ} {t : S}
      → Rounds run stored Waits s n t
      → (u : S) → stored u ≡ stored t
      → ((o : O) → stored u ≡ some o → Waits n o u)
      → Rounds run stored Waits s (suc n) (run u)

-- what each round brings about
pub Rounds-Stored :
    {S O : Type 0} (run : S → S) (stored : S → Option O) (Waits : ℕ → O → S → Type 0)
    (P : ℕ → O → Type 0) (s t : S) (n : ℕ)
    → ((i : ℕ) (o : O) (u : S)
        → stored u ≡ some o
        → P i o
        → Waits i o u
        → Stored stored (P (suc i)) (run u))
    → Stored stored (P 0) s
    → Rounds run stored Waits s n t
    → Stored stored (P n) t
Rounds-Stored run stored Waits P s t n step start begun = start
Rounds-Stored run stored Waits P s t n step start (round before u same waits) =
    let (o, held, h) = Rounds-Stored run stored Waits P s _ _ step start before in
    step _ o u (same ∙ held) h (waits o (same ∙ held))
