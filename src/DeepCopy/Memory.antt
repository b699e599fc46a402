-- ===== src/DeepCopy/Memory.antt =====
-- The memory that Go's pointers, slices and maps lead to: cells that are allocated one after the other.
use live_pod_migration.Base.{
  ℕ, zero, suc, ◌≤◌, ◌≡◌, refl, ap, Option, none, some, List, [], ◌∷◌, ◌++◌, arith, length,
}
use live_pod_migration.Effect.{maybe}

abbrev pub Address : Type 0
Address = ℕ

-- a run on the memory; `none` is a dereference of a pointer that leads nowhere
abbrev pub Step : Type 0 → Type 0 → Type 0
Step C A = List C → Option (A × List C)

abbrev pub pure : {C A : Type 0} → A → Step C A
pure a m = some (a, m)

abbrev pub resume : {C A B : Type 0} → Option (A × List C) → (A → Step C B) → Option (B × List C)
resume none f = none
resume (some (a, m)) f = f a m

infixl 5 ◌>>=◌ ◌>>◌
abbrev pub ◌>>=◌ : {C A B : Type 0} → Step C A → (A → Step C B) → Step C B
◌>>=◌ run f m = resume (run m) f

abbrev pub ◌>>◌ : {C A B : Type 0} → Step C A → Step C B → Step C B
run >> next = run >>= λ _. next

-- how the values of a Go type are kept in a cell
pub record Slot (C A : Type 0) : Type 0 where
  pub put : A → C
  pub take : C → Option A
  pub back : (a : A) → take (put a) ≡ some a

abbrev pub get_elem? : {C : Type 0} → List C → ℕ → Option C
get_elem? [] i = none
get_elem? (c ∷ cs) zero = some c
get_elem? (c ∷ cs) (suc i) = get_elem? cs i

-- what a pointer leads to
unfoldable pub read : {C A : Type 0} → Slot C A → Address → List C → Option A
read slot p m = maybe (get_elem? m p) none slot.take

-- `*p`
unfoldable pub load : {C A : Type 0} → Slot C A → Address → Step C A
unfolding read
load slot p m = maybe (read slot p m) none (λ a. some (a, m))

-- `new`, `make`, with what is then written there
pub alloc : {C A : Type 0} → Slot C A → A → Step C Address
alloc slot a m = some (length m, m ++ slot.put a ∷ [])

-- an assignment through a pointer
abbrev pub write : {C : Type 0} → Address → C → List C → List C
write p c [] = []
write zero c (_ ∷ cs) = c ∷ cs
write (suc p) c (d ∷ cs) = d ∷ write p c cs

-- the cells of the first memory that are not below `n` are in the second as they were
abbrev pub Agree : {C : Type 0} → ℕ → List C → List C → Type 0
Agree n m m' = (p : ℕ) → n ≤ p → (c : _) → get_elem? m p ≡ some c → get_elem? m' p ≡ some c

-- every cell of the first is in the second as it was, which may have more
abbrev pub Extends : {C : Type 0} → List C → List C → Type 0
Extends m m' = Agree 0 m m' × (length m ≤ length m')

-- The run from `m` makes a value. It changes no cell that there was, and the value has the property as
-- long as the cells that it allocated stay, whatever becomes of the older ones.
abbrev pub Made : {C A : Type 0} → List C → Option (A × List C) → (A → List C → Type 0) → Type 0
Made {C} {A} m r Q =
    (a : A) × (m' : List C) × (r ≡ some (a, m'))
    × Extends m m'
    × ((m'' : List C) → Agree (length m) m' m'' → Q a m'')

pub Made-pure :
    {C A : Type 0} (a : A) (m : List C) (Q : A → List C → Type 0)
    → ((m'' : List C) → Agree (length m) m m'' → Q a m'')
    → Made m (pure a m) Q
Made-pure a m Q h = (a, m, refl, ((λ p b c e. e), omega arith), h)

pub Made-bind :
    {C A B : Type 0} (m : List C) (run : Step C A) (f : A → Step C B) (P : A → List C → Type 0)
    (Q : B → List C → Type 0)
    → Made m (run m) P
    → ((a : A) (m₁ : List C) → Extends m m₁ → Made m₁ (f a m₁) (λ b m''. P a m'' → Q b m''))
    → Made m ((run >>= f) m) Q
Made-bind m run f P Q (a, m₁, e, (old, more), p) next =
    let (b, m₂, e', (old', more'), q) = next a m₁ (old, more) in
    (
      b,
      m₂,
      rw e e',
      ((λ i l c h. old' i l c (old i l c h)), omega arith),
      λ m'' kept.
          q m'' (λ i l c h. kept i (omega arith) c h)
            (p m'' (λ i l c h. kept i l c (old' i (omega arith) c h))),
    )

get_elem?-append :
    {C : Type 0} (m n : List C) (p : ℕ) (c : C)
    → get_elem? m p ≡ some c
    → get_elem? (m ++ n) p ≡ some c
get_elem?-append [] n p c e = cc
get_elem?-append (d ∷ m) n zero c e = e
get_elem?-append (d ∷ m) n (suc p) c e = get_elem?-append m n p c e

get_elem?-length : {C : Type 0} (m : List C) (c : C) → get_elem? (m ++ c ∷ []) (length m) ≡ some c
get_elem?-length [] c = refl
get_elem?-length (d ∷ m) c = get_elem?-length m c

length-snoc : {C : Type 0} (m : List C) (c : C) → length (m ++ c ∷ []) ≡ suc (length m)
length-snoc [] c = refl
length-snoc (d ∷ m) c = ap suc (length-snoc m c)

read_held :
    {C A : Type 0} (slot : Slot C A) (p : Address) (m m' : List C) (a : A) (held : Option C)
    → Agree 0 m m'
    → get_elem? m p ≡ held
    → maybe held none slot.take ≡ some a
    → read slot p m' ≡ some a
unfolding read
read_held slot p m m' a none agree there e = cc
read_held slot p m m' a (some c) agree there e = rw (agree p (omega arith) c there) e

pub read-Agree :
    {C A : Type 0} (slot : Slot C A) (p : Address) (m m' : List C) (a : A)
    → Agree 0 m m'
    → read slot p m ≡ some a
    → read slot p m' ≡ some a
unfolding read
read-Agree slot p m m' a agree e = read_held slot p m m' a (get_elem? m p) agree refl e

pub Made-load :
    {C A : Type 0} (slot : Slot C A) (p : Address) (m : List C) (a : A)
    → read slot p m ≡ some a
    → Made m (load slot p m) (λ b m''. b ≡ a)
unfolding load
Made-load slot p m a e = (a, m, rw e refl, ((λ i l c h. h), omega arith), λ m'' kept. refl)

pub Made-alloc :
    {C A : Type 0} (slot : Slot C A) (a : A) (m : List C)
    → Made m (alloc slot a m) (λ p m''. read slot p m'' ≡ some a)
unfolding alloc read
Made-alloc slot a m = (
  length m,
  m ++ slot.put a ∷ [],
  refl,
  (
    (λ i l c h. get_elem?-append m (slot.put a ∷ []) i c h),
    omega (arith, length-snoc m (slot.put a)),
  ),
  λ m'' kept.
      rw (kept (length m) (omega arith) (slot.put a) (get_elem?-length m (slot.put a)))
        (slot.back a),
)
