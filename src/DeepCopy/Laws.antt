-- ===== src/DeepCopy/Laws.antt =====
-- What a deep copy is, and the copies that the generated functions are put together from.
use live_pod_migration.Base.{◌≡◌, refl, Option, none, some, List, [], ◌∷◌}
use live_pod_migration.Effect.{maybe}
use live_pod_migration.Api.Core.{Time}
use live_pod_migration.DeepCopy.Memory.{
  Address, Step, Slot, pure, ◌>>=◌, read, load, alloc, Agree, Made, Made-pure, Made-bind,
  Made-alloc, read-Agree,
}
use live_pod_migration.DeepCopy.Into.{copy_pointer, copy_each, copy_time_pointer}
use live_pod_migration.DeepCopy.Structs.{Apimachinery}

-- what a Go value is worth in a memory, if its pointers lead somewhere
abbrev pub Value : Type 0 → Type 0 → Type 0 → Type 0
Value C A V = A → List C → Option V

-- the values of the pointee, of the elements, of the time; nil has none
abbrev pub pointed : {C A V : Type 0} → Slot C A → Value C A V → Value C (Option Address) (Option V)
pointed slot value none m = some none
pointed slot value (some p) m =
    maybe (read slot p m) none (λ a. maybe (value a m) none (λ v. some (some v)))

abbrev pub each : {C A V : Type 0} → Value C A V → Value C (List A) (List V)
each value [] m = some []
each value (a ∷ rest) m =
    let vs = each value rest m in maybe (value a m) none (λ v. maybe vs none (λ vs. some (v ∷ vs)))

abbrev pub time_pointed :
    {C M L V : Type 0} → Apimachinery C M L V → Value C (Option Address) (Option Time)
time_pointed api none m = some none
time_pointed api (some p) m = maybe (api.time_value p m) none (λ t. some (some t))

-- The copy of a value is worth what the value is, and stays so while the cells that the copy allocated
-- stay: whatever becomes of the cells of the original. No cell that there was is changed, and what a
-- value is worth does not depend on others.
pub record IsDeep {C A V : Type 0} (value : Value C A V) (copy : A → Step C A) : Type 0 where
  pub stable :
      (a : A) (m m' : List C) (v : V) → value a m ≡ some v → Agree 0 m m' → value a m' ≡ some v
  pub deep :
      (a : A) (m : List C) (v : V)
      → value a m ≡ some v
      → Made m (copy a m) (λ b m''. value b m'' ≡ some v)

-- a value without pointers
pub pure-IsDeep : {C A V : Type 0} (f : A → V) → IsDeep {C = C} (λ a m. some (f a)) pure
pure-IsDeep f = record {
  stable = λ a m m' v e agree. e;
  deep = λ a m v e. Made-pure a m _ (λ m'' kept. e);
}

-- the parts of a value that is read in two steps
pub maybe-some :
    {A B : Type 0} (o : Option A) (f : A → Option B) (b : B)
    → maybe o none f ≡ some b
    → (a : A) × (o ≡ some a) × (f a ≡ some b)
maybe-some none f b e = cc
maybe-some (some a) f b e = (a, refl, e)

module _ {C A V : Type 0} (slot : Slot C A) (value : Value C A V) (into : A → Step C A)
    (d : IsDeep value into) where
  pointed_stable :
      (p : Option Address) (m m' : List C) (v : Option V)
      → pointed slot value p m ≡ some v
      → Agree 0 m m'
      → pointed slot value p m' ≡ some v
  pointed_stable none m m' v e agree = e
  pointed_stable (some p) m m' v e agree =
      let (a, there, e') = maybe-some (read slot p m) _ v e in
      let (u, worth, e'') = maybe-some (value a m) _ v e' in
      rw (read-Agree slot p m m' a agree there) (rw (d.stable a m m' u worth agree) e'')

  pointed_deep :
      (p : Option Address) (m : List C) (v : Option V)
      → pointed slot value p m ≡ some v
      → Made m (copy_pointer slot into p m) (λ b m''. pointed slot value b m'' ≡ some v)
  unfolding copy_pointer load
  pointed_deep none m v e = Made-pure none m _ (λ m'' kept. e)
  pointed_deep (some p) m v e =
      let (a, there, e') = maybe-some (read slot p m) _ v e in
      let (u, worth, e'') = maybe-some (value a m) _ v e' in
      rw there (
        Made-bind m (into a) (λ b. alloc slot b >>= λ q. pure (some q))
          (λ b m''. value b m'' ≡ some u) (λ q m''. pointed slot value q m'' ≡ some v)
          (d.deep a m u worth)
          (λ b m₁ ext₁.
            Made-bind m₁ (alloc slot b) (λ q. pure (some q)) (λ q m''. read slot q m'' ≡ some b)
              (λ q m''. value b m'' ≡ some u → pointed slot value q m'' ≡ some v)
              (Made-alloc slot b m₁)
              (λ q m₂ ext₂.
                Made-pure (some q) m₂ _ (λ m'' kept held worth'. rw held (rw worth' e'')))))

  pub copy_pointer-IsDeep : IsDeep (pointed slot value) (copy_pointer slot into)
  copy_pointer-IsDeep = record { stable = pointed_stable; deep = pointed_deep }

module _ {C A V : Type 0} (value : Value C A V) (into : A → Step C A) (d : IsDeep value into) where
  each_stable :
      (xs : List A) (m m' : List C) (vs : List V)
      → each value xs m ≡ some vs
      → Agree 0 m m'
      → each value xs m' ≡ some vs
  each_stable [] m m' vs e agree = e
  each_stable (a ∷ rest) m m' vs e agree =
      let (v, worth, e') = maybe-some (value a m) _ vs e in
      let (us, worths, e'') = maybe-some (each value rest m) _ vs e' in
      rw (d.stable a m m' v worth agree) (rw (each_stable rest m m' us worths agree) e'')

  each_deep :
      (xs : List A) (m : List C) (vs : List V)
      → each value xs m ≡ some vs
      → Made m (copy_each into xs m) (λ bs m''. each value bs m'' ≡ some vs)
  unfolding copy_each
  each_deep [] m vs e = Made-pure [] m _ (λ m'' kept. e)
  each_deep (a ∷ rest) m vs e =
      let (v, worth, e') = maybe-some (value a m) _ vs e in
      let (us, worths, e'') = maybe-some (each value rest m) _ vs e' in
      Made-bind m (into a) (λ b. copy_each into rest >>= λ bs. pure (b ∷ bs))
        (λ b m''. value b m'' ≡ some v) (λ bs m''. each value bs m'' ≡ some vs) (d.deep a m v worth)
        (λ b m₁ (agree, _).
          Made-bind m₁ (copy_each into rest) (λ bs. pure (b ∷ bs))
            (λ bs m''. each value bs m'' ≡ some us)
            (λ bs m''. value b m'' ≡ some v → each value bs m'' ≡ some vs)
            (each_deep rest m₁ us (each_stable rest m m₁ us worths agree))
            (λ bs m₂ ext₂. Made-pure (b ∷ bs) m₂ _ (λ m'' kept hs h. rw h (rw hs e''))))

  pub copy_each-IsDeep : IsDeep (each value) (copy_each into)
  copy_each-IsDeep = record { stable = each_stable; deep = each_deep }

-- What apimachinery documents of its own: its copies are deep.
pub record CopiesDeeply {C M L V : Type 0} (api : Apimachinery C M L V) : Type 0 where
  pub meta : IsDeep api.meta_value api.copy_meta
  pub list_meta : IsDeep api.list_meta_value api.copy_list_meta
  pub time : IsDeep api.time_value api.copy_time

module _ {C M L V : Type 0} (api : Apimachinery C M L V) (d : CopiesDeeply api) where
  time_stable :
      (p : Option Address) (m m' : List C) (v : Option Time)
      → time_pointed api p m ≡ some v
      → Agree 0 m m'
      → time_pointed api p m' ≡ some v
  time_stable none m m' v e agree = e
  time_stable (some p) m m' v e agree =
      let (t, worth, e') = maybe-some (api.time_value p m) _ v e in
      rw (d.time.stable p m m' t worth agree) e'

  time_deep :
      (p : Option Address) (m : List C) (v : Option Time)
      → time_pointed api p m ≡ some v
      → Made m (copy_time_pointer api p m) (λ b m''. time_pointed api b m'' ≡ some v)
  unfolding copy_time_pointer
  time_deep none m v e = Made-pure none m _ (λ m'' kept. e)
  time_deep (some p) m v e =
      let (t, worth, e') = maybe-some (api.time_value p m) _ v e in
      Made-bind m (api.copy_time p) (λ q. pure (some q)) (λ q m''. api.time_value q m'' ≡ some t)
        (λ q m''. time_pointed api q m'' ≡ some v) (d.time.deep p m t worth)
        (λ q m₁ ext. Made-pure (some q) m₁ _ (λ m'' kept h. rw h e'))

  pub copy_time_pointer-IsDeep : IsDeep (time_pointed api) (copy_time_pointer api)
  copy_time_pointer-IsDeep = record { stable = time_stable; deep = time_deep }
