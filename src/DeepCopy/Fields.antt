-- ===== src/DeepCopy/Fields.antt =====
-- Structs some fields of which are copied one after the other.
use live_pod_migration.Base.{◌≡◌, none, some}
use live_pod_migration.Effect.{maybe}
use live_pod_migration.DeepCopy.Memory.{Step, pure, ◌>>=◌, Made-pure, Made-bind}
use live_pod_migration.DeepCopy.Laws.{Value, IsDeep, maybe-some}

-- a struct with one field that is copied by a function of its own
module _ {C A B1 W1 V : Type 0} (get1 : A → B1) (put : A → B1 → A) (make : A → W1 → V)
    (value1 : Value C B1 W1) (copy1 : B1 → Step C B1) where
  abbrev pub one_value : Value C A V
  one_value a m = maybe (value1 (get1 a) m) none (λ w1. some (make a w1))

  abbrev pub one_copy : A → Step C A
  one_copy a = copy1 (get1 a) >>= λ b1. pure (put a b1)

  pub one-IsDeep :
      ((a : A) (b1 : B1) → get1 (put a b1) ≡ b1)
      → ((a : A) (b1 : B1) (w1 : W1) → make (put a b1) w1 ≡ make a w1)
      → IsDeep value1 copy1
      → IsDeep one_value one_copy
  one-IsDeep got1 made d1 = record {
    stable = λ a m m' v e agree.
        let (w1, h1, e1) = maybe-some (value1 (get1 a) m) _ v e in
        rw (d1.stable (get1 a) m m' w1 h1 agree) (e1);
    deep = λ a m v e.
        let (w1, h1, e1) = maybe-some (value1 (get1 a) m) _ v e in
        Made-bind m (copy1 (get1 a)) (λ b1. pure (put a b1)) (λ b1 m''. value1 b1 m'' ≡ some w1)
          (λ c m''. one_value c m'' ≡ some v) (d1.deep (get1 a) m w1 h1)
          (λ b1 m1 (agree1, _).
            Made-pure _ m1 _ (λ m'' kept k1. rw (got1 a b1) (rw k1 (rw (made a b1 w1) e1))));
  }

-- a struct with two fields that is copied by a function of its own
module _ {C A B1 B2 W1 W2 V : Type 0} (get1 : A → B1) (get2 : A → B2) (put : A → B1 → B2 → A)
    (make : A → W1 → W2 → V) (value1 : Value C B1 W1) (value2 : Value C B2 W2)
    (copy1 : B1 → Step C B1) (copy2 : B2 → Step C B2) where
  abbrev pub two_value : Value C A V
  two_value a m =
      maybe (value1 (get1 a) m) none
        (λ w1. maybe (value2 (get2 a) m) none (λ w2. some (make a w1 w2)))

  abbrev pub two_copy : A → Step C A
  two_copy a = copy1 (get1 a) >>= λ b1. copy2 (get2 a) >>= λ b2. pure (put a b1 b2)

  pub two-IsDeep :
      ((a : A) (b1 : B1) (b2 : B2) → get1 (put a b1 b2) ≡ b1)
      → ((a : A) (b1 : B1) (b2 : B2) → get2 (put a b1 b2) ≡ b2)
      → ((a : A) (b1 : B1) (b2 : B2) (w1 : W1) (w2 : W2) → make (put a b1 b2) w1 w2 ≡ make a w1 w2)
      → IsDeep value1 copy1
      → IsDeep value2 copy2
      → IsDeep two_value two_copy
  two-IsDeep got1 got2 made d1 d2 = record {
    stable = λ a m m' v e agree.
        let (w1, h1, e1) = maybe-some (value1 (get1 a) m) _ v e in
        let (w2, h2, e2) = maybe-some (value2 (get2 a) m) _ v e1 in
        rw (d1.stable (get1 a) m m' w1 h1 agree) (rw (d2.stable (get2 a) m m' w2 h2 agree) (e2));
    deep = λ a m v e.
        let (w1, h1, e1) = maybe-some (value1 (get1 a) m) _ v e in
        let (w2, h2, e2) = maybe-some (value2 (get2 a) m) _ v e1 in
        Made-bind m (copy1 (get1 a)) (λ b1. copy2 (get2 a) >>= λ b2. pure (put a b1 b2))
          (λ b1 m''. value1 b1 m'' ≡ some w1) (λ c m''. two_value c m'' ≡ some v)
          (d1.deep (get1 a) m w1 h1)
          (λ b1 m1 (agree1, _).
            Made-bind m1 (copy2 (get2 a)) (λ b2. pure (put a b1 b2))
              (λ b2 m''. value2 b2 m'' ≡ some w2)
              (λ c m''. value1 b1 m'' ≡ some w1 → two_value c m'' ≡ some v)
              (d2.deep (get2 a) m1 w2 (d2.stable (get2 a) m m1 w2 h2 agree1))
              (λ b2 m2 (agree2, _). Made-pure _ m2 _ (λ m'' kept k2 k1.
                rw (got1 a b1 b2)
                  (rw k1 (rw (got2 a b1 b2) (rw k2 (rw (made a b1 b2 w1 w2) e2)))))));
  }

-- a struct with three fields that is copied by a function of its own
module _ {C A B1 B2 B3 W1 W2 W3 V : Type 0} (get1 : A → B1) (get2 : A → B2) (get3 : A → B3)
    (put : A → B1 → B2 → B3 → A) (make : A → W1 → W2 → W3 → V) (value1 : Value C B1 W1)
    (value2 : Value C B2 W2) (value3 : Value C B3 W3) (copy1 : B1 → Step C B1)
    (copy2 : B2 → Step C B2) (copy3 : B3 → Step C B3) where
  abbrev pub three_value : Value C A V
  three_value a m = maybe (value1 (get1 a) m) none (λ w1.
      maybe (value2 (get2 a) m) none
        (λ w2. maybe (value3 (get3 a) m) none (λ w3. some (make a w1 w2 w3))))

  abbrev pub three_copy : A → Step C A
  three_copy a = copy1 (get1 a) >>= λ b1.
      copy2 (get2 a) >>= λ b2. copy3 (get3 a) >>= λ b3. pure (put a b1 b2 b3)

  pub three-IsDeep :
      ((a : A) (b1 : B1) (b2 : B2) (b3 : B3) → get1 (put a b1 b2 b3) ≡ b1)
      → ((a : A) (b1 : B1) (b2 : B2) (b3 : B3) → get2 (put a b1 b2 b3) ≡ b2)
      → ((a : A) (b1 : B1) (b2 : B2) (b3 : B3) → get3 (put a b1 b2 b3) ≡ b3)
      → ((a : A) (b1 : B1) (b2 : B2) (b3 : B3) (w1 : W1) (w2 : W2) (w3 : W3)
          → make (put a b1 b2 b3) w1 w2 w3 ≡ make a w1 w2 w3)
      → IsDeep value1 copy1
      → IsDeep value2 copy2
      → IsDeep value3 copy3
      → IsDeep three_value three_copy
  three-IsDeep got1 got2 got3 made d1 d2 d3 = record {
    stable = λ a m m' v e agree.
        let (w1, h1, e1) = maybe-some (value1 (get1 a) m) _ v e in
        let (w2, h2, e2) = maybe-some (value2 (get2 a) m) _ v e1 in
        let (w3, h3, e3) = maybe-some (value3 (get3 a) m) _ v e2 in
        rw (d1.stable (get1 a) m m' w1 h1 agree) (
          rw (d2.stable (get2 a) m m' w2 h2 agree) (rw (d3.stable (get3 a) m m' w3 h3 agree) (e3)));
    deep = λ a m v e.
        let (w1, h1, e1) = maybe-some (value1 (get1 a) m) _ v e in
        let (w2, h2, e2) = maybe-some (value2 (get2 a) m) _ v e1 in
        let (w3, h3, e3) = maybe-some (value3 (get3 a) m) _ v e2 in
        Made-bind m (copy1 (get1 a))
          (λ b1. copy2 (get2 a) >>= λ b2. copy3 (get3 a) >>= λ b3. pure (put a b1 b2 b3))
          (λ b1 m''. value1 b1 m'' ≡ some w1) (λ c m''. three_value c m'' ≡ some v)
          (d1.deep (get1 a) m w1 h1)
          (λ b1 m1 (agree1, _).
            Made-bind m1 (copy2 (get2 a)) (λ b2. copy3 (get3 a) >>= λ b3. pure (put a b1 b2 b3))
              (λ b2 m''. value2 b2 m'' ≡ some w2)
              (λ c m''. value1 b1 m'' ≡ some w1 → three_value c m'' ≡ some v)
              (d2.deep (get2 a) m1 w2 (d2.stable (get2 a) m m1 w2 h2 agree1))
              (λ b2 m2 (agree2, _).
                Made-bind m2 (copy3 (get3 a)) (λ b3. pure (put a b1 b2 b3))
                  (λ b3 m''. value3 b3 m'' ≡ some w3)
                  (λ c m''.
                    value2 b2 m'' ≡ some w2 → value1 b1 m'' ≡ some w1 → three_value c m'' ≡ some v)
                  (d3.deep (get3 a) m2 w3
                    (d3.stable (get3 a) m1 m2 w3 (d3.stable (get3 a) m m1 w3 h3 agree1) agree2))
                  (λ b3 m3 (agree3, _). Made-pure _ m3 _ (λ m'' kept k3 k2 k1.
                    rw (got1 a b1 b2 b3) (
                      rw k1 (
                        rw (got2 a b1 b2 b3) (
                          rw k2 (
                            rw (got3 a b1 b2 b3) (rw k3 (rw (made a b1 b2 b3 w1 w2 w3) e3))))))))));
  }
