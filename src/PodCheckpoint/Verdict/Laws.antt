-- ===== src/PodCheckpoint/Verdict/Laws.antt =====
-- What the evaluation of the children decides.
use live_pod_migration.Base.{
  String, ◌≡◌, refl, sym, ◌∙◌, ◌≢◌, ◌↔◌, true, List, [], ◌∷◌, ◌++◌, map, arith, ==_iff,
}
use mathlib.Core.List.{append-nil, append_assoc}
use live_pod_migration.Api.Core.{LocalObjectReference}
use live_pod_migration.Api.Lpm.{CheckpointPhase, ContainerCheckpoint, succeeded, failed}
use live_pod_migration.PodCheckpoint.Verdict.{Tally, count_child, tally_from, tally}

-- the child succeeded and is bound to its content
abbrev IsBoundAt : CheckpointPhase → String → Type 0
IsBoundAt p bound = (p ≡ succeeded) × (bound ≢ "")

abbrev pub AllBound : List ContainerCheckpoint → Type 0
AllBound [] = Unit
AllBound (c ∷ cs) = IsBoundAt c.status.phase c.status.bound_content_name × AllBound cs

abbrev pub NoneFailed : List ContainerCheckpoint → Type 0
NoneFailed [] = Unit
NoneFailed (c ∷ cs) = (c.status.phase ≢ failed) × NoneFailed cs

abbrev pub content_ref : ContainerCheckpoint → LocalObjectReference
content_ref c = record { name = c.status.bound_content_name }

-- one child that did not fail
count_child_done :
    (p : CheckpointPhase) (bound : String) (t : Tally)
    → p ≢ failed
    → ((count_child p bound t).all_done ≡ true) ↔ ((t.all_done ≡ true) × IsBoundAt p bound)
unfolding count_child
count_child_done succeeded bound t h = ground (arith, ==_iff bound "")
count_child_done failed bound t h = absurd (h refl)
count_child_done _ bound t h = ground arith

count_child_succeeded :
    (p : CheckpointPhase) (bound : String) (t : Tally)
    → ((count_child p bound t).all_succeeded ≡ true) ↔ ((t.all_succeeded ≡ true) × (p ≢ failed))
unfolding count_child
count_child_succeeded succeeded bound t = ground arith
count_child_succeeded _ bound t = ground arith

count_child_contents :
    (p : CheckpointPhase) (bound : String) (t : Tally)
    → IsBoundAt p bound
    → (count_child p bound t).contents ≡ t.contents ++ record { name = bound } ∷ []
unfolding count_child
count_child_contents succeeded bound t h = ground (arith, ==_iff bound "")
count_child_contents _ bound t h = cc

tally_from_done :
    (cs : List ContainerCheckpoint) (t : Tally)
    → NoneFailed cs
    → ((tally_from t cs).all_done ≡ true) ↔ ((t.all_done ≡ true) × AllBound cs)
unfolding tally_from
tally_from_done [] t h = (λ e. (e, tt), λ e. e.0)
tally_from_done (c ∷ cs) t (h, hs) =
    let p = c.status.phase in
    let bound = c.status.bound_content_name in
    let one = count_child_done p bound t h in
    let rest = tally_from_done cs (count_child p bound t) hs in
    (
      λ e. let (first, others) = rest.0 e in ((one.0 first).0, ((one.0 first).1, others)),
      λ (e, all). rest.1 (one.1 (e, all.0), all.1),
    )

tally_from_succeeded :
    (cs : List ContainerCheckpoint) (t : Tally)
    → ((tally_from t cs).all_succeeded ≡ true) ↔ ((t.all_succeeded ≡ true) × NoneFailed cs)
unfolding tally_from
tally_from_succeeded [] t = (λ e. (e, tt), λ e. e.0)
tally_from_succeeded (c ∷ cs) t =
    let p = c.status.phase in
    let bound = c.status.bound_content_name in
    let one = count_child_succeeded p bound t in
    let rest = tally_from_succeeded cs (count_child p bound t) in
    (
      λ e. let (first, others) = rest.0 e in ((one.0 first).0, ((one.0 first).1, others)),
      λ (e, all). rest.1 (one.1 (e, all.0), all.1),
    )

tally_from_contents :
    (cs : List ContainerCheckpoint) (t : Tally)
    → AllBound cs
    → (tally_from t cs).contents ≡ t.contents ++ map content_ref cs
unfolding tally_from
tally_from_contents [] t h = sym (append-nil t.contents)
tally_from_contents (c ∷ cs) t (h, hs) =
    tally_from_contents cs (count_child c.status.phase c.status.bound_content_name t) hs
    ∙ rw (count_child_contents c.status.phase c.status.bound_content_name t h, append_assoc)

NoneFailed-of_AllBound : (cs : List ContainerCheckpoint) → AllBound cs → NoneFailed cs
NoneFailed-of_AllBound [] h = tt
NoneFailed-of_AllBound (c ∷ cs) (h, hs) = ((λ e. cc), NoneFailed-of_AllBound cs hs)

pub tally-AllBound :
    (cs : List ContainerCheckpoint)
    → AllBound cs
    → ((tally cs).all_done ≡ true) × ((tally cs).all_succeeded ≡ true)
unfolding tally
tally-AllBound cs all =
    let none_failed = NoneFailed-of_AllBound cs all in
    (
      (tally_from_done cs _ none_failed).1 (refl, all),
      (tally_from_succeeded cs _).1 (refl, none_failed),
    )

-- The evaluation finds a list of children done and without a failure exactly when each of them
-- succeeded and is bound to its content, and then it collects the names of their contents in order.
pub tally_complete :
    (cs : List ContainerCheckpoint)
    → (((tally cs).all_done ≡ true) × ((tally cs).all_succeeded ≡ true))
      ↔ (AllBound cs × ((tally cs).contents ≡ map content_ref cs))
unfolding tally
tally_complete cs = (
  λ (d, s).
      let all = ((tally_from_done cs _ ((tally_from_succeeded cs _).0 s).1).0 d).1 in
      (all, tally_from_contents cs _ all),
  λ (all, _). tally-AllBound cs all,
)

tally_from-append :
    (xs ys : List ContainerCheckpoint) (t : Tally)
    → tally_from t (xs ++ ys) ≡ tally_from (tally_from t xs) ys
unfolding tally_from
tally_from-append [] ys t = refl
tally_from-append (x ∷ xs) ys t =
    tally_from-append xs ys (count_child x.status.phase x.status.bound_content_name t)

count_child_failed :
    (p : CheckpointPhase) (bound : String) (t : Tally)
    → p ≡ failed
    → (count_child p bound t).all_done ≡ true
unfolding count_child
count_child_failed failed bound t e = refl
count_child_failed _ bound t e = cc

tally_from_failure :
    (t : Tally) (ys : List ContainerCheckpoint) (f : ContainerCheckpoint)
    → f.status.phase ≡ failed
    → NoneFailed ys
    → ((tally_from t (f ∷ ys)).all_succeeded ≢ true)
      × (((tally_from t (f ∷ ys)).all_done ≡ true) ↔ AllBound ys)
unfolding tally_from
tally_from_failure t ys f e h =
    let t' = count_child f.status.phase f.status.bound_content_name t in
    let rest = tally_from_done ys t' h in
    (
      λ s. (((tally_from_succeeded (f ∷ ys) t).0 s).1).0 e,
      (
        λ d. (rest.0 d).1,
        λ all. rest.1 (count_child_failed f.status.phase f.status.bound_content_name t e, all),
      ),
    )

-- A list of children whose last failed one is `f` is never taken for a success, and it is found done
-- exactly when every child after `f` succeeded and is bound: the children before `f` play no part.
pub tally_failure :
    (xs ys : List ContainerCheckpoint) (f : ContainerCheckpoint)
    → f.status.phase ≡ failed
    → NoneFailed ys
    → ((tally (xs ++ f ∷ ys)).all_succeeded ≢ true)
      × (((tally (xs ++ f ∷ ys)).all_done ≡ true) ↔ AllBound ys)
unfolding tally
tally_failure xs ys f e h = rw (tally_from-append xs (f ∷ ys) _) (tally_from_failure _ ys f e h)
